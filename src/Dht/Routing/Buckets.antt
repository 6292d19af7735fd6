-- ===== src/Dht/Routing/Buckets.antt =====
-- One bucket of the routing table: its invariant, and what is found in it.
mod Removal
pub mod Insertion
pub mod Failure
use tortillas.Prelude.{
  ℕ, zero, suc, ◌+◌, ◌-◌, ◌≤◌, ◌<◌, ◌≡◌, ◌≢◌, refl, sym, ap, ◌∙◌, arith, min, Bool, true, false,
  Option, none, some, inl, inr, List, [], ◌∷◌, ◌++◌, length, length-append, All, All-append,
  All-map, ltb, leb, eqb, if◌then◌else◌, list_eqb, list_eqb_iff, nat_eq, Bool-cases, Option-cases,
}
use tortillas.Dht.Id.{NodeId}
use tortillas.Dht.Compact.{Contact}
use tortillas.Dht.Routing.{RoutingEntry, Bucket, has_id, push_back}

-- The entry of an id.
unfoldable pub find : NodeId → Bucket → Option RoutingEntry
find id [] = none
find id (entry ∷ bucket) = if has_id id entry then some entry else find id bucket

abbrev pub fresh : Contact → RoutingEntry
fresh contact = record { contact = contact; failures = 0 }

abbrev pub IsDistinct : Bucket → Type 0
IsDistinct [] = Unit {0}
IsDistinct (entry ∷ bucket) = (find entry.contact.id bucket ≡ none) × IsDistinct bucket

-- An entry whose id passes `P` and that has failed at most once.
abbrev pub IsEntry : (NodeId → Type 0) → RoutingEntry → Type 0
IsEntry P entry = P entry.contact.id × (entry.failures < 2)

-- A bucket of at most `size` entries, no two with one id.
pub record IsBucket (size : ℕ) (P : NodeId → Type 0) (bucket : Bucket) : Type 0 where
  pub fits : length bucket ≤ size
  pub placed : All (IsEntry P) bucket
  pub distinct : IsDistinct bucket

pub has_id_self : (entry : RoutingEntry) → has_id entry.contact.id entry ≡ true
has_id_self entry = (list_eqb_iff entry.contact.id entry.contact.id).1 refl

pub has_id_ne :
    (id : NodeId) (entry : RoutingEntry) → entry.contact.id ≢ id → has_id id entry ≡ false
has_id_ne id entry h = elim (Bool-cases (has_id id entry)) [
  | inl same ↦ absurd (h ((list_eqb_iff entry.contact.id id).0 same))
  | inr other ↦ other
]

pub find-has_id :
    (id : NodeId) (bucket : Bucket) (entry : RoutingEntry)
    → find id bucket ≡ some entry
    → entry.contact.id ≡ id
unfolding find
find-has_id id [] entry h = cc
find-has_id id (e ∷ bucket) entry h =
    ground (arith, find-has_id id bucket entry, list_eqb_iff e.contact.id id)

pub find-push_back-some :
    (id : NodeId) (contact : Contact) (bucket : Bucket) (entry : RoutingEntry)
    → find id bucket ≡ some entry
    → find id (push_back contact bucket) ≡ some entry
unfolding find
find-push_back-some id contact [] entry h = cc
find-push_back-some id contact (e ∷ bucket) entry h =
    ground (arith, find-push_back-some id contact bucket entry)

pub find-push_back-none :
    (id : NodeId) (contact : Contact) (bucket : Bucket)
    → find id bucket ≡ none
    → find id (push_back contact bucket)
      ≡ (if has_id id (fresh contact) then some (fresh contact) else none)
unfolding find
find-push_back-none id contact [] h = refl
find-push_back-none id contact (e ∷ bucket) h =
    ground (arith, find-push_back-none id contact bucket)

pub push_back-IsDistinct :
    (contact : Contact) (bucket : Bucket)
    → find contact.id bucket ≡ none
    → IsDistinct bucket
    → IsDistinct (push_back contact bucket)
unfolding find
push_back-IsDistinct contact [] h d = (refl, tt)
push_back-IsDistinct contact (e ∷ bucket) h (first, d) = (
  ground (
    arith,
    find-push_back-none e.contact.id contact bucket first,
    list_eqb_iff e.contact.id contact.id,
    list_eqb_iff contact.id e.contact.id,
  ),
  push_back-IsDistinct contact bucket (ground arith) d,
)

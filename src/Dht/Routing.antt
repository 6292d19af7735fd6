-- ===== src/Dht/Routing.antt =====
-- dht/routing.rs: the Kademlia routing table. A call whose result is `none` panics: it indexes a
-- bucket that is not there.
pub mod Buckets
pub mod Tables
pub mod Closest
use tortillas.Prelude.{
  ℕ, zero, suc, ◌+◌, ◌-◌, ◌<◌, ◌≡◌, min, Bool, true, false, Option, none, some, List, [], ◌∷◌, ◌++◌,
  length, take, get_elem?, set, replicate, ltb, leb, eqb, if◌then◌else◌, list_eqb, nat_eq, map,
}
use tortillas.Prelude.Sort.{sort_by}
use tortillas.Dht.Id.{NodeId, distance, distance_lt, bucket_index}
use tortillas.Dht.Compact.{Contact}

abbrev pub failure_limit : ℕ
failure_limit = 2

abbrev pub bucket_count : ℕ
bucket_count = 160

pub record RoutingEntry : Type 0 where
  pub contact : Contact
  pub failures : ℕ

abbrev pub Bucket : Type 0
Bucket = List RoutingEntry

pub record RoutingTable : Type 0 where
  pub local_id : NodeId
  pub bucket_size : ℕ
  pub buckets : List Bucket

unfoldable pub new : NodeId → ℕ → RoutingTable
new id size = record { local_id = id; bucket_size = size; buckets = replicate bucket_count [] }

-- `entry.contact.id == id`.
abbrev pub has_id : NodeId → RoutingEntry → Bool
has_id id entry = list_eqb entry.contact.id id

-- `entry.failures > 0`.
abbrev pub is_questionable : RoutingEntry → Bool
is_questionable entry = ltb 0 entry.failures

abbrev pub put_back : RoutingEntry → Option Bucket → Option Bucket
put_back entry none = none
put_back entry (some bucket) = some (entry ∷ bucket)

-- `position` and the `remove` of what it found: nothing, if no entry passes the test.
unfoldable pub remove_first : (RoutingEntry → Bool) → Bucket → Option Bucket
remove_first test [] = none
remove_first test (entry ∷ bucket) =
    let rest = put_back entry (remove_first test bucket) in if test entry then some bucket else rest

-- `push_back` of the contact with no failures.
abbrev pub push_back : Contact → Bucket → Bucket
push_back contact bucket = bucket ++ record { contact = contact; failures = 0 } ∷ []

-- What `insert` does with a bucket that does not hold the id: `none` is a bucket of live nodes.
unfoldable pub make_room : ℕ → Bucket → Option Bucket
make_room size bucket =
    if leb size (length bucket) then remove_first is_questionable bucket else some bucket

unfoldable pub insert_new : Contact → Bucket → Option Bucket → Bool × Bucket
insert_new contact bucket none = (false, bucket)
insert_new contact bucket (some others) = (true, push_back contact others)

unfoldable pub insert_known : ℕ → Contact → Bucket → Option Bucket → Bool × Bucket
insert_known size contact bucket (some others) = (true, push_back contact others)
insert_known size contact bucket none = insert_new contact bucket (make_room size bucket)

-- `insert` on one bucket: whether the contact is in, and the bucket.
unfoldable pub insert_bucket : ℕ → Contact → Bucket → Bool × Bucket
insert_bucket size contact bucket =
    insert_known size contact bucket (remove_first (has_id contact.id) bucket)

-- `self.buckets[index]`, changed.
unfoldable pub update_bucket {ℓ} :
    {A : Type ℓ}
    → (Bucket → A × Bucket)
    → RoutingTable
    → ℕ
    → Option Bucket
    → Option (A × RoutingTable)
update_bucket change t index none = none
update_bucket change t index (some bucket) =
    some ((change bucket).0, record t { buckets = set t.buckets index (change bucket).1 })

unfoldable pub insert_at : RoutingTable → Contact → Option ℕ → Option (Bool × RoutingTable)
insert_at t contact none = some (false, t)
insert_at t contact (some index) =
    update_bucket (insert_bucket t.bucket_size contact) t index (get_elem? t.buckets index)

unfoldable pub insert : RoutingTable → Contact → Option (Bool × RoutingTable)
insert t contact = insert_at t contact (bucket_index (distance t.local_id contact.id))

-- `failures.saturating_add(1)` on a `u8`.
abbrev pub failed : RoutingEntry → RoutingEntry
failed entry = record entry { failures = min (entry.failures + 1) 255 }

-- `record_failure` on one bucket: the first entry with the id fails, and goes at the limit.
unfoldable pub fail_bucket : NodeId → Bucket → Bucket
fail_bucket id [] = []
fail_bucket id (entry ∷ bucket) =
    let others = entry ∷ fail_bucket id bucket in
    if has_id id entry
    then (if leb failure_limit (failed entry).failures then bucket else failed entry ∷ bucket)
    else others

unfoldable pub record_failure_at :
    RoutingTable → NodeId → Option ℕ → Option (Unit {0} × RoutingTable)
record_failure_at t id none = some (tt, t)
record_failure_at t id (some index) =
    update_bucket (λ bucket. (tt, fail_bucket id bucket)) t index (get_elem? t.buckets index)

unfoldable pub record_failure : RoutingTable → NodeId → Option (Unit {0} × RoutingTable)
record_failure t id = record_failure_at t id (bucket_index (distance t.local_id id))

-- `flat_map` over the buckets, and the contacts of the entries.
unfoldable pub contacts_of : List Bucket → List Contact
contacts_of [] = []
contacts_of (bucket ∷ buckets) = map (λ entry. entry.contact) bucket ++ contacts_of buckets

-- Whether `a` is closer to the target than `b`.
unfoldable pub closer : NodeId → Contact → Contact → Bool
closer target a b = distance_lt (distance target a.id) (distance target b.id)

unfoldable pub closest : RoutingTable → NodeId → ℕ → List Contact
closest t target limit = take limit (sort_by (closer target) (contacts_of t.buckets))

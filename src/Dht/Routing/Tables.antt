-- ===== src/Dht/Routing/Tables.antt =====
-- The routing table: its invariant, and the entries of its ids.
pub mod Changes
use tortillas.Prelude.{
  ℕ, ◌+◌, ◌≤◌, ◌<◌, ◌≡◌, ◌≢◌, refl, sym, ap, ◌∙◌, arith, Bool, true, false, Option, none, some, inl,
  inr, List, [], ◌∷◌, length, length-set, length-replicate, get_elem?, set, get_elem?-set_self,
  get_elem?-set_ne, get_elem?-some, get_elem?-replicate, replicate, eqb, eqb_iff, ◌⊎◌, Bool-cases,
  Option-cases, nat_eq,
}
use tortillas.Dht.Id.{NodeId, dht_id_len, distance, bucket_index}
use tortillas.Dht.Routing.{RoutingEntry, RoutingTable, Bucket, bucket_count, new}
use tortillas.Dht.Routing.Buckets.{find, IsBucket}

-- `self.buckets[index]` holds ids at that index from the table's own.
abbrev pub IsAt : NodeId → ℕ → NodeId → Type 0
IsAt own index id = bucket_index (distance own id) ≡ some index

-- A table of 160 buckets, each within its size, with distinct ids that belong there.
pub record IsTable (t : RoutingTable) : Type 0 where
  pub width : length t.local_id ≡ dht_id_len
  pub count : length t.buckets ≡ bucket_count
  pub each :
      (index : ℕ) (bucket : Bucket)
      → get_elem? t.buckets index ≡ some bucket
      → IsBucket t.bucket_size (IsAt t.local_id index) bucket

unfoldable pub entry_in : NodeId → Option Bucket → Option RoutingEntry
entry_in id none = none
entry_in id (some bucket) = find id bucket

unfoldable pub entry_at : RoutingTable → NodeId → Option ℕ → Option RoutingEntry
entry_at t id none = none
entry_at t id (some index) = entry_in id (get_elem? t.buckets index)

-- The entry of an id, where its bucket has it.
unfoldable pub entry_of : RoutingTable → NodeId → Option RoutingEntry
entry_of t id = entry_at t id (bucket_index (distance t.local_id id))

-- The table with one bucket changed.
unfoldable pub with_bucket : RoutingTable → ℕ → Bucket → RoutingTable
with_bucket t index bucket = record t { buckets = set t.buckets index bucket }

-- A new table is well formed.
pub new-IsTable : (id : NodeId) (size : ℕ) → length id ≡ dht_id_len → IsTable (new id size)
unfolding new
new-IsTable id size h = record {
  width = h;
  count = length-replicate {A = Bucket} bucket_count [];
  each = λ index bucket e.
      rw (sym (get_elem?-replicate {A = Bucket} bucket_count index [] bucket e))
        (record { fits = omega arith; placed = tt; distinct = tt });
}

pub entry_of-none :
    (t : RoutingTable) (id : NodeId)
    → bucket_index (distance t.local_id id) ≡ none
    → entry_of t id ≡ none
unfolding entry_of entry_at
entry_of-none t id h = rw h refl

module _ (t : RoutingTable) (index : ℕ) (old bucket : Bucket)
    (at : get_elem? t.buckets index ≡ some old) where
  pub with_bucket-IsTable :
      IsTable t
      → IsBucket t.bucket_size (IsAt t.local_id index) bucket
      → IsTable (with_bucket t index bucket)
  unfolding with_bucket
  with_bucket-IsTable w b = record {
    width = w.width;
    count = length-set t.buckets index bucket ∙ w.count;
    each = λ i other e. elim (Bool-cases (eqb index i)) [
      | inl same ↦
          let i_eq = (eqb_iff index i).0 same in
          let s =
            get_elem?-set_self t.buckets index bucket (get_elem?-some t.buckets index old at) in
          let bucket_eq : bucket ≡ other = cc in rw (sym i_eq) (rw (sym bucket_eq) b)
      | inr differs ↦
          w.each i other (sym (get_elem?-set_ne t.buckets bucket (λ h. ground arith)) ∙ e)
    ];
  }

  pub entry_of-with_bucket_at :
      (id : NodeId)
      → IsAt t.local_id index id
      → entry_of (with_bucket t index bucket) id ≡ find id bucket
  unfolding entry_of entry_at entry_in with_bucket
  entry_of-with_bucket_at id h =
      rw h (
        rw (get_elem?-set_self t.buckets index bucket (get_elem?-some t.buckets index old at)) refl)

  pub entry_of_at : (id : NodeId) → IsAt t.local_id index id → entry_of t id ≡ find id old
  unfolding entry_of entry_at entry_in
  entry_of_at id h = rw h (rw at refl)

  entry_of-with_bucket_ne :
      (id : NodeId) (i : ℕ)
      → IsAt t.local_id i id
      → index ≢ i
      → entry_of (with_bucket t index bucket) id ≡ entry_of t id
  unfolding entry_of entry_at entry_in with_bucket
  entry_of-with_bucket_ne id i h n = rw h (rw (get_elem?-set_ne t.buckets bucket n) refl)

  entry_of-with_bucket-none :
      (id : NodeId)
      → bucket_index (distance t.local_id id) ≡ none
      → entry_of (with_bucket t index bucket) id ≡ entry_of t id
  unfolding entry_of entry_at with_bucket
  entry_of-with_bucket-none id h = rw h refl

  -- What is found of an id changes as in the bucket that changes.
  pub entry_of-with_bucket :
      (id : NodeId)
      → (IsAt t.local_id index id
          × (entry_of t id ≡ find id old)
          × (entry_of (with_bucket t index bucket) id ≡ find id bucket))
        ⊎ (entry_of (with_bucket t index bucket) id ≡ entry_of t id)
  entry_of-with_bucket id = elim (Option-cases (bucket_index (distance t.local_id id))) [
    | inl h ↦ inr (entry_of-with_bucket-none id h)
    | inr (i, h) ↦ elim (Bool-cases (eqb index i)) [
      | inl same ↦
          let h' : IsAt t.local_id index id = rw ((eqb_iff index i).0 same) h in
          inl (h', entry_of_at id h', entry_of-with_bucket_at id h')
      | inr differs ↦ inr (entry_of-with_bucket_ne id i h (λ e. ground arith))
    ]
  ]

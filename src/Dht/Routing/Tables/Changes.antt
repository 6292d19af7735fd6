-- ===== src/Dht/Routing/Tables/Changes.antt =====
-- `insert` and `record_failure` on the routing table.
use tortillas.Prelude.{
  ℕ, ◌≡◌, ◌≢◌, refl, sym, ◌∙◌, arith, Bool, false, Option, none, some, inl, inr, length, get_elem?,
  get_elem?-lt, All, All-map, Option-cases, nat_eq, ◌⊎◌, if◌then◌else◌,
}
use tortillas.Dht.Id.{NodeId, dht_id_len, distance, bucket_index}
use tortillas.Dht.Id.Laws.{bucket_index-lt, length-distance}
use tortillas.Dht.Compact.{Contact}
use tortillas.Dht.Routing.{
  RoutingEntry, RoutingTable, Bucket, update_bucket, insert_bucket, insert_at, insert, fail_bucket,
  record_failure_at, record_failure,
}
use tortillas.Dht.Routing.Buckets.{fresh}
use tortillas.Dht.Routing.Buckets.Insertion.{IsInserted, insert_bucket-IsInserted}
use tortillas.Dht.Routing.Buckets.Failure.{
  after_failure, find-fail_bucket, find-fail_bucket_other, fail_bucket-IsBucket,
}
use tortillas.Dht.Routing.Tables.{
  IsAt, IsTable, entry_of, entry_of-none, with_bucket, with_bucket-IsTable, entry_of_at,
  entry_of-with_bucket, entry_of-with_bucket_at,
}

-- The bucket of an id that is not the table's own is there.
bucket_of :
    (t : RoutingTable) (id : NodeId) (index : ℕ)
    → IsTable t
    → length id ≡ dht_id_len
    → IsAt t.local_id index id
    → (bucket : Bucket) × (get_elem? t.buckets index ≡ some bucket)
bucket_of t id index w l h = get_elem?-lt t.buckets index (
    omega (
      arith,
      w.count,
      bucket_index-lt (distance t.local_id id) index
          (omega (arith, length-distance t.local_id id (w.width ∙ sym l), w.width)) h,
    ))

-- An insertion into a well-formed table does not panic: it refuses the table's own id, or it changes
-- the bucket of the id.
insert-cases :
    (t : RoutingTable) (contact : Contact)
    → IsTable t
    → length contact.id ≡ dht_id_len
    → ((bucket_index (distance t.local_id contact.id) ≡ none)
        × (insert t contact ≡ some (false, t)))
      ⊎ ((index : ℕ) × (bucket : Bucket) × IsAt t.local_id index contact.id
          × (get_elem? t.buckets index ≡ some bucket)
          × (insert t contact
              ≡ some (
                (insert_bucket t.bucket_size contact bucket).0,
                with_bucket t index (insert_bucket t.bucket_size contact bucket).1,
              )))
unfolding insert insert_at update_bucket with_bucket
insert-cases t contact w l = elim (Option-cases (bucket_index (distance t.local_id contact.id))) [
  | inl h ↦ inl (h, rw h refl)
  | inr (index, h) ↦
      let (bucket, at) = bucket_of t contact.id index w l h in
      inr (index, bucket, h, at, rw h (rw at refl))
]

changed :
    (t : RoutingTable) (contact : Contact) (index : ℕ) (bucket : Bucket)
    → IsTable t
    → IsAt t.local_id index contact.id
    → get_elem? t.buckets index ≡ some bucket
    → IsInserted t.bucket_size
        (IsAt t.local_id index)
        contact
        bucket
        (insert_bucket t.bucket_size contact bucket)
changed t contact index bucket w h at =
    insert_bucket-IsInserted t.bucket_size (IsAt t.local_id index) contact h bucket
      (w.each index bucket at)

-- The values that a call returns are one.
returned {ℓ} :
    {A : Type ℓ} (o : Option (A × RoutingTable)) (a b : A) (u v : RoutingTable)
    → o ≡ some (a, u)
    → o ≡ some (b, v)
    → (a ≡ b) × (u ≡ v)
returned o a b u v h k = (cc, cc)

-- An insertion of a contact into a well-formed table does not panic, and leaves a well-formed table.
pub insert-IsTable :
    (t : RoutingTable) (contact : Contact)
    → IsTable t
    → length contact.id ≡ dht_id_len
    → (added : Bool) × (after : RoutingTable) × (insert t contact ≡ some (added, after))
      × IsTable after
insert-IsTable t contact w l = elim (insert-cases t contact w l) [
  | inl (h, r) ↦ (false, t, r, w)
  | inr (index, bucket, h, at, r) ↦
      let done = insert_bucket t.bucket_size contact bucket in
      let i = changed t contact index bucket w h at in
      (
        done.0,
        with_bucket t index done.1,
        r,
        with_bucket-IsTable t index bucket done.1 at w i.keeps,
      )
]

-- After an insertion that succeeds, the table has the contact with no failures; after one that is
-- refused, it has no entry of the contact's id.
insert-entry_of :
    (t : RoutingTable) (contact : Contact) (added : Bool) (after : RoutingTable)
    → IsTable t
    → length contact.id ≡ dht_id_len
    → insert t contact ≡ some (added, after)
    → entry_of after contact.id ≡ (if added then some (fresh contact) else none)
insert-entry_of t contact added after w l eq = elim (insert-cases t contact w l) [
  | inl (h, r) ↦
      let (a, u) = returned (insert t contact) added false after t eq r in
      rw a (rw u (entry_of-none t contact.id h))
  | inr (index, bucket, h, at, r) ↦
      let done = insert_bucket t.bucket_size contact bucket in
      let i = changed t contact index bucket w h at in
      let (a, u) =
        returned (insert t contact) added done.0 after (with_bucket t index done.1) eq r in
      rw a (rw u (rw (entry_of-with_bucket_at t index bucket done.1 at contact.id h) i.found))
]

-- An insertion is refused only for the table's own id, or where the bucket of the contact's id is full
-- of entries none of which has failed.
insert-refused :
    (t : RoutingTable) (contact : Contact) (after : RoutingTable)
    → IsTable t
    → length contact.id ≡ dht_id_len
    → insert t contact ≡ some (false, after)
    → (bucket_index (distance t.local_id contact.id) ≡ none)
      ⊎ ((index : ℕ) × (bucket : Bucket) × IsAt t.local_id index contact.id
          × (get_elem? t.buckets index ≡ some bucket)
          × (length bucket ≡ t.bucket_size)
          × All (λ e. e.failures ≡ 0) bucket)
insert-refused t contact after w l eq = elim (insert-cases t contact w l) [
  | inl (h, r) ↦ inl h
  | inr (index, bucket, h, at, r) ↦
      let done = insert_bucket t.bucket_size contact bucket in
      let i = changed t contact index bucket w h at in
      let (a, u) =
        returned (insert t contact) false done.0 after (with_bucket t index done.1) eq r in
      let (full, live) = i.refused (sym a) in inr (index, bucket, h, at, full, live)
]

-- An insertion, whether it succeeds or not, leaves every other entry that has not failed.
insert-entry_of_other :
    (t : RoutingTable) (contact : Contact) (added : Bool) (after : RoutingTable) (id : NodeId)
    (entry : RoutingEntry)
    → IsTable t
    → length contact.id ≡ dht_id_len
    → insert t contact ≡ some (added, after)
    → contact.id ≢ id
    → entry.failures ≡ 0
    → entry_of t id ≡ some entry
    → entry_of after id ≡ some entry
insert-entry_of_other t contact added after id entry w l eq other live has =
    elim (insert-cases t contact w l) [
      | inl (h, r) ↦ let (a, u) = returned (insert t contact) added false after t eq r in rw u has
      | inr (index, bucket, h, at, r) ↦
          let done = insert_bucket t.bucket_size contact bucket in
          let i = changed t contact index bucket w h at in
          let (a, u) =
            returned (insert t contact) added done.0 after (with_bucket t index done.1) eq r in
          rw u (elim (entry_of-with_bucket t index bucket done.1 at id) [
            | inl (_, before, then_) ↦ then_ ∙ i.live id entry other live (sym before ∙ has)
            | inr same ↦ same ∙ has
          ])
    ]

-- A failure of an id in a well-formed table does not panic and leaves a well-formed table, in which
-- the first failure of an entry is counted, the second has taken it out, and no other entry changes.
pub record_failure_lem :
    (t : RoutingTable) (id other : NodeId)
    → IsTable t
    → length id ≡ dht_id_len
    → id ≢ other
    → (after : RoutingTable) × (record_failure t id ≡ some (tt, after))
      × IsTable after
      × (entry_of after id ≡ after_failure (entry_of t id))
      × (entry_of after other ≡ entry_of t other)
unfolding record_failure record_failure_at update_bucket with_bucket
record_failure_lem t id other w l n = elim (Option-cases (bucket_index (distance t.local_id id))) [
  | inl h ↦ (t, rw h refl, w, rw (entry_of-none t id h) refl, refl)
  | inr (index, h) ↦
      let (bucket, at) = bucket_of t id index w l h in
      let b = w.each index bucket at in
      let failed = fail_bucket id bucket in
      (
        with_bucket t index failed,
        rw h (rw at refl),
        with_bucket-IsTable t index bucket failed at w
            (fail_bucket-IsBucket t.bucket_size (IsAt t.local_id index) id bucket b),
        rw (entry_of-with_bucket_at t index bucket failed at id h) (
            rw (entry_of_at t index bucket failed at id h)
              (find-fail_bucket id bucket b.distinct (All-map _ _ bucket (λ e q. q.1) b.placed))),
        elim (entry_of-with_bucket t index bucket failed at other) [
          | inl (_, before, then_) ↦ then_ ∙ find-fail_bucket_other id other bucket n ∙ sym before
          | inr same ↦ same
        ],
      )
]

-- ===== src/Dht/Routing/Buckets/Insertion.antt =====
-- `insert` on a bucket.
use tortillas.Prelude.{
  ℕ, ◌<◌, ◌≡◌, ◌≢◌, sym, ◌∙◌, arith, Bool, true, false, none, some, inl, inr, [], ◌∷◌, length,
  length-append, All, All-append, All-map, if◌then◌else◌, leb, nat_eq, Bool-cases, Option-cases,
}
use tortillas.Dht.Id.{NodeId}
use tortillas.Dht.Compact.{Contact}
use tortillas.Dht.Routing.{
  RoutingEntry, Bucket, has_id, is_questionable, remove_first, push_back, make_room, insert_new,
  insert_known, insert_bucket,
}
use tortillas.Dht.Routing.Buckets.{
  find, fresh, IsEntry, IsBucket, has_id_self, has_id_ne, find-has_id, find-push_back-some,
  find-push_back-none, push_back-IsDistinct,
}
use tortillas.Dht.Routing.Buckets.Removal.{
  length-remove_first, remove_first-All, find-remove_first_live, find-remove_first-none,
  remove_first-IsDistinct, remove_first-none, find-remove_first_self, find-of_none,
}

-- What an insertion of a contact makes of a bucket, with its result. The contact is in, or has no
-- entry and the bucket was full of live ones; and a live entry of another id stays.
pub record IsInserted (size : ℕ) (P : NodeId → Type 0) (contact : Contact) (bucket : Bucket)
    (r : Bool × Bucket) : Type 0 where
  pub keeps : IsBucket size P r.1
  pub found : find contact.id r.1 ≡ (if r.0 then some (fresh contact) else none)
  pub refused : r.0 ≡ false → (length bucket ≡ size) × All (λ e. e.failures ≡ 0) bucket
  pub live :
      (id : NodeId) (entry : RoutingEntry)
      → contact.id ≢ id
      → entry.failures ≡ 0
      → find id bucket ≡ some entry
      → find id r.1 ≡ some entry

module _ (size : ℕ) (P : NodeId → Type 0) (contact : Contact) (good : P contact.id) where
  -- A bucket with room for the contact, which it does not hold.
  push_back-IsInserted :
      (bucket others : Bucket)
      → IsBucket size P others
      → length others < size
      → find contact.id others ≡ none
      → ((id : NodeId) (entry : RoutingEntry)
          → contact.id ≢ id
          → entry.failures ≡ 0
          → find id bucket ≡ some entry
          → find id others ≡ some entry)
      → IsInserted size P contact bucket (true, push_back contact others)
  push_back-IsInserted bucket others b room missing stays = record {
    keeps = record {
      fits = omega (arith, length-append others (fresh contact ∷ []));
      placed =
          All-append (IsEntry P) others (fresh contact ∷ []) b.placed ((good, omega arith), tt);
      distinct = push_back-IsDistinct contact others missing b.distinct;
    };
    found =
        ground (
          arith,
          find-push_back-none contact.id contact others missing,
          has_id_self (fresh contact),
        );
    refused = λ h. cc;
    live = λ id entry other h f.
        find-push_back-some id contact others entry (stays id entry other h f);
  }

  removed :
      (test : RoutingEntry → Bool) (bucket others : Bucket)
      → remove_first test bucket ≡ some others
      → IsBucket size P bucket
      → IsBucket size P others
  removed test bucket others h b = record {
    fits = omega (arith, length-remove_first test bucket others h, b.fits);
    placed = remove_first-All test (IsEntry P) bucket others h b.placed;
    distinct = remove_first-IsDistinct test bucket others h b.distinct;
  }

  insert_known-IsInserted :
      (bucket others : Bucket)
      → IsBucket size P bucket
      → remove_first (has_id contact.id) bucket ≡ some others
      → IsInserted size P contact bucket (true, push_back contact others)
  insert_known-IsInserted bucket others b h =
      push_back-IsInserted bucket others (removed (has_id contact.id) bucket others h b)
        (omega (arith, length-remove_first (has_id contact.id) bucket others h, b.fits))
        (find-remove_first_self contact.id bucket others h b.distinct)
        (λ id entry other _ f.
          find-remove_first_live (has_id contact.id) bucket others id entry h
            (has_id_ne contact.id entry (λ e. other (sym e ∙ find-has_id id bucket entry f))) f)

  insert_questionable-IsInserted :
      (bucket others : Bucket)
      → IsBucket size P bucket
      → find contact.id bucket ≡ none
      → remove_first is_questionable bucket ≡ some others
      → IsInserted size P contact bucket (true, push_back contact others)
  insert_questionable-IsInserted bucket others b missing h =
      push_back-IsInserted bucket others (removed is_questionable bucket others h b)
        (omega (arith, length-remove_first is_questionable bucket others h, b.fits))
        (find-remove_first-none is_questionable bucket others contact.id h missing)
        (λ id entry _ live f.
          find-remove_first_live is_questionable bucket others id entry h (ground arith) f)

  insert_refused :
      (bucket : Bucket)
      → IsBucket size P bucket
      → find contact.id bucket ≡ none
      → length bucket ≡ size
      → remove_first is_questionable bucket ≡ none
      → IsInserted size P contact bucket (false, bucket)
  insert_refused bucket b missing full h = record {
    keeps = b;
    found = missing;
    refused = λ _. (
      full,
      All-map _ _ bucket (λ e q. ground arith) (remove_first-none is_questionable bucket h),
    );
    live = λ _ _ _ _ f. f;
  }

  insert_new-IsInserted :
      (bucket : Bucket)
      → IsBucket size P bucket
      → find contact.id bucket ≡ none
      → IsInserted size P contact bucket (insert_new contact bucket (make_room size bucket))
  unfolding insert_new make_room
  insert_new-IsInserted bucket b missing = elim (Bool-cases (leb size (length bucket))) [
    | inl full ↦ rw full (elim (Option-cases (remove_first is_questionable bucket)) [
      | inl live ↦ rw live (insert_refused bucket b missing (ground (arith, b.fits)) live)
      | inr (others, h) ↦ rw h (insert_questionable-IsInserted bucket others b missing h)
    ])
    | inr room ↦
        rw room
          (push_back-IsInserted bucket bucket b (ground (arith, b.fits)) missing (λ _ _ _ _ f. f))
  ]

  -- An insertion keeps the invariant of the bucket. Where it succeeds the contact is found with no
  -- failures, and where it does not the bucket was full of live entries; live entries of other ids
  -- stay.
  pub insert_bucket-IsInserted :
      (bucket : Bucket)
      → IsBucket size P bucket
      → IsInserted size P contact bucket (insert_bucket size contact bucket)
  unfolding insert_bucket insert_known
  insert_bucket-IsInserted bucket b =
      elim (Option-cases (remove_first (has_id contact.id) bucket)) [
        | inl h ↦ rw h (insert_new-IsInserted bucket b (find-of_none contact.id bucket h))
        | inr (others, h) ↦ rw h (insert_known-IsInserted bucket others b h)
      ]

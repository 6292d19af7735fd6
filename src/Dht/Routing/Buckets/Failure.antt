-- ===== src/Dht/Routing/Buckets/Failure.antt =====
-- `record_failure` on a bucket.
use tortillas.Prelude.{
  ℕ, ◌+◌, ◌≤◌, ◌<◌, ◌≡◌, ◌≢◌, refl, sym, ap, ◌∙◌, arith, Option, none, some, inl, inr, min, [], ◌∷◌,
  length, All, if◌then◌else◌, ltb, leb, list_eqb_iff, nat_eq, Bool-cases,
}
use tortillas.Dht.Id.{NodeId}
use tortillas.Dht.Routing.{RoutingEntry, Bucket, has_id, failure_limit, failed, fail_bucket}
use tortillas.Dht.Routing.Buckets.{find, IsDistinct, IsEntry, IsBucket}

-- What a failure makes of the entry of an id: it counts up to two, which take the entry out.
abbrev pub after_failure : Option RoutingEntry → Option RoutingEntry
after_failure none = none
after_failure (some entry) =
    if ltb (entry.failures + 1) 2
    then some (record entry { failures = entry.failures + 1 })
    else none

pub find-fail_bucket_other :
    (id j : NodeId) (bucket : Bucket) → id ≢ j → find j (fail_bucket id bucket) ≡ find j bucket
unfolding fail_bucket find
find-fail_bucket_other id j [] other = refl
find-fail_bucket_other id j (e ∷ bucket) other = ground (
  arith,
  find-fail_bucket_other id j bucket other,
  list_eqb_iff e.contact.id id,
  list_eqb_iff e.contact.id j,
)

pub find-fail_bucket :
    (id : NodeId) (bucket : Bucket)
    → IsDistinct bucket
    → All (λ e. e.failures < 2) bucket
    → find id (fail_bucket id bucket) ≡ after_failure (find id bucket)
unfolding fail_bucket find
find-fail_bucket id [] d h = refl
find-fail_bucket id (e ∷ bucket) (first, d) (h, hs) = elim (Bool-cases (has_id id e)) [
  | inl same ↦
      let m : min (e.failures + 1) 255 ≡ e.failures + 1 = omega arith in
      let gone : find id bucket ≡ none =
        sym (ap (λ i. find i bucket) ((list_eqb_iff e.contact.id id).0 same)) ∙ first in
      rw same (rw m (ground arith))
  | inr other ↦ rw other (rw other (find-fail_bucket id bucket d hs))
]

find-fail_bucket-none :
    (id j : NodeId) (bucket : Bucket) → find j bucket ≡ none → find j (fail_bucket id bucket) ≡ none
unfolding fail_bucket find
find-fail_bucket-none id j [] h = refl
find-fail_bucket-none id j (e ∷ bucket) h = ground (arith, find-fail_bucket-none id j bucket)

length-fail_bucket :
    (id : NodeId) (bucket : Bucket) → length (fail_bucket id bucket) ≤ length bucket
unfolding fail_bucket
length-fail_bucket id [] = omega arith
length-fail_bucket id (e ∷ bucket) = ground (arith, length-fail_bucket id bucket)

fail_bucket-All :
    (id : NodeId) (P : NodeId → Type 0) (bucket : Bucket)
    → All (IsEntry P) bucket
    → All (IsEntry P) (fail_bucket id bucket)
unfolding fail_bucket
fail_bucket-All id P [] h = tt
fail_bucket-All id P (e ∷ bucket) (h, hs) = elim (Bool-cases (has_id id e)) [
  | inl same ↦ rw same (elim (Bool-cases (leb failure_limit (failed e).failures)) [
    | inl last ↦ rw last hs
    | inr again ↦ rw again ((h.0, ground arith), hs)
  ])
  | inr other ↦ rw other (h, fail_bucket-All id P bucket hs)
]

fail_bucket-IsDistinct :
    (id : NodeId) (bucket : Bucket) → IsDistinct bucket → IsDistinct (fail_bucket id bucket)
unfolding fail_bucket
fail_bucket-IsDistinct id [] d = tt
fail_bucket-IsDistinct id (e ∷ bucket) (first, d) = elim (Bool-cases (has_id id e)) [
  | inl same ↦ rw same (elim (Bool-cases (leb failure_limit (failed e).failures)) [
    | inl last ↦ rw last d
    | inr again ↦ rw again (first, d)
  ])
  | inr other ↦
      rw other
        (find-fail_bucket-none id e.contact.id bucket first, fail_bucket-IsDistinct id bucket d)
]

pub fail_bucket-IsBucket :
    (size : ℕ) (P : NodeId → Type 0) (id : NodeId) (bucket : Bucket)
    → IsBucket size P bucket
    → IsBucket size P (fail_bucket id bucket)
fail_bucket-IsBucket size P id bucket b = record {
  fits = omega (arith, length-fail_bucket id bucket, b.fits);
  placed = fail_bucket-All id P bucket b.placed;
  distinct = fail_bucket-IsDistinct id bucket b.distinct;
}

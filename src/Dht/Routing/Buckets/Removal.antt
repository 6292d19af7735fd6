-- ===== src/Dht/Routing/Buckets/Removal.antt =====
-- `position` and `remove` on a bucket.
use tortillas.Prelude.{
  ◌+◌, ◌≡◌, refl, sym, ap, ◌∙◌, arith, Bool, true, false, Option, none, some, inl, inr, ◌⊎◌, [],
  ◌∷◌, length, All, list_eqb_iff, nat_eq, Bool-cases, Option-cases,
}
use tortillas.Dht.Id.{NodeId}
use tortillas.Dht.Routing.{RoutingEntry, Bucket, has_id, put_back, remove_first}
use tortillas.Dht.Routing.Buckets.{find, IsDistinct}

put_back-some :
    (e : RoutingEntry) (o : Option Bucket) (rest : Bucket)
    → put_back e o ≡ some rest
    → (others : Bucket) × (o ≡ some others) × (e ∷ others ≡ rest)
put_back-some e none rest h = cc
put_back-some e (some others) rest h = (others, refl, cc)

module _ (test : RoutingEntry → Bool) where
  -- Where something is taken out of a bucket, it is the first entry or one of the others.
  remove_first-cases :
      (e : RoutingEntry) (bucket rest : Bucket)
      → remove_first test (e ∷ bucket) ≡ some rest
      → ((test e ≡ true) × (bucket ≡ rest))
        ⊎ ((test e ≡ false)
            × ((others : Bucket) × (remove_first test bucket ≡ some others) × (e ∷ others ≡ rest)))
  unfolding remove_first
  remove_first-cases e bucket rest h = elim (Bool-cases (test e)) [
    | inl t ↦ inl (t, ground arith)
    | inr f ↦ inr (f, put_back-some e (remove_first test bucket) rest (ground arith))
  ]

  pub length-remove_first :
      (bucket rest : Bucket)
      → remove_first test bucket ≡ some rest
      → length bucket ≡ length rest + 1
  unfolding remove_first
  length-remove_first [] rest h = cc
  length-remove_first (e ∷ bucket) rest h = elim (remove_first-cases e bucket rest h) [
    | inl (t, same) ↦ omega (arith, ap length same)
    | inr (f, (others, r, same)) ↦
        omega (arith, ap length same, length-remove_first bucket others r)
  ]

  pub remove_first-All {κ} :
      (P : RoutingEntry → Type κ) (bucket rest : Bucket)
      → remove_first test bucket ≡ some rest
      → All P bucket
      → All P rest
  unfolding remove_first
  remove_first-All P [] rest h all = cc
  remove_first-All P (e ∷ bucket) rest h (first, all) = elim (remove_first-cases e bucket rest h) [
    | inl (t, same) ↦ rw (sym same) all
    | inr (f, (others, r, same)) ↦ rw (sym same) (first, remove_first-All P bucket others r all)
  ]

  -- A live entry is not taken out.
  pub find-remove_first_live :
      (bucket rest : Bucket) (id : NodeId) (entry : RoutingEntry)
      → remove_first test bucket ≡ some rest
      → test entry ≡ false
      → find id bucket ≡ some entry
      → find id rest ≡ some entry
  unfolding remove_first find
  find-remove_first_live [] rest id entry h live f = cc
  find-remove_first_live (e ∷ bucket) rest id entry h live f =
      elim (remove_first-cases e bucket rest h) [
        | inl (t, same) ↦ ground arith
        | inr (_, (others, r, same)) ↦
            rw (sym same) (ground (arith, find-remove_first_live bucket others id entry r live))
      ]

  pub find-remove_first-none :
      (bucket rest : Bucket) (id : NodeId)
      → remove_first test bucket ≡ some rest
      → find id bucket ≡ none
      → find id rest ≡ none
  unfolding remove_first find
  find-remove_first-none [] rest id h f = cc
  find-remove_first-none (e ∷ bucket) rest id h f = elim (remove_first-cases e bucket rest h) [
    | inl (t, same) ↦ rw (sym same) (ground arith)
    | inr (_, (others, r, same)) ↦
        rw (sym same) (ground (arith, find-remove_first-none bucket others id r))
  ]

  pub remove_first-IsDistinct :
      (bucket rest : Bucket)
      → remove_first test bucket ≡ some rest
      → IsDistinct bucket
      → IsDistinct rest
  unfolding remove_first
  remove_first-IsDistinct [] rest h d = cc
  remove_first-IsDistinct (e ∷ bucket) rest h (first, d) =
      elim (remove_first-cases e bucket rest h) [
        | inl (t, same) ↦ rw (sym same) d
        | inr (_, (others, r, same)) ↦ rw (sym same) (
          find-remove_first-none bucket others e.contact.id r first,
          remove_first-IsDistinct bucket others r d,
        )
      ]

  -- Where nothing is taken out, no entry passes the test.
  pub remove_first-none :
      (bucket : Bucket) → remove_first test bucket ≡ none → All (λ e. test e ≡ false) bucket
  unfolding remove_first
  remove_first-none [] h = tt
  remove_first-none (e ∷ bucket) h = elim (Bool-cases (test e)) [
    | inl t ↦ absurd (ground arith)
    | inr f ↦ (
      f,
      elim (Option-cases (remove_first test bucket)) [
        | inl n ↦ remove_first-none bucket n
        | inr (others, s) ↦ absurd (ground arith)
      ],
    )
  ]

-- Without the first entry of an id, a bucket has none.
pub find-remove_first_self :
    (id : NodeId) (bucket rest : Bucket)
    → remove_first (has_id id) bucket ≡ some rest
    → IsDistinct bucket
    → find id rest ≡ none
unfolding remove_first find
find-remove_first_self id [] rest h d = cc
find-remove_first_self id (e ∷ bucket) rest h (first, d) =
    elim (remove_first-cases (has_id id) e bucket rest h) [
      | inl (t, same) ↦
          rw (sym same) (sym (ap (λ i. find i bucket) ((list_eqb_iff e.contact.id id).0 t)) ∙ first)
      | inr (f, (others, r, same)) ↦
          rw (sym same) (ground (arith, find-remove_first_self id bucket others r d))
    ]

pub find-of_none :
    (id : NodeId) (bucket : Bucket) → remove_first (has_id id) bucket ≡ none → find id bucket ≡ none
unfolding remove_first find
find-of_none id bucket h = go bucket (remove_first-none (has_id id) bucket h)
  where
    go : (b : Bucket) → All (λ e. has_id id e ≡ false) b → find id b ≡ none
    go [] a = refl
    go (e ∷ b) (f, a) = rw f (go b a)

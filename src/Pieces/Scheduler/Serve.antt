-- ===== src/Pieces/Scheduler/Serve.antt =====
-- The loop of `requests_for_peer`: what it is to serve a request.
use tortillas.Prelude.{
  ℕ, zero, suc, ◌+◌, ◌/◌, ◌≤◌, ◌<◌, ◌≡◌, refl, ap, ◌∙◌, arith, Bool, true, false, Option, some,
  List, [], ◌∷◌, ◌++◌, length, length-append, get_elem?, leb, if◌then◌else◌, PartialEq, nat_eq,
  Bool-cases, inl, inr, All,
}
use tortillas.Pieces.Scheduler.{PieceScheduler, BlockRequest, range_from}
use tortillas.Pieces.Scheduler.Requests.{Plan, skips, claim, request_at, request_loop}
use tortillas.Pieces.Scheduler.Counts.{IsCounted}
use tortillas.Pieces.Scheduler.Holders.{claim-IsCounted}
use tortillas.Pieces.Scheduler.Grants.{IsGranted, IsHeld, Distinct, Loop, Loop-claim, skips-idle}

get_elem?_lt {ℓ} :
    {A : Type ℓ} (xs : List A) (i : ℕ) → i < length xs → (a : A) × (get_elem? xs i ≡ some a)
get_elem?_lt [] i h = absurd (omega arith)
get_elem?_lt (x ∷ xs) zero h = (x, refl)
get_elem?_lt (x ∷ xs) (suc i) h = get_elem?_lt xs i (omega arith)

pub range_from-All : (n a bound : ℕ) → a + n ≤ bound → All (λ k. k < bound) (range_from n a)
unfolding range_from
range_from-All zero a bound h = tt
range_from-All (suc n) a bound h = (omega arith, range_from-All n (a + 1) bound (omega arith))

-- What one call comes to: requests and a new state, which the fields below describe.
module _ {P : Type 0} ⦃e : PartialEq P⦄ where
  pub record Served (plan : Plan P) (s s' : PieceScheduler P) (requests : List BlockRequest)
      : Type 0 where
    pub within_limit : length requests ≤ plan.limit
    pub all_granted : All (IsGranted plan s) requests
    pub all_held : All (IsHeld plan s') requests
    pub all_distinct : Distinct requests
    pub others_kept : Loop plan s s' requests
    pub counted : IsCounted s'

  abbrev pub Serves :
      Plan P → PieceScheduler P → Option (List BlockRequest × PieceScheduler P) → Type 0
  Serves plan s outcome =
      (requests : List BlockRequest) × (s' : PieceScheduler P) × (outcome ≡ some (requests, s'))
      × Served plan s s' requests

  pub Served-of_Loop :
      (plan : Plan P) (s s' : PieceScheduler P) (requests : List BlockRequest)
      → Loop plan s s' requests
      → length requests ≤ plan.limit
      → IsCounted s'
      → Served plan s s' requests
  Served-of_Loop plan s s' requests l n c = record {
    within_limit = n;
    all_granted = l.granted;
    all_held = l.held;
    all_distinct = l.distinct;
    others_kept = l;
    counted = c;
  }

  skips-total :
      (plan : Plan P) (s : PieceScheduler P) (slot : ℕ)
      → slot / plan.blocks_per_piece < length s.completed_pieces
      → (b : Bool) × (skips plan s slot ≡ some b)
  unfolding skips
  skips-total plan s slot h =
      let (completed, found) = get_elem?_lt s.completed_pieces (slot / plan.blocks_per_piece) h in
      rw (found, skips) (_, refl)

  module _ (plan : Plan P) (slot : ℕ) (slots : List ℕ) (s : PieceScheduler P)
      (requests : List BlockRequest) where
    request_loop-skip :
        skips plan s slot ≡ some true
        → request_loop plan (slot ∷ slots) s requests ≡ request_loop plan slots s requests
    unfolding request_loop
    request_loop-skip h = rw (h, request_loop)

    request_loop-take :
        skips plan s slot ≡ some false
        → request_loop plan (slot ∷ slots) s requests ≡ (
            if leb plan.limit (length (requests ++ request_at plan slot ∷ []))
            then some (requests ++ request_at plan slot ∷ [], claim plan s slot)
            else request_loop plan slots
                (claim plan s slot)
                (requests ++ request_at plan slot ∷ []))
    unfolding request_loop
    request_loop-take h = rw (h, request_loop)

  pub request_loop-Serves :
      (plan : Plan P) (s0 : PieceScheduler P) (slots : List ℕ) (s : PieceScheduler P)
      (requests : List BlockRequest)
      → All (λ slot. slot / plan.blocks_per_piece < length s0.completed_pieces) slots
      → Loop plan s0 s requests
      → length requests < plan.limit
      → IsCounted s
      → Serves plan s0 (request_loop plan slots s requests)
  request_loop-Serves plan s0 [] s requests ok l n c = (
    requests,
    s,
    (unfold request_loop in refl),
    Served-of_Loop plan s0 s requests l (omega arith) c,
  )
  request_loop-Serves plan s0 (slot ∷ slots) s requests ok l n c =
      let here : slot / plan.blocks_per_piece < length s.completed_pieces = rw l.same_pieces ok.0 in
      let requests' : List BlockRequest = requests ++ request_at plan slot ∷ [] in
      let (b, tested) = skips-total plan s slot here in
      elim (Bool-cases b) [
        | inl skip ↦
            rw (request_loop-skip plan slot slots s requests (tested ∙ ap some skip))
              (request_loop-Serves plan s0 slots s requests ok.1 l n c)
        | inr take ↦
            let passed : skips plan s slot ≡ some false = tested ∙ ap some take in
            let l' = Loop-claim plan s0 s slot requests l passed in
            let c' = claim-IsCounted plan s slot (skips-idle plan s slot passed) c in
            rw (request_loop-take plan slot slots s requests passed)
              (elim (Bool-cases (leb plan.limit (length requests'))) [
                | inl full ↦ rw full (
                  requests',
                  claim plan s slot,
                  refl,
                  Served-of_Loop plan s0 (claim plan s slot) requests' l'
                      (omega (arith, length-append requests (request_at plan slot ∷ []))) c',
                )
                | inr more ↦ rw more (
                    request_loop-Serves plan s0 slots (claim plan s slot) requests' ok.1 l'
                      (ground (arith, more)) c')
              ])
      ]

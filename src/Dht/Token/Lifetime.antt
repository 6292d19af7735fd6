-- ===== src/Dht/Token/Lifetime.antt =====
-- How long a token is accepted.
use tortillas.Prelude.{
  ℕ, ◌+◌, ◌-◌, ◌*◌, ◌≤◌, ◌<◌, ◌≡◌, refl, arith, true, inl, inr, ◌⊎◌, List, [], ◌∷◌, ltb,
  list_eqb_iff, nat_eq, Bool-cases, min,
}
use tortillas.Protocol.Message.{IpAddr}
use tortillas.Dht.Token.{
  TokenManager, Reading, rotate_if_needed, duration_max, retained_token_generations, token,
  generate, verify,
}

-- Calls of the manager.
pub data Call : Type 0 where
  generated : IpAddr → Call
  verified : List ℕ → IpAddr → Call

module _ (sha1 : List ℕ → List ℕ) where
  unfoldable pub call : Call → Reading → TokenManager → TokenManager
  call (generated ip) r m = (generate sha1 m r ip).1
  call (verified candidate ip) r m = (verify sha1 m r candidate ip).1

  unfoldable pub after_calls : List (Call × Reading) → TokenManager → TokenManager
  after_calls [] m = m
  after_calls ((c, r) ∷ calls) m = after_calls calls (call c r m)

  call-eq : (c : Call) (r : Reading) (m : TokenManager) → call c r m ≡ rotate_if_needed m r
  unfolding call generate verify
  call-eq (generated ip) r m = refl
  call-eq (verified candidate ip) r m = refl

-- Readings of a clock that goes forward, from `since` on and before `until`.
abbrev pub IsWithin : ℕ → ℕ → List (Call × Reading) → Type 0
IsWithin since until [] = Unit {0}
IsWithin since until ((c, r) ∷ calls) =
    (since ≤ r.now) × (r.now ≤ r.later) × (r.now < until) × IsWithin r.later until calls

-- The last reading of the clock.
abbrev pub last_of : ℕ → List (Call × Reading) → ℕ
last_of since [] = since
last_of since ((c, r) ∷ calls) = last_of r.later calls

-- The manager has the secret and keeps it for every call before `until`.
pub record IsKept (secret : List ℕ) (interval until since : ℕ) (m : TokenManager) : Type 0 where
  pub same_interval : m.rotation_interval ≡ interval
  pub rotated : m.rotated_at ≤ since
  pub held :
      ((m.current_secret ≡ secret) × (until ≤ m.rotated_at + interval * 2))
      ⊎ ((m.previous_secret ≡ secret) × (until ≤ m.rotated_at + interval))

module _ (secret : List ℕ) (interval until : ℕ) (fits : interval * 2 ≤ duration_max) where
  rotate-IsKept :
      (m : TokenManager) (r : Reading) (since : ℕ)
      → since ≤ r.now
      → r.now ≤ r.later
      → r.now < until
      → IsKept secret interval until since m
      → IsKept secret interval until r.later (rotate_if_needed m r)
  unfolding rotate_if_needed
  rotate-IsKept m r since s l u k = elim k.held [
    | inl (current, h) ↦ elim (Bool-cases (ltb (r.now - m.rotated_at) m.rotation_interval)) [
      | inl young ↦ rw young (record {
        same_interval = k.same_interval;
        rotated = omega (arith, k.rotated);
        held = inl (current, h);
      })
      | inr due ↦
          let retained : ltb (r.now - m.rotated_at)
                (min (m.rotation_interval * retained_token_generations) duration_max)
              ≡ true =
            ground (arith, k.rotated, k.same_interval) in
          rw due (record {
            same_interval = k.same_interval;
            rotated = omega arith;
            held = inr (rw retained current, ground (arith, k.rotated, k.same_interval));
          })
    ]
    | inr (previous, h) ↦
        let young : ltb (r.now - m.rotated_at) m.rotation_interval ≡ true =
          ground (arith, k.rotated, k.same_interval) in
        rw young (record {
          same_interval = k.same_interval;
          rotated = omega (arith, k.rotated);
          held = inr (previous, h);
        })
  ]

  module _ (sha1 : List ℕ → List ℕ) where
    after_calls-IsKept :
        (calls : List (Call × Reading)) (m : TokenManager) (since : ℕ)
        → IsWithin since until calls
        → IsKept secret interval until since m
        → IsKept secret interval until (last_of since calls) (after_calls sha1 calls m)
    unfolding after_calls
    after_calls-IsKept [] m since w k = k
    after_calls-IsKept ((c, r) ∷ calls) m since (s, l, u, w) k =
        after_calls-IsKept calls (call sha1 c r m) r.later w
          (rw (call-eq sha1 c r m) (rotate-IsKept m r since s l u k))

    kept_verifies :
        (m : TokenManager) (r : Reading) (ip : IpAddr) (last : ℕ)
        → IsKept secret interval until last (rotate_if_needed m r)
        → (verify sha1 m r (token sha1 secret ip) ip).0 ≡ true
    unfolding verify
    kept_verifies m r ip last k = elim k.held [
      | inl (current, h) ↦
          rw current (ground (arith, list_eqb_iff (token sha1 secret ip) (token sha1 secret ip)))
      | inr (previous, h) ↦
          rw previous (ground (arith, list_eqb_iff (token sha1 secret ip) (token sha1 secret ip)))
    ]

generated-IsKept :
    (m : TokenManager) (r : Reading)
    → m.rotated_at ≤ r.now
    → r.now ≤ r.later
    → IsKept
        (rotate_if_needed m r).current_secret
        m.rotation_interval
        (r.now + m.rotation_interval)
        r.later
        (rotate_if_needed m r)
unfolding rotate_if_needed
generated-IsKept m r s l = elim (Bool-cases (ltb (r.now - m.rotated_at) m.rotation_interval)) [
  | inl young ↦
      rw young
        (record { same_interval = refl; rotated = omega arith; held = inl (refl, ground arith) })
  | inr due ↦
      rw due
        (record { same_interval = refl; rotated = omega arith; held = inl (refl, omega arith) })
]

-- A token is accepted for its address at every time before a whole rotation interval has passed since
-- it was generated, whatever calls come in between.
pub generate-verify :
    (sha1 : List ℕ → List ℕ) (m : TokenManager) (r v : Reading) (ip : IpAddr)
    (calls : List (Call × Reading))
    → m.rotation_interval * 2 ≤ duration_max
    → m.rotated_at ≤ r.now
    → r.now ≤ r.later
    → IsWithin r.later (r.now + m.rotation_interval) calls
    → last_of r.later calls ≤ v.now
    → v.now ≤ v.later
    → v.now < r.now + m.rotation_interval
    → (verify sha1
        (after_calls sha1 calls (generate sha1 m r ip).1)
        v
        (generate sha1 m r ip).0
        ip).0
      ≡ true
unfolding generate
generate-verify sha1 m r v ip calls fits s l w before forward soon =
    let secret = (rotate_if_needed m r).current_secret in
    let until = r.now + m.rotation_interval in
    let kept =
      after_calls-IsKept secret m.rotation_interval until fits sha1 calls (rotate_if_needed m r)
        r.later w (generated-IsKept m r s l) in
    let m' = after_calls sha1 calls (rotate_if_needed m r) in
    kept_verifies secret m.rotation_interval until fits sha1 m' v ip v.later (
      rotate-IsKept secret m.rotation_interval until fits m' v (last_of r.later calls) before
        forward soon kept)

-- ===== src/Dht/Token.antt =====
-- dht/token.rs: the tokens that bind an announcement to an address. `sha1` is the hash; the clock and
-- the random secrets come with each call. Durations and instants are nanoseconds.
pub mod Lifetime
use tortillas.Prelude.{
  ℕ, ◌+◌, ◌-◌, ◌*◌, ◌^◌, Bool, ◌||◌, List, [], ◌∷◌, ◌++◌, take, ltb, if◌then◌else◌, list_eqb,
  nat_eq, min,
}
use tortillas.Protocol.Message.{IpAddr, v4, v6}

abbrev pub token_len : ℕ
token_len = 8

abbrev pub retained_token_generations : ℕ
retained_token_generations = 2

-- `Duration::MAX`, where `saturating_mul` stops.
abbrev pub duration_max : ℕ
duration_max = 2 ^ 64 * 1_000_000_000 - 1

pub record TokenManager : Type 0 where
  pub current_secret : List ℕ
  pub previous_secret : List ℕ
  pub rotated_at : ℕ
  pub rotation_interval : ℕ

-- What a call reads: the clock twice, in this order, and the two random secrets.
pub record Reading : Type 0 where
  pub now : ℕ
  pub later : ℕ
  pub random_previous : List ℕ
  pub random_current : List ℕ

unfoldable pub new : ℕ → Reading → TokenManager
new rotation_interval r = record {
  current_secret = r.random_current;
  previous_secret = r.random_previous;
  rotated_at = r.now;
  rotation_interval = rotation_interval;
}

unfoldable pub rotate_if_needed : TokenManager → Reading → TokenManager
rotate_if_needed m r =
    let elapsed = r.now - m.rotated_at in
    if ltb elapsed m.rotation_interval then m else record m {
      previous_secret =
          if ltb elapsed (min (m.rotation_interval * retained_token_generations) duration_max)
          then m.current_secret
          else r.random_previous;
      current_secret = r.random_current;
      rotated_at = r.later;
    }

abbrev pub octets : IpAddr → List ℕ
octets (v4 ip) = ip
octets (v6 ip) = ip

module _ (sha1 : List ℕ → List ℕ) where
  unfoldable pub token : List ℕ → IpAddr → List ℕ
  token secret ip = take token_len (sha1 (secret ++ octets ip))

  unfoldable pub generate : TokenManager → Reading → IpAddr → List ℕ × TokenManager
  generate m r ip = let rotated = rotate_if_needed m r in (token rotated.current_secret ip, rotated)

  unfoldable pub verify : TokenManager → Reading → List ℕ → IpAddr → Bool × TokenManager
  verify m r candidate ip =
      let rotated = rotate_if_needed m r in
      (
        list_eqb candidate (token rotated.current_secret ip)
            || list_eqb candidate (token rotated.previous_secret ip),
        rotated,
      )

-- ===== src/Torrent/Choking/Rotation.antt =====
-- The optimistic slot over the rounds of `decide`, while the peers stay as they are.
use native.Mathlib.Nat.{mod-lt, mod-eq_of_lt}
use tortillas.Prelude.{
  ℕ, zero, suc, ◌+◌, ◌-◌, ◌%◌, ◌^◌, ◌<◌, ◌≡◌, refl, ap, ◌∙◌, arith, true, false, Option, none, some,
  inl, inr, List, [], ◌∷◌, ◌++◌, map, length, length-drop, take, drop, get_elem?, get_elem?-lt,
  get_elem?-some, ltb, leb, eqb, Bool-cases,
}
use tortillas.Torrent.State.{TorrentState}
use tortillas.Torrent.Choking.{
  PeerId, PeerStats, ChokingScheduler, ChokingDecision, candidates_of, with_optimistic, fill_slots,
  select_unchoked_peers, rotate, decide,
}

-- The candidates of the optimistic slot.
unfoldable pub optimistic_candidates : List PeerStats → TorrentState → ℕ → List PeerStats
optimistic_candidates peers state slots = drop (slots - 1) (candidates_of peers state)

-- Rounds of `decide` on the same peers.
pub data Reaches (peers : List PeerStats) (state : TorrentState)
    : ChokingScheduler → ChokingScheduler → Type 0 where
  here : (s : ChokingScheduler) → Reaches peers state s s
  round :
      (s t u : ChokingScheduler) (d : ChokingDecision)
      → decide s peers state ≡ some (d, t)
      → Reaches peers state t u
      → Reaches peers state s u

-- A scheduler whose counter of rounds is below its limit.
pub record IsScheduler (s : ChokingScheduler) : Type 0 where
  pub rounds_lt : s.rounds_since_optimistic_rotation < s.optimistic_unchoke_rounds
  pub index_lt : s.optimistic_index < 2 ^ 64

rotate-IsScheduler :
    (s : ChokingScheduler) (o : Option PeerId) → IsScheduler s → IsScheduler (rotate s o)
unfolding rotate
rotate-IsScheduler s none i = record {
  rounds_lt = omega (arith, i.rounds_lt);
  index_lt = omega arith;
}
rotate-IsScheduler s (some peer) i =
    elim (Bool-cases (leb s.optimistic_unchoke_rounds (s.rounds_since_optimistic_rotation + 1))) [
      | inl due ↦ rw due (record {
        rounds_lt = omega (arith, i.rounds_lt);
        index_lt = mod-lt (s.optimistic_index + 1) (omega arith);
      })
      | inr early ↦ rw early (record { rounds_lt = ground arith; index_lt = i.index_lt })
    ]

module _ (peers : List PeerStats) (state : TorrentState) where
  full_decision : ℕ → PeerStats → ChokingDecision
  full_decision slots peer = record {
    unchoked = map (λ p. p.id) (take (slots - 1) (candidates_of peers state)) ++ peer.id ∷ [];
    optimistic = some peer.id;
  }

  -- With more candidates than slots, a decision's optimistic peer is the one at the index.
  decide_full :
      (s : ChokingScheduler) (peer : PeerStats)
      → 0 < s.upload_slots
      → s.upload_slots < length (candidates_of peers state)
      → get_elem?
          (optimistic_candidates peers state s.upload_slots)
          (s.optimistic_index % length (optimistic_candidates peers state s.upload_slots))
        ≡ some peer
      → decide s peers state ≡ some (full_decision s.upload_slots peer, rotate s (some peer.id))
  unfolding decide select_unchoked_peers fill_slots with_optimistic optimistic_candidates
      full_decision
  decide_full s peer pos full at =
      let open_ : eqb s.upload_slots 0 ≡ false = ground arith in
      let lt : ltb s.upload_slots (length (candidates_of peers state)) ≡ true = ground arith in
      rw open_ (rw lt (rw at refl))

  length-optimistic_candidates :
      (slots : ℕ)
      → slots < length (candidates_of peers state)
      → 0 < length (optimistic_candidates peers state slots)
  unfolding optimistic_candidates
  length-optimistic_candidates slots full =
      omega (arith, length-drop (slots - 1) (candidates_of peers state))

  -- Some peer has the optimistic slot.
  optimistic_at :
      (s : ChokingScheduler)
      → s.upload_slots < length (candidates_of peers state)
      → (peer : PeerStats) × (get_elem?
            (optimistic_candidates peers state s.upload_slots)
            (s.optimistic_index % length (optimistic_candidates peers state s.upload_slots))
          ≡ some peer)
  optimistic_at s full =
      let all = optimistic_candidates peers state s.upload_slots in
      get_elem?-lt all (s.optimistic_index % length all)
        (mod-lt s.optimistic_index (length-optimistic_candidates s.upload_slots full))

  advanced : ChokingScheduler → ChokingScheduler
  advanced s = record s {
    optimistic_index = (s.optimistic_index + 1) % 2 ^ 64;
    rounds_since_optimistic_rotation = 0;
  }

  -- The rounds that are left until the index moves on.
  Reaches-advanced :
      (left : ℕ) (s : ChokingScheduler)
      → 0 < s.upload_slots
      → s.upload_slots < length (candidates_of peers state)
      → s.rounds_since_optimistic_rotation + suc left ≡ s.optimistic_unchoke_rounds
      → Reaches peers state s (advanced s)
  unfolding rotate advanced
  Reaches-advanced zero s pos full e =
      let (peer, at) = optimistic_at s full in
      let due : leb s.optimistic_unchoke_rounds (s.rounds_since_optimistic_rotation + 1) ≡ true =
        ground arith in
      round s (advanced s) (advanced s) (full_decision s.upload_slots peer)
        (decide_full s peer pos full at ∙ rw due refl) (here (advanced s))
  Reaches-advanced (suc left) s pos full e =
      let (peer, at) = optimistic_at s full in
      let early : leb s.optimistic_unchoke_rounds (s.rounds_since_optimistic_rotation + 1) ≡ false =
        ground arith in
      let t : ChokingScheduler = record s {
        rounds_since_optimistic_rotation = s.rounds_since_optimistic_rotation + 1;
      } in
      round s t (advanced s) (full_decision s.upload_slots peer)
        (decide_full s peer pos full at ∙ rw early refl)
        (Reaches-advanced left t pos full (omega arith))

  Reaches-trans :
      (s t u : ChokingScheduler)
      → Reaches peers state s t
      → Reaches peers state t u
      → Reaches peers state s u
  Reaches-trans s t u (here _) k = k
  Reaches-trans s t u (round _ v _ d e h) k = round s v u d e (Reaches-trans v t u h k)

  -- Any number of moves of the index.
  Reaches-index :
      (moves : ℕ) (s : ChokingScheduler)
      → IsScheduler s
      → 0 < s.upload_slots
      → s.upload_slots < length (candidates_of peers state)
      → (t : ChokingScheduler) × Reaches peers state s t
        × (t.upload_slots ≡ s.upload_slots)
        × (t.optimistic_index ≡ (s.optimistic_index + moves) % 2 ^ 64)
  unfolding advanced
  Reaches-index zero s i pos full = (s, here s, refl, omega (arith, i.index_lt))
  Reaches-index (suc moves) s i pos full =
      let first =
        Reaches-advanced (s.optimistic_unchoke_rounds - s.rounds_since_optimistic_rotation - 1) s
          pos full (omega (arith, i.rounds_lt)) in
      let i' : IsScheduler (advanced s) = record {
        rounds_lt = omega (arith, i.rounds_lt);
        index_lt = omega arith;
      } in
      let (t, more, slots, index) = Reaches-index moves (advanced s) i' pos full in
      (t, Reaches-trans s (advanced s) t first more, slots, omega (arith, index))

  -- While the peers stay as they are and more are interested than there are slots, every candidate of
  -- the optimistic slot is unchoked in it after some rounds, in the last slot after the best candidates in
  -- the others. The scheduler has a slot, its counter of rounds is below its limit, and its index and the
  -- candidate's place fit in a machine word.
  pub optimistic-Reaches :
      (s : ChokingScheduler) (k : ℕ) (peer : PeerStats)
      → IsScheduler s
      → 0 < s.upload_slots
      → s.upload_slots < length (candidates_of peers state)
      → k < 2 ^ 64
      → get_elem? (optimistic_candidates peers state s.upload_slots) k ≡ some peer
      → (t after : ChokingScheduler) × (d : ChokingDecision) × Reaches peers state s t
        × (decide t peers state ≡ some (d, after))
        × (d.optimistic ≡ some peer.id)
        × (d.unchoked
            ≡ map (λ p. p.id) (take (s.upload_slots - 1) (candidates_of peers state))
              ++ peer.id ∷ [])
  unfolding full_decision
  optimistic-Reaches s k peer i pos full small at =
      let (t, reaches, slots, index) =
        Reaches-index (2 ^ 64 - s.optimistic_index + k) s i pos full in
      let index_k : t.optimistic_index ≡ k = omega (arith, index, i.index_lt) in
      let here_ : get_elem? (optimistic_candidates peers state t.upload_slots)
            (t.optimistic_index % length (optimistic_candidates peers state t.upload_slots))
          ≡ some peer =
        rw index_k (
          rw slots (
            rw
              (mod-eq_of_lt
                (get_elem?-some (optimistic_candidates peers state s.upload_slots) k peer at))
              at)) in
      (
        t,
        rotate t (some peer.id),
        full_decision t.upload_slots peer,
        reaches,
        decide_full t peer (omega (arith, slots)) (omega (arith, slots)) here_,
        refl,
        ap (λ n. map (λ p. p.id) (take (n - 1) (candidates_of peers state)) ++ peer.id ∷ []) slots,
      )

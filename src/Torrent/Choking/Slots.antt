-- ===== src/Torrent/Choking/Slots.antt =====
-- The peers that are selected for the upload slots.
use tortillas.Prelude.{
  ℕ, zero, suc, ◌-◌, ◌%◌, ◌≤◌, ◌<◌, ◌≡◌, refl, sym, ap, arith, min, none, some, inl, inr, List, [],
  ◌∷◌, ◌++◌, map, length, length-take, length-drop, length-append, take, drop, take-append_of_eq,
  get_elem?, get_elem?-lt, All, All-map, ltb, eqb, Bool-cases,
}
use native.Mathlib.Nat.{mod-lt}
use mathlib.Core.List.{Perm, append_assoc}
use mathlib.Core.List.Perm
use tortillas.Prelude.Cuts.{take-append-drop, take_nil}
use tortillas.Prelude.Sort.{
  lex_lt-asym, lex_lt_trans, IsSorted, IsOrder, Precedes, sort_by-perm, sort_by-IsSorted,
  length-sort_by, take-drop-IsSorted, All-take,
}
use tortillas.Torrent.State.{TorrentState}
use tortillas.Torrent.Choking.{
  PeerStats, ChokingDecision, comes_before, interested_of, candidates_of, with_optimistic,
  fill_slots, select_unchoked_peers,
}

comes_before-IsOrder : (state : TorrentState) → IsOrder (comes_before state)
unfolding comes_before
comes_before-IsOrder state = record {
  asym = λ x y h. ground (arith, lex_lt-asym x.id.id y.id.id);
  trans = λ x y z h k. ground (arith, lex_lt_trans x.id.id y.id.id z.id.id);
}

-- A list without the element at an index.
abbrev pub others_at {ℓ} : {A : Type ℓ} → List A → ℕ → List A
others_at [] i = []
others_at (x ∷ xs) zero = xs
others_at (x ∷ xs) (suc i) = x ∷ others_at xs i

others_at-perm {ℓ} :
    {A : Type ℓ} (xs : List A) (i : ℕ) (x : A)
    → get_elem? xs i ≡ some x
    → Perm (x ∷ others_at xs i) xs
others_at-perm [] i x h = cc
others_at-perm (y ∷ xs) zero x h = let e : y ≡ x = cc in rw e (Perm.refl (x ∷ xs))
others_at-perm (y ∷ xs) (suc i) x h =
    Perm.trans (Perm.swap y x (others_at xs i)) (Perm.cons y (others_at-perm xs i x h))

others_at-All {ℓ κ} :
    {A : Type ℓ} (P : A → Type κ) (xs : List A) (i : ℕ) → All P xs → All P (others_at xs i)
others_at-All P [] i h = tt
others_at-All P (x ∷ xs) zero h = h.1
others_at-All P (x ∷ xs) (suc i) h = (h.0, others_at-All P xs i h.1)

-- A decision for so many slots among the peers that are interested: it unchokes as many of them as
-- there are slots, and all but the last of a full selection come before every peer left out.
pub record IsSelection (state : TorrentState) (interested : List PeerStats) (slots : ℕ)
    (decision : ChokingDecision) : Type 0 where
  pub chosen : List PeerStats
  pub others : List PeerStats
  pub unchoked_eq : decision.unchoked ≡ map (λ p. p.id) chosen
  pub parts : Perm (chosen ++ others) interested
  pub count : length chosen ≡ min slots (length interested)
  pub best : All (λ p. Precedes (comes_before state) p others) (take (slots - 1) chosen)

map-append {ℓ κ} :
    {A : Type ℓ} {B : Type κ} (f : A → B) (xs ys : List A) → map f (xs ++ ys) ≡ map f xs ++ map f ys
map-append f [] ys = refl
map-append f (x ∷ xs) ys = ap (λ l. f x ∷ l) (map-append f xs ys)

module _ (state : TorrentState) (sorted interested : List PeerStats) (slots : ℕ)
    (s : IsSorted (comes_before state) sorted) (p : Perm sorted interested)
    (l : length sorted ≡ length interested) where
  -- There are slots for all.
  all-IsSelection :
      length sorted ≤ slots
      → IsSelection state interested slots
          (record { unchoked = map (λ q. q.id) (take slots sorted); optimistic = none })
  all-IsSelection room = record {
    chosen = take slots sorted;
    others = drop slots sorted;
    unchoked_eq = refl;
    parts = rw (take-append-drop slots sorted) p;
    count = omega (arith, length-take slots sorted, l);
    best =
        All-take (comes_before state) _ (slots - 1) (take slots sorted)
          (take-drop-IsSorted (comes_before state) slots sorted s);
  }

  -- The last slot goes to one of those that the others leave.
  some-IsSelection :
      (i : ℕ) (peer : PeerStats)
      → 0 < slots
      → slots < length sorted
      → get_elem? (drop (slots - 1) sorted) i ≡ some peer
      → IsSelection state interested slots (record {
        unchoked = map (λ q. q.id) (take (slots - 1) sorted) ++ peer.id ∷ [];
        optimistic = some peer.id;
      })
  some-IsSelection i peer pos full at =
      let regular = take (slots - 1) sorted in
      let rest = drop (slots - 1) sorted in
      record {
        chosen = regular ++ peer ∷ [];
        others = others_at rest i;
        unchoked_eq = sym (map-append (λ q. q.id) regular (peer ∷ []));
        parts = rw (append_assoc regular (peer ∷ []) (others_at rest i)) (
            Perm.trans (Perm.append_left regular (others_at-perm rest i peer at))
              (rw (take-append-drop (slots - 1) sorted) p));
        count = omega (arith, length-append regular (peer ∷ []), length-take (slots - 1) sorted, l);
        best =
            rw
              (take-append_of_eq (slots - 1) regular (peer ∷ [])
                (omega (arith, length-take (slots - 1) sorted)))
              (All-map _ _ regular (λ q h. others_at-All _ rest i h)
                (take-drop-IsSorted (comes_before state) (slots - 1) sorted s));
      }

module _ (peers : List PeerStats) (state : TorrentState) where
  candidates_of-IsSorted : IsSorted (comes_before state) (candidates_of peers state)
  unfolding candidates_of
  candidates_of-IsSorted =
      sort_by-IsSorted (comes_before state) (comes_before-IsOrder state) (interested_of peers)

  candidates_of-perm : Perm (candidates_of peers state) (interested_of peers)
  unfolding candidates_of
  candidates_of-perm = sort_by-perm (comes_before state) (interested_of peers)

  length-candidates_of : length (candidates_of peers state) ≡ length (interested_of peers)
  unfolding candidates_of
  length-candidates_of = length-sort_by (comes_before state) (interested_of peers)

  fill_slots-IsSelection :
      (slots index : ℕ)
      → 0 < slots
      → (decision : ChokingDecision) × (fill_slots (candidates_of peers state) slots index
          ≡ some decision)
        × IsSelection state (interested_of peers) slots decision
  unfolding fill_slots with_optimistic
  fill_slots-IsSelection slots index pos =
      elim (Bool-cases (ltb slots (length (candidates_of peers state)))) [
        | inl full ↦
            let rest = drop (slots - 1) (candidates_of peers state) in
            let lt : slots < length (candidates_of peers state) = ground arith in
            let (peer, at) =
              get_elem?-lt rest (index % length rest) (
                mod-lt index
                  (omega (arith, length-drop (slots - 1) (candidates_of peers state)))) in
            (
              _,
              rw full (rw at refl),
              some-IsSelection state (candidates_of peers state) (interested_of peers) slots
                  candidates_of-IsSorted candidates_of-perm length-candidates_of
                  (index % length rest) peer pos lt at,
            )
        | inr room ↦ (
          _,
          rw room refl,
          all-IsSelection state (candidates_of peers state) (interested_of peers) slots
              candidates_of-IsSorted candidates_of-perm length-candidates_of (ground arith),
        )
      ]

  -- A selection does not panic, at any state of the optimistic index. It unchokes as many of the peers
  -- that are interested as there are slots, each of them once; and all but the last of a full selection
  -- come before every interested peer left out, by the rate that counts in the torrent's state.
  pub select_unchoked_peers_lem :
      (upload_slots optimistic_index : ℕ)
      → (decision : ChokingDecision) × (select_unchoked_peers peers state upload_slots
            optimistic_index
          ≡ some decision)
        × IsSelection state (interested_of peers) upload_slots decision
  unfolding select_unchoked_peers
  select_unchoked_peers_lem upload_slots optimistic_index = elim (Bool-cases (eqb upload_slots 0)) [
    | inl none_ ↦ (
      record { unchoked = []; optimistic = none },
      rw none_ refl,
      record {
        chosen = [];
        others = interested_of peers;
        unchoked_eq = refl;
        parts = Perm.refl (interested_of peers);
        count = ground arith;
        best = rw (take_nil {A = PeerStats} (upload_slots - 1)) tt;
      },
    )
    | inr slots ↦ rw slots (fill_slots-IsSelection upload_slots optimistic_index (ground arith))
  ]

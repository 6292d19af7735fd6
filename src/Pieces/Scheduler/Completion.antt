-- ===== src/Pieces/Scheduler/Completion.antt =====
-- `mark_block_complete` and `release_peer_request`: the block that leaves, and the others.
use tortillas.Prelude.{
  ℕ, zero, suc, ◌-◌, ◌⊎◌, ◌==◌, ◌/◌, ◌<◌, ◌≡◌, refl, sym, ap, ◌∙◌, arith, true, false, ◌&&◌, Option,
  none, some, inl, inr, [], ◌∷◌, length, get_elem?-set_self, set, replicate, eqb, eqb_iff,
  if◌then◌else◌, PartialEq, nat_eq, Bool-cases, Option-cases,
}
use tortillas.Prelude.Map.{lookup, insert, lookup-remove, lookup-insert}
use tortillas.Pieces.Scheduler.{
  PieceScheduler, InFlightBlock, Blocks, unwrap_or, block_at, blocks_or_empty, held_by,
  bit_or_false, take_block, remove_in_flight, decrement_in_flight, released, mark_block_complete,
  is_duplicate_block, release_peer_request, block_size, in_flight_for_peer,
}
use tortillas.Pieces.Scheduler.Holders.{holder}
use tortillas.Pieces.Scheduler.Stale.{block_at-none_left}
use tortillas.Pieces.Scheduler.Counts.{decrement_in_flight_lem}

block_at-set-none :
    {P : Type 0} (blocks : Blocks P) (i j : ℕ)
    → block_at (set blocks i none) j ≡ (if eqb i j then none else block_at blocks j)
block_at-set-none [] i j = ground arith
block_at-set-none (b ∷ blocks) zero zero = refl
block_at-set-none (b ∷ blocks) zero (suc j) = ground arith
block_at-set-none (b ∷ blocks) (suc i) zero = ground arith
block_at-set-none (b ∷ blocks) (suc i) (suc j) = ground (arith, block_at-set-none blocks i j)

module _ {P : Type 0} (s : PieceScheduler P) (piece block : ℕ) where
  abbrev blocks_of : Blocks P
  blocks_of = blocks_or_empty (lookup piece s.in_flight)

  holder-take_block :
      (i j : ℕ)
      → holder (take_block s piece block blocks_of) i j
        ≡ (if eqb piece i && eqb block j then none else holder s i j)
  unfolding take_block
  holder-take_block i j = ground (
    arith,
    lookup-insert piece i (set blocks_of block none) s.in_flight,
    lookup-remove piece i s.in_flight,
    block_at-set-none blocks_of block j,
    block_at-none_left (set blocks_of block none) j,
  )

  holder-free :
      holder s piece block ≡ none
      → (i j : ℕ) → holder s i j ≡ (if eqb piece i && eqb block j then none else holder s i j)
  holder-free free i j = elim (Bool-cases (eqb piece i && eqb block j)) [
    | inl same ↦ rw same (there (ground (arith, same)) (ground (arith, same)))
    | inr other ↦ rw other
  ]
    where
      there : piece ≡ i → block ≡ j → holder s i j ≡ none
      there p q = ap (λ k. holder s k j) (sym p) ∙ ap (holder s piece) (sym q) ∙ free

  pub holder-remove_in_flight :
      (i j : ℕ)
      → holder (remove_in_flight s piece block).1 i j
        ≡ (if eqb piece i && eqb block j then none else holder s i j)
  unfolding remove_in_flight
  holder-remove_in_flight i j = elim (Option-cases (holder s piece block)) [
    | inl free ↦ rw free (holder-free free i j)
    | inr (r, taken) ↦ rw taken (holder-take_block i j)
  ]

abbrev pub owner : {P : Type 0} → Option (InFlightBlock P) → Option P
owner none = none
owner (some request) = some request.peer_id

module _ {P : Type 0} ⦃e : PartialEq P⦄ where
  holder-decrement :
      (s : PieceScheduler P) (p : P) (i j : ℕ) → holder (decrement_in_flight s p) i j ≡ holder s i j
  unfolding decrement_in_flight
  holder-decrement s p i j = refl

  blocks-decrement :
      (s : PieceScheduler P) (p : P)
      → (decrement_in_flight s p).completed_blocks ≡ s.completed_blocks
  unfolding decrement_in_flight
  blocks-decrement s p = refl

  blocks-remove_in_flight :
      (s : PieceScheduler P) (piece block : ℕ)
      → (remove_in_flight s piece block).1.completed_blocks ≡ s.completed_blocks
  unfolding remove_in_flight take_block
  blocks-remove_in_flight s piece block = ground arith

  released_lem :
      (request : Option (InFlightBlock P)) (s : PieceScheduler P)
      → ((released (request, s)).0 ≡ owner request)
        × ((i j : ℕ) → holder (released (request, s)).1 i j ≡ holder s i j)
        × ((released (request, s)).1.completed_blocks ≡ s.completed_blocks)
  unfolding released
  released_lem none s = (refl, λ i j. refl, refl)
  released_lem (some r) s = (refl, holder-decrement s r.peer_id, blocks-decrement s r.peer_id)

  -- A block that arrives, with an index in range, is a duplicate from then on and in flight no more;
  -- the result is the peer that it was asked of; and every other block stays with its peer.
  pub mark_block_complete_lem :
      (s : PieceScheduler P) (piece block total_blocks : ℕ)
      → block < length (unwrap_or (lookup piece s.completed_blocks) (replicate total_blocks false))
      → ((mark_block_complete s piece block total_blocks).0 ≡ owner (holder s piece block))
        × (is_duplicate_block (mark_block_complete s piece block total_blocks).1 piece block ≡ true)
        × ((i j : ℕ)
            → holder (mark_block_complete s piece block total_blocks).1 i j
              ≡ (if eqb piece i && eqb block j then none else holder s i j))
  unfolding mark_block_complete is_duplicate_block
  mark_block_complete_lem s piece block total_blocks h =
      let bits = unwrap_or (lookup piece s.completed_blocks) (replicate total_blocks false) in
      let s1 : PieceScheduler P = record s {
        completed_blocks = insert piece (set bits block true) s.completed_blocks;
      } in
      let r = remove_in_flight s1 piece block in
      let (a, b, c) = released_lem r.0 r.1 in
      let reflexive : eqb piece piece ≡ true = (eqb_iff piece piece).1 refl in
      let found : lookup piece (insert piece (set bits block true) s.completed_blocks)
          ≡ some (set bits block true) =
        rw (lookup-insert piece piece (set bits block true) s.completed_blocks, reflexive) in
      let kept : bit_or_false (some (set bits block true)) block ≡ true =
        rw (get_elem?-set_self bits block true h) in
      (
        a ∙ (unfold remove_in_flight in refl),
        ap (λ m. bit_or_false (lookup piece m) block) (c ∙ blocks-remove_in_flight s1 piece block)
            ∙ ap (λ o. bit_or_false o block) found
            ∙ kept,
        λ i j. b i j ∙ holder-remove_in_flight s1 piece block i j,
      )

  in_flight_for_peer-remove_in_flight :
      (s : PieceScheduler P) (piece block : ℕ) (p : P)
      → in_flight_for_peer (remove_in_flight s piece block).1 p ≡ in_flight_for_peer s p
  unfolding remove_in_flight take_block in_flight_for_peer
  in_flight_for_peer-remove_in_flight s piece block p = ground arith

  -- A rejection frees the block only if it is still asked of that peer, and then takes one from that
  -- peer's count of requests; no rejection frees another block or changes another peer's count, or what
  -- is complete. A late one leaves the scheduler as it was.
  pub release_peer_request_exact :
      (s : PieceScheduler P) (p : P) (piece off : ℕ)
      → ((i j : ℕ)
          → holder (release_peer_request s p piece off) i j ≡ (
              if held_by p (holder s piece (off / block_size))
                && (eqb piece i && eqb (off / block_size) j)
              then none
              else holder s i j))
        × ((q : P)
            → in_flight_for_peer (release_peer_request s p piece off) q ≡ (
                if held_by p (holder s piece (off / block_size)) && p == q
                then in_flight_for_peer s q - 1
                else in_flight_for_peer s q))
        × ((release_peer_request s p piece off).completed_blocks ≡ s.completed_blocks)
        × ((held_by p (holder s piece (off / block_size)) ≡ true)
            ⊎ (release_peer_request s p piece off ≡ s))
  unfolding release_peer_request
  release_peer_request_exact s p piece off =
      let removed = (remove_in_flight s piece (off / block_size)).1 in
      elim (Bool-cases (held_by p (holder s piece (off / block_size)))) [
        | inl held ↦ rw held (
          λ i j.
              holder-decrement removed p i j
              ∙ holder-remove_in_flight s piece (off / block_size) i j,
          λ q.
              decrement_in_flight_lem removed p q
              ∙ ground (arith, in_flight_for_peer-remove_in_flight s piece (off / block_size) q),
          blocks-decrement removed p ∙ blocks-remove_in_flight s piece (off / block_size),
          inl refl,
        )
        | inr late ↦ rw late (λ i j. refl, λ q. refl, refl, inr refl)
      ]

-- ===== src/Torrent/PieceFlow/Completing.antt =====
-- `piece_completed` and the `Have` that it sends to all peers.
use tortillas.Prelude.{
  ℕ, ◌<◌, ◌≡◌, ◌⊎◌, refl, ap, ◌∙◌, arith, Bool, true, false, Option, none, some, inl, inr, List, [],
  ◌∷◌, ◌++◌, length, length-set, set, get_elem?, ltb, leb, PartialEq, nat_eq, Bool-cases,
}
use tortillas.Pieces.Scheduler.{mark_piece_complete, remove_piece_blocks}
use tortillas.Pieces.Scheduler.Release.{peer_disconnected}
use tortillas.Pieces.Scheduler.Leavers.{peer_disconnected_counts}
use tortillas.Pieces.Scheduler.Progress.{mark_piece_complete-IsFront}
use tortillas.Pieces.Scheduler.Steady.{
  peer_disconnected-IsSteady, remove_piece_blocks-IsSteady, remove_piece_blocks-IsCounted,
  mark_piece_complete-IsCounted,
}
use tortillas.Torrent.State.{seeding}
use tortillas.Torrent.PieceFlow.{
  InfoDict, Command, have, update_tracker_progress, announce_completed, rechoke_peers,
  schedule_next_rechoke, TorrentActor, PieceStorage, without, broadcast, remove_dead,
  broadcast_to_peers_best_effort, piece_verified, committed, piece_completed,
}
use tortillas.Torrent.PieceFlow.Filling.{
  IsFlow, IsFlow-steady, IsKept, IsKept-refl, IsKept-trans, IsKept-steady, IsKept-beside,
  tell-IsKept, Keeps, fill_peer_request_window-Keeps,
}

-- The piece is validated in the storage `f`.
abbrev pub IsValidated : {F : Type 0} → PieceStorage F → ℕ → F → Type 0
IsValidated {F} storage index f = (g : F) × (storage.validate_and_commit index f ≡ some (true, g))

-- The block was written to the storage, and the piece was valid in what the write left.
abbrev pub IsVerified : {F : Type 0} → PieceStorage F → ℕ → ℕ → List ℕ → F → Type 0
IsVerified {F} storage index off block f =
    (g : F) × (storage.write_block index off block f ≡ some (true, g)) × IsValidated storage index g

-- A storage that does not panic at a piece.
pub record IsReturning {F : Type 0} (storage : PieceStorage F) (index : ℕ) : Type 0 where
  pub writes :
      (off : ℕ) (block : List ℕ) (f : F)
      → (x : Bool × F) × (storage.write_block index off block f ≡ some x)
  pub validates : (f : F) → (x : Bool × F) × (storage.validate_and_commit index f ≡ some x)

module _ {P F : Type 0} ⦃e : PartialEq P⦄ where
  abbrev pub IsFull : TorrentActor P F → Type 0
  IsFull t = (i : ℕ) → i < length t.bitfield → get_elem? t.bitfield i ≡ some true

  -- From a torrent `t`, a step that does not panic and keeps the invariant, after which at most the
  -- piece `index` is new, and that only where `verified` holds; the state only changes to seeding, with
  -- all pieces there.
  pub record Steps (verified : Type 0) (index : ℕ) (t : TorrentActor P F)
      (result : Option (TorrentActor P F)) : Type 0 where
    pub after : TorrentActor P F
    pub returns : result ≡ some after
    pub flow : IsFlow after
    pub bits :
        (after.bitfield ≡ t.bitfield) ⊎ (verified × (after.bitfield ≡ set t.bitfield index true))
    pub state : (after.state ≡ t.state) ⊎ ((after.state ≡ seeding) × IsFull after)

module _ {P F : Type 0} ⦃e : PartialEq P⦄ (storage : PieceStorage F) (accepts : P → Command → Bool)
    (alive : P → Bool) (now : ℕ) where
  broadcast-IsKept :
      (c : Command) (peers : List P) (t : TorrentActor P F)
      → IsFlow t
      → IsKept t (broadcast storage accepts alive now c peers t)
  unfolding broadcast
  broadcast-IsKept c [] t f = IsKept-refl t f
  broadcast-IsKept c (p ∷ peers) t f = elim (Bool-cases (alive p)) [
    | inl live ↦
        let first = tell-IsKept storage accepts alive now p c t f in
        rw live (IsKept-trans t _ _ first (broadcast-IsKept c peers _ first.flow))
    | inr dead ↦ rw dead (broadcast-IsKept c peers t f)
  ]

  remove_dead-IsKept :
      (peers : List P) (t : TorrentActor P F)
      → IsFlow t
      → IsKept t (remove_dead storage accepts alive now peers t)
  unfolding remove_dead
  remove_dead-IsKept [] t f = IsKept-refl t f
  remove_dead-IsKept (p ∷ peers) t f = elim (Bool-cases (alive p)) [
    | inl live ↦ rw live (remove_dead-IsKept peers t f)
    | inr dead ↦
        let s = t.piece_scheduler in
        let u : TorrentActor P F = record t {
          peers = without p t.peers;
          piece_scheduler = peer_disconnected s p;
        } in
        let first =
          IsKept-steady t u f (peer_disconnected_counts s p f.counted).0
            (peer_disconnected-IsSteady s p) refl refl refl in
        rw dead (IsKept-trans t _ _ first (remove_dead-IsKept peers _ first.flow))
  ]

  pub broadcast_to_peers-IsKept :
      (c : Command) (t : TorrentActor P F)
      → IsFlow t
      → IsKept t (broadcast_to_peers_best_effort storage accepts alive now c t)
  unfolding broadcast_to_peers_best_effort
  broadcast_to_peers-IsKept c t f =
      let first = broadcast-IsKept c t.peers t f in
      IsKept-trans t _ _ first (remove_dead-IsKept t.peers _ first.flow)

  pub Steps-Keeps :
      {V : Type 0} (index : ℕ) (t u : TorrentActor P F) (result : Option (TorrentActor P F))
      → u.bitfield ≡ t.bitfield
      → u.state ≡ t.state
      → Keeps storage accepts alive now u result
      → Steps V index t result
  Steps-Keeps index t u result bits state (after, done, k) = record {
    after = after;
    returns = done;
    flow = k.flow;
    bits = inl (k.same_bits ∙ bits);
    state = inl (k.same_state ∙ state);
  }

  piece_verified-Steps :
      {V : Type 0} (p : P) (index : ℕ) (info : InfoDict) (t : TorrentActor P F)
      → V
      → IsFlow t
      → t.info_dict ≡ some info
      → index < info.piece_count
      → Steps V index t (piece_verified storage accepts alive now p index info.piece_count t)
  unfolding piece_verified
  piece_verified-Steps p index info t v f i inside =
      let s = t.piece_scheduler in
      let marked : TorrentActor P F = record t {
        piece_scheduler = mark_piece_complete s index;
        bitfield = set t.bitfield index true;
      } in
      let sized = (f.sized info i).1 in
      let flow : IsFlow marked = record {
        counted = mark_piece_complete-IsCounted s index f.counted;
        front = (mark_piece_complete-IsFront s index f.front).0;
        synced = (unfold mark_piece_complete in ap (λ l. set l index true) f.synced);
        sized = λ info' h.
            ((f.sized info' h).0, length-set t.bitfield index true ∙ (f.sized info' h).1);
      } in
      let k = broadcast_to_peers-IsKept (have index) marked flow in
      let room : ltb index (length t.bitfield) ≡ true = ground (arith, sized, inside) in
      let told = broadcast_to_peers_best_effort storage accepts alive now (have index) marked in
      let all_there : leb info.piece_count told.piece_scheduler.next_piece ≡ true → IsFull told =
        λ enough j lt.
          let n : length told.bitfield ≡ info.piece_count =
            (k.flow.sized info (k.same_info ∙ i)).1 in
          ap (λ l. get_elem? l j) k.flow.synced
          ∙ k.flow.front.below j (ground (arith, enough, n, lt)) in
      elim (Bool-cases (leb info.piece_count told.piece_scheduler.next_piece)) [
        | inl enough ↦ record {
          after = record told {
            state = seeding;
            sent =
                told.sent
                ++ update_tracker_progress ∷ announce_completed ∷ rechoke_peers
                  ∷ schedule_next_rechoke ∷ [];
          };
          returns = rw (room, enough) refl;
          flow =
              IsFlow-steady told _ k.flow k.flow.counted (record { pieces = refl; next = refl })
                refl refl;
          bits = inr (v, k.same_bits);
          state = inr (refl, all_there enough);
        }
        | inr more ↦
            let (after, done, next) =
              fill_peer_request_window-Keeps storage accepts alive now p told k.flow in
            record {
              after = after;
              returns = rw (room, more) done;
              flow = next.flow;
              bits = inr (v, next.same_bits ∙ k.same_bits);
              state = inl (next.same_state ∙ k.same_state);
            }
      ]

  pub Steps-map :
      {V W : Type 0} (index : ℕ) (t : TorrentActor P F) (result : Option (TorrentActor P F))
      → (V → W)
      → Steps V index t result
      → Steps W index t result
  Steps-map index t result to s = record {
    after = s.after;
    returns = s.returns;
    flow = s.flow;
    bits = elim s.bits [ inl same ↦ inl same | inr (v, new) ↦ inr (to v, new) ];
    state = s.state;
  }

  -- Steps after others that keep the pieces.
  pub Steps-after :
      {V : Type 0} (index : ℕ) (t u : TorrentActor P F) (result : Option (TorrentActor P F))
      → IsKept t u
      → Steps V index u result
      → Steps V index t result
  Steps-after index t u result k s = record {
    after = s.after;
    returns = s.returns;
    flow = s.flow;
    bits = elim s.bits [
      | inl same ↦ inl (same ∙ k.same_bits)
      | inr (v, new) ↦ inr (v, new ∙ ap (λ l. set l index true) k.same_bits)
    ];
    state = elim s.state [ inl same ↦ inl (same ∙ k.same_state) | inr full ↦ inr full ];
  }

  pub piece_completed-Steps :
      (p : P) (index : ℕ) (info : InfoDict) (t : TorrentActor P F)
      → IsReturning storage index
      → IsFlow t
      → t.info_dict ≡ some info
      → index < info.piece_count
      → Steps
          (IsValidated storage index t.storage)
          index
          t
          (piece_completed storage accepts alive now p index info.piece_count t)
  unfolding piece_completed
  piece_completed-Steps p index info t r f i inside =
      let s = t.piece_scheduler in
      let cleared : TorrentActor P F = record t {
        piece_scheduler = (remove_piece_blocks s index).1;
      } in
      let first =
        IsKept-steady t cleared f (remove_piece_blocks-IsCounted s index f.counted)
          (remove_piece_blocks-IsSteady s index) refl refl refl in
      go cleared first (storage.validate_and_commit index t.storage) refl
    where
      go :
          (cleared : TorrentActor P F)
          → IsKept t cleared
          → (x : Option (Bool × F)) → storage.validate_and_commit index t.storage ≡ x
          → Steps
              (IsValidated storage index t.storage)
              index
              t
              (committed storage accepts alive now p index info.piece_count cleared x)
      go cleared k none e =
          let (x, done) = r.validates t.storage in let impossible : ⊥ = cc in absurd impossible
      go cleared k (some (false, g)) e =
          let next =
            IsKept-beside cleared (record cleared { storage = g }) k.flow refl refl refl refl in
          let both = IsKept-trans t cleared _ k next in
          Steps-Keeps index t _ _ both.same_bits both.same_state
            (fill_peer_request_window-Keeps storage accepts alive now p _ next.flow)
      go cleared k (some (true, g)) e =
          let next =
            IsKept-beside cleared (record cleared { storage = g }) k.flow refl refl refl refl in
          let both = IsKept-trans t cleared _ k next in
          Steps-after index t _ _ both
            (piece_verified-Steps p index info _ (g, e) next.flow (both.same_info ∙ i) inside)

-- ===== src/Torrent/PieceFlow/Handling.antt =====
-- `handle_incoming_piece` as a whole: the invariant, and what it takes for a piece to be complete.
use tortillas.Prelude.{
  ℕ, ◌-◌, ◌/◌, ◌%◌, ◌<◌, ◌≡◌, refl, ◌∙◌, arith, min, Bool, true, false, not, ◌&&◌, Option, none,
  some, inl, inr, List, leb, eqb, PartialEq, ◌==◌, nat_eq, Bool-cases,
}
use tortillas.Pieces.Scheduler.{
  block_size, div_ceil, is_duplicate_block, is_piece_complete, mark_block_complete,
}
use tortillas.Pieces.Scheduler.Counts.{mark_block_complete-IsCounted}
use tortillas.Pieces.Scheduler.Steady.{mark_block_complete-IsSteady}
use tortillas.Torrent.PieceFlow.{
  InfoDict, Command, cancel_piece, TorrentActor, PieceStorage, concrete_piece_len, is_refused,
  has_peer, cancel_for, block_written, stored, with_length, with_info, handle_incoming_piece,
}
use tortillas.Torrent.PieceFlow.Filling.{
  IsFlow, IsKept, IsKept-refl, IsKept-trans, IsKept-steady, IsKept-beside, tell-IsKept,
  fill_peer_request_window-Keeps,
}
use tortillas.Torrent.PieceFlow.Completing.{
  IsValidated, IsVerified, IsReturning, Steps, Steps-Keeps, Steps-map, Steps-after,
  piece_completed-Steps,
}

module _ {P F : Type 0} ⦃e : PartialEq P⦄ (storage : PieceStorage F) (accepts : P → Command → Bool)
    (alive : P → Bool) (now : ℕ) where
  cancel_for-IsKept :
      (p : P) (assigned : Option P) (c : Command) (t : TorrentActor P F)
      → IsFlow t
      → IsKept t (cancel_for storage accepts alive now p assigned c t)
  cancel_for-IsKept p none c t f = IsKept-refl t f
  cancel_for-IsKept p (some q) c t f = elim (Bool-cases (not (q == p) && has_peer q t.peers)) [
    | inl other ↦ rw other (tell-IsKept storage accepts alive now q c t f)
    | inr own ↦ rw own (IsKept-refl t f)
  ]

  block_written-Steps :
      (p : P) (index off len piece_len : ℕ) (info : InfoDict) (t : TorrentActor P F)
      → IsReturning storage index
      → IsFlow t
      → t.info_dict ≡ some info
      → index < info.piece_count
      → Steps
          (IsValidated storage index t.storage)
          index
          t
          (block_written storage accepts alive now p index off len piece_len info.piece_count t)
  unfolding block_written
  block_written-Steps p index off len piece_len info t r f i inside =
      let s = t.piece_scheduler in
      let marked = mark_block_complete s index (off / block_size) (div_ceil piece_len block_size) in
      let u : TorrentActor P F = record t { piece_scheduler = marked.1 } in
      let first =
        IsKept-steady t u f
          (mark_block_complete-IsCounted s index (off / block_size) (div_ceil piece_len block_size)
            f.counted)
          (mark_block_complete-IsSteady s index (off / block_size) (div_ceil piece_len block_size))
          refl refl refl in
      let c = cancel_piece index off len in
      let v = cancel_for storage accepts alive now p marked.0 c u in
      let second = IsKept-trans t u v first (cancel_for-IsKept p marked.0 c u first.flow) in
      let same : v.storage ≡ t.storage = cancel_for-storage p marked.0 c u in
      elim (Bool-cases (is_piece_complete v.piece_scheduler index)) [
        | inl complete ↦ rw complete (
            Steps-after storage accepts alive now index t v _ second (
              Steps-map storage accepts alive now index v _ (λ h. rw same at h)
                (piece_completed-Steps storage accepts alive now p index info v r second.flow
                  (second.same_info ∙ i) inside)))
        | inr partial ↦ rw partial (
            Steps-Keeps storage accepts alive now index t v _ second.same_bits second.same_state
              (fill_peer_request_window-Keeps storage accepts alive now p v second.flow))
      ]
    where
      cancel_for-storage :
          (p : P) (assigned : Option P) (c : Command) (t : TorrentActor P F)
          → (cancel_for storage accepts alive now p assigned c t).storage ≡ t.storage
      cancel_for-storage p none c t = refl
      cancel_for-storage p (some q) c t = elim (Bool-cases (not (q == p) && has_peer q t.peers)) [
        | inl other ↦ elim (Bool-cases (accepts q c)) [
          | inl taken ↦ rw (other, taken) refl
          | inr full ↦ rw (other, full) refl
        ]
        | inr own ↦ rw own refl
      ]

  with_length-Steps :
      (p : P) (index off : ℕ) (block : List ℕ) (piece_len : ℕ) (info : InfoDict)
      (t : TorrentActor P F)
      → IsReturning storage index
      → IsFlow t
      → t.info_dict ≡ some info
      → index < info.piece_count
      → Steps (IsVerified storage index off block t.storage) index t (
          with_length storage accepts alive now p index off block info.piece_count t
            (some piece_len))
  with_length-Steps p index off block piece_len info t r f i inside =
      elim (Bool-cases (is_refused piece_len off block)) [
        | inl refused ↦ rw refused (
            Steps-Keeps storage accepts alive now index t t (some t) refl refl
              (t, refl, IsKept-refl t f))
        | inr good ↦
            elim (Bool-cases (is_duplicate_block t.piece_scheduler index (off / block_size))) [
              | inl old ↦
                  rw (good, old)
                    (Steps-Keeps storage accepts alive now index t t (some t) refl refl
                      (t, refl, IsKept-refl t f))
              | inr new ↦ rw (good, new) (go (storage.write_block index off block t.storage) refl)
            ]
      ]
    where
      go :
          (x : Option (Bool × F))
          → storage.write_block index off block t.storage ≡ x
          → Steps (IsVerified storage index off block t.storage) index t (
              stored storage accepts alive now p index off
                (min (piece_len - off) block_size)
                piece_len
                info.piece_count
                t
                x)
      go none e =
          let (x, done) = r.writes off block t.storage in
          let impossible : ⊥ = cc in absurd impossible
      go (some (false, g)) e =
          let u : TorrentActor P F = record t { storage = g } in
          Steps-Keeps storage accepts alive now index t u (some u) refl refl
            (u, refl, IsKept-refl u (IsKept-beside t u f refl refl refl refl).flow)
      go (some (true, g)) e =
          let u : TorrentActor P F = record t { storage = g } in
          let k = IsKept-beside t u f refl refl refl refl in
          let s =
            block_written-Steps p index off (min (piece_len - off) block_size) piece_len info u r
              k.flow i inside in
          Steps-map storage accepts alive now index t _ (λ v. (g, e, v))
            (record {
              after = s.after;
              returns = s.returns;
              flow = s.flow;
              bits = s.bits;
              state = s.state;
            })

  concrete_piece_len-some :
      (info : InfoDict) (index : ℕ)
      → 0 < info.piece_length
      → (n : ℕ) × (concrete_piece_len info index ≡ some n)
  unfolding concrete_piece_len
  concrete_piece_len-some info index pos = elim (Bool-cases (eqb index (info.piece_count - 1))) [
    | inr inner ↦ (info.piece_length, rw inner refl)
    | inl last ↦
        let divides : eqb info.piece_length 0 ≡ false = ground arith in
        elim (Bool-cases (eqb (info.total_length % info.piece_length) 0)) [
          | inl whole ↦ (info.piece_length, rw (last, divides, whole) refl)
          | inr rest ↦ (info.total_length % info.piece_length, rw (last, divides, rest) refl)
        ]
  ]

  -- A torrent is in order where its request counts are right, its next piece is the first incomplete one,
  -- its bitfield is that of the scheduler, and an info dictionary that it has gives its pieces a length
  -- above 0 and is of as many pieces as the bitfield has bits. If the storage returns at the piece of a
  -- block, handling the block, whatever it is and whoever sent it, returns and leaves the torrent in order.
  -- At most that piece is new, and only if the block was written and the piece was then validated; the
  -- state only changes to seeding, and then every piece is there.
  pub handle_incoming_piece-Steps :
      (p : P) (index off : ℕ) (block : List ℕ) (t : TorrentActor P F)
      → ((info : InfoDict)
          → t.info_dict ≡ some info
          → index < info.piece_count
          → IsReturning storage index)
      → IsFlow t
      → Steps
          (IsVerified storage index off block t.storage)
          index
          t
          (handle_incoming_piece storage accepts alive now p index off block t)
  unfolding handle_incoming_piece
  handle_incoming_piece-Steps p index off block t r f = go t.info_dict refl
    where
      nothing : Steps (IsVerified storage index off block t.storage) index t (some t)
      nothing =
          Steps-Keeps storage accepts alive now index t t (some t) refl refl
            (t, refl, IsKept-refl t f)

      go :
          (info : Option InfoDict)
          → t.info_dict ≡ info
          → Steps
              (IsVerified storage index off block t.storage)
              index
              t
              (with_info storage accepts alive now p index off block t info)
      go none e = nothing
      go (some info) e = elim (Bool-cases (leb info.piece_count index)) [
        | inl outside ↦ rw outside nothing
        | inr inside ↦
            let (n, known) = concrete_piece_len-some info index (f.sized info e).0 in
            rw (inside, known)
              (with_length-Steps p index off block n info t (r info e (ground (arith, inside))) f e
                (ground (arith, inside)))
      ]

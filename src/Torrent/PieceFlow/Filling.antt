-- ===== src/Torrent/PieceFlow/Filling.antt =====
-- Filling a peer's request window, and telling peers, keep the torrent's pieces in order.
use tortillas.Prelude.{
  ℕ, ◌-◌, ◌<◌, ◌≡◌, refl, sym, ap, ◌∙◌, Bool, not, ◌||◌, Option, none, some, inl, inr, List, [],
  ◌∷◌, ◌++◌, length, eqb, PartialEq, Bool-cases,
}
use tortillas.Pieces.Scheduler.{BlockRequest, offset, in_flight_for_peer, release_peer_request}
use tortillas.Pieces.Scheduler.Counts.{IsCounted, release_peer_request-IsCounted}
use tortillas.Pieces.Scheduler.Progress.{IsFront}
use tortillas.Pieces.Scheduler.Call.{requests_for_peer-Serves}
use tortillas.Pieces.Scheduler.Steady.{IsSteady, release_peer_request-IsSteady}
use tortillas.Torrent.PieceFlow.{
  InfoDict, Command, need_piece, told, TorrentActor, PieceStorage, is_downloading, is_ready,
  has_peer, tell, tell_requests, fill_with, fill_peer_request_window_to, fill_peer_request_window,
}

module _ {P F : Type 0} ⦃e : PartialEq P⦄ where
  -- The requests are counted right, the next piece is the first incomplete one, the pieces that peers
  -- are told of are the scheduler's, and there are as many as the info dictionary has, of some length.
  pub record IsFlow (t : TorrentActor P F) : Type 0 where
    pub counted : IsCounted t.piece_scheduler
    pub front : IsFront t.piece_scheduler.completed_pieces t.piece_scheduler.next_piece
    pub synced : t.bitfield ≡ t.piece_scheduler.completed_pieces
    pub sized :
        (info : InfoDict)
        → t.info_dict ≡ some info
        → (0 < info.piece_length) × (length t.bitfield ≡ info.piece_count)

  -- A torrent with the same pieces, and right counts, is in order too.
  pub IsFlow-steady :
      (t u : TorrentActor P F)
      → IsFlow t
      → IsCounted u.piece_scheduler
      → IsSteady t.piece_scheduler u.piece_scheduler
      → u.bitfield ≡ t.bitfield
      → u.info_dict ≡ t.info_dict
      → IsFlow u
  IsFlow-steady t u f c s bits info = record {
    counted = c;
    front = rw (s.pieces, s.next) f.front;
    synced = bits ∙ f.synced ∙ sym s.pieces;
    sized = λ i h. rw bits (f.sized i (sym info ∙ h));
  }

  pub record IsKept (t : TorrentActor P F) (u : TorrentActor P F) : Type 0 where
    pub flow : IsFlow u
    pub same_bits : u.bitfield ≡ t.bitfield
    pub same_info : u.info_dict ≡ t.info_dict
    pub same_state : u.state ≡ t.state

  pub IsKept-refl : (t : TorrentActor P F) → IsFlow t → IsKept t t
  IsKept-refl t f = record { flow = f; same_bits = refl; same_info = refl; same_state = refl }

  pub IsKept-trans : (t u v : TorrentActor P F) → IsKept t u → IsKept u v → IsKept t v
  IsKept-trans t u v h k = record {
    flow = k.flow;
    same_bits = k.same_bits ∙ h.same_bits;
    same_info = k.same_info ∙ h.same_info;
    same_state = k.same_state ∙ h.same_state;
  }

  pub IsKept-steady :
      (t u : TorrentActor P F)
      → IsFlow t
      → IsCounted u.piece_scheduler
      → IsSteady t.piece_scheduler u.piece_scheduler
      → u.bitfield ≡ t.bitfield
      → u.info_dict ≡ t.info_dict
      → u.state ≡ t.state
      → IsKept t u
  IsKept-steady t u f c s bits info state = record {
    flow = IsFlow-steady t u f c s bits info;
    same_bits = bits;
    same_info = info;
    same_state = state;
  }

  -- A torrent that differs in other fields.
  pub IsKept-beside :
      (t u : TorrentActor P F)
      → IsFlow t
      → u.piece_scheduler ≡ t.piece_scheduler
      → u.bitfield ≡ t.bitfield
      → u.info_dict ≡ t.info_dict
      → u.state ≡ t.state
      → IsKept t u
  IsKept-beside t u f same bits info state =
      IsKept-steady t u f (rw same f.counted)
        (record { pieces = ap (λ s. s.completed_pieces) same; next = ap (λ s. s.next_piece) same })
        bits info state

  module _ (storage : PieceStorage F) (accepts : P → Command → Bool) (alive : P → Bool)
      (now : ℕ) where
    pub tell-IsKept :
        (p : P) (c : Command) (t : TorrentActor P F)
        → IsFlow t
        → IsKept t (tell storage accepts alive now p c t)
    tell-IsKept p c t f = elim (Bool-cases (accepts p c)) [
      | inl taken ↦ rw taken (IsKept-beside t _ f refl refl refl refl)
      | inr full ↦ rw full (IsKept-refl t f)
    ]

    tell_requests-IsKept :
        (p : P) (requests : List BlockRequest) (t : TorrentActor P F)
        → IsFlow t
        → IsKept t (tell_requests storage accepts alive now p requests t)
    unfolding tell_requests
    tell_requests-IsKept p [] t f = IsKept-refl t f
    tell_requests-IsKept p (r ∷ requests) t f =
        elim (Bool-cases (accepts p (need_piece r.piece_index (offset r) r.length))) [
          | inl taken ↦
              let first =
                IsKept-beside t
                  (record t {
                    sent = t.sent ++ told p (need_piece r.piece_index (offset r) r.length) ∷ [];
                  })
                  f refl refl refl refl in
              rw taken (IsKept-trans t _ _ first (tell_requests-IsKept p requests _ first.flow))
          | inr full ↦
              let s = t.piece_scheduler in
              let first =
                IsKept-steady t
                  (record t { piece_scheduler = release_peer_request s p r.piece_index (offset r) })
                  f (release_peer_request-IsCounted s p r.piece_index (offset r) f.counted)
                  (release_peer_request-IsSteady s p r.piece_index (offset r)) refl refl refl in
              rw full (IsKept-trans t _ _ first (tell_requests-IsKept p requests _ first.flow))
        ]

    -- A step that does not panic and keeps the torrent's pieces.
    abbrev pub Keeps : TorrentActor P F → Option (TorrentActor P F) → Type 0
    Keeps t result = (u : TorrentActor P F) × (result ≡ some u) × IsKept t u

    fill_with-Keeps :
        (p : P) (target : ℕ) (t : TorrentActor P F) (info : Option InfoDict)
        → IsFlow t
        → Keeps t (fill_with storage accepts alive now p target t info)
    fill_with-Keeps p target t none f = (t, refl, IsKept-refl t f)
    fill_with-Keeps p target t (some info) f =
        let s = t.piece_scheduler in
        let slots = target - in_flight_for_peer s p in
        elim (Bool-cases (has_peer p t.peers)) [
          | inr absent ↦ rw absent (t, refl, IsKept-refl t f)
          | inl present ↦ elim (Bool-cases (eqb slots 0)) [
            | inl full ↦ rw (present, full) (t, refl, IsKept-refl t f)
            | inr free ↦
                let (requests, s', done, served) =
                  requests_for_peer-Serves s p now slots info.piece_length info.total_length
                    f.counted f.front.in_range in
                let first =
                  IsKept-steady t (record t { piece_scheduler = s' }) f served.counted
                    (record {
                      pieces = served.others_kept.same_pieces;
                      next = served.others_kept.same_next;
                    })
                    refl refl refl in
                (
                  tell_requests storage accepts alive now p requests
                      (record t { piece_scheduler = s' }),
                  rw (present, free, done) refl,
                  IsKept-trans t _ _ first (tell_requests-IsKept p requests _ first.flow),
                )
          ]
        ]

    pub fill_peer_request_window-Keeps :
        (p : P) (t : TorrentActor P F)
        → IsFlow t
        → Keeps t (fill_peer_request_window storage accepts alive now p t)
    unfolding fill_peer_request_window fill_peer_request_window_to
    fill_peer_request_window-Keeps p t f =
        elim (Bool-cases (not (is_downloading t.state) || not (is_ready t))) [
          | inl idle ↦ rw idle (t, refl, IsKept-refl t f)
          | inr active ↦ rw active (fill_with-Keeps p t.max_in_flight_per_peer t t.info_dict f)
        ]

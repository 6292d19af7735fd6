-- ===== src/Torrent/Choking/Flow.antt =====
-- The messages of `rechoke_peers`, and the peers' states after them.
use tortillas.Prelude.{
  ℕ, zero, suc, ◌≡◌, ◌↔◌, refl, ◌∙◌, arith, Bool, true, false, not, some, inl, inr, List, [], ◌∷◌,
  get_elem?, All, All-get_elem?, bool_eqb, bool_eqb_iff, if◌then◌else◌, Bool-cases, list_eqb_iff,
  nat_eq, string_eq,
}
use tortillas.Torrent.Choking.{PeerId, PeerStats, same_peer, contains, set_choked}

same_peer_iff : (a b : PeerId) → (same_peer a b ≡ true) ↔ (a ≡ b)
same_peer_iff a b = ground (arith, string_eq.is_same_iff a.client b.client, list_eqb_iff a.id b.id)

-- Whether a peer is choked after the messages.
unfoldable pub choked_after : PeerId → Bool → List (PeerId × Bool) → Bool
choked_after id choked [] = choked
choked_after id choked ((peer, state) ∷ messages) =
    choked_after id (if same_peer peer id then state else choked) messages

-- No two peers have one id.
abbrev pub IsDistinct : List PeerStats → Type 0
IsDistinct [] = Unit {0}
IsDistinct (p ∷ peers) = All (λ q. same_peer q.id p.id ≡ false) peers × IsDistinct peers

module _ (present unchoked : List PeerId) where
  -- A peer that is not among those of the messages keeps its state.
  choked_after_other :
      (peers : List PeerStats) (id : PeerId) (choked : Bool)
      → All (λ q. same_peer q.id id ≡ false) peers
      → choked_after id choked (set_choked present unchoked peers) ≡ choked
  unfolding set_choked choked_after
  choked_after_other [] id choked h = refl
  choked_after_other (p ∷ peers) id choked (h, hs) =
      ground (arith, choked_after_other peers id choked hs)

  set_choked_first :
      (stats : PeerStats) (peers : List PeerStats)
      → All (λ q. same_peer q.id stats.id ≡ false) peers
      → contains present stats.id ≡ true
      → choked_after stats.id stats.client_choking (set_choked present unchoked (stats ∷ peers))
        ≡ not (contains unchoked stats.id)
  unfolding set_choked choked_after
  set_choked_first stats peers other there =
      let choked = not (contains unchoked stats.id) in
      elim (Bool-cases (bool_eqb stats.client_choking choked)) [
        | inl same ↦ rw same (
            choked_after_other peers stats.id stats.client_choking other
            ∙ (bool_eqb_iff stats.client_choking choked).0 same)
        | inr differs ↦ rw differs (
            rw there (
              rw ((same_peer_iff stats.id stats.id).1 refl, choked_after)
                (choked_after_other peers stats.id choked other)))
      ]

  set_choked_rest :
      (p : PeerStats) (peers : List PeerStats) (id : PeerId) (choked : Bool)
      → same_peer id p.id ≡ false
      → choked_after id choked (set_choked present unchoked (p ∷ peers))
        ≡ choked_after id choked (set_choked present unchoked peers)
  unfolding set_choked choked_after
  set_choked_rest p peers id choked differs =
      let other : same_peer p.id id ≡ false =
        ground (arith, same_peer_iff id p.id, same_peer_iff p.id id) in
      elim (Bool-cases (bool_eqb p.client_choking (not (contains unchoked p.id)))) [
        | inl same ↦ rw same refl
        | inr change ↦ rw change (elim (Bool-cases (contains present p.id)) [
          | inl there ↦ rw there (rw (other, choked_after) refl)
          | inr gone ↦ rw gone refl
        ])
      ]

  -- After the messages, a peer that is there is choked unless it is among the unchoked, whatever its
  -- state was.
  set_choked_lem :
      (peers : List PeerStats) (i : ℕ) (stats : PeerStats)
      → IsDistinct peers
      → get_elem? peers i ≡ some stats
      → contains present stats.id ≡ true
      → choked_after stats.id stats.client_choking (set_choked present unchoked peers)
        ≡ not (contains unchoked stats.id)
  set_choked_lem [] i stats d at there = cc
  set_choked_lem (p ∷ peers) zero stats (other, d) at there =
      let e : p ≡ stats = cc in rw e (set_choked_first stats peers (rw (← e) other) there)
  set_choked_lem (p ∷ peers) (suc i) stats (other, d) at there =
      set_choked_rest p peers stats.id stats.client_choking (All-get_elem? _ peers i stats other at)
      ∙ set_choked_lem peers i stats d at there

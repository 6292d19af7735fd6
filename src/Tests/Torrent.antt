-- ===== src/Tests/Torrent.antt =====
-- torrent/choking.rs at concrete inputs.
use tortillas.Prelude.{
  ℕ, ◌≡◌, ◌^◌, ◌-◌, ◌++◌, map, take, refl, arith, true, false, some, List, [], ◌∷◌, string_eq,
  nat_eq,
}
use tortillas.Prelude.Sort.{sort_by, insert_by, lex_lt}
use tortillas.Torrent.State.{downloading}
use tortillas.Torrent.Choking.{
  PeerId, PeerStats, ChokingScheduler, ChokingDecision, candidates_of, interested_of,
  select_unchoked_peers, decide, comes_before, rate_for, fill_slots, with_optimistic,
}
use tortillas.Torrent.Choking.Slots.{IsSelection, select_unchoked_peers_lem}
use tortillas.Torrent.Choking.Rotation.{Reaches, optimistic_candidates, optimistic-Reaches}

abbrev peer : ℕ → ℕ → PeerStats
peer n rate = record {
  id = record { client = "Transmission"; id = n ∷ [] };
  interested = true;
  client_choking = true;
  download_rate = rate;
  upload_rate = 0;
}

abbrev peers : List PeerStats
peers = peer 1 10 ∷ peer 2 30 ∷ record (peer 3 99) { interested = false } ∷ peer 4 20 ∷ []

abbrev fastest_two : ChokingDecision
fastest_two = record {
  unchoked = (peer 2 30).id ∷ (peer 1 10).id ∷ [];
  optimistic = some (peer 1 10).id;
}

selects : select_unchoked_peers peers downloading 2 1 ≡ some fastest_two
unfolding select_unchoked_peers fill_slots with_optimistic candidates_of interested_of comes_before
    rate_for sort_by insert_by lex_lt
selects = refl

select_unchoked_peers_lem_example :
    (decision : ChokingDecision) × (select_unchoked_peers peers downloading 2 1 ≡ some decision)
    × IsSelection downloading (interested_of peers) 2 decision
select_unchoked_peers_lem_example = select_unchoked_peers_lem peers downloading 2 1

abbrev scheduler : ChokingScheduler
scheduler = record {
  upload_slots = 2;
  optimistic_unchoke_rounds = 3;
  optimistic_index = 2 ^ 64 - 1;
  rounds_since_optimistic_rotation = 2;
}

optimistic-Reaches_example :
    (t after : ChokingScheduler) × (d : ChokingDecision) × Reaches peers downloading scheduler t
    × (decide t peers downloading ≡ some (d, after))
    × (d.optimistic ≡ some (peer 1 10).id)
    × (d.unchoked
        ≡ map (λ p. p.id) (take (scheduler.upload_slots - 1) (candidates_of peers downloading))
          ++ (peer 1 10).id ∷ [])
unfolding candidates_of interested_of comes_before rate_for sort_by insert_by lex_lt
    optimistic_candidates
optimistic-Reaches_example =
    optimistic-Reaches peers downloading scheduler 1 (peer 1 10)
      (record { rounds_lt = omega arith; index_lt = omega arith }) (omega arith) (omega arith)
      (omega arith) refl

abbrev ids : List PeerId
ids = (peer 2 30).id ∷ (peer 1 10).id ∷ []

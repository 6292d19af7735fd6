-- ===== src/Dht/Actor/Handles.antt =====
-- The handles of lookups that are dropped: `start_lookup` aborts the one that is there.
use tortillas.Prelude.{
  ℕ, ◌≡◌, refl, ◌∙◌, Bool, false, Option, none, some, inl, inr, List, [], ◌∷◌, ◌++◌, Bool-cases,
  list_eq, nat_eq, is_same_refl,
}
use tortillas.Prelude.Map.{Map, lookup, remove, lookup-remove}
use tortillas.Dht.Id.{NodeId}
use tortillas.Dht.Routing.{closest}
use tortillas.Dht.Lookup.{LookupResult}
use tortillas.Dht.Actor.{
  LookupTask, DhtActor, InfoReply, is_private, may_look_up, unavailable, DhtMessage, dropped,
  lookup_finished, is_some, is_empty, schedule_lookup, start_lookup, remove_torrent_registration,
  forward_peers, refresh, looked_up,
}

-- The lookups whose handles a message makes the actor drop.
abbrev pub dropped_by : DhtMessage → DhtActor → List (NodeId × LookupTask)
dropped_by (lookup_finished info_hash result taken) d =
    dropped info_hash (lookup info_hash d.lookup_tasks)
dropped_by _ d = []

-- No handle is dropped, and the state of the node stays as it is.
abbrev pub IsUnmoved : DhtActor → DhtActor → Type 0
IsUnmoved d after = (after.untracked ≡ d.untracked) × (after.state ≡ d.state)

schedule_lookup-IsUnmoved :
    (d : DhtActor) (info_hash : NodeId)
    → is_some (lookup info_hash d.lookup_tasks) ≡ false
    → IsUnmoved d (schedule_lookup d info_hash)
unfolding schedule_lookup
schedule_lookup-IsUnmoved d info_hash idle = (nothing (lookup info_hash d.lookup_tasks) idle, refl)
  where
    nothing :
        (task : Option LookupTask)
        → is_some task ≡ false
        → dropped info_hash task ++ d.untracked ≡ d.untracked
    nothing none e = refl
    nothing (some task) e = cc

pub idle_after :
    (tasks : Map NodeId LookupTask) (info_hash : NodeId)
    → is_some (lookup info_hash (remove info_hash tasks)) ≡ false
idle_after tasks info_hash =
    rw (lookup-remove info_hash info_hash tasks) (rw (is_same_refl info_hash) refl)

pub start_lookup-IsUnmoved :
    (d : DhtActor) (info_hash : NodeId) → IsUnmoved d (start_lookup d info_hash)
unfolding start_lookup
start_lookup-IsUnmoved d info_hash =
    let d' : DhtActor = record d { lookup_tasks = remove info_hash d.lookup_tasks } in
    elim (Bool-cases (is_some (lookup info_hash d.torrents))) [
      | inr absent ↦ rw absent (refl, refl)
      | inl there ↦ elim (Bool-cases (is_empty (closest d.state.routing info_hash d.bucket_size))) [
        | inl alone ↦
            rw (there, alone)
              (schedule_lookup-IsUnmoved d' info_hash (idle_after d.lookup_tasks info_hash))
        | inr known ↦ rw (there, known) (refl, refl)
      ]
    ]

pub refresh-IsUnmoved : (hashes : List NodeId) (d : DhtActor) → IsUnmoved d (refresh hashes d)
unfolding refresh
refresh-IsUnmoved [] d = (refl, refl)
refresh-IsUnmoved (h ∷ hashes) d =
    let (a, b) = start_lookup-IsUnmoved d h in
    let (rest, rests) = refresh-IsUnmoved hashes (start_lookup d h) in (rest ∙ a, rests ∙ b)

pub looked_up-IsUnmoved :
    (d : DhtActor) (info_hash : NodeId) (reply : InfoReply) (port : Option ℕ)
    → IsUnmoved d (looked_up d info_hash reply port)
unfolding remove_torrent_registration
looked_up-IsUnmoved d info_hash reply none = (refl, refl)
looked_up-IsUnmoved d info_hash is_private (some port) = (refl, refl)
looked_up-IsUnmoved d info_hash may_look_up (some port) = start_lookup-IsUnmoved d info_hash
looked_up-IsUnmoved d info_hash unavailable (some port) = (refl, refl)

pub forward_peers-IsUnmoved :
    (d : DhtActor) (info_hash : NodeId) (result : LookupResult) (taken : Bool) (port : Option ℕ)
    → is_some (lookup info_hash d.lookup_tasks) ≡ false
    → IsUnmoved d (forward_peers d info_hash result taken port)
unfolding forward_peers schedule_lookup
forward_peers-IsUnmoved d info_hash result taken none idle = (refl, refl)
forward_peers-IsUnmoved d info_hash result taken (some port) idle =
    let same = schedule_lookup-IsUnmoved d info_hash idle in
    elim (Bool-cases (is_empty result.peers)) [
      | inl none_ ↦ rw none_ same
      | inr some_ ↦ elim (Bool-cases taken) [
        | inl told ↦ rw (some_, told) same
        | inr dead ↦ rw (some_, dead) (refl, refl)
      ]
    ]

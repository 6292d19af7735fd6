-- ===== src/Dht/Actor/Tasks.antt =====
-- Registered torrents and lookup tasks.
use tortillas.Prelude.{
  ℕ, ◌≡◌, ◌≢◌, refl, sym, ap, ◌∙◌, arith, Bool, true, false, Option, none, some, inl, inr, List, [],
  ◌∷◌, ◌++◌, length, All, Bool-cases, ◌==◌, list_eq, nat_eq, list_eqb_iff, is_same_refl,
}
use tortillas.Prelude.Map.{Map, lookup, insert, remove, lookup-insert, lookup-remove}
use tortillas.Dht.Id.{NodeId, dht_id_len}
use tortillas.Dht.Routing.{RoutingTable, closest}
use tortillas.Dht.Routing.Tables.{IsTable}
use tortillas.Dht.Routing.Tables.Changes.{record_failure_lem}
use tortillas.Dht.Lookup.{LookupResult}
use tortillas.Dht.Peers.{Announced}
use tortillas.Dht.Actor.Handles.{
  dropped_by, idle_after, start_lookup-IsUnmoved, refresh-IsUnmoved, looked_up-IsUnmoved,
  forward_peers-IsUnmoved,
}
use tortillas.Dht.Actor.Datagrams.{HasIdsInMessage, datagram-IsBeside}
use tortillas.Dht.Actor.{
  LookupTask, looks_up, sleeps, DhtActor, InfoReply, is_private, may_look_up, unavailable,
  DhtMessage, incoming_datagram, dropped, register_torrent, unregister_torrent, lookup_torrent,
  refresh_torrents, lookup_finished, is_some, is_empty, schedule_lookup, start_lookup,
  remove_torrent_registration, record_failures, forward_peers, refresh, keys, looked_up, handle,
}

-- A torrent that is registered has a lookup task, and no other has one.
abbrev pub IsScheduled : DhtActor → Type 0
IsScheduled d = (h : NodeId) → is_some (lookup h d.torrents) ≡ is_some (lookup h d.lookup_tasks)

-- It may be otherwise for one torrent.
abbrev IsScheduledBut : NodeId → DhtActor → Type 0
IsScheduledBut info_hash d =
    (h : NodeId)
    → (info_hash == h) ≡ false
    → is_some (lookup h d.torrents) ≡ is_some (lookup h d.lookup_tasks)

-- The ids of nodes in a message have the length of node ids.
abbrev pub HasIds : DhtMessage → Type 0
HasIds (incoming_datagram message source r completed) = HasIdsInMessage message
HasIds (lookup_finished info_hash result taken) =
    All (λ node. length node ≡ dht_id_len) result.failed_nodes
HasIds _ = Unit

-- A new task for a registered torrent.
insert-IsScheduled :
    (torrents : Map NodeId ℕ) (tasks : Map NodeId LookupTask) (info_hash : NodeId)
    (task : LookupTask)
    → is_some (lookup info_hash torrents) ≡ true
    → ((h : NodeId)
        → (info_hash == h) ≡ false
        → is_some (lookup h torrents) ≡ is_some (lookup h tasks))
    → (h : NodeId) → is_some (lookup h torrents) ≡ is_some (lookup h (insert info_hash task tasks))
insert-IsScheduled torrents tasks info_hash task there others h =
    elim (Bool-cases (info_hash == h)) [
      | inl same ↦
          let e : info_hash ≡ h = (list_eqb_iff info_hash h).0 same in
          rw (lookup-insert info_hash h task tasks) (rw same (rw e at there))
      | inr other ↦ rw (lookup-insert info_hash h task tasks) (rw other (others h other))
    ]

-- Of a torrent that is not registered, the task goes.
remove-IsScheduled :
    (torrents : Map NodeId ℕ) (tasks : Map NodeId LookupTask) (info_hash : NodeId)
    → is_some (lookup info_hash torrents) ≡ false
    → ((h : NodeId)
        → (info_hash == h) ≡ false
        → is_some (lookup h torrents) ≡ is_some (lookup h tasks))
    → (h : NodeId) → is_some (lookup h torrents) ≡ is_some (lookup h (remove info_hash tasks))
remove-IsScheduled torrents tasks info_hash gone others h = elim (Bool-cases (info_hash == h)) [
  | inl same ↦
      let e : info_hash ≡ h = (list_eqb_iff info_hash h).0 same in
      rw (lookup-remove info_hash h tasks) (rw same (rw e at gone))
  | inr other ↦ rw (lookup-remove info_hash h tasks) (rw other (others h other))
]

-- A torrent that is not registered and has no task.
absent-IsScheduled :
    (torrents : Map NodeId ℕ) (tasks : Map NodeId LookupTask) (info_hash : NodeId)
    → is_some (lookup info_hash torrents) ≡ false
    → is_some (lookup info_hash tasks) ≡ false
    → ((h : NodeId)
        → (info_hash == h) ≡ false
        → is_some (lookup h torrents) ≡ is_some (lookup h tasks))
    → (h : NodeId) → is_some (lookup h torrents) ≡ is_some (lookup h tasks)
absent-IsScheduled torrents tasks info_hash gone idle others h =
    elim (Bool-cases (info_hash == h)) [
      | inl same ↦
          let e : info_hash ≡ h = (list_eqb_iff info_hash h).0 same in rw e at (gone ∙ sym idle)
      | inr other ↦ others h other
    ]

gone_after :
    (torrents : Map NodeId ℕ) (info_hash : NodeId)
    → is_some (lookup info_hash (remove info_hash torrents)) ≡ false
gone_after torrents info_hash =
    rw (lookup-remove info_hash info_hash torrents) (rw (is_same_refl info_hash) refl)

still_there :
    (torrents : Map NodeId ℕ) (info_hash h : NodeId)
    → (info_hash == h) ≡ false
    → is_some (lookup h (remove info_hash torrents)) ≡ is_some (lookup h torrents)
still_there torrents info_hash h other = rw (lookup-remove info_hash h torrents) (rw other refl)

others_without :
    (d : DhtActor) (info_hash : NodeId)
    → IsScheduledBut info_hash d
    → (h : NodeId) → (info_hash == h) ≡ false
    → is_some (lookup h d.torrents) ≡ is_some (lookup h (remove info_hash d.lookup_tasks))
others_without d info_hash s h other =
    s h other ∙ (rw (lookup-remove info_hash h d.lookup_tasks) (rw other refl))

schedule_lookup-IsScheduled :
    (d : DhtActor) (info_hash : NodeId)
    → is_some (lookup info_hash d.torrents) ≡ true
    → IsScheduledBut info_hash d
    → IsScheduled (schedule_lookup d info_hash)
unfolding schedule_lookup
schedule_lookup-IsScheduled d info_hash there others =
    insert-IsScheduled d.torrents d.lookup_tasks info_hash sleeps there others

start_lookup-IsScheduled :
    (d : DhtActor) (info_hash : NodeId)
    → is_some (lookup info_hash d.torrents) ≡ true
    → IsScheduledBut info_hash d
    → IsScheduled (start_lookup d info_hash)
unfolding start_lookup
start_lookup-IsScheduled d info_hash there s h =
    elim (Bool-cases (is_empty (closest d.state.routing info_hash d.bucket_size))) [
      | inl alone ↦
          let d' : DhtActor = record d { lookup_tasks = remove info_hash d.lookup_tasks } in
          rw (there, alone)
            (schedule_lookup-IsScheduled d' info_hash there (others_without d info_hash s) h)
      | inr known ↦
          rw (there, known)
            (insert-IsScheduled d.torrents (remove info_hash d.lookup_tasks) info_hash
              (looks_up (closest d.state.routing info_hash d.bucket_size)) there
              (others_without d info_hash s) h)
    ]

-- A lookup that is started for a torrent that may not be registered.
start_lookup-IsScheduled_any :
    (d : DhtActor) (info_hash : NodeId) → IsScheduled d → IsScheduled (start_lookup d info_hash)
start_lookup-IsScheduled_any d info_hash s =
    elim (Bool-cases (is_some (lookup info_hash d.torrents))) [
      | inl there ↦ start_lookup-IsScheduled d info_hash there (λ h _. s h)
      | inr absent ↦ unfold start_lookup in rw absent s
    ]

remove-registration-IsScheduled :
    (d : DhtActor) (info_hash : NodeId)
    → IsScheduled d
    → IsScheduled (remove_torrent_registration d info_hash)
unfolding remove_torrent_registration
remove-registration-IsScheduled d info_hash s =
    remove-IsScheduled (remove info_hash d.torrents) d.lookup_tasks info_hash
      (gone_after d.torrents info_hash) (λ h other. still_there d.torrents info_hash h other ∙ s h)

refresh-IsScheduled :
    (hashes : List NodeId) (d : DhtActor) → IsScheduled d → IsScheduled (refresh hashes d)
unfolding refresh
refresh-IsScheduled [] d s = s
refresh-IsScheduled (h ∷ hashes) d s =
    refresh-IsScheduled hashes (start_lookup d h) (start_lookup-IsScheduled_any d h s)

record_failures-IsTable :
    (t : RoutingTable) (nodes : List NodeId)
    → IsTable t
    → All (λ node. length node ≡ dht_id_len) nodes
    → (after : RoutingTable) × (record_failures t nodes ≡ some after) × IsTable after
unfolding record_failures
record_failures-IsTable t [] w h = (t, refl, w)
record_failures-IsTable t (node ∷ nodes) w (h, hs) =
    let other : node ≢ [] = λ e. absurd (omega (arith, h, ap length e)) in
    let (next, done, w', _, _) = record_failure_lem t node [] w h other in
    let (after, rest, w'') = record_failures-IsTable next nodes w' hs in (after, rw done rest, w'')

forward_peers-IsScheduled :
    (d : DhtActor) (info_hash : NodeId) (result : LookupResult) (taken : Bool) (port : Option ℕ)
    → lookup info_hash d.torrents ≡ port
    → IsScheduledBut info_hash d
    → is_some (lookup info_hash d.lookup_tasks) ≡ false
    → IsScheduled (forward_peers d info_hash result taken port)
unfolding forward_peers schedule_lookup
forward_peers-IsScheduled d info_hash result taken none gone s idle =
    absent-IsScheduled d.torrents d.lookup_tasks info_hash (ap is_some gone) idle s
forward_peers-IsScheduled d info_hash result taken (some port) there s idle =
    elim (Bool-cases (is_empty result.peers)) [
      | inl none_ ↦
          rw none_
            (insert-IsScheduled d.torrents d.lookup_tasks info_hash sleeps (ap is_some there) s)
      | inr some_ ↦ elim (Bool-cases taken) [
        | inl told ↦
            rw (some_, told)
              (insert-IsScheduled d.torrents d.lookup_tasks info_hash sleeps (ap is_some there) s)
        | inr dead ↦
            rw (some_, dead)
              (absent-IsScheduled (remove info_hash d.torrents) d.lookup_tasks info_hash
                (gone_after d.torrents info_hash) idle
                (λ h other. still_there d.torrents info_hash h other ∙ s h other))
      ]
    ]

looked_up-IsScheduled :
    (d : DhtActor) (info_hash : NodeId) (reply : InfoReply) (port : Option ℕ)
    → IsScheduled d
    → IsScheduled (looked_up d info_hash reply port)
looked_up-IsScheduled d info_hash reply none s = s
looked_up-IsScheduled d info_hash is_private (some port) s =
    remove-registration-IsScheduled d info_hash s
looked_up-IsScheduled d info_hash may_look_up (some port) s =
    start_lookup-IsScheduled_any d info_hash s
looked_up-IsScheduled d info_hash unavailable (some port) s =
    remove-registration-IsScheduled d info_hash s

module _ (sha1 : List ℕ → List ℕ) (arrange : Announced → Announced) where
  -- From an actor `d`, a state after a message: the routing table is well formed, a torrent is registered
  -- just if it has the handle of a lookup, and the handles that were dropped are those of `dropped_by`.
  pub record IsHandled (m : DhtMessage) (d : DhtActor) (result : Option DhtActor) : Type 0 where
    pub after : DhtActor
    pub returns : result ≡ some after
    pub table : IsTable after.state.routing
    pub scheduled : IsScheduled after
    pub only_dropped : after.untracked ≡ dropped_by m d ++ d.untracked

  -- Where the routing table is well formed and the ids of nodes in a message have 20 bytes: if just the
  -- registered torrents have the handle of a lookup task, running or sleeping, it is so after the message,
  -- the table is well formed, and the actor does not panic. No message drops the handle of a lookup without aborting it, but for a
  -- finished lookup, which drops the one that its torrent has, be it of a newer lookup.
  pub handle-IsScheduled :
      (m : DhtMessage) (d : DhtActor)
      → IsTable d.state.routing
      → HasIds m
      → IsScheduled d
      → IsHandled m d (handle sha1 arrange m d)
  unfolding handle remove_torrent_registration
  handle-IsScheduled (incoming_datagram message source r completed) d w ids s =
      let (after, done, k) = datagram-IsBeside sha1 arrange d message source r completed w ids in
      record {
        after = after;
        returns = done;
        table = k.table;
        scheduled = λ h. rw (k.same_torrents, k.same_tasks) (s h);
        only_dropped = k.same_untracked;
      }
  handle-IsScheduled (register_torrent info_hash port) d w ids s =
      let d' : DhtActor = record d { torrents = insert info_hash port d.torrents } in
      let there : is_some (lookup info_hash (insert info_hash port d.torrents)) ≡ true =
        rw (lookup-insert info_hash info_hash port d.torrents) (rw (is_same_refl info_hash) refl) in
      record {
        after = start_lookup d' info_hash;
        returns = refl;
        scheduled =
            start_lookup-IsScheduled d' info_hash there
              (λ h other. (rw (lookup-insert info_hash h port d.torrents) (rw other (s h))));
        only_dropped = (start_lookup-IsUnmoved d' info_hash).0;
        table = rw (start_lookup-IsUnmoved d' info_hash).1 w;
      }
  handle-IsScheduled (unregister_torrent info_hash) d w ids s = record {
    after = remove_torrent_registration d info_hash;
    returns = refl;
    table = w;
    scheduled = remove-registration-IsScheduled d info_hash s;
    only_dropped = refl;
  }
  handle-IsScheduled (lookup_torrent info_hash reply) d w ids s = record {
    after = looked_up d info_hash reply (lookup info_hash d.torrents);
    returns = refl;
    scheduled = looked_up-IsScheduled d info_hash reply (lookup info_hash d.torrents) s;
    only_dropped = (looked_up-IsUnmoved d info_hash reply (lookup info_hash d.torrents)).0;
    table = rw (looked_up-IsUnmoved d info_hash reply (lookup info_hash d.torrents)).1 w;
  }
  handle-IsScheduled refresh_torrents d w ids s = record {
    after = refresh (keys d.torrents) d;
    returns = refl;
    scheduled = refresh-IsScheduled (keys d.torrents) d s;
    only_dropped = (refresh-IsUnmoved (keys d.torrents) d).0;
    table = rw (refresh-IsUnmoved (keys d.torrents) d).1 w;
  }
  handle-IsScheduled (lookup_finished info_hash result taken) d w ids s =
      let (routing, done, w') = record_failures-IsTable d.state.routing result.failed_nodes w ids in
      let d' : DhtActor = record d {
        lookup_tasks = remove info_hash d.lookup_tasks;
        untracked = dropped info_hash (lookup info_hash d.lookup_tasks) ++ d.untracked;
        state = record d.state { routing = routing };
      } in
      let idle = idle_after d.lookup_tasks info_hash in
      record {
        after = forward_peers d' info_hash result taken (lookup info_hash d.torrents);
        returns = rw done refl;
        scheduled =
            forward_peers-IsScheduled d' info_hash result taken (lookup info_hash d.torrents) refl
              (others_without d info_hash (λ h _. s h)) idle;
        only_dropped =
            (forward_peers-IsUnmoved d' info_hash result taken (lookup info_hash d.torrents)
              idle).0;
        table =
            rw
              (forward_peers-IsUnmoved d' info_hash result taken (lookup info_hash d.torrents)
                idle).1
              w';
      }

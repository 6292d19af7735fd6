-- ===== src/Tests/Dht.antt =====
-- dht/ at concrete inputs.
use tortillas.Prelude.{
  ℕ, ◌≡◌, ◌++◌, refl, arith, Bool, true, false, Option, some, List, [], ◌∷◌, replicate, All, length,
  min,
}
use mathlib.Core.List.{Perm}
use tortillas.Prelude.Sort.{IsSorted, Precedes}
use tortillas.Protocol.Message.{v4}
use tortillas.Dht.Id.{NodeId, distance, bucket_index, bucket_loop, significant_bit}
use tortillas.Dht.Compact.{SocketAddr, Contact, addr_eq}
use tortillas.Dht.Routing.{
  RoutingTable, new, insert, record_failure, contacts_of, closer, closest, insert_at, update_bucket,
  insert_bucket, insert_known, insert_new, make_room, remove_first,
}
use tortillas.Dht.Routing.Closest.{closest_lem}
use tortillas.Dht.Routing.Buckets.{fresh}
use tortillas.Dht.Routing.Buckets.Failure.{after_failure}
use tortillas.Dht.Routing.Tables.{IsTable, entry_of, with_bucket, new-IsTable}
use tortillas.Dht.Routing.Tables.Changes.{insert-IsTable, record_failure_lem}

abbrev node : ℕ → NodeId
node n = n ∷ replicate 19 0

abbrev addr : SocketAddr
addr = record { ip = v4 (192 ∷ 0 ∷ 2 ∷ 1 ∷ []); port = 6881 }

abbrev contact : ℕ → Contact
contact n = record { id = node n; addr = addr }

-- A table of one place a bucket.
abbrev table : RoutingTable
table = new (node 0) 1

table-IsTable : IsTable table
table-IsTable = new-IsTable (node 0) 1 refl

insert-IsTable_example :
    (added : Bool) × (after : RoutingTable) × (insert table (contact 128) ≡ some (added, after))
    × IsTable after
insert-IsTable_example = insert-IsTable table (contact 128) table-IsTable refl

-- The table with the contact 128 in its bucket.
abbrev one : RoutingTable
one = with_bucket table 159 (fresh (contact 128) ∷ [])

inserts : insert table (contact 128) ≡ some (true, one)
unfolding insert insert_at update_bucket insert_bucket insert_known insert_new make_room
    remove_first with_bucket new distance bucket_index bucket_loop significant_bit
inserts = refl

refuses : insert one (contact 129) ≡ some (false, one)
unfolding insert insert_at update_bucket insert_bucket insert_known insert_new make_room
    remove_first with_bucket new distance bucket_index bucket_loop significant_bit
refuses = refl

one-IsTable : IsTable one
one-IsTable =
    let (added, after, done, w) = insert-IsTable table (contact 128) table-IsTable refl in
    let same : after ≡ one =
      returned (insert table (contact 128)) added true after one done inserts in
    rw (← same) w
  where
    returned :
        (o : Option (Bool × RoutingTable)) (a b : Bool) (u v : RoutingTable)
        → o ≡ some (a, u)
        → o ≡ some (b, v)
        → u ≡ v
    returned o a b u v h k = cc

record_failure_lem_example :
    (after : RoutingTable) × (record_failure one (node 128) ≡ some (tt, after))
    × IsTable after
    × (entry_of after (node 128) ≡ after_failure (entry_of one (node 128)))
    × (entry_of after (node 129) ≡ entry_of one (node 129))
record_failure_lem_example =
    record_failure_lem one (node 128) (node 129) one-IsTable refl (λ e. ground arith)

closest_lem_example :
    IsSorted (closer (node 7)) (closest one (node 7) 3)
    × (length (closest one (node 7) 3) ≡ min 3 (length (contacts_of one.buckets)))
    × ((others : List Contact) × Perm (closest one (node 7) 3 ++ others) (contacts_of one.buckets)
        × All (λ c. Precedes (closer (node 7)) c others) (closest one (node 7) 3))
closest_lem_example = closest_lem one (node 7) 3

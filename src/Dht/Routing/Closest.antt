-- ===== src/Dht/Routing/Closest.antt =====
-- `closest`: the nearest contacts of the table.
use tortillas.Prelude.{ℕ, ◌≡◌, arith, List, ◌++◌, length, length-take, min, drop, All}
use mathlib.Core.List.{Perm}
use tortillas.Prelude.Cuts.{take-append-drop}
use tortillas.Prelude.Sort.{
  sort_by, IsSorted, IsOrder, Precedes, sort_by-perm, sort_by-IsSorted, length-sort_by,
  take-IsSorted, take-drop-IsSorted,
}
use tortillas.Dht.Id.{NodeId, distance}
use tortillas.Dht.Id.Laws.{distance_lt-asym, distance_lt_trans}
use tortillas.Dht.Compact.{Contact}
use tortillas.Dht.Routing.{RoutingTable, contacts_of, closer, closest}

pub closer-IsOrder : (target : NodeId) → IsOrder (closer target)
unfolding closer
closer-IsOrder target = record {
  asym = λ x y. distance_lt-asym (distance target x.id) (distance target y.id);
  trans = λ x y z.
      distance_lt_trans (distance target x.id) (distance target y.id) (distance target z.id);
}

-- The contacts returned are in order of their distance to the target, as many as asked for or as there
-- are; with the contacts left out they are those of the table, and none of those left out is closer
-- than any returned.
pub closest_lem :
    (t : RoutingTable) (target : NodeId) (limit : ℕ)
    → IsSorted (closer target) (closest t target limit)
      × (length (closest t target limit) ≡ min limit (length (contacts_of t.buckets)))
      × ((others : List Contact) × Perm (closest t target limit ++ others) (contacts_of t.buckets)
          × All (λ c. Precedes (closer target) c others) (closest t target limit))
unfolding closest
closest_lem t target limit =
    let all = contacts_of t.buckets in
    let sorted = sort_by (closer target) all in
    let s = sort_by-IsSorted (closer target) (closer-IsOrder target) all in
    (
      take-IsSorted (closer target) limit sorted s,
      omega (arith, length-take limit sorted, length-sort_by (closer target) all),
      (
        drop limit sorted,
        rw (take-append-drop limit sorted) (sort_by-perm (closer target) all),
        take-drop-IsSorted (closer target) limit sorted s,
      ),
    )

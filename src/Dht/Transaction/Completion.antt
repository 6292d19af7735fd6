-- ===== src/Dht/Transaction/Completion.antt =====
-- A query's transaction, from `begin` to `complete`.
use tortillas.Prelude.{
  ℕ, ◌^◌, ◌<◌, ◌≡◌, refl, arith, Bool, false, none, some, inl, inr, List, if◌then◌else◌, ◌==◌,
  list_eq, nat_eq, Bool-cases, is_same_refl, list_eqb_iff,
}
use tortillas.Prelude.Map.{Unique, lookup, remove, insert, lookup-remove, lookup-insert}
use tortillas.Dht.Compact.{SocketAddr, addr_eq}
use tortillas.Dht.Transaction.{TransactionTable, begin, complete_pending, complete}
use tortillas.Dht.Transaction.Allocation.{count, waiting, begin_lem}

module _ {R : Type 0} (is_open : ℕ → Bool) (id : List ℕ) (addr from : SocketAddr) (reply : ℕ)
    (result : R) (t after : TransactionTable) where
  complete-waiting :
      after.pending ≡ insert id (waiting addr reply) t.pending
      → complete is_open id from result after ≡ (
          if addr == from
          then (
            is_open reply,
            some (reply, result),
            record after { pending = remove id after.pending },
          )
          else (false, none, after))
  unfolding complete complete_pending
  complete-waiting inserted =
      rw inserted
        (rw (lookup-insert id id (waiting addr reply) t.pending) (rw (is_same_refl id) refl))

  complete_others :
      after.pending ≡ insert id (waiting addr reply) t.pending
      → lookup id t.pending ≡ none
      → (j : List ℕ) → lookup j (remove id after.pending) ≡ lookup j t.pending
  complete_others inserted new j = rw inserted (
      ground (
        arith,
        lookup-remove id j (insert id (waiting addr reply) t.pending),
        lookup-insert id j (waiting addr reply) t.pending,
        list_eqb_iff id j,
      ))

module _ {R : Type 0} (is_open : ℕ → Bool) (addr from : SocketAddr) (reply : ℕ) (result : R)
    (t : TransactionTable) where
  -- While ids are left, a query gets one; a result under it from the endpoint that the query went to is
  -- sent on the query's channel and leaves the table as it was before the query, and one from any other
  -- endpoint is not sent and leaves the query waiting.
  pub begin-complete :
      t.next_id < 2 ^ 16
      → Unique t.pending
      → count t.pending < 65536
      → (id : List ℕ) × (after : TransactionTable) × (begin addr reply t ≡ some (id, after))
        × ((complete is_open id from result after).1
            ≡ (if addr == from then some (reply, result) else none))
        × ((j : List ℕ)
            → lookup j (complete is_open id from result after).2.pending
              ≡ lookup j (if addr == from then t.pending else after.pending))
  begin-complete small u room =
      let (id, after, began, new, inserted, _, _) = begin_lem addr reply t small u room in
      let done = complete-waiting is_open id addr from reply result t after inserted in
      let others = complete_others is_open id addr from reply result t after inserted new in
      elim (Bool-cases (addr == from)) [
        | inl same ↦ (id, after, began, rw done (rw same refl), λ j. rw done (rw same (others j)))
        | inr differs ↦
            (id, after, began, rw done (rw differs refl), λ j. rw done (rw differs refl))
      ]

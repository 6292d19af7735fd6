-- ===== src/Dht/Transaction/Allocation.antt =====
-- The loop of `begin` ends while an id is left.
use tortillas.Prelude.{
  ℕ, zero, suc, ◌+◌, ◌/◌, ◌%◌, ◌^◌, ◌≤◌, ◌<◌, ◌≡◌, ◌≢◌, refl, sym, ◌∙◌, arith, true, false, Option,
  none, some, inl, inr, List, list_eq, nat_eq, Bool-cases, Option-cases, list_eqb_iff,
}
use tortillas.Prelude.Map.{
  Map, Unique, total, weight, lookup, remove, insert, lookup-remove, remove-Unique, insert-Unique,
  total-remove,
}
use tortillas.Bytes.{u16_be}
use tortillas.Dht.Compact.{SocketAddr}
use tortillas.Dht.Transaction.{
  PendingTransaction, TransactionTable, contains_key, begin_loop, begin_fuel, begin,
}

-- How many transactions wait.
unfoldable pub count : Map (List ℕ) PendingTransaction → ℕ
count m = total (λ _. 1) m

-- The id of a round.
abbrev id_at : ℕ → List ℕ
id_at n = u16_be (n % 2 ^ 16)

id_at_ne : (n i : ℕ) → suc i < 65536 → id_at n ≢ id_at (n + 1 + i)
id_at_ne n i h e =
    let high : n % 65536 / 256 % 256 ≡ (n + 1 + i) % 65536 / 256 % 256 = cc in
    let low : n % 65536 % 256 ≡ (n + 1 + i) % 65536 % 256 = cc in absurd (omega arith)

lookup-remove_ne :
    (k j : List ℕ) (m : Map (List ℕ) PendingTransaction)
    → k ≢ j
    → lookup j (remove k m) ≡ lookup j m
lookup-remove_ne k j m h = lookup-remove k j m ∙ ground (arith, list_eqb_iff k j)

one_of : (o : Option PendingTransaction) → contains_key o ≡ true → weight (λ _. 1) o ≡ 1
one_of none h = cc
one_of (some p) h = refl

none_of : (o : Option PendingTransaction) → contains_key o ≡ false → o ≡ none
none_of none h = refl
none_of (some p) h = cc

-- So many rounds that find their ids taken need as many transactions.
count_ge :
    (n start : ℕ) (m : Map (List ℕ) PendingTransaction)
    → n ≤ 65536
    → Unique m
    → ((i : ℕ) → i < n → contains_key (lookup (id_at (start + i)) m) ≡ true)
    → n ≤ count m
unfolding count
count_ge zero start m h u taken = omega arith
count_ge (suc n) start m h u taken =
    let k = id_at start in
    let left = remove k m in
    let zero_at : start + 0 ≡ start = omega arith in
    let first : contains_key (lookup k m) ≡ true = rw (← zero_at) (taken 0 (omega arith)) in
    let others : (i : ℕ) → i < n → contains_key (lookup (id_at (start + 1 + i)) left) ≡ true =
      λ i lt.
        let same : start + suc i ≡ start + 1 + i = omega arith in
        rw (lookup-remove_ne k (id_at (start + 1 + i)) m (id_at_ne start i (omega arith)))
          (rw (← same) (taken (suc i) (omega arith))) in
    omega (
      arith,
      total-remove (λ _. 1) k m u,
      one_of (lookup k m) first,
      count_ge n (start + 1) left (omega arith) (remove-Unique k m u) others,
    )

module _ (addr : SocketAddr) (reply : ℕ) where
  moved : TransactionTable → TransactionTable
  moved t = record t { next_id = (t.next_id + 1) % 2 ^ 16 }

  abbrev pub waiting : PendingTransaction
  waiting = record { addr = addr; reply = reply }

  begin_loop_taken :
      (n : ℕ) (t : TransactionTable)
      → contains_key (lookup (u16_be t.next_id) t.pending) ≡ true
      → begin_loop (suc n) addr reply t ≡ begin_loop n addr reply (moved t)
  unfolding begin_loop moved
  begin_loop_taken n t h = rw (h, begin_loop) refl

  begin_loop_free :
      (n : ℕ) (t : TransactionTable)
      → contains_key (lookup (u16_be t.next_id) t.pending) ≡ false
      → begin_loop (suc n) addr reply t
        ≡ some (
          u16_be t.next_id,
          record (moved t) { pending = insert (u16_be t.next_id) waiting t.pending },
        )
  unfolding begin_loop moved
  begin_loop_free n t h = rw (h, begin_loop) refl

  -- A loop that has not returned has found its ids taken.
  begin_loop-none :
      (n start : ℕ) (t : TransactionTable)
      → t.next_id ≡ start % 2 ^ 16
      → begin_loop n addr reply t ≡ none
      → (i : ℕ) → i < n
      → contains_key (lookup (id_at (start + i)) t.pending) ≡ true
  unfolding moved
  begin_loop-none zero start t e h i lt = absurd (omega arith)
  begin_loop-none (suc n) start t e h i lt =
      elim (Bool-cases (contains_key (lookup (u16_be t.next_id) t.pending))) [
        | inl taken ↦
            at i lt
              (λ j l.
                begin_loop-none n (start + 1) (moved t) (omega arith)
                  (sym (begin_loop_taken n t taken) ∙ h) j l)
              taken
        | inr free ↦ absurd (nothing (begin_loop_free n t free) h)
      ]
    where
      nothing : {A : Type 0} {o : Option A} {a : A} → o ≡ some a → o ≡ none → ⊥
      nothing p q = cc

      at :
          (i : ℕ)
          → i < suc n
          → ((j : ℕ) → j < n → contains_key (lookup (id_at (start + 1 + j)) t.pending) ≡ true)
          → contains_key (lookup (u16_be t.next_id) t.pending) ≡ true
          → contains_key (lookup (id_at (start + i)) t.pending) ≡ true
      at zero lt rest taken = let z : start + 0 ≡ start = omega arith in rw z (rw (← e) taken)
      at (suc i) lt rest taken =
          let z : start + suc i ≡ start + 1 + i = omega arith in rw z (rest i (omega arith))

  -- A loop that returns, returns an id of no other transaction, under which its own now waits.
  begin_loop-some :
      (n : ℕ) (t after : TransactionTable) (id : List ℕ)
      → begin_loop n addr reply t ≡ some (id, after)
      → (lookup id t.pending ≡ none)
        × (after.pending ≡ insert id waiting t.pending)
        × (after.next_id < 2 ^ 16)
  unfolding begin_loop moved
  begin_loop-some zero t after id h = cc
  begin_loop-some (suc n) t after id h =
      elim (Bool-cases (contains_key (lookup (u16_be t.next_id) t.pending))) [
        | inl taken ↦ begin_loop-some n (moved t) after id (sym (begin_loop_taken n t taken) ∙ h)
        | inr free ↦
            let last : ◌≡◌ {A = Option (List ℕ × TransactionTable)}
                (some (
                  u16_be t.next_id,
                  record (moved t) { pending = insert (u16_be t.next_id) waiting t.pending },
                ))
                (some (id, after)) =
              sym (begin_loop_free n t free) ∙ h in
            let id_eq : u16_be t.next_id ≡ id = cc in
            let after_eq : record (moved t) {
              pending = insert (u16_be t.next_id) waiting t.pending;
            }
                ≡ after =
              cc in
            (
              rw (← id_eq) (none_of (lookup (u16_be t.next_id) t.pending) free),
              rw (← after_eq) (rw id_eq refl),
              rw (← after_eq) (omega arith),
            )
      ]

  -- While fewer transactions wait than there are ids, `begin` returns: with an id of no transaction that
  -- waits, under which the new one does, all others being as they were.
  pub begin_lem :
      (t : TransactionTable)
      → t.next_id < 2 ^ 16
      → Unique t.pending
      → count t.pending < 65536
      → (id : List ℕ) × (after : TransactionTable) × (begin addr reply t ≡ some (id, after))
        × (lookup id t.pending ≡ none)
        × (after.pending ≡ insert id waiting t.pending)
        × Unique after.pending
        × (after.next_id < 2 ^ 16)
  unfolding begin
  begin_lem t small u room = elim (Option-cases (begin_loop begin_fuel addr reply t)) [
    | inl h ↦ absurd (
        omega (
          arith,
          room,
          count_ge begin_fuel t.next_id t.pending (omega arith) u
              (begin_loop-none begin_fuel t.next_id t (omega arith) h),
        ))
    | inr ((id, after), h) ↦
        let (new, inserted, next) = begin_loop-some begin_fuel t after id h in
        (id, after, h, new, inserted, rw inserted (insert-Unique id waiting t.pending u), next)
  ]

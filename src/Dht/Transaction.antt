-- ===== src/Dht/Transaction.antt =====
-- dht/transaction.rs: the table of the queries that wait for a response. The results are of any type.
pub mod Allocation
pub mod Completion
use tortillas.Prelude.{
  ℕ, zero, suc, ◌+◌, ◌%◌, ◌^◌, Bool, true, false, Option, none, some, List, [], ◌∷◌, if◌then◌else◌,
  ◌==◌, list_eq, nat_eq,
}
use tortillas.Prelude.Map.{Map, lookup, remove, insert}
use tortillas.Bytes.{u16_be}
use tortillas.Dht.Compact.{SocketAddr, addr_eq}

abbrev pub transaction_id_len : ℕ
transaction_id_len = 2

-- `reply` is the number of the channel that the result goes to.
pub record PendingTransaction : Type 0 where
  pub addr : SocketAddr
  pub reply : ℕ

pub record TransactionTable : Type 0 where
  pub next_id : ℕ
  pub pending : Map (List ℕ) PendingTransaction

-- `new` with the random first id.
unfoldable pub new : ℕ → TransactionTable
new next_id = record { next_id = next_id; pending = [] }

abbrev pub contains_key : Option PendingTransaction → Bool
contains_key none = false
contains_key (some p) = true

-- The loop of `begin`, whose channel is `reply`: `none` is a loop that has not returned.
unfoldable pub begin_loop :
    ℕ → SocketAddr → ℕ → TransactionTable → Option (List ℕ × TransactionTable)
begin_loop zero addr reply t = none
begin_loop (suc fuel) addr reply t =
    let transaction_id = u16_be t.next_id in
    let moved : TransactionTable = record t { next_id = (t.next_id + 1) % 2 ^ 16 } in
    elim (contains_key (lookup transaction_id t.pending)) [
      | true ↦ begin_loop fuel addr reply moved
      | false ↦ some (
        transaction_id,
        record moved {
          pending = insert transaction_id (record { addr = addr; reply = reply }) t.pending;
        },
      )
    ]

-- As many rounds as there are ids.
abbrev pub begin_fuel : ℕ
begin_fuel = 65536

unfoldable pub begin : SocketAddr → ℕ → TransactionTable → Option (List ℕ × TransactionTable)
begin addr reply t = begin_loop begin_fuel addr reply t

module _ {R : Type 0} (is_open : ℕ → Bool) where
  -- The rest of `complete`, of the transaction found: what it returns, what it sends on which channel,
  -- and the table.
  unfoldable pub complete_pending :
      List ℕ
      → SocketAddr
      → R
      → TransactionTable
      → Option PendingTransaction
      → Bool × Option (ℕ × R) × TransactionTable
  complete_pending transaction_id addr result t none = (false, none, t)
  complete_pending transaction_id addr result t (some p) =
      if p.addr == addr
      then (
        is_open p.reply,
        some (p.reply, result),
        record t { pending = remove transaction_id t.pending },
      )
      else (false, none, t)

  -- `complete`, where the receivers that wait are those that `is_open` says.
  unfoldable pub complete :
      List ℕ → SocketAddr → R → TransactionTable → Bool × Option (ℕ × R) × TransactionTable
  complete transaction_id addr result t =
      complete_pending transaction_id addr result t (lookup transaction_id t.pending)

unfoldable pub cancel : List ℕ → TransactionTable → Bool × TransactionTable
cancel transaction_id t = (
  contains_key (lookup transaction_id t.pending),
  record t { pending = remove transaction_id t.pending },
)

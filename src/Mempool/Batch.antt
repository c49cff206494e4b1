-- ===== src/Mempool/Batch.antt =====
-- The pool's capacity and the batches it gives (internal/mempool/mempool.go).
use shadowledger.Prelude.{
  ℕ, ◌+◌, ◌≤◌, ◌<◌, ◌≡◌, Bool, false, List, [], ◌∷◌, ◌++◌, Bytes, length, length-append, leb, ◌==◌,
  arith, Option-cases, Bool-cases, inl, inr,
}
use shadowledger.Prelude.Words.{add64}
use shadowledger.Prelude.Map.{Map, insert, bytes_key}
use shadowledger.Crypto.{Env, Address}
use shadowledger.Types.Data.{Transaction}
use shadowledger.Types.Encode.{tx_hash}
use shadowledger.State.Data.{State}
use shadowledger.State.Ledger.{account_of}
use shadowledger.State.Apply.{check_tx}
use shadowledger.Mempool.Pool.{
  Pool, submit, sort_by_nonce, take_run, take_groups, group_by_sender, reap,
}

length-insert :
    (k : Bytes) (t : Transaction) (m : Map Bytes Transaction) → length (insert k t m) ≤ length m + 1
unfolding insert
length-insert k t [] = omega arith
length-insert k t ((j, u) ∷ m) = let rest = length-insert k t m in ground arith

-- The pool holds at most its limit.
abbrev pub IsWithinLimit : Pool → Type 0
IsWithinLimit p = length p.by_id ≤ p.limit

-- Submitting keeps a pool that is within its limit within it, whatever the transaction.
pub submit-IsWithinLimit :
    (env : Env) (s : State) (t : Transaction) (p : Pool)
    → IsWithinLimit p
    → IsWithinLimit (submit env s t p).1
unfolding submit
submit-IsWithinLimit env s t p h = elim (Option-cases (check_tx env t s)) [
  | inr (e, bad) ↦ rw (bad, submit) h
  | inl good ↦
      rw (good, submit)
        (elim (Bool-cases (leb p.limit (length p.by_id))) [
          | inl filled ↦ rw filled h
          | inr room ↦ let l = length-insert (tx_hash env t) t p.by_id in rw room (ground arith)
        ])
]

-- At most `max` transactions, and whether it is full.
take_run_bounds :
    (max next : ℕ) (out ts : List Transaction)
    → length out < max
    → length (take_run max next out ts).0 ≤ max
      × ((take_run max next out ts).1 ≡ false → length (take_run max next out ts).0 < max)
unfolding take_run
take_run_bounds max next out [] h = (omega arith, λ e. h)
take_run_bounds max next out (t ∷ ts) h =
    let grown : List Transaction = out ++ t ∷ [] in
    let l = length-append out (t ∷ []) in
    elim (Bool-cases (t.nonce == next)) [
      | inr gap ↦ rw gap (omega arith, λ e. h)
      | inl good ↦ elim (Bool-cases (leb max (length grown))) [
        | inl filled ↦ rw (good, filled) (omega (arith, l), λ e. absurd (cc))
        | inr room ↦ rw (good, room) (take_run_bounds max (add64 next 1) grown ts (ground arith))
      ]
    ]

take_groups_bounds :
    (s : State) (max : ℕ) (out : List Transaction) (groups : List (Address × List Transaction))
    → length out < max
    → length (take_groups s max out groups) ≤ max
unfolding take_groups
take_groups_bounds s max out [] h = omega arith
take_groups_bounds s max out ((from, txs) ∷ groups) h =
    let run : List Transaction × Bool =
      take_run max (account_of from s.accounts).nonce out (sort_by_nonce txs) in
    let (le, lt) =
      take_run_bounds max (account_of from s.accounts).nonce out (sort_by_nonce txs) h in
    elim (Bool-cases run.1) [
      | inl filled ↦ rw filled le
      | inr room ↦ rw room (take_groups_bounds s max run.0 groups (lt room))
    ]

-- A batch has at most `max` transactions, for a `max` of at least 1.
pub reap_bounds : (s : State) (max : ℕ) (p : Pool) → 1 ≤ max → length (reap s max p) ≤ max
unfolding reap
reap_bounds s max p h = take_groups_bounds s max [] (group_by_sender p.by_id) (omega arith)

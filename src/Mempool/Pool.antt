-- ===== src/Mempool/Pool.antt =====
-- `Submit`, `Reap` and `Remove` of internal/mempool/mempool.go. The order of the entries is the order
-- in which Go's map happens to be read.
use shadowledger.Prelude.{
  ℕ, Bool, true, false, not, List, [], ◌∷◌, ◌++◌, Option, none, some, Bytes, length, ltb, leb, ◌==◌,
  if◌then◌else◌, get_or,
}
use shadowledger.Prelude.Words.{add64}
use shadowledger.Prelude.Map.{Map, lookup, insert, erase, bytes_key}
use shadowledger.Crypto.{Env, Address}
use shadowledger.Types.Data.{Transaction}
use shadowledger.Types.Encode.{tx_hash}
use shadowledger.State.Data.{State}
use shadowledger.State.Ledger.{account_of}
use shadowledger.State.Effects.{StateError}
use shadowledger.State.Apply.{check_tx}

-- `Pool`, without the state that it validates against
pub record Pool : Type 0 where
  pub by_id : Map Bytes Transaction
  pub limit : ℕ

pub data PoolError : Type 0 where
  invalid : StateError → PoolError
  full : PoolError

-- `New`, at a limit that is not negative
unfoldable pub new_pool : ℕ → Pool
new_pool limit = record { by_id = []; limit = if ltb limit 1 then 10_000 else limit }

-- `Submit`: the error, if any, and the pool after it.
unfoldable pub submit : Env → State → Transaction → Pool → Option PoolError × Pool
submit env s tx p = elim (check_tx env tx s) [
  | some e ↦ (some (PoolError.invalid e), p)
  | none ↦
      if leb p.limit (length p.by_id)
      then (some PoolError.full, p)
      else (none, record p { by_id = insert (tx_hash env tx) tx p.by_id })
]

-- The loop that fills `bySender`.
unfoldable pub group_by_sender : Map Bytes Transaction → Map Address (List Transaction)
group_by_sender [] = []
group_by_sender ((id, tx) ∷ rest) =
    let groups = group_by_sender rest in
    insert tx.from (tx ∷ get_or (lookup tx.from groups) []) groups

unfoldable pub insert_by_nonce : Transaction → List Transaction → List Transaction
insert_by_nonce t [] = t ∷ []
insert_by_nonce t (u ∷ us) =
    let rest = insert_by_nonce t us in if ltb u.nonce t.nonce then u ∷ rest else t ∷ u ∷ us

-- `sort.Slice` by nonce
unfoldable pub sort_by_nonce : List Transaction → List Transaction
unfolding insert_by_nonce
sort_by_nonce [] = []
sort_by_nonce (t ∷ ts) = insert_by_nonce t (sort_by_nonce ts)

-- The inner loop of `Reap`: the batch, and whether it is full.
unfoldable pub take_run : ℕ → ℕ → List Transaction → List Transaction → List Transaction × Bool
take_run max next out [] = (out, false)
take_run max next out (t ∷ ts) =
    let grown = out ++ t ∷ [] in
    let rest = take_run max (add64 next 1) grown ts in
    if not (t.nonce == next)
    then (out, false)
    else if leb max (length grown)
    then (grown, true)
    else rest

-- The outer loop, over the groups.
unfoldable pub take_groups :
    State → ℕ → List Transaction → List (Address × List Transaction) → List Transaction
unfolding take_run sort_by_nonce account_of
take_groups s max out [] = out
take_groups s max out ((from, txs) ∷ groups) =
    let (grown, filled) = take_run max (account_of from s.accounts).nonce out (sort_by_nonce txs) in
    let rest = take_groups s max grown groups in if filled then grown else rest

-- `Reap`
unfoldable pub reap : State → ℕ → Pool → List Transaction
unfolding take_groups group_by_sender
reap s max p = take_groups s max [] (group_by_sender p.by_id)

-- `Remove`
unfoldable pub remove : Env → List Transaction → Pool → Pool
remove env [] p = p
remove env (t ∷ txs) p = remove env txs (record p { by_id = erase (tx_hash env t) p.by_id })

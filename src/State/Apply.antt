-- ===== src/State/Apply.antt =====
-- `ApplyBlock` and `CheckTx` of internal/state/state.go.
use shadowledger.Prelude.{
  ℕ, ◌+◌, ◌&&◌, ◌||◌, not, List, [], ◌∷◌, Option, none, some, ltb, ◌==◌, if◌then◌else◌, bytes_eq,
}
use shadowledger.Prelude.Words.{add64, sub64}
use shadowledger.Economy.{block_reward}
use shadowledger.Crypto.{Env}
use shadowledger.Types.Data.{Transaction, Header, Block}
use shadowledger.Types.Sign.{is_coinbase, verify_tx}
use shadowledger.State.Data.{Account, State}
use shadowledger.State.Ledger.{Work, account_of, acct, modify, pay, snap, rollback}
use shadowledger.State.Effects.{StateError, Effect, applied, rejected, crashed, EvidenceDecoder}
use shadowledger.State.Payment.{apply_transfer, apply_deploy, apply_call}
use shadowledger.State.Registry.{apply_register, apply_unregister, apply_slash}
use shadowledger.State.Proofs.{apply_faucet, apply_storage_proof}

-- How a block ends: with the new state, with an error and the state rolled back, or in a panic.
pub data BlockEffect : Type 0 where
  accepted : State → BlockEffect
  refused : StateError → State → BlockEffect
  aborted : BlockEffect

-- A transaction's effect, and `rest` for the transactions after it.
abbrev pub and_then : Effect → (Work → Effect) → Effect
and_then (applied w) rest = rest w
and_then (rejected e w) rest = rejected e w
and_then crashed rest = crashed

-- The payload of a block: its transactions without the coinbase, if the first is one.
unfoldable pub split_coinbase : List Transaction → Option Transaction × List Transaction
split_coinbase [] = (none, [])
split_coinbase (t ∷ ts) = if is_coinbase t then (some t, ts) else (none, t ∷ ts)

module _ (env : Env) (decode : EvidenceDecoder) where
  -- `switch t.Kind`, over the sender already debited
  unfoldable pub apply_kind : ℕ → ℕ → Transaction → Work → Effect
  apply_kind height i t w =
      if t.kind == 1
      then apply_deploy env t w
      else if t.kind == 2
      then apply_call env t i w
      else if t.kind == 3
      then apply_register env t height w
      else if t.kind == 5
      then apply_slash env t decode w
      else if t.kind == 4
      then apply_unregister env t w
      else if t.kind == 6
      then apply_faucet env t height w
      else if t.kind == 7
      then apply_storage_proof env t height w
      else apply_transfer env t w

  -- Value and fee are debited and the nonce is raised before the kind's own effect.
  abbrev pub debit : Transaction → Account → Account
  debit t ac = record ac {
    balance = sub64 ac.balance (add64 t.amount t.fee);
    nonce = add64 ac.nonce 1;
  }

  -- The tests that need the sender's account.
  unfoldable pub apply_funded : ℕ → ℕ → Transaction → Work → Effect
  unfolding modify account_of
  apply_funded height i t w =
      let from : Account = account_of t.from w.st.accounts in
      let sum : ℕ = add64 t.amount t.fee in
      if not (t.nonce == from.nonce)
      then rejected StateError.bad_nonce w
      else if ltb sum t.amount || ltb from.balance sum
      then rejected StateError.insufficient w
      else let paid : Work = modify t.from (debit t) w in
        apply_kind height i t (record paid { fees = add64 paid.fees t.fee })

  -- One turn of the loop over the payload.
  unfoldable pub apply_tx : ℕ → ℕ → Transaction → Work → Effect
  unfolding apply_funded acct snap
  apply_tx height i t w =
      if is_coinbase t then rejected StateError.coinbase_in_body w else elim (verify_tx env t) [
        | some e ↦ rejected (StateError.signature e) w
        | none ↦
            if not (t.chain_id == w.st.chain_id)
            then rejected StateError.bad_chain_id w
            else apply_funded height i t (snap t.from (acct t.from w))
      ]

  -- The loop over the payload. An error ends it.
  unfoldable pub apply_txs : ℕ → ℕ → List Transaction → Work → Effect
  apply_txs height i [] w = applied w
  apply_txs height i (t ∷ ts) w = and_then (apply_tx height i t w) (apply_txs height (i + 1) ts)

-- After the loop: the coinbase against the emission schedule, or the fees alone.
unfoldable pub apply_coinbase : Header → Option Transaction → Work → Effect
unfolding modify snap
apply_coinbase h (some c) w =
    let reward : ℕ = block_reward h.height w.st.minted in
    if not (bytes_eq c.to h.validator)
    then rejected StateError.bad_coinbase w
    else if not (c.amount == add64 reward w.fees)
    then rejected StateError.bad_coinbase w
    else let paid : Work = modify c.to (pay c.amount) (snap c.to w) in
      applied (record paid { st = record paid.st { minted = add64 paid.st.minted reward } })
apply_coinbase h none w =
    let reward : ℕ = block_reward h.height w.st.minted in
    if ltb 0 (add64 reward w.fees) && not (bytes_eq h.validator [])
    then applied (modify h.validator (pay w.fees) (snap h.validator w))
    else applied w

-- The locals of `ApplyBlock` at its start.
abbrev pub begin : State → Work
begin s = record { st = s; saved = []; logs = []; fees = 0 }

abbrev pub finish : State → Header → Effect → BlockEffect
finish s h (applied w) = accepted (record w.st { height = h.height; last_logs = w.logs })
finish s h (rejected e w) = refused e (rollback s.validators w)
finish s h crashed = aborted

unfoldable pub apply_block : Env → EvidenceDecoder → Block → State → BlockEffect
unfolding split_coinbase apply_txs apply_coinbase
apply_block env decode b s =
    let (coinbase, payload) = split_coinbase b.txs in
    finish s b.header (
      and_then (apply_txs env decode b.header.height 0 payload (begin s))
        (apply_coinbase b.header coinbase))

-- `CheckTx`; `none` is a nil error.
unfoldable pub check_tx : Env → Transaction → State → Option StateError
unfolding account_of
check_tx env t s = elim (verify_tx env t) [
  | some e ↦ some (StateError.signature e)
  | none ↦
      if is_coinbase t
      then some StateError.coinbase_in_body
      else if not (t.chain_id == s.chain_id)
      then some StateError.bad_chain_id
      else if not (t.nonce == (account_of t.from s.accounts).nonce)
      then some StateError.bad_nonce
      else if ltb (add64 t.amount t.fee) t.amount
      then some StateError.insufficient
      else if ltb (account_of t.from s.accounts).balance (add64 t.amount t.fee)
      then some StateError.insufficient
      else none
]

-- ===== src/State/Payment.antt =====
-- The transfer, deploy and call cases of `ApplyBlock` (internal/state/state.go).
use shadowledger.Prelude.{ℕ, Option, none, some, length, ◌==◌, if◌then◌else◌}
use shadowledger.Prelude.Words.{sub64}
use shadowledger.Vm.Frame.{Reply}
use shadowledger.Crypto.{Env}
use shadowledger.Types.Data.{Transaction}
use shadowledger.Types.Encode.{contract_address, addr_digest}
use shadowledger.State.Ledger.{Work, account_of, modify, pay, snap}
use shadowledger.State.Contract.{exec_contract, vm_host}
use shadowledger.State.Effects.{Effect, applied, crashed}

module _ (env : Env) (t : Transaction) where
  unfoldable pub apply_transfer : Work → Effect
  unfolding modify snap
  apply_transfer w = applied (modify t.to (pay t.amount) (snap t.to w))

  unfoldable pub apply_deploy : Work → Effect
  unfolding modify snap
  apply_deploy w =
      let caddr = contract_address env t.from t.nonce in
      applied (modify caddr (λ c. pay t.amount (record c { code = t.payload })) (snap caddr w))

  -- The refund of a call that failed: the fee is kept.
  unfoldable pub refund : Work → Work
  unfolding modify
  refund w =
      modify t.from (pay t.amount)
        (modify t.to (λ ac. record ac { balance = sub64 ac.balance t.amount }) w)

  unfoldable pub settle_call : Option (Reply Work) → Effect
  unfolding refund
  settle_call none = crashed
  settle_call (some r) = applied (if r.success then r.world else refund r.world)

  unfoldable pub apply_call : ℕ → Work → Effect
  unfolding modify snap exec_contract vm_host settle_call account_of
  apply_call i w =
      let paid : Work = modify t.to (pay t.amount) (snap t.to w) in
      if length (account_of t.to paid.st.accounts).code == 0
      then applied paid
      else settle_call (
          exec_contract env i (vm_host env i 8) t.to (addr_digest env t.from) t.from t.payload
            t.amount t.gas 0 paid)

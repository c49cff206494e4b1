-- ===== src/State/Solvent/Kinds.antt =====
-- What each kind of transaction brings in is at most its amount, which the sender has been debited
-- (internal/state/state.go).
use shadowledger.Prelude.{
  ℕ, ◌+◌, ◌/◌, ◌^◌, ◌≤◌, ◌<◌, ◌≡◌, refl, ap, Bool, false, Option, none, some, arith, ltb,
  if◌then◌else◌, Option-cases, Bool-cases, inl, inr, Bytes, bytes_eq_iff,
}
use shadowledger.Prelude.Words.{add64, sub64}
use shadowledger.Prelude.Map.{lookup, insert, erase, bytes_key}
use shadowledger.Vm.Frame.{Reply}
use shadowledger.Crypto.{Env, Address}
use shadowledger.Types.Data.{Transaction, EquivocationEvidence}
use shadowledger.Types.Encode.{contract_address, addr_digest}
use shadowledger.State.Data.{Account, Validator, State}
use shadowledger.State.Ledger.{Work, account_of, acct, modify, pay, snap}
use shadowledger.State.Money.{balance-le-balances, bonds-insert, bonds-erase, bond_of}
use shadowledger.State.Confine.{IsAnywhere, account_of-insert}
use shadowledger.State.Intact.{st-snap}
use shadowledger.State.Execution.{Safe, OnReply, exec_contract-Safe, vm_host-Safe}
use shadowledger.State.Contract.{vm_host}
use shadowledger.State.Effects.{applied, EvidenceDecoder, set_validators}
use shadowledger.State.Solvent.Wealth.{
  wealth, Gains, OnApplied, on_applied, on_rejected, on_crashed, OnApplied-if, wealth-modify,
  balance-le-wealth, wealth-pay, wealth_of_Intact, wealth-snap, wealth-acct, put-Gains,
}
use shadowledger.State.Payment.{apply_transfer, apply_deploy, apply_call, settle_call, refund}
use shadowledger.State.Registry.{
  apply_register, unregister, slash, apply_slash, new_validator, barred,
}
use shadowledger.State.Proofs.{claim, faucet, prove, storage_proof, with_shards}

pub not_ltb : (a b : ℕ) → ltb a b ≡ false → b ≤ a
not_ltb a b h = ground arith

module _ (env : Env) (t : Transaction) where
  pub transfer-Gains : (w : Work) → OnApplied (Gains t.amount w) (apply_transfer env t w)
  unfolding apply_transfer
  transfer-Gains w = on_applied (put-Gains t.to t.amount w)

  pub deploy-Gains : (w : Work) → OnApplied (Gains t.amount w) (apply_deploy env t w)
  unfolding apply_deploy
  deploy-Gains w =
      let a = contract_address env t.from t.nonce in
      let f : Account → Account = λ c. pay t.amount (record c { code = t.payload }) in
      on_applied (record {
        at = λ h.
            omega (
              arith,
              wealth-snap a w,
              wealth-modify a f (snap a w),
              balance-le-wealth a (snap a w),
            );
      })

  -- The refund takes from the recipient what the sender gets back.
  refund-Gains :
      (w : Work)
      → t.amount ≤ (account_of t.to w.st.accounts).balance
      → wealth w < 2 ^ 64
      → wealth (refund env t w) ≤ wealth w
  unfolding refund
  refund-Gains w le h =
      let f : Account → Account = λ ac. record ac { balance = sub64 ac.balance t.amount } in
      omega (
        arith,
        wealth-modify t.to f w,
        balance-le-wealth t.to w,
        wealth-pay t.from t.amount (modify t.to f w),
      )

  balance-modify_self :
      (a : Address) (f : Account → Account) (w : Work)
      → (account_of a (modify a f w).st.accounts).balance ≡ (f (account_of a w.st.accounts)).balance
  unfolding modify account_of
  balance-modify_self a f w = ground (
    arith,
    account_of-insert a a (f (account_of a w.st.accounts)) w.st.accounts,
    bytes_eq_iff a a,
  )

  settle_call-Gains :
      (w : Work) (o : Option (Reply Work))
      → OnReply (Safe IsAnywhere (modify t.to (pay t.amount) (snap t.to w))) o
      → OnApplied (Gains t.amount w) (settle_call env t o)
  unfolding settle_call
  settle_call-Gains w none s = on_crashed
  settle_call-Gains w (some r) s =
      let w' : Work = snap t.to w in
      let same = wealth_of_Intact s.intact in
      let paid = (put-Gains t.to t.amount w).at in
      elim (Bool-cases r.success) [
        | inl good ↦ rw good (on_applied (record { at = λ h. omega (arith, paid h, same) }))
        | inr bad ↦ rw bad (
            on_applied (record {
              at = λ h. omega (
                arith,
                paid h,
                same,
                wealth-snap t.to w,
                balance-le-wealth t.to w',
                refund-Gains r.world,
                s.intact.balance t.to,
                balance-modify_self t.to (pay t.amount) w',
              );
            }))
      ]

  pub call-Gains : (i : ℕ) (w : Work) → OnApplied (Gains t.amount w) (apply_call env t i w)
  unfolding apply_call
  call-Gains i w =
      let paid : Work = modify t.to (pay t.amount) (snap t.to w) in
      let plain = put-Gains t.to t.amount w in
      let call = settle_call-Gains w _ (
        exec_contract-Safe IsAnywhere env i (vm_host env i 8) t.to (addr_digest env t.from) t.from
          t.payload t.amount t.gas 0 paid (inl tt) (vm_host-Safe IsAnywhere env i 8)) in
      search (OnApplied-if, on_applied, plain, call)

  pub register-Gains :
      (height : ℕ) (w : Work) → OnApplied (Gains t.amount w) (apply_register env t height w)
  unfolding apply_register
  register-Gains height w =
      let v = new_validator t.amount height in
      let r : Gains t.amount w (set_validators w (insert t.from v w.st.validators)) = record {
        at = λ h. omega (arith, bonds-insert t.from v w.st.validators);
      } in
      search (OnApplied-if, on_applied, on_rejected, r) depth 7

  -- Paying the bond out and dropping the record.
  pub unregister-Gains :
      (w : Work) (v : Option Validator)
      → lookup t.from w.st.validators ≡ v
      → OnApplied (Gains t.amount w) (unregister env t w v)
  unfolding unregister
  unregister-Gains w none e = on_rejected
  unregister-Gains w (some v) e =
      let f : Account → Account = pay (add64 v.bond t.amount) in
      let paid : Work = modify t.from f w in
      let r : Gains t.amount w (set_validators paid (erase t.from paid.st.validators)) = record {
        at = λ h.
            unfold modify in
            omega (
              arith,
              bonds-erase t.from w.st.validators,
              ap bond_of e,
              wealth-modify t.from f w,
              balance-le-wealth t.from w,
            );
      } in
      search (OnApplied-if, on_applied, on_rejected, r)

  pub slash-Gains :
      (ev : EquivocationEvidence) (w : Work) (v : Option Validator)
      → lookup ev.a.validator w.st.validators ≡ v
      → OnApplied (Gains t.amount w) (slash env t ev w v)
  unfolding slash
  slash-Gains ev w none e = on_rejected
  slash-Gains ev w (some v) e =
      let w' : Work = snap t.from w in
      let paid : Work = modify t.from (pay (v.bond / 10)) w' in
      let e' : lookup ev.a.validator w'.st.validators ≡ some v = rw (st-snap t.from w) e in
      let r : Gains t.amount w
          (set_validators paid (insert ev.a.validator (barred v.since) paid.st.validators)) =
        record {
          at = λ h. omega (
            arith,
            bonds-insert ev.a.validator (barred v.since) w'.st.validators,
            ap bond_of e',
            wealth-snap t.from w,
            wealth-modify t.from (pay (v.bond / 10)) w',
            balance-le-balances t.from w'.st.accounts,
          );
        } in
      search (OnApplied-if, on_applied, on_rejected, r)

  pub apply_slash-Gains :
      (decode : EvidenceDecoder) (w : Work)
      → OnApplied (Gains t.amount w) (apply_slash env t decode w)
  unfolding apply_slash
  apply_slash-Gains decode w = elim (Option-cases (decode t.payload)) [
    | inl e ↦ rw (e, apply_slash) on_rejected
    | inr (ev, e) ↦
        rw (e, apply_slash)
          (let r = slash-Gains ev w (lookup ev.a.validator w.st.validators) refl in
            search (OnApplied-if, on_rejected, r))
  ]

  -- The payout comes out of the treasury.
  claim-Gains :
      (height nonce : ℕ) (w : Work) (o : Option Bytes)
      → OnApplied (Gains t.amount w) (claim env t height nonce w o)
  unfolding claim
  claim-Gains height nonce w none = on_rejected
  claim-Gains height nonce w (some anchor) =
      let source = w.st.config.faucet_source in
      let amount = w.st.config.faucet_amount in
      let seen : Work = acct source w in
      let take_out : Account → Account = λ ac. record ac { balance = sub64 ac.balance amount } in
      let saved : Work = snap source seen in
      let drawn : Work = modify source take_out saved in
      let paid : Work = modify t.from (pay amount) drawn in
      let done : Work = record paid {
        st = record paid.st { faucet_claims = insert t.from height paid.st.faucet_claims };
      } in
      let same : account_of source saved.st.accounts ≡ account_of source seen.st.accounts =
        ap (λ (st : State). account_of source st.accounts) (st-snap source seen) in
      let r : ltb (account_of source seen.st.accounts).balance amount ≡ false
          → OnApplied (Gains t.amount w) (applied done) =
        λ enough. on_applied (record {
          at = λ h. omega (
            arith,
            wealth-acct source w,
            wealth-snap source seen,
            wealth-modify source take_out saved,
            ap (λ (ac : Account). ac.balance) same,
            not_ltb _ _ enough,
            balance-le-wealth source saved,
            wealth-pay t.from amount drawn,
          );
        }) in
      search (OnApplied-if, on_rejected, r) depth 8

  pub faucet-Gains :
      (height : ℕ) (o : Option (ℕ → Option Bytes)) (w : Work)
      → OnApplied (Gains t.amount w) (faucet env t height o w)
  unfolding faucet
  faucet-Gains height none w = on_rejected
  faucet-Gains height (some anchor_of) w = search (OnApplied-if, on_rejected, claim-Gains) depth 8

  prove-Gains :
      (height : ℕ) (proof_ok : ℕ → ℕ → Bytes → Bool) (target : ℕ) (shard : Bytes) (v : Validator)
      (w : Work) (o : Option (Bytes × ℕ))
      → lookup t.from w.st.validators ≡ some v
      → OnApplied (Gains t.amount w) (prove env t height proof_ok target shard v w o)
  unfolding prove
  prove-Gains height proof_ok target shard v w none e = on_rejected
  prove-Gains height proof_ok target shard v w (some (block_id, n)) e =
      let v' : Validator = record v {
        storage_score =
            if ltb v.storage_score w.st.config.storage_cap
            then v.storage_score + 1
            else v.storage_score;
        last_proof_at = height;
      } in
      let r : Gains t.amount w (set_validators w (insert t.from v' w.st.validators)) = record {
        at = λ h. omega (arith, bonds-insert t.from v' w.st.validators, ap bond_of e);
      } in
      search (OnApplied-if, on_applied, on_rejected, r) depth 7

  storage_proof-Gains :
      (height : ℕ) (shard_at : ℕ → Option (Bytes × ℕ)) (proof_ok : ℕ → ℕ → Bytes → Bool) (w : Work)
      (v : Option Validator)
      → lookup t.from w.st.validators ≡ v
      → OnApplied (Gains t.amount w) (storage_proof env t height shard_at proof_ok w v)
  unfolding storage_proof
  storage_proof-Gains height shard_at proof_ok w none e = on_rejected
  storage_proof-Gains height shard_at proof_ok w (some v) e =
      search (OnApplied-if, on_rejected, prove-Gains) depth 8

  pub with_shards-Gains :
      (height : ℕ) (a : Option (ℕ → Option (Bytes × ℕ))) (b : Option (ℕ → ℕ → Bytes → Bool))
      (w : Work)
      → OnApplied (Gains t.amount w) (with_shards env t height a b w)
  unfolding with_shards
  with_shards-Gains height (some f) (some g) w = storage_proof-Gains height f g w _ refl
  with_shards-Gains height _ _ w = on_rejected

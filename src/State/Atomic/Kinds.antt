-- ===== src/State/Atomic/Kinds.antt =====
-- Each kind of transaction loses nothing that a rollback needs (internal/state/state.go).
use shadowledger.Prelude.{
  ℕ, ◌≡◌, refl, sym, Bool, true, Option, none, some, Option-cases, Bool-cases, inl, inr, ◌/◌, Bytes,
}
use mathlib.Core.Path.{subst}
use shadowledger.Prelude.Words.{add64, sub64}
use shadowledger.Prelude.Map.{Map, lookup, insert, bytes_key}
use shadowledger.Vm.Frame.{Reply}
use shadowledger.Crypto.{Env, Address}
use shadowledger.Types.Data.{Transaction, EquivocationEvidence}
use shadowledger.Types.Encode.{contract_address}
use shadowledger.State.Data.{Account, Validator}
use shadowledger.State.Ledger.{Work, acct, modify, pay, snap}
use shadowledger.State.Confine.{snap-saved, is_saved}
use shadowledger.State.Contract.{vm_host}
use shadowledger.State.Execution.{exec_contract-Safe, vm_host-Safe, OnReply, Safe}
use shadowledger.State.Effects.{Effect, EvidenceDecoder}
use shadowledger.State.Tracked.{
  OnEffect, on_applied, on_rejected, on_crashed, OnEffect-if, Tracked, Tracked-refl, Tracked-trans,
  snap-Tracked, acct-Tracked, modify-Tracked, put-Tracked, set_validators-Tracked, of_Safe,
}
use shadowledger.State.Payment.{apply_transfer, apply_deploy, apply_call, settle_call, refund}
use shadowledger.State.Registry.{apply_register, unregister, apply_unregister, slash, apply_slash}
use shadowledger.State.Apply.{apply_kind, apply_funded, apply_tx, debit}
use shadowledger.Types.Sign.{verify_tx}
use shadowledger.State.Proofs.{
  claim, faucet, apply_faucet, prove, storage_proof, with_shards, apply_storage_proof,
}

ruleset tracked_rules = (
  OnEffect-if, on_applied, on_rejected, on_crashed, Tracked-refl, put-Tracked,
  set_validators-Tracked,
)

module _ {P : Address → Type 0} (env : Env) (t : Transaction) where
  pub transfer-Tracked : (w : Work) → OnEffect (Tracked P w) (apply_transfer env t w)
  unfolding apply_transfer
  transfer-Tracked w = on_applied (put-Tracked t.to (pay t.amount) w)

  deploy-Tracked : (w : Work) → OnEffect (Tracked P w) (apply_deploy env t w)
  unfolding apply_deploy
  deploy-Tracked w = on_applied (
      put-Tracked (contract_address env t.from t.nonce)
        (λ c. pay t.amount (record c { code = t.payload })) w)

  refund-Tracked :
      (w : Work) → is_saved t.from w ≡ true → is_saved t.to w ≡ true → Tracked P w (refund env t w)
  unfolding refund
  refund-Tracked w hf ht =
      let taken : Account → Account = λ ac. record ac { balance = sub64 ac.balance t.amount } in
      let p = modify-Tracked t.to taken w ht in
      Tracked-trans p (modify-Tracked t.from (pay t.amount) _ (p.confined.saved_still t.from hf))

  settle_call-Tracked :
      (u w : Work) (o : Option (Reply Work))
      → is_saved t.from w ≡ true
      → is_saved t.to w ≡ true
      → Tracked P u w
      → OnReply (Safe P w) o
      → OnEffect (Tracked P u) (settle_call env t o)
  unfolding settle_call
  settle_call-Tracked u w none hf ht p s = on_crashed
  settle_call-Tracked u w (some r) hf ht p s = elim (Bool-cases r.success) [
    | inl good ↦ rw good (on_applied (Tracked-trans p (of_Safe s)))
    | inr bad ↦ rw bad (
        on_applied (
          Tracked-trans (Tracked-trans p (of_Safe s)) (
            refund-Tracked r.world (s.confined.saved_still t.from hf)
              (s.confined.saved_still t.to ht))))
  ]

  call-Tracked :
      (i : ℕ) (w : Work) → is_saved t.from w ≡ true → OnEffect (Tracked P w) (apply_call env t i w)
  unfolding apply_call
  call-Tracked i w h =
      let paid : Work = modify t.to (pay t.amount) (snap t.to w) in
      let p : Tracked P w paid = put-Tracked t.to (pay t.amount) w in
      let q : Tracked P (snap t.to w) paid =
        modify-Tracked t.to (pay t.amount) (snap t.to w) (snap-saved t.to w) in
      OnEffect-if (Tracked P w) _ _ _ (on_applied p) (
        settle_call-Tracked w paid _ (p.confined.saved_still t.from h)
          (q.confined.saved_still t.to (snap-saved t.to w)) p
          (exec_contract-Safe P env i (vm_host env i 8) t.to _ t.from t.payload t.amount t.gas 0
            paid (inr (inl (q.confined.saved_still t.to (snap-saved t.to w))))
            (vm_host-Safe P env i 8)))

  register-Tracked :
      (height : ℕ) (w : Work) → OnEffect (Tracked P w) (apply_register env t height w)
  unfolding apply_register
  register-Tracked height w = search tracked_rules

  unregister-Tracked :
      (w : Work) (v : Option Validator)
      → is_saved t.from w ≡ true
      → OnEffect (Tracked P w) (unregister env t w v)
  unfolding unregister
  unregister-Tracked w none h = on_rejected (Tracked-refl w)
  unregister-Tracked w (some v) h =
      let p = modify-Tracked t.from (pay (add64 v.bond t.amount)) w h in
      OnEffect-if (Tracked P w) _ _ _ (on_rejected (Tracked-refl w))
        (on_applied (Tracked-trans p (set_validators-Tracked _ _)))

  slash-Tracked :
      (ev : EquivocationEvidence) (w : Work) (v : Option Validator)
      → OnEffect (Tracked P w) (slash env t ev w v)
  unfolding slash
  slash-Tracked ev w none = on_rejected (Tracked-refl w)
  slash-Tracked ev w (some v) = OnEffect-if (Tracked P w) _ _ _ (on_rejected (Tracked-refl w)) (
      on_applied
        (Tracked-trans (put-Tracked t.from (pay (v.bond / 10)) w) (set_validators-Tracked _ _)))

  apply_slash-Tracked :
      (decode : EvidenceDecoder) (w : Work) → OnEffect (Tracked P w) (apply_slash env t decode w)
  unfolding apply_slash
  apply_slash-Tracked decode w = elim (Option-cases (decode t.payload)) [
    | inl e ↦ rw (e, apply_slash) (on_rejected (Tracked-refl w))
    | inr (ev, e) ↦
        rw (e, apply_slash)
          (OnEffect-if (Tracked P w) _ _ _ (slash-Tracked ev w _) (on_rejected (Tracked-refl w)))
  ]

module _ {P : Address → Type 0} (env : Env) (t : Transaction) (height : ℕ) where
  set_claims-Tracked :
      (claims : Map Address ℕ) (w : Work)
      → Tracked P w (record w { st = record w.st { faucet_claims = claims } })
  set_claims-Tracked claims w = record {
    confined = record { restored_same = λ a. inl refl; saved_still = λ a h. h; unique = λ h. h };
    height = refl;
    minted = refl;
    chain_id = refl;
    config = refl;
    last_logs = refl;
  }

  claim-Tracked :
      (nonce : ℕ) (w : Work) (o : Option Bytes)
      → is_saved t.from w ≡ true
      → P w.st.config.faucet_source
      → OnEffect (Tracked P w) (claim env t height nonce w o)
  unfolding claim
  claim-Tracked nonce w none h may = on_rejected (Tracked-refl w)
  claim-Tracked nonce w (some anchor) h may =
      let source = w.st.config.faucet_source in
      let amount = w.st.config.faucet_amount in
      let seen : Work = acct source w in
      let take_out : Account → Account = λ ac. record ac { balance = sub64 ac.balance amount } in
      let drawn : Work = modify source take_out (snap source seen) in
      let p : Tracked P w seen = acct-Tracked source w (inl may) in
      let q : Tracked P w drawn = Tracked-trans p (put-Tracked source take_out seen) in
      let r = Tracked-trans q (
        Tracked-trans (modify-Tracked t.from (pay amount) drawn (q.confined.saved_still t.from h)) (
          set_claims-Tracked
            (insert t.from height (modify t.from (pay amount) drawn).st.faucet_claims) _)) in
      search (tracked_rules, p, r) depth 7

  faucet-Tracked :
      (o : Option (ℕ → Option Bytes)) (w : Work)
      → is_saved t.from w ≡ true
      → P w.st.config.faucet_source
      → OnEffect (Tracked P w) (faucet env t height o w)
  unfolding faucet
  faucet-Tracked none w h may = on_rejected (Tracked-refl w)
  faucet-Tracked (some anchor_of) w h may = search (tracked_rules, claim-Tracked) depth 7

  prove-Tracked :
      (proof_ok : ℕ → ℕ → Bytes → Bool) (target : ℕ) (shard : Bytes) (v : Validator) (w : Work)
      (o : Option (Bytes × ℕ))
      → OnEffect (Tracked P w) (prove env t height proof_ok target shard v w o)
  unfolding prove
  prove-Tracked proof_ok target shard v w none = on_rejected (Tracked-refl w)
  prove-Tracked proof_ok target shard v w (some (block_id, n)) = search tracked_rules

  storage_proof-Tracked :
      (shard_at : ℕ → Option (Bytes × ℕ)) (proof_ok : ℕ → ℕ → Bytes → Bool) (w : Work)
      (v : Option Validator)
      → OnEffect (Tracked P w) (storage_proof env t height shard_at proof_ok w v)
  unfolding storage_proof
  storage_proof-Tracked shard_at proof_ok w none = on_rejected (Tracked-refl w)
  storage_proof-Tracked shard_at proof_ok w (some v) = search (tracked_rules, prove-Tracked) depth 7

  with_shards-Tracked :
      (a : Option (ℕ → Option (Bytes × ℕ))) (b : Option (ℕ → ℕ → Bytes → Bool)) (w : Work)
      → OnEffect (Tracked P w) (with_shards env t height a b w)
  unfolding with_shards
  with_shards-Tracked (some f) (some g) w = storage_proof-Tracked f g w _
  with_shards-Tracked _ _ w = on_rejected (Tracked-refl w)

module _ {P : Address → Type 0} (env : Env) (decode : EvidenceDecoder) (height i : ℕ)
    (t : Transaction) where
  apply_kind-Tracked :
      (w : Work)
      → is_saved t.from w ≡ true
      → P w.st.config.faucet_source
      → OnEffect (Tracked P w) (apply_kind env decode height i t w)
  unfolding apply_kind apply_faucet apply_unregister apply_storage_proof
  apply_kind-Tracked w h may =
      let transfer = transfer-Tracked {P = P} env t w in
      let deploy = deploy-Tracked {P = P} env t w in
      let call = call-Tracked {P = P} env t i w h in
      let register = register-Tracked {P = P} env t height w in
      let slashed = apply_slash-Tracked {P = P} env t decode w in
      let unregistered = unregister-Tracked {P = P} env t w (lookup t.from w.st.validators) h in
      let claimed = faucet-Tracked {P = P} env t height w.st.config.anchor_body_hash w h may in
      let proved =
        with_shards-Tracked {P = P} env t height w.st.config.shard_at w.st.config.shard_proof_ok
          w in
      search (OnEffect-if, transfer, deploy, call, register, slashed, unregistered, claimed, proved)
        depth 10

  fees-Tracked : (n : ℕ) (w : Work) → Tracked P w (record w { fees = n })
  fees-Tracked n w = record {
    confined = record { restored_same = λ a. inl refl; saved_still = λ a h. h; unique = λ h. h };
    height = refl;
    minted = refl;
    chain_id = refl;
    config = refl;
    last_logs = refl;
  }

  after :
      {u w : Work} {e : Effect}
      → Tracked P u w
      → OnEffect (Tracked P w) e
      → OnEffect (Tracked P u) e
  after p (on_applied q) = on_applied (Tracked-trans p q)
  after p (on_rejected q) = on_rejected (Tracked-trans p q)
  after p on_crashed = on_crashed

  apply_funded-Tracked :
      (w : Work)
      → is_saved t.from w ≡ true
      → P w.st.config.faucet_source
      → OnEffect (Tracked P w) (apply_funded env decode height i t w)
  unfolding apply_funded
  apply_funded-Tracked w h may =
      let paid : Work = modify t.from (debit env decode t) w in
      let p : Tracked P w paid = modify-Tracked t.from (debit env decode t) w h in
      let charged : Work = record paid { fees = add64 paid.fees t.fee } in
      let q : Tracked P w charged = Tracked-trans p (fees-Tracked (add64 paid.fees t.fee) paid) in
      let r = after q (
        apply_kind-Tracked charged (q.confined.saved_still t.from h)
          (subst (λ c. P c.faucet_source) (sym q.config) may)) in
      search (tracked_rules, r)

  pub apply_tx-Tracked :
      (w : Work)
      → P t.from
      → P w.st.config.faucet_source
      → OnEffect (Tracked P w) (apply_tx env decode height i t w)
  unfolding apply_tx
  apply_tx-Tracked w sender source =
      let w' : Work = snap t.from (acct t.from w) in
      let p : Tracked P w w' =
        Tracked-trans (acct-Tracked t.from w (inl sender)) (snap-Tracked t.from _) in
      let r = after p (
        apply_funded-Tracked w' (snap-saved t.from (acct t.from w))
          (subst (λ c. P c.faucet_source) (sym p.config) source)) in
      elim (Option-cases (verify_tx env t)) [
        | inl e ↦ rw (e, apply_tx) (search (tracked_rules, r))
        | inr (x, e) ↦ rw (e, apply_tx) (search tracked_rules)
      ]

-- ===== src/State/Solvent/Loop.antt =====
-- What the payload of a block brings in (`ApplyBlock`, internal/state/state.go).
use shadowledger.Prelude.{
  ℕ, ◌+◌, ◌^◌, ◌≤◌, ◌<◌, ◌≡◌, refl, ◌∙◌, false, ◌||◌, List, [], ◌∷◌, arith, ltb, Option-cases, inl,
  inr, All,
}
use shadowledger.Prelude.Words.{add64, IsWord}
use shadowledger.Prelude.Map.{lookup, bytes_key}
use shadowledger.Crypto.{Env}
use shadowledger.Types.Data.{Transaction}
use shadowledger.Types.Sign.{verify_tx}
use shadowledger.State.Data.{Account}
use shadowledger.State.Ledger.{Work, account_of, acct, modify, snap}
use shadowledger.State.Effects.{Effect, EvidenceDecoder}
use shadowledger.State.Apply.{and_then, apply_kind, debit, apply_funded, apply_tx, apply_txs}
use shadowledger.State.Proofs.{apply_faucet, apply_storage_proof}
use shadowledger.State.Registry.{apply_unregister}
use shadowledger.State.Solvent.Wealth.{
  wealth, Gains, OnApplied, on_applied, on_rejected, on_crashed, OnApplied-if, wealth-modify,
  balance-le-wealth, wealth-snap, wealth-acct,
}
use shadowledger.State.Solvent.Kinds.{
  transfer-Gains, deploy-Gains, call-Gains, register-Gains, unregister-Gains, apply_slash-Gains,
  faucet-Gains, with_shards-Gains,
}

-- Amount and fee are 64-bit words.
abbrev pub IsWordTx : Transaction → Type 0
IsWordTx t = IsWord t.amount × IsWord t.fee

weaken :
    {u w : Work} {k : ℕ} {e : Effect}
    → (wealth w + k < 2 ^ 64) × (wealth w + k ≤ wealth u)
    → OnApplied (Gains k w) e
    → OnApplied (Gains 0 u) e
weaken h (on_applied g) = on_applied (record { at = λ _. omega (arith, g.at h.0, h.1) })
weaken h on_rejected = on_rejected
weaken h on_crashed = on_crashed

module _ (env : Env) (decode : EvidenceDecoder) (height i : ℕ) (t : Transaction) where
  apply_kind-Gains : (w : Work) → OnApplied (Gains t.amount w) (apply_kind env decode height i t w)
  unfolding apply_kind apply_faucet apply_unregister apply_storage_proof
  apply_kind-Gains w =
      let transfer = transfer-Gains env t w in
      let deploy = deploy-Gains env t w in
      let call = call-Gains env t i w in
      let register = register-Gains env t height w in
      let slashed = apply_slash-Gains env t decode w in
      let unregistered = unregister-Gains env t w (lookup t.from w.st.validators) refl in
      let claimed = faucet-Gains env t height w.st.config.anchor_body_hash w in
      let proved =
        with_shards-Gains env t height w.st.config.shard_at w.st.config.shard_proof_ok w in
      search
        (OnApplied-if, transfer, deploy, call, register, slashed, unregistered, claimed, proved)
        depth 10

  is_funded :
      (balance sum : ℕ)
      → (ltb sum t.amount || ltb balance sum) ≡ false
      → (t.amount ≤ sum) × (sum ≤ balance)
  is_funded balance sum h = ground arith

  sum_fits : IsWordTx t → t.amount ≤ add64 t.amount t.fee → add64 t.amount t.fee ≡ t.amount + t.fee
  sum_fits h low = omega (arith, h.0, h.1, low)

  debited :
      (w : Work)
      → t.amount + t.fee ≤ (account_of t.from w.st.accounts).balance
      → add64 t.amount t.fee ≡ t.amount + t.fee
      → wealth w < 2 ^ 64
      → wealth (modify t.from (debit env decode t) w) + (t.amount + t.fee) ≡ wealth w
  debited w high fits bound = omega (
    arith,
    wealth-modify t.from (debit env decode t) w,
    balance-le-wealth t.from w,
    high,
    fits,
    bound,
  )

  -- The sender pays amount and fee; the fee goes to the block, the amount to the kind's effect.
  apply_funded-Gains :
      (w : Work)
      → IsWordTx t
      → wealth w < 2 ^ 64
      → OnApplied (Gains 0 w) (apply_funded env decode height i t w)
  unfolding apply_funded
  apply_funded-Gains w h bound =
      let from : Account = account_of t.from w.st.accounts in
      let paid : Work = modify t.from (debit env decode t) w in
      let charged : Work = record paid { fees = add64 paid.fees t.fee } in
      let k : (ltb (add64 t.amount t.fee) t.amount || ltb from.balance (add64 t.amount t.fee))
            ≡ false
          → OnApplied (Gains 0 w) (apply_kind env decode height i t charged) =
        λ funded.
          let (low, high) = is_funded from.balance (add64 t.amount t.fee) funded in
          let fits = sum_fits h low in
          let moved = debited w (omega (arith, high, fits)) fits bound in
          weaken (unfold modify in (omega (arith, moved, bound), omega (arith, moved, bound)))
            (apply_kind-Gains charged) in
      search (OnApplied-if, on_rejected, k)

  apply_tx-Gains :
      (w : Work)
      → IsWordTx t
      → wealth w < 2 ^ 64
      → OnApplied (Gains 0 w) (apply_tx env decode height i t w)
  unfolding apply_tx
  apply_tx-Gains w h bound = elim (Option-cases (verify_tx env t)) [
    | inr (x, e) ↦ rw (e, apply_tx) (search (OnApplied-if, on_rejected))
    | inl e ↦
        rw (e, apply_tx)
          (let seen : Work = acct t.from w in
            let saved : Work = snap t.from seen in
            let same : wealth saved ≡ wealth w = wealth-snap t.from seen ∙ wealth-acct t.from w in
            let funded : OnApplied (Gains 0 w) (apply_funded env decode height i t saved) =
              weaken (omega (arith, same, bound), omega (arith, same))
                (apply_funded-Gains saved h (omega (arith, same, bound))) in
            search (OnApplied-if, on_rejected, funded))
  ]

module _ (env : Env) (decode : EvidenceDecoder) (height : ℕ) where
  pub apply_txs-Gains :
      (i : ℕ) (ts : List Transaction) (w : Work)
      → All IsWordTx ts
      → wealth w < 2 ^ 64
      → OnApplied (Gains 0 w) (apply_txs env decode height i ts w)
  unfolding apply_txs
  apply_txs-Gains i [] w h bound = on_applied (record { at = λ _. omega arith })
  apply_txs-Gains i (t ∷ ts) w h bound =
      go _ (apply_tx-Gains env decode height i t w h.0 bound)
        (λ w' b. apply_txs-Gains (i + 1) ts w' h.1 b)
    where
      go :
          (e : Effect)
          → OnApplied (Gains 0 w) e
          → ((w' : Work)
              → wealth w' < 2 ^ 64
              → OnApplied (Gains 0 w') (apply_txs env decode height (i + 1) ts w'))
          → OnApplied (Gains 0 w) (and_then e (apply_txs env decode height (i + 1) ts))
      go _ (on_applied g) rest =
          let le = g.at (omega (arith, bound)) in
          weaken (omega (arith, bound, le), omega (arith, le)) (rest _ (omega (arith, bound, le)))
      go _ on_rejected rest = on_rejected
      go _ on_crashed rest = on_crashed

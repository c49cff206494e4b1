-- ===== src/State/Admission.antt =====
-- The pool's test of a transaction and the block's agree (`CheckTx` and `ApplyBlock`,
-- internal/state/state.go).
use shadowledger.Prelude.{
  ℕ, ◌≡◌, refl, ap, ◌∙◌, Bool, true, false, not, ◌||◌, Option, none, some, arith, ltb, ◌==◌,
  if◌then◌else◌, Option-cases, Bool-cases, inl, inr, bytes_eq_iff,
}
use mathlib.Core.Path.{subst}
use shadowledger.Prelude.Words.{add64}
use shadowledger.Prelude.Map.{bytes_key}
use shadowledger.Crypto.{Env}
use shadowledger.Types.Data.{Transaction}
use shadowledger.Types.Sign.{is_coinbase, verify_tx}
use shadowledger.State.Data.{Account, State}
use shadowledger.State.Ledger.{Work, account_of, acct, modify, snap}
use shadowledger.State.Confine.{account_of-insert}
use shadowledger.State.Intact.{st-snap}
use shadowledger.State.Effects.{StateError, Effect, rejected, EvidenceDecoder}
use shadowledger.State.Apply.{apply_kind, debit, apply_funded, apply_tx, check_tx}

-- The work with the sender's account in place and saved.
abbrev pub opened : Transaction → Work → Work
opened t w = snap t.from (acct t.from w)

account_of-opened :
    (t : Transaction) (w : Work)
    → account_of t.from (opened t w).st.accounts ≡ account_of t.from w.st.accounts
unfolding acct
account_of-opened t w =
    ap (λ (s : State). account_of t.from s.accounts) (st-snap t.from (acct t.from w))
    ∙ ground (
      arith,
      account_of-insert t.from t.from (account_of t.from w.st.accounts) w.st.accounts,
      bytes_eq_iff t.from t.from,
    )

-- An outcome of the block's test that is the one the pool's test predicts: the same error, or the
-- sender debited and the kind's effect.
pub data Agrees (e : Effect) : Option StateError → Effect → Type 0 where
  both_refuse : {x : StateError} {w : Work} → Agrees e (some x) (rejected x w)
  both_admit : Agrees e none e

Agrees-if :
    (e : Effect) (b : Bool) (x : StateError) (w : Work) (o : Option StateError) (y : Effect)
    → (b ≡ false → Agrees e o y)
    → Agrees e (if b then some x else o) (if b then rejected x w else y)
Agrees-if e true x w o y h = both_refuse
Agrees-if e false x w o y h = h refl

-- One test of the block for two of the pool.
Agrees-or :
    (e : Effect) (a b : Bool) (x : StateError) (w : Work)
    → Agrees e
        (if a then some x else if b then some x else none)
        (if a || b then rejected x w else e)
Agrees-or e true b x w = both_refuse
Agrees-or e false true x w = both_refuse
Agrees-or e false false x w = both_admit

coinbase_unsigned : (env : Env) (t : Transaction) → is_coinbase t ≡ true → verify_tx env t ≡ none
unfolding verify_tx
coinbase_unsigned env t h = rw h

module _ (env : Env) (decode : EvidenceDecoder) (height i : ℕ) (t : Transaction) where
  -- What a transaction leads to that passes every test.
  abbrev pub admitted : Work → Effect
  admitted w =
      let paid : Work = modify t.from (debit env decode t) w in
      apply_kind env decode height i t (record paid { fees = add64 paid.fees t.fee })

  apply_funded-Agrees :
      (w : Work) (sender : Account)
      → account_of t.from w.st.accounts ≡ sender
      → Agrees
          (admitted w)
          (if not (t.nonce == sender.nonce)
            then some StateError.bad_nonce
            else if ltb (add64 t.amount t.fee) t.amount
            then some StateError.insufficient
            else if ltb sender.balance (add64 t.amount t.fee)
            then some StateError.insufficient
            else none)
          (apply_funded env decode height i t w)
  unfolding apply_funded
  apply_funded-Agrees w sender same =
      let from : Account = account_of t.from w.st.accounts in
      subst
        (λ (ac : Account).
          Agrees (admitted w)
            (if not (t.nonce == ac.nonce)
              then some StateError.bad_nonce
              else if ltb (add64 t.amount t.fee) t.amount
              then some StateError.insufficient
              else if ltb ac.balance (add64 t.amount t.fee)
              then some StateError.insufficient
              else none)
            (apply_funded env decode height i t w))
        same
        (Agrees-if _ (not (t.nonce == from.nonce)) _ _ _ _ (λ e.
          Agrees-or _ (ltb (add64 t.amount t.fee) t.amount)
            (ltb from.balance (add64 t.amount t.fee)) _ _))

  -- For every transaction and every state of the block, `ApplyBlock` refuses with the very error that
  -- `CheckTx` gives on that state, and where `CheckTx` gives none it debits the sender and goes on to
  -- the kind's own effect.
  pub apply_tx-Agrees :
      (w : Work)
      → Agrees (admitted (opened t w)) (check_tx env t w.st) (apply_tx env decode height i t w)
  unfolding check_tx apply_tx
  apply_tx-Agrees w =
      let funded =
        apply_funded-Agrees (opened t w) (account_of t.from w.st.accounts)
          (account_of-opened t w) in
      elim (Bool-cases (is_coinbase t)) [
        | inl body ↦ rw (coinbase_unsigned env t body, check_tx, apply_tx) (rw body both_refuse)
        | inr user ↦ elim (Option-cases (verify_tx env t)) [
          | inr (x, bad) ↦ rw (bad, check_tx, apply_tx) (rw user both_refuse)
          | inl good ↦
              rw (good, check_tx, apply_tx)
                (rw user (Agrees-if _ (not (t.chain_id == w.st.chain_id)) _ _ _ _ (λ e. funded)))
        ]
      ]

-- ===== src/State/Intact.antt =====
-- A contract's execution moves no money and touches nothing but accounts (internal/state/state.go).
use shadowledger.Prelude.{◌≡◌, refl, ◌∙◌, [], arith, bytes_eq_iff, Option-cases, inl, inr}
use shadowledger.Prelude.Map.{lookup, bytes_key}
use shadowledger.Crypto.{Address}
use shadowledger.State.Data.{Account, State}
use shadowledger.State.Ledger.{Work, account_of, acct, modify, snap}
use shadowledger.State.Money.{balances, balances-insert}
use shadowledger.State.Confine.{account_of-insert}

-- The state without its accounts.
abbrev pub frame : Work → State
frame w = record w.st { accounts = [] }

pub record Intact (w w' : Work) : Type 0 where
  pub funds : balances w'.st.accounts ≡ balances w.st.accounts
  pub balance :
      (a : Address) → (account_of a w'.st.accounts).balance ≡ (account_of a w.st.accounts).balance
  pub nonce :
      (a : Address) → (account_of a w'.st.accounts).nonce ≡ (account_of a w.st.accounts).nonce
  pub rest : frame w' ≡ frame w
  pub fees : w'.fees ≡ w.fees

pub Intact-refl : (w : Work) → Intact w w
Intact-refl w = record {
  funds = refl;
  balance = λ a. refl;
  nonce = λ a. refl;
  rest = refl;
  fees = refl;
}

pub Intact-trans : {u v w : Work} → Intact u v → Intact v w → Intact u w
Intact-trans p q = record {
  funds = q.funds ∙ p.funds;
  balance = λ a. q.balance a ∙ p.balance a;
  nonce = λ a. q.nonce a ∙ p.nonce a;
  rest = q.rest ∙ p.rest;
  fees = q.fees ∙ p.fees;
}

pub snap-Intact : (a : Address) (w : Work) → Intact w (snap a w)
unfolding snap
snap-Intact a w = elim (Option-cases (lookup a w.saved)) [
  | inr (o, e) ↦ rw (e, snap) (Intact-refl w)
  | inl e ↦
      rw (e, snap)
        (record { funds = refl; balance = λ b. refl; nonce = λ b. refl; rest = refl; fees = refl })
]

pub st-snap : (a : Address) (w : Work) → (snap a w).st ≡ w.st
unfolding snap
st-snap a w = elim (Option-cases (lookup a w.saved)) [
  | inr (o, e) ↦ rw (e, snap)
  | inl e ↦ rw (e, snap)
]

-- A write that keeps balance and nonce.
pub modify-Intact :
    (a : Address) (f : Account → Account) (w : Work)
    → ((ac : Account) → (f ac).balance ≡ ac.balance)
    → ((ac : Account) → (f ac).nonce ≡ ac.nonce)
    → Intact w (modify a f w)
unfolding modify account_of
modify-Intact a f w hb hn =
    let ac : Account = account_of a w.st.accounts in
    record {
      funds = omega (arith, balances-insert a (f ac) w.st.accounts, hb ac);
      balance =
          λ b. ground (arith, account_of-insert a b (f ac) w.st.accounts, bytes_eq_iff b a, hb ac);
      nonce =
          λ b. ground (arith, account_of-insert a b (f ac) w.st.accounts, bytes_eq_iff b a, hn ac);
      rest = refl;
      fees = refl;
    }

pub acct-Intact : (a : Address) (w : Work) → Intact w (acct a w)
unfolding acct modify
acct-Intact a w = modify-Intact a (λ ac. ac) w (λ ac. refl) (λ ac. refl)

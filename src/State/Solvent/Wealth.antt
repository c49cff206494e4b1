-- ===== src/State/Solvent/Wealth.antt =====
-- The money of a block's working state (internal/state/state.go): balances, bonds and the fees that
-- are not yet paid out.
use shadowledger.Prelude.{
  ℕ, ◌+◌, ◌^◌, ◌≤◌, ◌<◌, ◌≡◌, refl, ap, Bool, true, false, arith, if◌then◌else◌,
}
use shadowledger.Prelude.Map.{bytes_key}
use shadowledger.Crypto.{Address}
use shadowledger.State.Data.{Account, State}
use shadowledger.State.Ledger.{Work, account_of, acct, modify, pay, snap}
use shadowledger.State.Money.{balances, bonds, balances-insert, balance-le-balances}
use shadowledger.State.Intact.{Intact, snap-Intact, acct-Intact}
use shadowledger.State.Effects.{StateError, Effect, applied, rejected, crashed}

abbrev pub wealth : Work → ℕ
wealth w = balances w.st.accounts + bonds w.st.validators + w.fees

-- Where nothing overflows, at most `k` comes in.
pub record Gains (k : ℕ) (w w' : Work) : Type 0 where
  pub at : wealth w + k < 2 ^ 64 → wealth w' ≤ wealth w + k

-- A property of the work that a success carries.
pub data OnApplied (P : Work → Type 0) : Effect → Type 0 where
  on_applied : {w : Work} → P w → OnApplied P (applied w)
  on_rejected : {e : StateError} {w : Work} → OnApplied P (rejected e w)
  on_crashed : OnApplied P crashed

pub OnApplied-if :
    (P : Work → Type 0) (b : Bool) (x y : Effect)
    → (b ≡ true → OnApplied P x)
    → (b ≡ false → OnApplied P y)
    → OnApplied P (if b then x else y)
OnApplied-if P true x y hx hy = hx refl
OnApplied-if P false x y hx hy = hy refl

-- A write moves the wealth by the difference of the account's balances.
pub wealth-modify :
    (a : Address) (f : Account → Account) (w : Work)
    → wealth (modify a f w) + (account_of a w.st.accounts).balance
      ≡ wealth w + (f (account_of a w.st.accounts)).balance
unfolding modify account_of
wealth-modify a f w =
    omega (arith, balances-insert a (f (account_of a w.st.accounts)) w.st.accounts)

pub balance-le-wealth : (a : Address) (w : Work) → (account_of a w.st.accounts).balance ≤ wealth w
balance-le-wealth a w = omega (arith, balance-le-balances a w.st.accounts)

pub wealth-pay :
    (a : Address) (x : ℕ) (w : Work)
    → wealth w + x < 2 ^ 64
    → wealth (modify a (pay x) w) ≡ wealth w + x
wealth-pay a x w h = omega (arith, wealth-modify a (pay x) w, balance-le-wealth a w)

pub wealth_of_Intact : {w w' : Work} → Intact w w' → wealth w' ≡ wealth w
wealth_of_Intact p = omega (arith, p.funds, ap (λ (st : State). bonds st.validators) p.rest, p.fees)

pub wealth-snap : (a : Address) (w : Work) → wealth (snap a w) ≡ wealth w
wealth-snap a w = wealth_of_Intact (snap-Intact a w)

pub wealth-acct : (a : Address) (w : Work) → wealth (acct a w) ≡ wealth w
wealth-acct a w = wealth_of_Intact (acct-Intact a w)

pub put-Gains : (a : Address) (x : ℕ) (w : Work) → Gains x w (modify a (pay x) (snap a w))
put-Gains a x w = record { at = λ h. omega (arith, wealth-snap a w, wealth-pay a x (snap a w)) }

-- ===== src/State/Money.antt =====
-- Sums over the ledger's maps (internal/state/state.go): all balances, all bonds.
use shadowledger.Prelude.{ℕ, ◌+◌, ◌≤◌, ◌≡◌, [], ◌∷◌, Option, none, some, arith}
use shadowledger.Prelude.Map.{Map, lookup, insert, erase, bytes_key}
use shadowledger.Crypto.{Address}
use shadowledger.State.Data.{Account, Validator}
use shadowledger.State.Ledger.{account_of}

unfoldable pub balances : Map Address Account → ℕ
balances [] = 0
balances ((_, ac) ∷ m) = ac.balance + balances m

unfoldable pub bonds : Map Address Validator → ℕ
bonds [] = 0
bonds ((_, v) ∷ m) = v.bond + bonds m

abbrev pub bond_of : Option Validator → ℕ
bond_of none = 0
bond_of (some v) = v.bond

-- A write of one account moves the sum by the difference of its balances.
pub balances-insert :
    (a : Address) (ac : Account) (m : Map Address Account)
    → balances (insert a ac m) + (account_of a m).balance ≡ balances m + ac.balance
unfolding balances insert account_of lookup
balances-insert a ac [] = omega arith
balances-insert a ac ((k, v) ∷ m) = ground (arith, balances-insert a ac m)

pub balance-le-balances :
    (a : Address) (m : Map Address Account) → (account_of a m).balance ≤ balances m
unfolding balances account_of lookup
balance-le-balances a [] = omega arith
balance-le-balances a ((k, v) ∷ m) = ground (arith, balance-le-balances a m)

pub bonds-insert :
    (a : Address) (v : Validator) (m : Map Address Validator)
    → bonds (insert a v m) + bond_of (lookup a m) ≡ bonds m + v.bond
unfolding bonds insert lookup
bonds-insert a v [] = omega arith
bonds-insert a v ((k, u) ∷ m) = ground (arith, bonds-insert a v m)

pub bonds-erase :
    (a : Address) (m : Map Address Validator) → bonds (erase a m) + bond_of (lookup a m) ≤ bonds m
unfolding bonds erase lookup
bonds-erase a [] = omega arith
bonds-erase a ((k, u) ∷ m) = ground (arith, bonds-erase a m)

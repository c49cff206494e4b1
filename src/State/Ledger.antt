-- ===== src/State/Ledger.antt =====
-- What `ApplyBlock` works on (internal/state/state.go): the state, the accounts saved for a rollback,
-- and the block's logs and fees so far.
use shadowledger.Prelude.{ℕ, List, [], ◌∷◌, Option, none, some, get_or}
use shadowledger.Prelude.Words.{add64}
use shadowledger.Prelude.Map.{Map, lookup, insert, erase, bytes_key}
use shadowledger.Crypto.{Address}
use shadowledger.Types.Data.{Log}
use shadowledger.State.Data.{Account, empty_account, Validator, State}

pub record Work : Type 0 where
  pub st : State
  pub saved : Map Address (Option Account)
  pub logs : List Log
  pub fees : ℕ

abbrev pub set_accounts : Work → Map Address Account → Work
set_accounts w accounts = record w { st = record w.st { accounts = accounts } }

-- The account at an address, the empty one if there is none.
unfoldable pub account_of : Address → Map Address Account → Account
account_of a accounts = get_or (lookup a accounts) empty_account

-- `State.acct`, which creates a missing account.
unfoldable pub acct : Address → Work → Work
unfolding account_of
acct a w = set_accounts w (insert a (account_of a w.st.accounts) w.st.accounts)

-- `s.acct(a)` with its fields assigned by `f`.
unfoldable pub modify : Address → (Account → Account) → Work → Work
unfolding account_of
modify a f w = set_accounts w (insert a (f (account_of a w.st.accounts)) w.st.accounts)

-- `s.acct(a).Balance += x`
abbrev pub pay : ℕ → Account → Account
pay x ac = record ac { balance = add64 ac.balance x }

-- `snap`: the account as it is, unless it is saved already.
unfoldable pub snap : Address → Work → Work
snap a w = elim (lookup a w.saved) [
  | some _ ↦ w
  | none ↦ record w { saved = insert a (lookup a w.st.accounts) w.saved }
]

-- One turn of the loop of `rollback`.
unfoldable pub restore : Address × Option Account → Map Address Account → Map Address Account
restore (a, some ac) accounts = insert a ac accounts
restore (a, none) accounts = erase a accounts

unfoldable pub restore_all :
    Map Address (Option Account) → Map Address Account → Map Address Account
unfolding restore
restore_all [] accounts = accounts
restore_all (e ∷ saved) accounts = restore_all saved (restore e accounts)

-- `rollback`, with the validators as they were at the start.
unfoldable pub rollback : Map Address Validator → Work → State
unfolding restore_all
rollback backup w = record w.st {
  accounts = restore_all w.saved w.st.accounts;
  validators = backup;
}

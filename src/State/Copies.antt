-- ===== src/State/Copies.antt =====
-- The copies of a state (Clone, ReplaceWith and Account.clone of internal/state/state.go) hold what was
-- copied.
use shadowledger.Prelude.{◌≡◌, refl, [], ◌∷◌}
use shadowledger.Prelude.Map.{Map}
use shadowledger.State.Data.{Account, State}
use shadowledger.State.Access.{copy_map, clone_account, replace_with}

pub copy_map_same {ℓ κ} :
    {K : Type ℓ} {V : Type κ} (copy : V → V)
    → ((v : V) → copy v ≡ v)
    → (m : Map K V) → copy_map copy m ≡ m
unfolding copy_map
copy_map_same copy h [] = refl
copy_map_same copy h ((k, v) ∷ m) = rw (h v, copy_map_same copy h m) refl

pub clone_account_same : (ac : Account) → clone_account ac ≡ ac
unfolding clone_account
clone_account_same ac =
    rw
      (
        copy_map_same (λ v. v) (λ v. refl) ac.storage,
        copy_map_same (λ v. v) (λ v. refl) ac.bstorage,
      )
      refl

pub replace_with-accounts : (t s : State) → (replace_with t s).accounts ≡ t.accounts
unfolding replace_with
replace_with-accounts t s = copy_map_same clone_account clone_account_same t.accounts

-- ===== src/State/Confine.antt =====
-- What a contract's execution may change of a block's working state (internal/state/state.go): code
-- and balances stay, and whatever it writes is saved first, so that a rollback undoes it.
use shadowledger.Prelude.{
  ◌≡◌, ◌≢◌, refl, sym, ◌∙◌, ◌⊎◌, Bool-cases, Bool, true, false, [], ◌∷◌, Option, none, some, arith,
  get_or, if◌then◌else◌, Option-cases, inl, inr,
}
use shadowledger.Prelude.{bytes_eq, bytes_eq_iff}
use mathlib.Core.Path.{subst}
use shadowledger.Prelude.Map.{Map, lookup, insert, lookup-insert, bytes_key}
use shadowledger.Crypto.{Address}
use shadowledger.State.Data.{Account, empty_account}
use shadowledger.State.Ledger.{Work, account_of, acct, modify, snap}

pub account_of-insert :
    (k a : Address) (v : Account) (m : Map Address Account)
    → account_of a (insert k v m) ≡ (if bytes_eq a k then v else account_of a m)
unfolding account_of
account_of-insert k a v m = ground (arith, lookup-insert k a v m)

-- What a rollback would leave at an address, where the account is `now`.
abbrev pub recovered : Option (Option Account) → Option Account → Option Account
recovered none now = now
recovered (some o) now = o

abbrev pub restored : Work → Address → Option Account
restored w a = recovered (lookup a w.saved) (lookup a w.st.accounts)

-- What stands at an address is as it was, or was missing and is an empty account, which only addresses
-- of `P` may become.
abbrev pub IsSameOrNew : (Address → Type 0) → Address → Option Account → Option Account → Type 0
IsSameOrNew P a old now = (now ≡ old) ⊎ ((old ≡ none) × ((now ≡ some empty_account) × P a))

-- Every address.
abbrev pub IsAnywhere : Address → Type 0
IsAnywhere a = Unit

IsSameOrNew-trans :
    (P : Address → Type 0) (a : Address) {x y z : Option Account}
    → IsSameOrNew P a x y
    → IsSameOrNew P a y z
    → IsSameOrNew P a x z
IsSameOrNew-trans P a (inl p) (inl q) = inl (q ∙ p)
IsSameOrNew-trans P a (inl p) (inr (e, (f, h))) = inr (sym p ∙ e, (f, h))
IsSameOrNew-trans P a (inr (e, (f, h))) (inl q) = inr (e, (q ∙ f, h))
IsSameOrNew-trans P a (inr (e, (f, h))) (inr (g, k)) = absurd (cc)

abbrev pub is_some {ℓ} : {A : Type ℓ} → Option A → Bool
is_some none = false
is_some (some a) = true

abbrev pub is_saved : Address → Work → Bool
is_saved a w = is_some (lookup a w.saved)

-- No address is saved twice.
abbrev pub IsUnique : Map Address (Option Account) → Type 0
IsUnique [] = Unit
IsUnique ((k, v) ∷ m) = (lookup k m ≡ none) × IsUnique m

-- `w'` came from `w` with nothing lost that a rollback needs.
pub record Confined (P : Address → Type 0) (w w' : Work) : Type 0 where
  pub restored_same : (a : Address) → IsSameOrNew P a (restored w a) (restored w' a)
  pub saved_still : (a : Address) → is_saved a w ≡ true → is_saved a w' ≡ true
  pub unique : IsUnique w.saved → IsUnique w'.saved

insert-IsUnique :
    (a : Address) (o : Option Account) (m : Map Address (Option Account))
    → IsUnique m
    → IsUnique (insert a o m)
unfolding insert lookup
insert-IsUnique a o [] h = (refl, tt)
insert-IsUnique a o ((k, v) ∷ m) h =
    ground (arith, bytes_eq_iff a k, bytes_eq_iff k a, insert-IsUnique a o m, lookup-insert a k o m)

pub snap-saved : (a : Address) (w : Work) → is_saved a (snap a w) ≡ true
unfolding snap
snap-saved a w =
    ground (arith, lookup-insert a a (lookup a w.st.accounts) w.saved, bytes_eq_iff a a)

-- The account at an address may be looked up with `acct`: it is there, or it is saved, or `P` allows it.
abbrev pub MayCreate : (Address → Type 0) → Address → Work → Type 0
MayCreate P a w = P a ⊎ ((is_saved a w ≡ true) ⊎ (lookup a w.st.accounts ≢ none))

module _ (P : Address → Type 0) where
  permitted :
      (a b : Address) (w : Work)
      → b ≡ a
      → lookup b w.saved ≡ none
      → lookup a w.st.accounts ≡ none
      → MayCreate P a w
      → P b
  permitted a b w same e f (inl h) = subst P (sym same) h
  permitted a b w same e f (inr (inl h)) = absurd (ground (arith, same, e, h))
  permitted a b w same e f (inr (inr h)) = absurd (h f)

  created :
      (a b : Address) (w : Work) (o : Option (Option Account))
      → MayCreate P a w
      → lookup b w.saved ≡ o
      → IsSameOrNew P b
          (recovered o (lookup b w.st.accounts))
          (recovered o (lookup b (acct a w).st.accounts))
  unfolding acct account_of
  created a b w (some o) may e = inl refl
  created a b w none may e =
      let m : Map Address Account = w.st.accounts in
      let put = lookup-insert a b (get_or (lookup a m) empty_account) m in
      elim (Bool-cases (bytes_eq b a)) [
        | inr other ↦ inl (rw (put, other) refl)
        | inl here ↦
            let same : b ≡ a = (bytes_eq_iff b a).0 here in
            elim (Option-cases (lookup a m)) [
              | inr (ac, f) ↦ inl (ground (arith, put, here, same, f))
              | inl f ↦
                  inr (rw same f, (ground (arith, put, here, f), permitted a b w same e f may))
            ]
      ]

module _ {P : Address → Type 0} where
  pub Confined-refl : (w : Work) → Confined P w w
  Confined-refl w = record {
    restored_same = λ a. inl refl;
    saved_still = λ a h. h;
    unique = λ h. h;
  }

  pub Confined-trans : {u v w : Work} → Confined P u v → Confined P v w → Confined P u w
  Confined-trans p q = record {
    restored_same = λ a. IsSameOrNew-trans P a (p.restored_same a) (q.restored_same a);
    saved_still = λ a h. q.saved_still a (p.saved_still a h);
    unique = λ h. q.unique (p.unique h);
  }

  pub snap-Confined : (a : Address) (w : Work) → Confined P w (snap a w)
  unfolding snap account_of
  snap-Confined a w = elim (Option-cases (lookup a w.saved)) [
    | inr (o, e) ↦ rw (e, snap) (Confined-refl w)
    | inl e ↦
        rw (e, snap)
          (record {
            restored_same = λ b. inl (
                ground
                  (arith, lookup-insert a b (lookup a w.st.accounts) w.saved, bytes_eq_iff b a));
            saved_still =
                λ b h. rw (lookup-insert a b (lookup a w.st.accounts) w.saved) (ground arith);
            unique = insert-IsUnique a _ w.saved;
          })
  ]

  -- Creating an empty account changes nothing that a rollback does not undo, but where it was missing.
  pub acct-Confined : (a : Address) (w : Work) → MayCreate P a w → Confined P w (acct a w)
  unfolding acct account_of
  acct-Confined a w may = record {
    restored_same = λ b. created P a b w (lookup b w.saved) may refl;
    saved_still = λ b h. h;
    unique = λ h. h;
  }

  -- A write to an account that is saved.
  pub modify-Confined :
      (a : Address) (f : Account → Account) (w : Work)
      → is_saved a w ≡ true
      → Confined P w (modify a f w)
  unfolding modify account_of
  modify-Confined a f w h = record {
    restored_same = λ b. inl (
        ground (
          arith,
          lookup-insert a b (f (account_of a w.st.accounts)) w.st.accounts,
          bytes_eq_iff b a,
        ));
    saved_still = λ b h. h;
    unique = λ h. h;
  }

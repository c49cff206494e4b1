-- ===== src/Mempool/Runs.antt =====
-- The batches of `Reap` are made of runs of consecutive nonces (internal/mempool/mempool.go).
use shadowledger.Prelude.{
  ℕ, ◌≡◌, refl, sym, ap, ◌∙◌, Bool, List, [], ◌∷◌, ◌++◌, Bytes, length, ltb, leb, ◌==◌, ==_iff,
  Bool-cases, inl, inr, get_or, All, bytes_eq, bytes_eq_iff,
}
use mathlib.Core.Path.{subst}
use shadowledger.Prelude.Words.{add64}
use shadowledger.Prelude.Map.{Map, lookup, insert, bytes_key}
use shadowledger.Crypto.{Address}
use shadowledger.Types.Data.{Transaction}
use shadowledger.State.Data.{State}
use shadowledger.State.Ledger.{account_of}
use shadowledger.Mempool.Pool.{
  Pool, sort_by_nonce, insert_by_nonce, take_run, take_groups, group_by_sender, reap,
}

-- All are from `a`.
abbrev pub AreFrom : Address → List Transaction → Type 0
AreFrom a txs = All (λ t. t.from ≡ a) txs

abbrev AreGroups : List (Address × List Transaction) → Type 0
AreGroups groups = All (λ (g : Address × List Transaction). AreFrom g.0 g.1) groups

lookup-AreFrom :
    (a : Address) (groups : Map Address (List Transaction))
    → AreGroups groups
    → AreFrom a (get_or (lookup a groups) [])
unfolding lookup
lookup-AreFrom a [] h = tt
lookup-AreFrom a ((b, txs) ∷ groups) h = elim (Bool-cases (bytes_eq a b)) [
  | inl e ↦ rw e (subst (λ (c : Address). AreFrom c txs) (sym ((bytes_eq_iff a b).0 e)) h.0)
  | inr e ↦ rw e (lookup-AreFrom a groups h.1)
]

insert-AreGroups :
    (a : Address) (txs : List Transaction) (groups : Map Address (List Transaction))
    → AreFrom a txs
    → AreGroups groups
    → AreGroups (insert a txs groups)
unfolding insert
insert-AreGroups a txs [] h hs = (h, tt)
insert-AreGroups a txs ((b, us) ∷ groups) h hs = elim (Bool-cases (bytes_eq a b)) [
  | inl e ↦ rw e (subst (λ (c : Address). AreFrom c txs) ((bytes_eq_iff a b).0 e) h, hs.1)
  | inr e ↦ rw e (hs.0, insert-AreGroups a txs groups h hs.1)
]

group_by_sender-AreGroups : (m : Map Bytes Transaction) → AreGroups (group_by_sender m)
unfolding group_by_sender
group_by_sender-AreGroups [] = tt
group_by_sender-AreGroups ((id, t) ∷ m) =
    let rest = group_by_sender-AreGroups m in
    insert-AreGroups t.from (t ∷ get_or (lookup t.from (group_by_sender m)) []) (group_by_sender m)
      (refl, lookup-AreFrom t.from (group_by_sender m) rest) rest

insert_by_nonce-AreFrom :
    (a : Address) (t : Transaction) (ts : List Transaction)
    → t.from ≡ a
    → AreFrom a ts
    → AreFrom a (insert_by_nonce t ts)
unfolding insert_by_nonce
insert_by_nonce-AreFrom a t [] e h = (e, tt)
insert_by_nonce-AreFrom a t (u ∷ us) e h = elim (Bool-cases (ltb u.nonce t.nonce)) [
  | inl l ↦ rw l (h.0, insert_by_nonce-AreFrom a t us e h.1)
  | inr g ↦ rw g (e, h)
]

sort_by_nonce-AreFrom :
    (a : Address) (ts : List Transaction) → AreFrom a ts → AreFrom a (sort_by_nonce ts)
unfolding sort_by_nonce
sort_by_nonce-AreFrom a [] h = tt
sort_by_nonce-AreFrom a (t ∷ ts) h =
    insert_by_nonce-AreFrom a t (sort_by_nonce ts) h.0 (sort_by_nonce-AreFrom a ts h.1)

-- Transactions of `a` whose nonces count up from `next`.
abbrev pub IsRun : Address → ℕ → List Transaction → Type 0
IsRun a next [] = Unit
IsRun a next (t ∷ ts) = (t.from ≡ a) × (t.nonce ≡ next) × IsRun a (add64 next 1) ts

-- A batch: runs one after the other, each from its sender's nonce in the state.
pub data IsBatch (s : State) : List Transaction → Type 0 where
  no_run : IsBatch s []
  one_more :
      (out run : List Transaction) (a : Address)
      → IsBatch s out
      → IsRun a (account_of a s.accounts).nonce run
      → IsBatch s (out ++ run)

append_nil : (xs : List Transaction) → xs ++ [] ≡ xs
append_nil [] = refl
append_nil (x ∷ xs) = ap (λ l. x ∷ l) (append_nil xs)

append_assoc : (xs ys zs : List Transaction) → (xs ++ ys) ++ zs ≡ xs ++ (ys ++ zs)
append_assoc [] ys zs = refl
append_assoc (x ∷ xs) ys zs = ap (λ l. x ∷ l) (append_assoc xs ys zs)

take_run-IsRun :
    (max next : ℕ) (out ts : List Transaction) (a : Address)
    → AreFrom a ts
    → (run : List Transaction) × ((take_run max next out ts).0 ≡ out ++ run) × IsRun a next run
unfolding take_run
take_run-IsRun max next out [] a h = ([], sym (append_nil out), tt)
take_run-IsRun max next out (t ∷ ts) a h = elim (Bool-cases (t.nonce == next)) [
  | inr gap ↦ ([], rw gap (sym (append_nil out)), tt)
  | inl good ↦
      let at_next : t.nonce ≡ next = (==_iff t.nonce next).0 good in
      elim (Bool-cases (leb max (length (out ++ t ∷ [])))) [
        | inl filled ↦ (t ∷ [], rw (good, filled) refl, (h.0, at_next, tt))
        | inr room ↦
            let (run, same, more) = take_run-IsRun max (add64 next 1) (out ++ t ∷ []) ts a h.1 in
            (t ∷ run, rw (good, room) (same ∙ append_assoc out (t ∷ []) run), (h.0, at_next, more))
      ]
]

take_groups-IsBatch :
    (s : State) (max : ℕ) (out : List Transaction) (groups : List (Address × List Transaction))
    → AreGroups groups
    → IsBatch s out
    → IsBatch s (take_groups s max out groups)
unfolding take_groups
take_groups-IsBatch s max out [] h b = b
take_groups-IsBatch s max out ((a, txs) ∷ groups) h b =
    let next = (account_of a s.accounts).nonce in
    let taken : List Transaction × Bool = take_run max next out (sort_by_nonce txs) in
    let (run, same, is_run) =
      take_run-IsRun max next out (sort_by_nonce txs) a (sort_by_nonce-AreFrom a txs h.0) in
    let grown : IsBatch s taken.0 = subst (IsBatch s) (sym same) (one_more out run a b is_run) in
    elim (Bool-cases taken.1) [
      | inl filled ↦ rw filled grown
      | inr room ↦ rw room (take_groups-IsBatch s max taken.0 groups h.1 grown)
    ]

-- Every batch that the pool gives is a sequence of runs, each of one sender's transactions with the
-- nonces that follow the sender's nonce in the state without a gap.
pub reap-IsBatch : (s : State) (max : ℕ) (p : Pool) → IsBatch s (reap s max p)
unfolding reap
reap-IsBatch s max p =
    take_groups-IsBatch s max [] (group_by_sender p.by_id) (group_by_sender-AreGroups p.by_id)
      no_run

-- ===== src/State/Execution.antt =====
-- A contract's execution, nested calls included, is confined and moves no money
-- (`execContract` and `vmHost.Call` of internal/state/state.go).
use shadowledger.Prelude.{
  ℕ, zero, suc, ◌≡◌, ◌≢◌, refl, ◌∷◌, arith, bytes_eq_iff, true, [], Option, none, some, Bytes,
  Option-cases, get_or, Bool-cases, inl, inr,
}
use mathlib.Core.Path.{subst}
use shadowledger.Prelude.Map.{Map, lookup, bytes_key}
use shadowledger.Vm.Stack.{be_bytes}
use shadowledger.Vm.Frame.{Reply, Host, Result, Outcome, done, failed, panicked}
use shadowledger.Vm.Invariant.{OnOutcome}
use shadowledger.Vm.World.{IsKeptBy, execute_b-Holds}
use shadowledger.Crypto.{Env, Address}
use shadowledger.State.Data.{Account}
use shadowledger.State.Ledger.{Work, acct, snap}
use shadowledger.State.Confine.{
  Confined, Confined-refl, Confined-trans, snap-Confined, snap-saved, acct-Confined,
  modify-Confined, is_saved, MayCreate,
}
use shadowledger.State.Intact.{
  Intact, Intact-refl, Intact-trans, snap-Intact, modify-Intact, acct-Intact,
}
use shadowledger.State.Contract.{
  contract_by_digest, commit_contract, conclude, exec_contract, host_reply, call_contract, vm_host,
}

-- Both relations at once.
pub record Safe (P : Address → Type 0) (w w' : Work) : Type 0 where
  pub confined : Confined P w w'
  pub intact : Intact w w'

abbrev pub OnReply : (Work → Type 0) → Option (Reply Work) → Type 0
OnReply R none = Unit
OnReply R (some r) = R r.world

-- The contract that a digest names is an account that is there.
contract_by_digest-lookup :
    (env : Env) (d : ℕ) (a : Address) (m : Map Address Account)
    → contract_by_digest env d m ≡ some a
    → lookup a m ≢ none
unfolding contract_by_digest lookup
contract_by_digest-lookup env d a [] e none_there = cc
contract_by_digest-lookup env d a ((b, ac) ∷ m) e none_there =
    let rest = contract_by_digest-lookup env d a m in ground (arith, bytes_eq_iff a b, rest)

module _ {P : Address → Type 0} where
  Safe-refl : (w : Work) → Safe P w w
  Safe-refl w = record { confined = Confined-refl w; intact = Intact-refl w }

  pub Safe-trans : {u v w : Work} → Safe P u v → Safe P v w → Safe P u w
  Safe-trans p q = record {
    confined = Confined-trans p.confined q.confined;
    intact = Intact-trans p.intact q.intact;
  }

  enter-Safe : (a : Address) (w : Work) → MayCreate P a w → Safe P w (snap a (acct a w))
  enter-Safe a w may = record {
    confined = Confined-trans (acct-Confined a w may) (snap-Confined a (acct a w));
    intact = Intact-trans (acct-Intact a w) (snap-Intact a (acct a w));
  }

  commit_contract-Safe :
      (a : Address) (i : ℕ) (r : Result) (s : Map ℕ ℕ) (b : Option (Map ℕ Bytes)) (w : Work)
      → is_saved a w ≡ true
      → Safe P w (commit_contract a i r s b w)
  unfolding commit_contract
  commit_contract-Safe a i r s b w h =
      let f : Account → Account = λ ac. record ac { storage = s; bstorage = get_or b [] } in
      let p = modify-Confined a f w h in
      let q = modify-Intact a f w (λ ac. refl) (λ ac. refl) in
      record {
        confined = record {
          restored_same = p.restored_same;
          saved_still = p.saved_still;
          unique = p.unique;
        };
        intact = record {
          funds = q.funds;
          balance = q.balance;
          nonce = q.nonce;
          rest = q.rest;
          fees = q.fees;
        };
      }

  conclude-Safe :
      (a : Address) (i gas : ℕ) (u w : Work) (o : Outcome Work)
      → is_saved a w ≡ true
      → Safe P u w
      → OnOutcome (λ r s b w'. Safe P w w') (Safe P w) o
      → OnReply (Safe P u) (conclude a i gas o)
  unfolding conclude
  conclude-Safe a i gas u w (done r s b w') h p q =
      Safe-trans (Safe-trans p q) (commit_contract-Safe a i r s b w' (q.confined.saved_still a h))
  conclude-Safe a i gas u w (failed e w') h p q = Safe-trans p q
  conclude-Safe a i gas u w panicked h p q = tt

module _ (env : Env) (i : ℕ) where
  host_reply-Safe :
      (R : Work → Type 0) (gas : ℕ) (o : Option (Reply Work))
      → OnReply R o
      → OnReply R (host_reply env i gas o)
  unfolding host_reply
  host_reply-Safe R gas none h = tt
  host_reply-Safe R gas (some r) h = elim (Bool-cases r.success) [
    | inl good ↦ rw (good, OnReply) h
    | inr bad ↦ rw (bad, OnReply) h
  ]

  of_reply :
      (R : Work → Type 0) (o : Option (Reply Work)) (r : Reply Work)
      → OnReply R o
      → o ≡ some r
      → R r.world
  of_reply R o r h e = subst (OnReply R) e h

module _ (P : Address → Type 0) (env : Env) (i : ℕ) where
  pub exec_contract-Safe :
      (host : Option (Host Work)) (a : Address) (caller : ℕ) (caller_addr : Address) (input : Bytes)
      (value gas depth : ℕ) (w : Work)
      → MayCreate P a w
      → ((u : Work) → IsKeptBy (Safe P u) host)
      → OnReply (Safe P w) (exec_contract env i host a caller caller_addr input value gas depth w)
  unfolding exec_contract
  exec_contract-Safe host a caller caller_addr input value gas depth w may keep =
      let w' : Work = snap a (acct a w) in
      conclude-Safe a i gas w w' _ (snap-saved a (acct a w)) (enter-Safe a w may)
        (execute_b-Holds (Safe P w') _ _ _ _ _ _ _ w' (Safe-refl w') (keep w'))

  call_contract-Safe :
      (host : Option (Host Work)) (u : Work)
      → ((v : Work) → IsKeptBy (Safe P v) host)
      → (w : Work) (self target arg gas depth : ℕ) → Safe P u w
      → OnReply (Safe P u) (call_contract env i host w self target arg gas depth)
  unfolding call_contract
  call_contract-Safe host u keep w self target arg gas depth h =
      elim (Option-cases (contract_by_digest env target w.st.accounts)) [
        | inl e ↦ rw (e, OnReply) h
        | inr (a, e) ↦
            rw (e, OnReply)
              (host_reply-Safe env i (Safe P u) gas _ (
                follow _ (
                  exec_contract-Safe host a self [] (be_bytes arg) 0 gas depth w
                    (inr (inr (contract_by_digest-lookup env target a w.st.accounts e))) keep)))
      ]
    where
      follow : (o : Option (Reply Work)) → OnReply (Safe P w) o → OnReply (Safe P u) o
      follow none k = tt
      follow (some r) k = Safe-trans h k

  pub vm_host-Safe : (n : ℕ) (u : Work) → IsKeptBy (Safe P u) (vm_host env i n)
  unfolding vm_host
  vm_host-Safe zero u = tt
  vm_host-Safe (suc n) u = λ w self target arg gas depth r h e.
      of_reply env i (Safe P u) _ r
        (call_contract-Safe (vm_host env i n) u (vm_host-Safe n) w self target arg gas depth h) e

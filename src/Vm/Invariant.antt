-- ===== src/Vm/Invariant.antt =====
-- The rule for invariants of the loop of `ExecuteB` (internal/vm/vm.go): what a turn keeps, an
-- execution keeps.
use shadowledger.Prelude.{ℕ, zero, suc, Option, Bytes, Bool-cases, inl, inr}
use shadowledger.Prelude.Map.{Map}
use shadowledger.Vm.Stack.{Exec, ok, err, panic}
use shadowledger.Vm.Frame.{
  Context, Machine, Turn, next, halt, fail, crash, Result, Outcome, done, failed, panicked,
}
use shadowledger.Vm.Step.{turn, settle}
use shadowledger.Vm.Run.{in_code, commit_b, proceed, run}

module _ {H : Type 0} (P : Machine H → Type 0) (F : H → Type 0) where
  -- `P` of the machine that a case of the switch leaves.
  abbrev pub OnExec : Exec (Machine H) → Type 0
  OnExec (ok m) = P m
  OnExec (err e) = Unit
  OnExec panic = Unit

  -- `P` of the machine that a turn leaves, and `F` of the host's state where it fails.
  abbrev pub OnTurn : Turn H → Type 0
  OnTurn (next m) = P m
  OnTurn (halt m) = P m
  OnTurn (fail e w) = F w
  OnTurn crash = Unit

  pub settle-OnTurn : (w : H) (r : Exec (Machine H)) → F w → OnExec r → OnTurn (settle w r)
  settle-OnTurn w (ok m) f h = h
  settle-OnTurn w (err e) f h = f
  settle-OnTurn w panic f h = tt

-- A property of what an execution returns, and one of the host's state where it fails.
module _ {H : Type 0} (Q : Result → Map ℕ ℕ → Option (Map ℕ Bytes) → H → Type 0)
    (F : H → Type 0) where
  abbrev pub OnOutcome : Outcome H → Type 0
  OnOutcome (done r s b w) = Q r s b w
  OnOutcome (failed e w) = F w
  OnOutcome panicked = Unit

module _ {H : Type 0} (sha256 : Bytes → Bytes) (code input : Bytes) (gas : ℕ) (ctx : Context H)
    (bstore : Option (Map ℕ Bytes)) (P : Machine H → Type 0) (F : H → Type 0)
    (Q : Result → Map ℕ ℕ → Option (Map ℕ Bytes) → H → Type 0)
    (keep : (m : Machine H) → P m → OnTurn P F (turn sha256 code input gas ctx m))
    (finish : (m : Machine H) → P m → OnOutcome Q F (commit_b bstore m))
    (stops : (m : Machine H) → P m → F m.world) where
  proceed_inv :
      (rest : Machine H → Outcome H) (t : Turn H)
      → ((m : Machine H) → P m → OnOutcome Q F (rest m))
      → OnTurn P F t
      → OnOutcome Q F (proceed bstore rest t)
  proceed_inv rest (next m) all h = all m h
  proceed_inv rest (halt m) all h = finish m h
  proceed_inv rest (fail e w) all h = h
  proceed_inv rest crash all h = tt

  pub run_inv :
      (n : ℕ) (m : Machine H) → P m → OnOutcome Q F (run bstore sha256 code input gas ctx n m)
  unfolding run
  run_inv zero m h = elim (Bool-cases (in_code code m.pc)) [
    | inl on ↦ rw (on, OnOutcome) (stops m h)
    | inr off ↦ rw (off, OnOutcome) (finish m h)
  ]
  run_inv (suc n) m h = elim (Bool-cases (in_code code m.pc)) [
    | inl on ↦
        rw (on, OnOutcome)
          (proceed_inv (run bstore sha256 code input gas ctx n) _ (run_inv n) (keep m h))
    | inr off ↦ rw (off, OnOutcome) (finish m h)
  ]

-- ===== src/Vm/Run.antt =====
-- The loop of `ExecuteB` and its entry and exit (internal/vm/vm.go).
use shadowledger.Prelude.{
  ℕ, zero, suc, Bool, true, false, ◌||◌, [], Option, ltb, length, Bytes, get_or,
}
use mathlib.Core.Option
use shadowledger.Prelude.Map.{Map}
use shadowledger.Vm.Stack.{VmError}
use shadowledger.Vm.Frame.{
  Context, Machine, Turn, next, halt, fail, crash, Outcome, done, failed, panicked,
}
use shadowledger.Vm.Step.{turn, is_negative}

abbrev pub max_steps : ℕ
max_steps = 1_000_000

-- `pc < len(code)`, signed
abbrev pub in_code : Bytes → ℕ → Bool
in_code code pc = is_negative pc || ltb pc (length code)

module _ {H : Type 0} (bstore : Option (Map ℕ Bytes)) where
  -- `commitB`: the working maps become the live ones, the byte map only if there is one.
  unfoldable pub commit_b : Machine H → Outcome H
  commit_b m =
      done
        (record {
          gas_used = m.used;
          return = m.ret;
          return_bytes = m.ret_bytes;
          stack = m.stack;
          logs = m.logs;
        })
        m.work (Option.map (λ _. m.bwork) bstore) m.world

  -- A turn of the loop, and `rest` for the turns after it.
  abbrev pub proceed : (Machine H → Outcome H) → Turn H → Outcome H
  proceed rest (next m) = rest m
  proceed rest (halt m) = commit_b m
  proceed rest (fail e w) = failed e w
  proceed rest crash = panicked

  module _ (sha256 : Bytes → Bytes) (code input : Bytes) (gas : ℕ) (ctx : Context H) where
    -- The loop, on the number of steps that `maxSteps` leaves.
    unfoldable pub run : ℕ → Machine H → Outcome H
    run zero m = elim (in_code code m.pc) [
      | true ↦ failed VmError.step_limit m.world
      | false ↦ commit_b m
    ]
    run (suc n) m = elim (in_code code m.pc) [
      | true ↦ proceed (run n) (turn sha256 code input gas ctx m)
      | false ↦ commit_b m
    ]

-- The loop's variables at its start: working copies of the maps, and all else zero.
abbrev pub start : {H : Type 0} → Map ℕ ℕ → Option (Map ℕ Bytes) → H → Machine H
start storage bstore w = record {
  pc = 0;
  used = 0;
  ret = 0;
  ret_bytes = [];
  stack = [];
  work = storage;
  bwork = get_or bstore [];
  logs = [];
  world = w;
}

unfoldable pub execute_b :
    {H : Type 0}
    → (Bytes → Bytes)
    → Bytes
    → Bytes
    → Map ℕ ℕ
    → Option (Map ℕ Bytes)
    → ℕ
    → Context H
    → H
    → Outcome H
execute_b sha256 code input storage bstore gas ctx w =
    run bstore sha256 code input gas ctx max_steps (start storage bstore w)

-- ===== src/Vm/Jumps.antt =====
-- Where a jump may lead, internal/vm/vm.go.
use shadowledger.Prelude.{
  ℕ, suc, ◌^◌, ◌≤◌, ◌<◌, ◌≡◌, refl, ap, ◌∙◌, some, true, false, [], ◌∷◌, ◌++◌, length, Option,
  Bytes, arith, ltb,
}
use shadowledger.Prelude.Map.{Map}
use shadowledger.Vm.Opcodes.{decode, gas_cost}
use shadowledger.Vm.Stack.{be_bytes, read_be, push, pop}
use shadowledger.Vm.Frame.{Machine, Context, next, crash, panicked}
use shadowledger.Vm.Step.{turn, goto, exec_jump, exec_op, exec_pushi, charge, is_negative}
use shadowledger.Vm.Run.{in_code, proceed, start, run, execute_b}

run-turn :
    {H : Type 0} (bstore : Option (Map ℕ Bytes)) (sha256 : Bytes → Bytes) (code input : Bytes)
    (gas : ℕ) (ctx : Context H) (n : ℕ) (m : Machine H)
    → in_code code m.pc ≡ true
    → run bstore sha256 code input gas ctx (suc n) m
      ≡ proceed bstore (run bstore sha256 code input gas ctx n) (turn sha256 code input gas ctx m)
unfolding run
run-turn bstore sha256 code input gas ctx n m inside = rw (inside, run) refl

-- PUSH of a destination, JUMP, and anything.
abbrev pub far_jump : ℕ → Bytes → Bytes
far_jump dest rest = 0x01 ∷ (be_bytes dest ++ (0x40 ∷ rest))

module _ {H : Type 0} (sha256 : Bytes → Bytes) (rest input : Bytes) (gas : ℕ) (ctx : Context H)
    (storage : Map ℕ ℕ) (bstore : Option (Map ℕ Bytes)) (w : H) (dest : ℕ) where
  abbrev at_jump : Machine H
  at_jump = record (start storage bstore w) { pc = 9; used = 3; stack = dest ∷ [] }

  reads : dest < 2 ^ 64 → read_be 8 (far_jump dest rest) 1 0 ≡ some dest
  unfolding read_be be_bytes
  reads high = ap some (omega arith)

  pushes :
      dest < 2 ^ 64
      → 4 ≤ gas
      → turn sha256 (far_jump dest rest) input gas ctx (start storage bstore w) ≡ next at_jump
  unfolding turn charge exec_op exec_pushi be_bytes decode gas_cost push
  pushes high rich =
      let paid : ltb gas 3 ≡ false = ground arith in
      let long : ltb (length (far_jump dest rest)) 9 ≡ false = ground arith in
      rw (paid, long, reads high) refl

  jumps :
      2 ^ 63 ≤ dest
      → 4 ≤ gas
      → turn sha256 (far_jump dest rest) input gas ctx at_jump
        ≡ next (record at_jump { pc = dest; used = 4; stack = [] })
  unfolding turn charge exec_op exec_jump goto be_bytes decode gas_cost pop
  jumps low rich =
      let paid : ltb gas 4 ≡ false = ground arith in
      let far : ltb dest (2 ^ 63) ≡ false = ground arith in rw (paid, far) refl

  falls :
      2 ^ 63 ≤ dest
      → turn sha256
          (far_jump dest rest)
          input
          gas
          ctx
          (record at_jump { pc = dest; used = 4; stack = [] })
        ≡ crash
  unfolding turn
  falls low = let negative : is_negative dest ≡ true = ground arith in rw (negative, turn) refl

  at_nine : in_code (far_jump dest rest) 9 ≡ true
  unfolding be_bytes
  at_nine = ground arith

  panics :
      (n : ℕ)
      → 2 ^ 63 ≤ dest
      → dest < 2 ^ 64
      → 4 ≤ gas
      → run bstore sha256
          (far_jump dest rest)
          input
          gas
          ctx
          (suc (suc (suc n)))
          (start storage bstore w)
        ≡ panicked
  panics n low high rich =
      let negative : is_negative dest ≡ true = ground arith in
      let first : in_code (far_jump dest rest) 0 ≡ true = ground arith in
      let second : in_code (far_jump dest rest) 9 ≡ true = at_nine in
      run-turn bstore sha256 (far_jump dest rest) input gas ctx _ _ first
      ∙ ap (proceed bstore (run bstore sha256 (far_jump dest rest) input gas ctx (suc (suc n))))
          (pushes high rich)
      ∙ run-turn bstore sha256 (far_jump dest rest) input gas ctx _ _ second
      ∙ ap (proceed bstore (run bstore sha256 (far_jump dest rest) input gas ctx (suc n)))
          (jumps low rich)
      ∙ run-turn bstore sha256 (far_jump dest rest) input gas ctx _ _ (rw negative refl)
      ∙ ap (proceed bstore (run bstore sha256 (far_jump dest rest) input gas ctx n)) (falls low)

-- A program that pushes a destination from 2^63 on and jumps there panics, whatever follows the jump, the
-- input, the storage, the host and the gas, where the gas pays for the two instructions.
pub execute_b_panics :
    {H : Type 0} (sha256 : Bytes → Bytes) (rest input : Bytes) (gas : ℕ) (ctx : Context H)
    (storage : Map ℕ ℕ) (bstore : Option (Map ℕ Bytes)) (w : H) (dest : ℕ)
    → 2 ^ 63 ≤ dest
    → dest < 2 ^ 64
    → 4 ≤ gas
    → execute_b sha256 (far_jump dest rest) input storage bstore gas ctx w ≡ panicked
unfolding execute_b
execute_b_panics sha256 rest input gas ctx storage bstore w dest low high rich =
    panics sha256 rest input gas ctx storage bstore w dest 999_997 low high rich

-- ===== src/Tests/Machine.antt =====
-- Programs of the machine run on concrete inputs.
use shadowledger.Vm.Step.{
  turn, charge, exec_op, exec_pushi, exec_call, call_with, request, forwarded, after_call,
  exec_return, exec_jump, goto,
}
use shadowledger.Vm.Opcodes.{decode, gas_cost}
use shadowledger.Vm.Stack.{push_quiet, push, pop, read_be}
use shadowledger.Vm.Run.{commit_b}
use shadowledger.Prelude.{
  ℕ, ◌+◌, ◌-◌, ◌*◌, ◌^◌, ◌≡◌, refl, [], ◌∷◌, Option, none, some, arith, Bytes, ◌++◌, ◌≤◌, true,
}
use shadowledger.Vm.Opcodes.{Opcode}
use shadowledger.Vm.Stack.{VmError, checked, word, be_bytes}
use shadowledger.Vm.Frame.{Reply, Host, Context, Outcome, done, failed}
use shadowledger.Vm.Run.{run, execute_b}
use shadowledger.Vm.Frame.{panicked}
use shadowledger.Vm.Jumps.{far_jump, execute_b_panics}
use shadowledger.Vm.Bounds.{execute_b-IsWithin, IsWithin}
use shadowledger.Vm.Arith.{exact, checked-eq-exact, encode_words, word-encode_words, word_panics}

-- A host whose calls use all their gas and answer the argument doubled; its state counts them.
abbrev doubling : Host ℕ
doubling n self target arg limit depth =
    some (record { ret = arg * 2; gas_used = limit; success = true; world = n + 1 })

abbrev context : Context ℕ
context = record {
  caller = 7;
  self = 9;
  caller_addr = [];
  self_addr = [];
  value = 3;
  balance = 100;
  host = some doubling;
  depth = 0;
}

-- PUSH v
abbrev push_code : ℕ → Bytes
push_code v = 0x01 ∷ be_bytes v

-- The target 9, the argument 21 and a gas limit of 50 for a CALL, whose result is returned.
abbrev calling : Bytes
calling = push_code 9 ++ push_code 21 ++ push_code 50 ++ 0x71 ∷ 0x70 ∷ []

abbrev called : Outcome ℕ
called =
    done (record { gas_used = 61; return = 42; return_bytes = []; stack = []; logs = [] }) [] none 1

run-calling : execute_b (λ x. x) calling [] [] none 1000 context 0 ≡ called
unfolding execute_b run turn charge decode gas_cost exec_op exec_pushi push_quiet push read_be
    be_bytes exec_call call_with request forwarded after_call exec_return commit_b
run-calling = refl

-- A jump back to the start runs out of gas.
run_loop :
    execute_b (λ x. x) (push_code 0 ++ 0x40 ∷ []) [] [] none 100 context 0
    ≡ failed VmError.out_of_gas 0
unfolding execute_b run turn charge decode gas_cost exec_op exec_pushi push_quiet push read_be
    be_bytes exec_jump goto pop
run_loop = refl

gas_of : {r r' : Reply ℕ} → ◌≡◌ {A = Option (Reply ℕ)} (some r) (some r') → r.gas_used ≡ r'.gas_used
gas_of e = cc

doubling_fair :
    (w : ℕ) (s t a g d : ℕ) (r : Reply ℕ) → doubling w s t a g d ≡ some r → r.gas_used ≤ g
doubling_fair w s t a g d r e = omega (arith, gas_of e)

execute_b-IsWithin_example : IsWithin 1000 (execute_b (λ x. x) calling [] [] none 1000 context 0)
execute_b-IsWithin_example =
    execute_b-IsWithin (λ x. x) calling [] [] none 1000 context 0 (omega arith) doubling_fair

checked-eq-exact_example :
    checked Opcode.mulc (2 ^ 32) (2 ^ 32) ≡ exact Opcode.mulc (2 ^ 32) (2 ^ 32)
checked-eq-exact_example =
    checked-eq-exact Opcode.mulc (2 ^ 32) (2 ^ 32) (omega arith) (omega arith)

word-encode_words_example : word (encode_words (5 ∷ 2 ^ 63 ∷ [])) 1 ≡ some (2 ^ 63)
word-encode_words_example =
    word-encode_words (5 ∷ 2 ^ 63 ∷ []) 1 (omega arith, (omega arith, tt)) (omega arith)

word_panics_example : word [] (2 ^ 61 - 1) ≡ none
word_panics_example = word_panics [] 0 (omega arith)

execute_b_panics_example :
    execute_b (λ x. x) (far_jump (2 ^ 63) (0x00 ∷ [])) [] [] none 100 context 0 ≡ panicked
execute_b_panics_example =
    execute_b_panics (λ x. x) (0x00 ∷ []) [] 100 context [] none 0 (2 ^ 63) (omega arith)
      (omega arith) (omega arith)

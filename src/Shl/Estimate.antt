-- ===== src/Shl/Estimate.antt =====
-- The gas estimate of internal/shl/estimate.go.
use shadowledger.Prelude.{
  ℕ, zero, suc, ◌||◌, [], ◌∷◌, Option, none, some, Bytes, length, take, ltb, ◌==◌, if◌then◌else◌,
}
use shadowledger.Prelude.Words.{add64, mul64}
use shadowledger.Vm.Stack.{be_u64}

-- The cost of an opcode other than PUSH, after the constant that was pushed just before.
unfoldable pub estimated_cost : ℕ → Option ℕ → ℕ
estimated_cost op last =
    if op == 0x51
    then 100
    else if op == 0x50 || op == 0x57
    then 20
    else if op == 0x72
    then elim last [ none ↦ 50 | some n ↦ add64 50 (mul64 8 n) ]
    else 1

-- The constant that is known after a PUSH, over the bytes after its opcode.
unfoldable pub pushed_constant : Bytes → Option ℕ → Option ℕ
pushed_constant rest last = if ltb (length rest) 8 then last else some (be_u64 0 (take 8 rest))

-- The loop of `Estimate`, with the operand bytes that are still to be passed over.
unfoldable pub estimate_loop : Bytes → ℕ → ℕ → Option ℕ → ℕ
estimate_loop [] skip sum last = sum
estimate_loop (b ∷ rest) (suc skip) sum last = estimate_loop rest skip sum last
estimate_loop (b ∷ rest) zero sum last =
    let push = estimate_loop rest 8 (add64 sum 3) (pushed_constant rest last) in
    let other = estimate_loop rest zero (add64 sum (estimated_cost b last)) none in
    if b == 0x01 then push else other

-- `Estimate`
unfoldable pub estimate : Bytes → ℕ
estimate code = estimate_loop code zero 0 none

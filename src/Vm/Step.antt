-- ===== src/Vm/Step.antt =====
-- One turn of the loop of `ExecuteB` (internal/vm/vm.go): fetch, charge, and the opcode's case.
use shadowledger.Prelude.{
  ℕ, ◌+◌, ◌*◌, ◌^◌, Bool, ◌&&◌, ◌||◌, List, [], ◌∷◌, ◌++◌, Option, none, some, ltb, leb, ◌==◌,
  if◌then◌else◌, length, get_elem?, get_or, take, drop, Bytes, bytes_eq,
}
use shadowledger.Prelude.Map.{lookup, insert, nat_eq}
use shadowledger.Prelude.Words.{add64, sub64, not64}
use shadowledger.Vm.Opcodes.{Opcode, decode, gas_cost}
use shadowledger.Vm.Stack.{
  VmError, Exec, ok, err, panic, ◌>>=◌, ◌>>◌, fail_if, push, push_quiet, pop, b2u, binop, checked,
  read_be, word, or_panic, pop_topics, be_u64, be_bytes,
}
use shadowledger.Vm.Frame.{Reply, Context, Machine, Turn, next, halt, fail, crash}

abbrev pub max_depth : ℕ
max_depth = 8

abbrev pub max_log_topics : ℕ
max_log_topics = 8

-- A comparison with `len(code)` is signed.
abbrev pub is_negative : ℕ → Bool
is_negative i = leb (2 ^ 63) i

-- `forward`: the gas asked for, or what remains.
unfoldable pub forwarded : ℕ → ℕ → ℕ → ℕ
forwarded gas used gl = let rem = sub64 gas used in if ltb rem gl then rem else gl

module _ {H : Type 0} where
  abbrev pub set_stack : Machine H → List ℕ → Machine H
  set_stack m st = record m { stack = st }

  -- The opcodes that push one value.
  abbrev pub exec_push : Machine H → ℕ → Exec (Machine H)
  exec_push m v = do st ← push v m.stack; ok (set_stack m st)

  unfoldable pub exec_binary : (ℕ → ℕ → Exec ℕ) → Machine H → Exec (Machine H)
  exec_binary f m = do
    (b, st) ← pop m.stack
    (a, rest) ← pop st
    r ← f a b
    out ← push r rest
    ok (set_stack m out)

  -- The opcodes that pop one value and push one.
  unfoldable pub exec_unary : (ℕ → Exec ℕ) → Machine H → Exec (Machine H)
  exec_unary f m = do (a, st) ← pop m.stack; r ← f a; out ← push r st; ok (set_stack m out)

  -- ISZERO and NOT append with no check of the stack's size.
  unfoldable pub exec_flip : (ℕ → ℕ) → Machine H → Exec (Machine H)
  exec_flip f m = do (a, st) ← pop m.stack; ok (set_stack m (f a ∷ st))

  unfoldable pub exec_pushi : Bytes → Machine H → Exec (Machine H)
  exec_pushi code m = if ltb (length code) (m.pc + 8) then err VmError.bad_code else do
    v ← or_panic (read_be 8 code m.pc 0)
    out ← push v m.stack
    ok (record m { pc = m.pc + 8; stack = out })

  unfoldable pub exec_dup : Machine H → Exec (Machine H)
  exec_dup m = do (a, st) ← pop m.stack; out ← push a (push_quiet a st); ok (set_stack m out)

  unfoldable pub exec_swap : Machine H → Exec (Machine H)
  exec_swap m = do
    (b, st) ← pop m.stack
    (a, rest) ← pop st
    ok (set_stack m (push_quiet a (push_quiet b rest)))

  -- `int(dest) >= len(code)`: a destination from 2^63 on is negative and passes.
  unfoldable pub goto : Bytes → ℕ → Machine H → Exec (Machine H)
  goto code dest m =
      if ltb dest (2 ^ 63) && leb (length code) dest
      then err VmError.bad_jump
      else ok (record m { pc = dest })

  unfoldable pub exec_jump : Bytes → Machine H → Exec (Machine H)
  unfolding goto
  exec_jump code m = do (dest, st) ← pop m.stack; goto code dest (set_stack m st)

  unfoldable pub exec_jumpi : Bytes → Machine H → Exec (Machine H)
  unfolding goto
  exec_jumpi code m = do
    (dest, st) ← pop m.stack
    (c, rest) ← pop st
    if c == 0 then ok (set_stack m rest) else goto code dest (set_stack m rest)

  unfoldable pub exec_pop : Machine H → Exec (Machine H)
  exec_pop m = do (_, st) ← pop m.stack; ok (set_stack m st)

  unfoldable pub exec_sstore : Machine H → Exec (Machine H)
  exec_sstore m = do
    (v, st) ← pop m.stack
    (k, rest) ← pop st
    ok (record m { stack = rest; work = insert k v m.work })

  -- The second gas test is the topics' own charge.
  unfoldable pub exec_log : ℕ → Machine H → Exec (Machine H)
  exec_log gas m = do
    (n, st) ← pop m.stack
    fail_if (ltb max_log_topics n) VmError.bad_code
    fail_if (ltb gas (add64 m.used (8 * n))) VmError.out_of_gas
    (topics, rest) ← pop_topics n st []
    ok (record m { used = add64 m.used (8 * n); stack = rest; logs = m.logs ++ (topics ∷ []) })

  unfoldable pub exec_bstore : Bytes → Machine H → Exec (Machine H)
  exec_bstore input m = do
    (bkey, s1) ← pop m.stack
    (off, s2) ← pop s1
    (ln, s3) ← pop s2
    fail_if (ltb (length input) (add64 off ln) || ltb (add64 off ln) off) VmError.bad_code
    ok (record m { stack = s3; bwork = insert bkey (take ln (drop off input)) m.bwork })

  -- CALLERB and SELFB
  unfoldable pub exec_put : Bytes → Machine H → Exec (Machine H)
  exec_put bs m = do
    (k, st) ← pop m.stack
    ok (record m { stack = st; bwork = insert k bs m.bwork })

  abbrev pub blob : Machine H → ℕ → Bytes
  blob m k = get_or (lookup k m.bwork) []

  -- What a case of the switch leads to, where it leaves the host alone.
  abbrev pub settle : H → Exec (Machine H) → Turn H
  settle w (ok m) = next m
  settle w (err e) = fail e w
  settle w panic = crash

  -- CALL, after the host has answered: the gas is charged, and the gas limit tested, first.
  unfoldable pub after_call : ℕ → Machine H → Option (Reply H) → Turn H
  after_call gas m none = crash
  after_call gas m (some r) =
      let m' : Machine H = record m { used = add64 m.used r.gas_used; world = r.world } in
      if ltb gas (add64 m.used r.gas_used)
      then fail VmError.out_of_gas r.world
      else settle r.world (exec_push m' (if r.success then r.ret else 0))

  -- The host is asked for at most the gas that remains; without one, or too deep, 0 is pushed.
  unfoldable pub request : ℕ → Context H → Machine H → ℕ → ℕ → ℕ → Turn H
  unfolding after_call forwarded
  request gas ctx m gl arg target =
      if leb max_depth ctx.depth then settle m.world (exec_push m 0) else elim ctx.host [
        | none ↦ settle m.world (exec_push m 0)
        | some call ↦
            after_call gas m
              (call m.world ctx.self target arg (forwarded gas m.used gl) (ctx.depth + 1))
      ]

  -- Over the operand stack: gas limit, argument and target are popped.
  unfoldable pub call_with : ℕ → Context H → Machine H → List ℕ → Turn H
  unfolding request
  call_with gas ctx m (gl ∷ arg ∷ target ∷ st) = request gas ctx (set_stack m st) gl arg target
  call_with gas ctx m _ = fail VmError.stack_under m.world

  unfoldable pub exec_call : ℕ → Context H → Machine H → Turn H
  unfolding call_with
  exec_call gas ctx m = call_with gas ctx m m.stack

  unfoldable pub exec_return : Machine H → Turn H
  exec_return m = elim m.stack [
    | [] ↦ fail VmError.stack_under m.world
    | r ∷ st ↦ halt (record m { ret = r; stack = st })
  ]

  unfoldable pub exec_returnb : Machine H → Turn H
  exec_returnb m = elim m.stack [
    | [] ↦ fail VmError.stack_under m.world
    | k ∷ st ↦ halt (record m { ret_bytes = blob m k; stack = st })
  ]

  unfoldable pub exec_beq : Machine H → Exec (Machine H)
  exec_beq m = do
    (a, s1) ← pop m.stack
    (b, s2) ← pop s1
    out ← push (b2u (bytes_eq (blob m a) (blob m b))) s2
    ok (set_stack m out)

-- `code[pc]`, which panics at a negative index.
abbrev pub fetch : Bytes → ℕ → Option ℕ
fetch code pc = if is_negative pc then none else get_elem? code pc

-- The 16 bytes that MIX hashes: base, then key.
unfoldable pub mix : (Bytes → Bytes) → ℕ → ℕ → ℕ
mix sha256 base k = be_u64 0 (take 8 (sha256 (be_bytes base ++ be_bytes k)))

module _ {H : Type 0} (sha256 : Bytes → Bytes) (code input : Bytes) (gas : ℕ)
    (ctx : Context H) where
  -- The switch, over a machine that is charged and whose `pc` is past the opcode.
  unfoldable pub exec_op : Opcode → Machine H → Turn H
  exec_op Opcode.stop m = halt m
  exec_op Opcode.push m = settle m.world (exec_pushi code m)
  exec_op Opcode.pop m = settle m.world (exec_pop m)
  exec_op Opcode.add m = settle m.world (exec_binary (binop Opcode.add) m)
  exec_op Opcode.sub m = settle m.world (exec_binary (binop Opcode.sub) m)
  exec_op Opcode.mul m = settle m.world (exec_binary (binop Opcode.mul) m)
  exec_op Opcode.div m = settle m.world (exec_binary (binop Opcode.div) m)
  exec_op Opcode.modulo m = settle m.world (exec_binary (binop Opcode.modulo) m)
  exec_op Opcode.eq m = settle m.world (exec_binary (binop Opcode.eq) m)
  exec_op Opcode.lt m = settle m.world (exec_binary (binop Opcode.lt) m)
  exec_op Opcode.gt m = settle m.world (exec_binary (binop Opcode.gt) m)
  exec_op Opcode.and m = settle m.world (exec_binary (binop Opcode.and) m)
  exec_op Opcode.or m = settle m.world (exec_binary (binop Opcode.or) m)
  exec_op Opcode.addc m = settle m.world (exec_binary (checked Opcode.addc) m)
  exec_op Opcode.subc m = settle m.world (exec_binary (checked Opcode.subc) m)
  exec_op Opcode.mulc m = settle m.world (exec_binary (checked Opcode.mulc) m)
  exec_op Opcode.mix m = settle m.world (exec_binary (λ base k. ok (mix sha256 base k)) m)
  exec_op Opcode.revert m = fail VmError.reverted m.world
  exec_op Opcode.iszero m = settle m.world (exec_flip (λ a. b2u (a == 0)) m)
  exec_op Opcode.not m = settle m.world (exec_flip not64 m)
  exec_op Opcode.dup m = settle m.world (exec_dup m)
  exec_op Opcode.swap m = settle m.world (exec_swap m)
  exec_op Opcode.jump m = settle m.world (exec_jump code m)
  exec_op Opcode.jumpi m = settle m.world (exec_jumpi code m)
  exec_op Opcode.sload m = settle m.world (exec_unary (λ k. ok (get_or (lookup k m.work) 0)) m)
  exec_op Opcode.sstore m = settle m.world (exec_sstore m)
  exec_op Opcode.caller m = settle m.world (exec_push m ctx.caller)
  exec_op Opcode.value m = settle m.world (exec_push m ctx.value)
  exec_op Opcode.bal m = settle m.world (exec_push m ctx.balance)
  exec_op Opcode.cdload m = settle m.world (exec_unary (λ i. or_panic (word input i)) m)
  exec_op Opcode.self m = settle m.world (exec_push m ctx.self)
  exec_op Opcode.call m = exec_call gas ctx m
  exec_op Opcode.log m = settle m.world (exec_log gas m)
  exec_op Opcode.cdlen m = settle m.world (exec_push m (length input))
  exec_op Opcode.bstore m = settle m.world (exec_bstore input m)
  exec_op Opcode.beq m = settle m.world (exec_beq m)
  exec_op Opcode.blen m = settle m.world (exec_unary (λ k. ok (length (blob m k))) m)
  exec_op Opcode.bhash m =
      settle m.world (exec_unary (λ k. ok (be_u64 0 (take 8 (sha256 (blob m k))))) m)
  exec_op Opcode.callerb m = settle m.world (exec_put ctx.caller_addr m)
  exec_op Opcode.selfb m = settle m.world (exec_put ctx.self_addr m)
  exec_op Opcode.returnb m = exec_returnb m
  exec_op Opcode.return m = exec_return m
  exec_op Opcode.unknown m = fail VmError.bad_code m.world

  -- The charge, and the step past the opcode.
  unfoldable pub charge : Opcode → Machine H → Turn H
  charge op m =
      if ltb gas (add64 m.used (gas_cost op))
      then fail VmError.out_of_gas m.world
      else exec_op op (record m { used = add64 m.used (gas_cost op); pc = m.pc + 1 })

  unfoldable pub turn : Machine H → Turn H
  turn m = elim (fetch code m.pc) [ none ↦ crash | some op ↦ charge (decode op) m ]

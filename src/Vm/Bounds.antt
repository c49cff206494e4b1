-- ===== src/Vm/Bounds.antt =====
-- The operand stack and the gas counter stay within their limits (internal/vm/vm.go).
use shadowledger.Prelude.{
  ℕ, zero, suc, ◌+◌, ◌≤◌, ◌<◌, ◌^◌, ◌-◌, ◌≡◌, refl, List, [], ◌∷◌, Option, none, some, arith, leb,
  ltb, length, Bytes, Bool-cases, Option-cases, inl, inr,
}
use shadowledger.Prelude.Map.{Map}
use shadowledger.Prelude.Words.{add64}
use shadowledger.Vm.Opcodes.{Opcode, gas_cost, decode}
use shadowledger.Vm.Stack.{Exec, ok, err, panic, push, push_quiet, pop, pop_topics}
use shadowledger.Vm.Frame.{Reply, Host, Context, Machine, Turn, Outcome, done, failed, panicked}
use shadowledger.Vm.Step.{
  exec_binary, exec_unary, exec_flip, exec_pushi, exec_dup, exec_swap, exec_jump, exec_jumpi,
  exec_sstore, exec_log, exec_bstore, exec_put, forwarded, after_call, request, call_with,
  exec_call, exec_return, exec_returnb, exec_beq, exec_pop, exec_op, charge, fetch, turn, exec_push,
  settle, set_stack,
}
use shadowledger.Vm.Invariant.{OnExec, OnTurn, settle-OnTurn, OnOutcome, run_inv}
use shadowledger.Vm.Run.{commit_b, execute_b}

-- A host never reports more gas than it was given.
abbrev pub IsFair : {H : Type 0} → Option (Host H) → Type 0
IsFair {H} none = Unit
IsFair {H} (some call) =
    (w : H) (s t a g d : ℕ) (r : Reply H) → call w s t a g d ≡ some r → r.gas_used ≤ g

abbrev Shrinks : ℕ → Exec (List ℕ × List ℕ) → Type 0
Shrinks k (ok (topics, rest)) = length rest ≤ k
Shrinks k (err e) = Unit
Shrinks k panic = Unit

pop_topics-Shrinks :
    (n : ℕ) (st topics : List ℕ) (k : ℕ) → length st ≤ k → Shrinks k (pop_topics n st topics)
unfolding pop_topics
pop_topics-Shrinks zero st topics k h = h
pop_topics-Shrinks (suc n) [] topics k h = tt
pop_topics-Shrinks (suc n) (v ∷ st) topics k h =
    pop_topics-Shrinks n st (v ∷ topics) k (omega arith)

module _ {H : Type 0} (gas : ℕ) where
  abbrev pub Fits : Machine H → Type 0
  Fits m = (length m.stack ≤ 1024) × (m.used ≤ gas)

  abbrev FitsExec : Exec (Machine H) → Type 0
  FitsExec = OnExec Fits (λ _. Unit)

  abbrev FitsTurn : Turn H → Type 0
  FitsTurn = OnTurn Fits (λ _. Unit)

  settle-Fits : (w : H) (r : Exec (Machine H)) → FitsExec r → FitsTurn (settle w r)
  settle-Fits w r h = settle-OnTurn Fits (λ _. Unit) w r tt h

  module _ (m : Machine H) (h : Fits m) where
    exec_push-Fits : (v : ℕ) → FitsExec (exec_push m v)
    unfolding push
    exec_push-Fits v = ground arith

    exec_binary-Fits : (f : ℕ → ℕ → Exec ℕ) → FitsExec (exec_binary f m)
    unfolding exec_binary push pop
    exec_binary-Fits f = ground arith

    exec_unary-Fits : (f : ℕ → Exec ℕ) → FitsExec (exec_unary f m)
    unfolding exec_unary push pop
    exec_unary-Fits f = ground arith

    exec_flip-Fits : (f : ℕ → ℕ) → FitsExec (exec_flip f m)
    unfolding exec_flip pop
    exec_flip-Fits f = ground arith

    exec_dup-Fits : FitsExec (exec_dup m)
    unfolding exec_dup push pop
    exec_dup-Fits = ground arith

    exec_swap-Fits : FitsExec (exec_swap m)
    unfolding exec_swap push_quiet pop
    exec_swap-Fits = ground arith

    exec_pushi-Fits : (code : Bytes) → FitsExec (exec_pushi code m)
    unfolding exec_pushi push
    exec_pushi-Fits code = ground arith

    exec_jump-Fits : (code : Bytes) → FitsExec (exec_jump code m)
    unfolding exec_jump pop
    exec_jump-Fits code = ground arith

    exec_jumpi-Fits : (code : Bytes) → FitsExec (exec_jumpi code m)
    unfolding exec_jumpi pop
    exec_jumpi-Fits code = ground arith

    exec_sstore-Fits : FitsExec (exec_sstore m)
    unfolding exec_sstore pop
    exec_sstore-Fits = ground arith

    exec_bstore-Fits : (input : Bytes) → FitsExec (exec_bstore input m)
    unfolding exec_bstore pop
    exec_bstore-Fits input = ground arith

    exec_put-Fits : (bs : Bytes) → FitsExec (exec_put bs m)
    unfolding exec_put pop
    exec_put-Fits bs = ground arith

    exec_beq-Fits : FitsExec (exec_beq m)
    unfolding exec_beq push pop
    exec_beq-Fits = ground arith

    exec_pop-Fits : FitsExec (exec_pop m)
    unfolding exec_pop pop
    exec_pop-Fits = ground arith

    exec_return-Fits : FitsTurn (exec_return m)
    unfolding exec_return
    exec_return-Fits = ground arith

    exec_returnb-Fits : FitsTurn (exec_returnb m)
    unfolding exec_returnb
    exec_returnb-Fits = ground arith

    exec_log-Fits : FitsExec (exec_log gas m)
    unfolding exec_log pop
    exec_log-Fits = log_on m.stack h.0
      where
        log_on :
            (st : List ℕ) → length st ≤ 1024 → FitsExec (exec_log gas (record m { stack = st }))
        log_on [] e = tt
        log_on (n ∷ st) e = ground (arith, pop_topics-Shrinks n st [] 1024 (omega arith))

    after_call-Fits :
        (r : Reply H)
        → gas < 2 ^ 64 - 200
        → r.gas_used ≤ gas - m.used
        → FitsTurn (after_call gas m (some r))
    unfolding after_call push
    after_call-Fits r g le = ground arith

    forwarded-le : (gl : ℕ) → gas < 2 ^ 64 - 200 → forwarded gas m.used gl ≤ gas - m.used
    unfolding forwarded
    forwarded-le gl g = ground arith

    after_fair-Fits :
        (ctx : Context H) (call : Host H) (gl arg target : ℕ) (o : Option (Reply H))
        → gas < 2 ^ 64 - 200
        → IsFair (some call)
        → call m.world ctx.self target arg (forwarded gas m.used gl) (ctx.depth + 1) ≡ o
        → FitsTurn (after_call gas m o)
    unfolding after_call
    after_fair-Fits ctx call gl arg target none g fair e = tt
    after_fair-Fits ctx call gl arg target (some r) g fair e =
        after_call-Fits r g (omega (arith, fair _ _ _ _ _ _ r e, forwarded-le gl g))

    request-Fits :
        (ctx : Context H) (gl arg target : ℕ) (o : Option (Host H))
        → ctx.host ≡ o
        → gas < 2 ^ 64 - 200
        → IsFair o
        → FitsTurn (request gas ctx m gl arg target)
    unfolding request
    request-Fits ctx gl arg target none e g fair = elim (Bool-cases (leb 8 ctx.depth)) [
      | inl deep ↦ rw deep (settle-Fits m.world _ (exec_push-Fits 0))
      | inr shallow ↦ rw (shallow, e) (settle-Fits m.world _ (exec_push-Fits 0))
    ]
    request-Fits ctx gl arg target (some call) e g fair = elim (Bool-cases (leb 8 ctx.depth)) [
      | inl deep ↦ rw deep (settle-Fits m.world _ (exec_push-Fits 0))
      | inr shallow ↦ rw (shallow, e) (after_fair-Fits ctx call gl arg target _ g fair refl)
    ]

  ruleset fits_rules = (
    settle-Fits, exec_push-Fits, exec_binary-Fits, exec_unary-Fits, exec_flip-Fits, exec_dup-Fits,
    exec_swap-Fits, exec_jump-Fits, exec_jumpi-Fits, exec_sstore-Fits, exec_bstore-Fits,
    exec_put-Fits, exec_beq-Fits, exec_pop-Fits, exec_log-Fits,
  )

  call_with-Fits :
      (ctx : Context H) (m : Machine H) (st : List ℕ)
      → length st ≤ 1024
      → m.used ≤ gas
      → gas < 2 ^ 64 - 200
      → IsFair ctx.host
      → FitsTurn (call_with gas ctx m st)
  unfolding call_with
  call_with-Fits ctx m (gl ∷ arg ∷ target ∷ st) le used g fair =
      request-Fits (set_stack m st) (omega arith) ctx gl arg target ctx.host refl g fair
  call_with-Fits ctx m _ le used g fair = tt

  module _ (sha256 : Bytes → Bytes) (code input : Bytes) (ctx : Context H) where
    exec_op-Fits :
        (op : Opcode) (m : Machine H)
        → Fits m
        → gas < 2 ^ 64 - 200
        → IsFair ctx.host
        → FitsTurn (exec_op sha256 code input gas ctx op m)
    unfolding exec_op
    exec_op-Fits Opcode.stop m h g fair = h
    exec_op-Fits Opcode.call m h g fair =
        unfold exec_call in call_with-Fits ctx m m.stack h.0 h.1 g fair
    exec_op-Fits Opcode.revert m h g fair = tt
    exec_op-Fits Opcode.unknown m h g fair = tt
    exec_op-Fits Opcode.return m h g fair = exec_return-Fits m h
    exec_op-Fits Opcode.returnb m h g fair = exec_returnb-Fits m h
    exec_op-Fits Opcode.push m h g fair = settle-Fits m.world _ (exec_pushi-Fits m h code)
    exec_op-Fits _ m h g fair = search fits_rules

    charge-Fits :
        (op : Opcode) (m : Machine H)
        → Fits m
        → gas < 2 ^ 64 - 200
        → IsFair ctx.host
        → FitsTurn (charge sha256 code input gas ctx op m)
    unfolding charge
    charge-Fits op m h g fair = elim (Bool-cases (ltb gas (add64 m.used (gas_cost op)))) [
      | inl dear ↦ rw dear tt
      | inr cheap ↦ rw cheap (exec_op-Fits op _ (h.0, ground arith) g fair)
    ]

    turn-Fits :
        (m : Machine H)
        → Fits m
        → gas < 2 ^ 64 - 200
        → IsFair ctx.host
        → FitsTurn (turn sha256 code input gas ctx m)
    unfolding turn
    turn-Fits m h g fair = elim (Option-cases (fetch code m.pc)) [
      | inl e ↦ rw (e, OnTurn) tt
      | inr (b, e) ↦ rw (e, OnTurn) (charge-Fits (decode b) m h g fair)
    ]

-- The limits, of the result of an execution that succeeds.
abbrev pub IsWithin : {H : Type 0} → ℕ → Outcome H → Type 0
IsWithin gas (done r s b w) = (length r.stack ≤ 1024) × (r.gas_used ≤ gas)
IsWithin gas (failed e w) = Unit
IsWithin gas panicked = Unit

to_IsWithin :
    {H : Type 0} (gas : ℕ) (o : Outcome H)
    → OnOutcome (λ r s b w. (length r.stack ≤ 1024) × (r.gas_used ≤ gas)) (λ _. Unit) o
    → IsWithin gas o
to_IsWithin gas (done r s b w) h = h
to_IsWithin gas (failed e w) h = tt
to_IsWithin gas panicked h = tt

-- With a gas limit below 2^64 - 200 and a host that never reports more gas than it was given, an
-- execution that succeeds reports at most the gas limit as used and at most 1024 stack words.
pub execute_b-IsWithin :
    {H : Type 0} (sha256 : Bytes → Bytes) (code input : Bytes) (storage : Map ℕ ℕ)
    (bstore : Option (Map ℕ Bytes)) (gas : ℕ) (ctx : Context H) (w : H)
    → gas < 2 ^ 64 - 200
    → IsFair ctx.host
    → IsWithin gas (execute_b sha256 code input storage bstore gas ctx w)
unfolding execute_b commit_b
execute_b-IsWithin sha256 code input storage bstore gas ctx w g fair = to_IsWithin gas _ (
    run_inv sha256 code input gas ctx bstore (Fits gas) (λ _. Unit)
      (λ r s b w. (length r.stack ≤ 1024) × (r.gas_used ≤ gas))
      (λ m h. turn-Fits gas sha256 code input ctx m h g fair) (λ m h. h) (λ m h. tt) _ _
      (omega arith, omega arith))

-- ===== src/Vm/World.antt =====
-- The host's state under `ExecuteB` (internal/vm/vm.go): only CALL changes it, and only as the host
-- does.
use shadowledger.Prelude.{
  ℕ, ◌≡◌, refl, List, ◌∷◌, Option, none, some, arith, leb, ltb, Bytes, Bool-cases, Option-cases,
  inl, inr,
}
use mathlib.Core.Path.{subst, sym}
use shadowledger.Prelude.Map.{Map}
use shadowledger.Prelude.Words.{add64}
use shadowledger.Vm.Opcodes.{Opcode, gas_cost, decode}
use shadowledger.Vm.Stack.{Exec, ok, err, panic, push, pop}
use shadowledger.Vm.Frame.{Reply, Host, Context, Machine, Turn}
use shadowledger.Vm.Step.{
  set_stack, settle, exec_push, exec_binary, exec_unary, exec_flip, exec_pushi, exec_dup, exec_swap,
  exec_jump, exec_jumpi, exec_pop, exec_sstore, exec_log, exec_bstore, exec_put, exec_beq,
  after_call, request, call_with, exec_call, exec_return, exec_returnb, exec_op, charge, fetch,
  turn,
}
use shadowledger.Vm.Invariant.{OnExec, OnTurn, OnOutcome, run_inv}
use shadowledger.Vm.Run.{commit_b, execute_b, start}

module _ {H : Type 0} where
  abbrev Same : H → Exec (Machine H) → Type 0
  Same w = OnExec (λ m. m.world ≡ w) (λ _. Unit)

  module _ (m : Machine H) where
    exec_push-Same : (v : ℕ) → Same m.world (exec_push m v)
    unfolding push
    exec_push-Same v = ground arith

    exec_binary-Same : (f : ℕ → ℕ → Exec ℕ) → Same m.world (exec_binary f m)
    unfolding exec_binary push pop
    exec_binary-Same f = ground arith

    exec_unary-Same : (f : ℕ → Exec ℕ) → Same m.world (exec_unary f m)
    unfolding exec_unary push pop
    exec_unary-Same f = ground arith

    exec_flip-Same : (f : ℕ → ℕ) → Same m.world (exec_flip f m)
    unfolding exec_flip pop
    exec_flip-Same f = ground arith

    exec_pushi-Same : (code : Bytes) → Same m.world (exec_pushi code m)
    unfolding exec_pushi push
    exec_pushi-Same code = ground arith

    exec_dup-Same : Same m.world (exec_dup m)
    unfolding exec_dup push pop
    exec_dup-Same = ground arith

    exec_swap-Same : Same m.world (exec_swap m)
    unfolding exec_swap pop
    exec_swap-Same = ground arith

    exec_pop-Same : Same m.world (exec_pop m)
    unfolding exec_pop pop
    exec_pop-Same = ground arith

    exec_jump-Same : (code : Bytes) → Same m.world (exec_jump code m)
    unfolding exec_jump pop
    exec_jump-Same code = ground arith

    exec_jumpi-Same : (code : Bytes) → Same m.world (exec_jumpi code m)
    unfolding exec_jumpi pop
    exec_jumpi-Same code = ground arith

    exec_sstore-Same : Same m.world (exec_sstore m)
    unfolding exec_sstore pop
    exec_sstore-Same = ground arith

    exec_log-Same : (gas : ℕ) → Same m.world (exec_log gas m)
    unfolding exec_log pop
    exec_log-Same gas = ground arith

    exec_bstore-Same : (input : Bytes) → Same m.world (exec_bstore input m)
    unfolding exec_bstore pop
    exec_bstore-Same input = ground arith

    exec_put-Same : (bs : Bytes) → Same m.world (exec_put bs m)
    unfolding exec_put pop
    exec_put-Same bs = ground arith

    exec_beq-Same : Same m.world (exec_beq m)
    unfolding exec_beq push pop
    exec_beq-Same = ground arith

  -- A property of the host's state that its calls keep.
  abbrev pub IsKeptBy : (H → Type 0) → Option (Host H) → Type 0
  IsKeptBy R none = Unit
  IsKeptBy R (some call) =
      (w : H) (s t a g d : ℕ) (r : Reply H) → R w → call w s t a g d ≡ some r → R r.world

  module _ (R : H → Type 0) where
    abbrev Holds : Turn H → Type 0
    Holds = OnTurn (λ m. R m.world) R

    settle-Holds : (w : H) (x : Exec (Machine H)) → R w → Same w x → Holds (settle w x)
    settle-Holds w (ok m) h e = subst R (sym e) h
    settle-Holds w (err e) h k = h
    settle-Holds w panic h k = tt

    after_call-Holds :
        (gas : ℕ) (m : Machine H) (o : Option (Reply H))
        → ((r : Reply H) → o ≡ some r → R r.world)
        → Holds (after_call gas m o)
    unfolding after_call
    after_call-Holds gas m none h = tt
    after_call-Holds gas m (some r) h = elim (Bool-cases (ltb gas (add64 m.used r.gas_used))) [
      | inl dear ↦ rw (dear, OnTurn) (h r refl)
      | inr cheap ↦
          rw (cheap, OnTurn)
            (settle-Holds r.world _ (h r refl)
              (exec_push-Same (record m { used = add64 m.used r.gas_used; world = r.world }) _))
    ]

    request-Holds :
        (gas : ℕ) (ctx : Context H) (m : Machine H) (gl arg target : ℕ) (o : Option (Host H))
        → ctx.host ≡ o
        → R m.world
        → IsKeptBy R o
        → Holds (request gas ctx m gl arg target)
    unfolding request
    request-Holds gas ctx m gl arg target none e h keep = elim (Bool-cases (leb 8 ctx.depth)) [
      | inl deep ↦ rw (deep, OnTurn) (settle-Holds m.world _ h (exec_push-Same m 0))
      | inr shallow ↦ rw (shallow, e, OnTurn) (settle-Holds m.world _ h (exec_push-Same m 0))
    ]
    request-Holds gas ctx m gl arg target (some call) e h keep =
        elim (Bool-cases (leb 8 ctx.depth)) [
          | inl deep ↦ rw (deep, OnTurn) (settle-Holds m.world _ h (exec_push-Same m 0))
          | inr shallow ↦
              rw (shallow, e, OnTurn) (after_call-Holds gas m _ (λ r k. keep _ _ _ _ _ _ r h k))
        ]

    call_with-Holds :
        (gas : ℕ) (ctx : Context H) (m : Machine H) (st : List ℕ)
        → R m.world
        → IsKeptBy R ctx.host
        → Holds (call_with gas ctx m st)
    unfolding call_with
    call_with-Holds gas ctx m (gl ∷ arg ∷ target ∷ st) h keep =
        request-Holds gas ctx (set_stack m st) gl arg target ctx.host refl h keep
    call_with-Holds gas ctx m _ h keep = h

    exec_return-Holds : (m : Machine H) → R m.world → Holds (exec_return m)
    unfolding exec_return
    exec_return-Holds m h = ground arith

    exec_returnb-Holds : (m : Machine H) → R m.world → Holds (exec_returnb m)
    unfolding exec_returnb
    exec_returnb-Holds m h = ground arith

    ruleset world_rules = (
      settle-Holds, exec_push-Same, exec_binary-Same, exec_unary-Same, exec_flip-Same,
      exec_dup-Same, exec_swap-Same, exec_pop-Same, exec_jump-Same, exec_jumpi-Same,
      exec_sstore-Same, exec_log-Same, exec_bstore-Same, exec_put-Same, exec_beq-Same,
      exec_pushi-Same,
    )

    module _ (sha256 : Bytes → Bytes) (code input : Bytes) (gas : ℕ) (ctx : Context H) where
      exec_op-Holds :
          (op : Opcode) (m : Machine H)
          → R m.world
          → IsKeptBy R ctx.host
          → Holds (exec_op sha256 code input gas ctx op m)
      unfolding exec_op
      exec_op-Holds Opcode.stop m h keep = h
      exec_op-Holds Opcode.call m h keep =
          unfold exec_call in call_with-Holds gas ctx m m.stack h keep
      exec_op-Holds Opcode.revert m h keep = h
      exec_op-Holds Opcode.unknown m h keep = h
      exec_op-Holds Opcode.return m h keep = exec_return-Holds m h
      exec_op-Holds Opcode.returnb m h keep = exec_returnb-Holds m h
      exec_op-Holds _ m h keep = search world_rules

      turn-Holds :
          (m : Machine H)
          → R m.world
          → IsKeptBy R ctx.host
          → Holds (turn sha256 code input gas ctx m)
      unfolding turn charge
      turn-Holds m h keep = elim (Option-cases (fetch code m.pc)) [
        | inl e ↦ rw (e, OnTurn) tt
        | inr (b, e) ↦
            rw (e, OnTurn)
              (elim (Bool-cases (ltb gas (add64 m.used (gas_cost (decode b))))) [
                | inl dear ↦ rw (dear, OnTurn) h
                | inr cheap ↦ rw (cheap, OnTurn) (exec_op-Holds (decode b) _ h keep)
              ])
      ]

      -- What an execution leaves of the host's state, on success and on failure.
      pub execute_b-Holds :
          (storage : Map ℕ ℕ) (bstore : Option (Map ℕ Bytes)) (w : H)
          → R w
          → IsKeptBy R ctx.host
          → OnOutcome (λ r s b w'. R w') R (execute_b sha256 code input storage bstore gas ctx w)
      unfolding execute_b commit_b
      execute_b-Holds storage bstore w h keep =
          run_inv sha256 code input gas ctx bstore (λ m. R m.world) R (λ r s b w'. R w')
            (λ m k. turn-Holds m k keep) (λ m k. k) (λ m k. k) _ (start storage bstore w) h

-- ===== src/Vm/Frame.antt =====
-- The execution environment and the variables of the loop of `ExecuteB` (internal/vm/vm.go). `H` is
-- what a cross-contract call may change: the ledger, for the node.
use shadowledger.Prelude.{ℕ, Bool, List, Option, Bytes}
use shadowledger.Prelude.Map.{Map}
use shadowledger.Vm.Stack.{VmError}

-- The return values of `CallHost.Call`, with what the call left of the host's state.
pub record Reply (H : Type 0) : Type 0 where
  pub ret : ℕ
  pub gas_used : ℕ
  pub success : Bool
  pub world : H

-- `Call(self, target, arg, gasLimit, depth)`; `none` is a panic inside the call.
abbrev pub Host : Type 0 → Type 0
Host H = H → ℕ → ℕ → ℕ → ℕ → ℕ → Option (Reply H)

pub record Context (H : Type 0) : Type 0 where
  pub caller : ℕ
  pub self : ℕ
  pub caller_addr : Bytes
  pub self_addr : Bytes
  pub value : ℕ
  pub balance : ℕ
  pub host : Option (Host H)
  pub depth : ℕ

-- `pc` is the bit pattern of a Go int: from 2^63 on it stands for a negative number.
pub record Machine (H : Type 0) : Type 0 where
  pub pc : ℕ
  pub used : ℕ
  pub ret : ℕ
  pub ret_bytes : Bytes
  pub stack : List ℕ
  pub work : Map ℕ ℕ
  pub bwork : Map ℕ Bytes
  pub logs : List (List ℕ)
  pub world : H

-- What one turn of the loop leads to. A failure keeps what calls did to the host's state.
pub data Turn (H : Type 0) : Type 0 where
  next : Machine H → Turn H
  halt : Machine H → Turn H
  fail : VmError → H → Turn H
  crash : Turn H

-- `Result`
pub record Result : Type 0 where
  pub gas_used : ℕ
  pub return : ℕ
  pub return_bytes : Bytes
  pub stack : List ℕ
  pub logs : List (List ℕ)

-- How an execution ends. On success the two maps are what `commitB` writes back.
pub data Outcome (H : Type 0) : Type 0 where
  done : Result → Map ℕ ℕ → Option (Map ℕ Bytes) → H → Outcome H
  failed : VmError → H → Outcome H
  panicked : Outcome H

-- ===== src/State/Contract.antt =====
-- Contract execution inside a block: `execContract`, `contractByDigest` and `vmHost.Call` of
-- internal/state/state.go. The number of nested calls that the host still offers falls by one with
-- each call; at 0 there is no host, as the machine itself makes no call from depth 8 on.
use shadowledger.Prelude.{
  ℕ, zero, suc, true, false, ◌&&◌, [], ◌∷◌, ◌++◌, Option, none, some, map, ltb, ◌==◌, if◌then◌else◌,
  length, get_or, Bytes,
}
use shadowledger.Prelude.Map.{Map}
use shadowledger.Vm.Stack.{be_bytes}
use shadowledger.Vm.Frame.{Reply, Host, Context, Result, Outcome, done, failed, panicked}
use shadowledger.Vm.Run.{execute_b}
use shadowledger.Crypto.{Env, Address}
use shadowledger.Types.Encode.{addr_digest}
use shadowledger.State.Data.{Account}
use shadowledger.State.Ledger.{Work, account_of, acct, modify, snap}

-- `contractByDigest`. Go visits a map in no fixed order: here in the order of the list.
unfoldable pub contract_by_digest : Env → ℕ → Map Address Account → Option Address
contract_by_digest env d [] = none
contract_by_digest env d ((addr, ac) ∷ rest) =
    let later = contract_by_digest env d rest in
    if ltb 0 (length ac.code) && addr_digest env addr == d then some addr else later

-- The commit of `execContract`: the contract's storage is replaced, and its events are appended.
unfoldable pub commit_contract : Address → ℕ → Result → Map ℕ ℕ → Option (Map ℕ Bytes) → Work → Work
unfolding modify
commit_contract addr tx_index r storage bstore w =
    let w' : Work =
      modify addr (λ ac. record ac { storage = storage; bstorage = get_or bstore [] }) w in
    record w' {
      logs =
          w'.logs
          ++ map (λ ev. record { contract = addr; topics = ev; tx_index = tx_index }) r.logs;
    }

-- What `execContract` returns, by how the machine ended: (0, gas, false) on an error.
unfoldable pub conclude : Address → ℕ → ℕ → Outcome Work → Option (Reply Work)
unfolding commit_contract
conclude addr tx_index gas (done r storage bstore w) = some (record {
  ret = r.return;
  gas_used = r.gas_used;
  success = true;
  world = commit_contract addr tx_index r storage bstore w;
})
conclude addr tx_index gas (failed e w) =
    some (record { ret = 0; gas_used = gas; success = false; world = w })
conclude addr tx_index gas panicked = none

module _ (env : Env) (tx_index : ℕ) where
  -- `execContract`; `none` is a panic.
  unfoldable pub exec_contract :
      Option (Host Work) → Address → ℕ → Address → Bytes → ℕ → ℕ → ℕ → Work → Option (Reply Work)
  unfolding acct snap conclude
  exec_contract host addr caller caller_addr input value gas depth w =
      let w' : Work = snap addr (acct addr w) in
      let c : Account = account_of addr w'.st.accounts in
      let ctx : Context Work = record {
        caller = caller;
        self = addr_digest env addr;
        caller_addr = caller_addr;
        self_addr = addr;
        value = value;
        balance = c.balance;
        host = host;
        depth = depth;
      } in
      conclude addr tx_index gas
        (execute_b env.sha256 c.code input c.storage (some c.bstorage) gas ctx w')

  -- The failure of a nested call is reported with all of its gas used.
  unfoldable pub host_reply : ℕ → Option (Reply Work) → Option (Reply Work)
  host_reply gas none = none
  host_reply gas (some r) =
      if r.success
      then some r
      else some (record { ret = 0; gas_used = gas; success = false; world = r.world })

  -- `vmHost.Call`, over the host that the called contract has.
  unfoldable pub call_contract : Option (Host Work) → Host Work
  unfolding contract_by_digest exec_contract host_reply be_bytes
  call_contract inner w self target arg gas depth =
      elim (contract_by_digest env target w.st.accounts) [
        | none ↦ some (record { ret = 0; gas_used = 0; success = false; world = w })
        | some addr ↦ host_reply gas (exec_contract inner addr self [] (be_bytes arg) 0 gas depth w)
      ]

  -- `vmHost`, for a machine below which `n` more calls may be nested.
  unfoldable pub vm_host : ℕ → Option (Host Work)
  unfolding call_contract
  vm_host zero = none
  vm_host (suc n) = some (call_contract (vm_host n))

-- ===== src/State/Access.antt =====
-- The other operations of internal/state/state.go: configuration, the validator registry's views,
-- copies of a state, and read-only contract calls.
use shadowledger.Prelude.{
  ℕ, Bool, true, false, ◌||◌, not, List, [], ◌∷◌, ◌++◌, Option, none, some, Bytes, length, ltb,
  ◌==◌, if◌then◌else◌,
}
use shadowledger.Prelude.Words.{add64}
use shadowledger.Prelude.Map.{Map, lookup, insert, bytes_key}
use shadowledger.Economy.{block_reward}
use shadowledger.Crypto.{Env, Address}
use shadowledger.Types.Encode.{addr_digest}
use shadowledger.Vm.Frame.{Context, Outcome, done, failed, panicked}
use shadowledger.Vm.Run.{execute_b}
use shadowledger.State.Data.{Account, Validator, State}
use shadowledger.State.Ledger.{account_of, pay}
use shadowledger.Consensus.Election.{sort_addresses}

-- `IsContract`
unfoldable pub is_contract : Address → State → Bool
is_contract a s = elim (lookup a s.accounts) [ none ↦ false | some ac ↦ ltb 0 (length ac.code) ]

-- `SetRegPoWBits`
unfoldable pub set_reg_pow_bits : ℕ → State → State
set_reg_pow_bits bits s = record s { config = record s.config { reg_pow_bits = bits } }

-- `SetFaucet`
unfoldable pub set_faucet : ℕ → ℕ → ℕ → ℕ → Address → Option (ℕ → Option Bytes) → State → State
set_faucet bits amount cooldown depth source anchor s = record s {
  config = record s.config {
    faucet_bits = bits;
    faucet_amount = amount;
    faucet_cooldown = cooldown;
    faucet_depth = depth;
    faucet_source = source;
    anchor_body_hash = anchor;
  };
}

-- `SetStorageProof`
unfoldable pub set_storage_proof :
    ℕ → ℕ → ℕ → Option (ℕ → Option (Bytes × ℕ)) → Option (ℕ → ℕ → Bytes → Bool) → State → State
set_storage_proof window min_depth cap shard_at proof_ok s = record s {
  config = record s.config {
    storage_window = window;
    storage_min_depth = min_depth;
    storage_cap = cap;
    shard_at = shard_at;
    shard_proof_ok = proof_ok;
  };
}

-- `InheritConfig`: everything that is not persisted, and the chain id.
unfoldable pub inherit_config : State → State → State
inherit_config src s = record s { chain_id = src.chain_id; config = src.config }

-- `SetChainID`
unfoldable pub set_chain_id : ℕ → State → State
set_chain_id id s = record s { chain_id = id }

-- `SetMinted`
unfoldable pub set_minted : ℕ → State → State
set_minted v s = record s { minted = v }

-- `NextReward`
unfoldable pub next_reward : ℕ → State → ℕ
next_reward height s = block_reward height s.minted

-- `Credit`
unfoldable pub credit : Address → ℕ → State → State
unfolding account_of
credit a amount s = record s {
  accounts = insert a (pay amount (account_of a s.accounts)) s.accounts;
}

-- `RegisterGenesisValidator`
unfoldable pub register_genesis_validator : Address → State → State
register_genesis_validator a s = record s {
  validators =
      insert a
        (record {
          bond = 0;
          active = true;
          since = 0;
          slashed = false;
          storage_score = 0;
          last_proof_at = 0;
        })
        s.validators;
}

-- The loop of `ActiveValidators`.
unfoldable pub active_of : Map Address Validator → List Address
active_of [] = []
active_of ((a, v) ∷ rest) = let later = active_of rest in if v.active then a ∷ later else later

-- `ActiveValidators`
unfoldable pub active_validators : State → List Address
unfolding active_of
active_validators s = sort_addresses (active_of s.validators)

-- The loop of `StorageWeights`.
unfoldable pub weights_of : ℕ → ℕ → Map Address Validator → Map Address ℕ
weights_of window height [] = []
weights_of window height ((a, v) ∷ rest) =
    let later = weights_of window height rest in
    let fresh = window == 0 || ltb height (add64 v.last_proof_at window) in
    if not v.active then later else (a, if fresh then add64 1 v.storage_score else 1) ∷ later

-- `StorageWeights`
unfoldable pub storage_weights : State → Map Address ℕ
unfolding weights_of
storage_weights s = weights_of s.config.storage_window s.height s.validators

-- A loop `for k, v := range m { out[k] = copy(v) }` over a fresh map.
unfoldable pub copy_map {ℓ κ} : {K : Type ℓ} {V : Type κ} → (V → V) → Map K V → Map K V
copy_map copy [] = []
copy_map copy ((k, v) ∷ m) = (k, copy v) ∷ copy_map copy m

-- `Account.clone`: each slice appended to a nil one, and each map entry by entry
unfoldable pub clone_account : Account → Account
clone_account ac = record {
  balance = ac.balance;
  nonce = ac.nonce;
  code = [] ++ ac.code;
  storage = copy_map (λ v. v) ac.storage;
  bstorage = copy_map (λ v. [] ++ v) ac.bstorage;
}

-- `vc := *v`
unfoldable pub clone_validator : Validator → Validator
clone_validator v = record {
  bond = v.bond;
  active = v.active;
  since = v.since;
  slashed = v.slashed;
  storage_score = v.storage_score;
  last_proof_at = v.last_proof_at;
}

-- `Clone`, which leaves the storage-proof settings and the last logs at their zero values.
unfoldable pub clone_state : State → State
clone_state s = record {
  accounts = copy_map clone_account s.accounts;
  validators = copy_map clone_validator s.validators;
  height = s.height;
  minted = s.minted;
  chain_id = s.chain_id;
  faucet_claims = copy_map (λ h. h) s.faucet_claims;
  config = record {
    reg_pow_bits = s.config.reg_pow_bits;
    faucet_bits = s.config.faucet_bits;
    faucet_amount = s.config.faucet_amount;
    faucet_cooldown = s.config.faucet_cooldown;
    faucet_depth = s.config.faucet_depth;
    faucet_source = s.config.faucet_source;
    anchor_body_hash = s.config.anchor_body_hash;
    storage_window = 0;
    storage_min_depth = 0;
    storage_cap = 0;
    shard_at = none;
    shard_proof_ok = none;
  };
  last_logs = [];
}

-- `ReplaceWith`: copies of the ledger of another state, the configuration and the chain id kept.
unfoldable pub replace_with : State → State → State
replace_with other s = record s {
  accounts = copy_map clone_account other.accounts;
  validators = copy_map clone_validator other.validators;
  height = other.height;
  minted = other.minted;
  faucet_claims = copy_map (λ h. h) other.faucet_claims;
}

-- The machine's environment in `QueryContractRaw`: no host, so a nested call gives 0.
abbrev query_context : Env → Address → ℕ → Account → Context State
query_context env addr caller c = record {
  caller = caller;
  self = addr_digest env addr;
  caller_addr = [];
  self_addr = addr;
  value = 0;
  balance = c.balance;
  host = none;
  depth = 0;
}

-- The results of a query; the outer `none` is a panic, the inner one `false`.
abbrev answer : Outcome State → Option (Option (ℕ × Bytes))
answer (done r storage bstore w) = some (some (r.return, r.return_bytes))
answer (failed e w) = some none
answer panicked = none

-- `QueryContractRaw`. The maps are copies, and what the machine leaves in them is dropped.
unfoldable pub query_contract_raw :
    Env → Address → ℕ → Bytes → ℕ → State → Option (Option (ℕ × Bytes))
query_contract_raw env addr caller input gas s = elim (lookup addr s.accounts) [
  | none ↦ some none
  | some c ↦
      if length c.code == 0
      then some none
      else answer (
          execute_b env.sha256 c.code input c.storage (some c.bstorage)
            (if gas == 0 then 1_000_000 else gas) (query_context env addr caller c) s)
]

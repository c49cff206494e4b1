-- ===== src/State/Data.antt =====
-- The records of internal/state/state.go. A contract's storage is held as the number-keyed map that
-- the machine works on; the decimal-string keys of the JSON form are not modelled.
use shadowledger.Prelude.{ℕ, Bool, List, [], Option, Bytes}
use shadowledger.Prelude.Map.{Map}
use shadowledger.Crypto.{Address}
use shadowledger.Types.Data.{Log}

pub record Account : Type 0 where
  pub balance : ℕ
  pub nonce : ℕ
  pub code : Bytes
  pub storage : Map ℕ ℕ
  pub bstorage : Map ℕ Bytes

-- `&Account{}`
abbrev pub empty_account : Account
empty_account = record { balance = 0; nonce = 0; code = []; storage = []; bstorage = [] }

pub record Validator : Type 0 where
  pub bond : ℕ
  pub active : Bool
  pub since : ℕ
  pub slashed : Bool
  pub storage_score : ℕ
  pub last_proof_at : ℕ

-- The fields of `State` that are set by the chain and not persisted. A nil function is `none`; another is
-- what the callback answers when an operation starts, and Chain.Live binds it anew after a write.
pub record Config : Type 0 where
  pub reg_pow_bits : ℕ
  pub faucet_bits : ℕ
  pub faucet_amount : ℕ
  pub faucet_cooldown : ℕ
  pub faucet_depth : ℕ
  pub faucet_source : Address
  pub anchor_body_hash : Option (ℕ → Option Bytes)
  pub storage_window : ℕ
  pub storage_min_depth : ℕ
  pub storage_cap : ℕ
  pub shard_at : Option (ℕ → Option (Bytes × ℕ))
  pub shard_proof_ok : Option (ℕ → ℕ → Bytes → Bool)

pub record State : Type 0 where
  pub accounts : Map Address Account
  pub validators : Map Address Validator
  pub height : ℕ
  pub minted : ℕ
  pub chain_id : ℕ
  pub faucet_claims : Map Address ℕ
  pub config : Config
  pub last_logs : List Log

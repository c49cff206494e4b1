-- ===== src/Types/Data.antt =====
-- The records of internal/types: tx.go, block.go, logs.go. Hashes are their bytes, strings are their
-- bytes, and a timestamp is the bit pattern of its int64.
use shadowledger.Prelude.{ℕ, ◌+◌, List, Bytes}
use shadowledger.Crypto.{Address}

pub record Transaction : Type 0 where
  pub from : Address
  pub to : Address
  pub amount : ℕ
  pub fee : ℕ
  pub nonce : ℕ
  pub chain_id : ℕ
  pub kind : ℕ
  pub gas : ℕ
  pub payload : Bytes
  pub pub_key : Bytes
  pub sig : Bytes

pub record ShardSpec : Type 0 where
  pub k : ℕ
  pub m : ℕ

unfoldable pub total : ShardSpec → ℕ
total s = s.k + s.m

-- The commitment to a block's erasure shards.
pub record ShardSet : Type 0 where
  pub block_id : Bytes
  pub spec : ShardSpec
  pub padded_len : ℕ
  pub orig_len : ℕ
  pub shard_hash : List Bytes

pub record Header : Type 0 where
  pub height : ℕ
  pub prev_hash : Bytes
  pub merkle_root : Bytes
  pub timestamp : ℕ
  pub validator : Address
  pub tx_count : ℕ
  pub round : ℕ
  pub spec : ShardSpec
  pub body_hash : Bytes
  pub logs_root : Bytes
  pub sig : Bytes
  pub val_pub_key : Bytes

pub record Block : Type 0 where
  pub header : Header
  pub txs : List Transaction

pub record EquivocationEvidence : Type 0 where
  pub a : Header
  pub b : Header

pub record Log : Type 0 where
  pub contract : Address
  pub topics : List ℕ
  pub tx_index : ℕ

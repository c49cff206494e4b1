-- ===== src/Chain/Data.antt =====
-- The records of internal/chain/chain.go and of internal/store/store.go. A file of the store is an
-- entry of a map; whether the file system writes a header is a parameter. The Bloom filter of held
-- shards, which the chain only adds to, is left out.
use shadowledger.Prelude.{ℕ, Bool, true, false, List, Option, none, some, Bytes}
use shadowledger.Prelude.Map.{Map, lookup, bytes_key}
use shadowledger.Crypto.{Env}
use shadowledger.Types.Data.{Header, Block, ShardSet}
use shadowledger.Types.Encode.{header_id}
use shadowledger.State.Data.{State}
use shadowledger.State.Effects.{EvidenceDecoder, StateError}
use shadowledger.Consensus.Authorize.{ConsensusError}
use shadowledger.Erasure.{Coder, ErasureError}
use shadowledger.Forkchoice.Tree.{BlockTree}
use shadowledger.Merkle.Tree.{zero_hash}

pub data ChainError : Type 0 where
  no_genesis has_genesis bad_height bad_prev bad_merkle bad_body_hash bad_logs_root bad_round
        reconstruct unknown_parent reorg_replay disk bad_body :
      ChainError
  engine : ConsensusError → ChainError
  apply : StateError → ChainError
  erasure : ErasureError → ChainError

-- `replayBaseRecord`
pub record Checkpoint : Type 0 where
  pub id : Bytes
  pub height : ℕ
  pub state : State

-- The directories of the store: blocks, logs, shards and bodies, and the file of the replay base.
pub record Store : Type 0 where
  pub headers : Map ℕ (Header × ShardSet)
  pub log_sets : Map ℕ ShardSet
  pub shards : Map Bytes (Map ℕ Bytes)
  pub bodies : Map Bytes Block
  pub checkpoint : Option Checkpoint

-- What surrounds a chain: the cryptography and the libraries, the engine over the current state, this
-- node's id and the members, the clock's settings, and whether a header is written to disk.
pub record Node : Type 0 where
  pub env : Env
  pub decode : EvidenceDecoder
  pub coder : Coder
  pub authorize : State → Header → Option ConsensusError
  pub self_id : Bytes
  pub members : List Bytes
  pub block_time : ℕ
  pub genesis_time : ℕ
  pub finality_depth : ℕ
  pub writes : Header → Bool

-- `Chain`. The replay base is `none` where it is nil.
pub record Chain : Type 0 where
  pub store : Store
  pub state : State
  pub head : Header
  pub has_gen : Bool
  pub tree : BlockTree
  pub block_by_id : Map Bytes Block
  pub replay_base : Option State
  pub replay_base_id : Bytes
  pub replay_base_height : ℕ

-- How an operation of the chain ends: with a value, with an error, in a panic, or in a loop that goes on
-- past the height of its first block.
pub data ChainEffect (A : Type 0) : Type 0 where
  stored : A → Chain → ChainEffect A
  failed : ChainError → Chain → ChainEffect A
  panicked endless : ChainEffect A

abbrev pub or_else {ℓ} : {A : Type ℓ} → Option A → Option A → Option A
or_else (some a) o = some a
or_else none o = o

-- `block`: from memory or from disk. The copy that is then kept in memory is the one on disk.
unfoldable pub block : Bytes → Chain → Option Block
block id c = or_else (lookup id c.block_by_id) (lookup id c.store.bodies)

-- `HeadID`
unfoldable pub head_id : Env → Chain → Bytes
head_id env c = elim c.has_gen [ false ↦ zero_hash | true ↦ header_id env c.head ]

-- `saveReplayBase`
unfoldable pub save_replay_base : Chain → Chain
save_replay_base c = elim c.replay_base [
  | none ↦ c
  | some s ↦ record c {
    store = record c.store {
      checkpoint =
          some (record { id = c.replay_base_id; height = c.replay_base_height; state = s });
    };
  }
]

-- `loadReplayBase`
unfoldable pub load_replay_base : Chain → Chain
load_replay_base c = elim c.store.checkpoint [
  | none ↦ c
  | some r ↦ record c {
    replay_base = some r.state;
    replay_base_id = r.id;
    replay_base_height = r.height;
  }
]

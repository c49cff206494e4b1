-- ===== src/Chain/Live.antt =====
-- The callbacks that a node installs in its state (internal/node/node.go): each reads the chain's store at
-- the time of the call (BodyHashAt, ShardAt and ShardProofOK of internal/chain/chain.go). A callback held
-- in a configuration is a function of its own; it is bound to the store again where blocks are applied
-- after the store may have been written.
use shadowledger.Prelude.{Option, none, some}
use shadowledger.Crypto.{Env}
use shadowledger.State.Data.{State}
use shadowledger.Chain.Data.{Store}
use shadowledger.Chain.Query.{body_hash_at, shard_at, shard_proof_ok}

-- A callback that is installed, over what it reads now; a nil one stays nil.
abbrev pub rebound {ℓ} : {A : Type ℓ} → Option A → A → Option A
rebound none f = none
rebound (some g) f = some f

-- The state with its callbacks over a store.
unfoldable pub live : Env → Store → State → State
live env st s = record s {
  config = record s.config {
    anchor_body_hash = rebound s.config.anchor_body_hash (λ height. body_hash_at height st);
    shard_at = rebound s.config.shard_at (λ height. shard_at env height st);
    shard_proof_ok =
        rebound s.config.shard_proof_ok
          (λ height index shard. shard_proof_ok env height index shard st);
  };
}

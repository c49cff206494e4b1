-- ===== src/Chain/Authentic.antt =====
-- What the tests of a block from a peer find (internal/chain/chain.go, ApplyExternalBlock).
use shadowledger.Prelude.{ℕ, ◌≤◌, ◌≡◌, none, bytes_eq_iff, Option-cases, inl, inr, ◌⊎◌, arith}
use shadowledger.Prelude.Words.{add64}
use shadowledger.Types.Data.{Block}
use shadowledger.Types.Encode.{header_id, encode_txs}
use shadowledger.Types.Roots.{merkle_root_of, logs_root_of}
use shadowledger.State.Apply.{accepted, apply_block}
use shadowledger.State.Atomic.Block.{IsTouched, Unchanged}
use shadowledger.Chain.Data.{ChainError, Node, Chain}
use shadowledger.Chain.Extend.{check_external}

-- What the tests of a block that is let through have found.
pub record IsAuthentic (node : Node) (b : Block) (c : Chain) : Type 0 where
  pub authorized : node.authorize c.state b.header ≡ none
  pub height : b.header.height ≡ add64 c.head.height 1
  pub prev_hash : b.header.prev_hash ≡ header_id node.env c.head
  pub merkle_root : merkle_root_of node.env b.txs ≡ b.header.merkle_root
  pub body_hash : node.env.sha256 (encode_txs b.txs) ≡ b.header.body_hash

pub check_external-IsAuthentic :
    (node : Node) (now : ℕ) (b : Block) (c : Chain)
    → check_external node now b c ≡ none
    → IsAuthentic node b c
unfolding check_external
check_external-IsAuthentic node now b c ok = elim (Option-cases (node.authorize c.state b.header)) [
  | inr (x, f) ↦ absurd (ground (arith, f, ok))
  | inl f ↦
      let prev = bytes_eq_iff b.header.prev_hash (header_id node.env c.head) in
      let merkle = bytes_eq_iff (merkle_root_of node.env b.txs) b.header.merkle_root in
      let body = bytes_eq_iff (node.env.sha256 (encode_txs b.txs)) b.header.body_hash in
      record {
        authorized = f;
        height = ground (arith, f, ok);
        prev_hash = ground (arith, f, ok, prev);
        merkle_root = ground (arith, f, ok, merkle);
        body_hash = ground (arith, f, ok, body);
      }
]

-- The chain after a block that has been added.
pub record IsExtended (node : Node) (b : Block) (c d : Chain) : Type 0 where
  pub authentic : IsAuthentic node b c
  pub head : d.head ≡ b.header
  pub applied : apply_block node.env node.decode b c.state ≡ accepted d.state
  pub logs_root : logs_root_of node.env d.state.last_logs ≡ b.header.logs_root
  pub floor : c.replay_base_height ≤ d.replay_base_height

-- The chain after an error: the head, the tree, the blocks and the replay base are as they were, and the
-- state is either unchanged or the one after the block, where only then the logs root or the storing
-- failed.
pub record IsUnextended (node : Node) (b : Block) (c d : Chain) (e : ChainError) : Type 0 where
  pub head : d.head ≡ c.head
  pub tree : d.tree ≡ c.tree
  pub block_by_id : d.block_by_id ≡ c.block_by_id
  pub has_gen : d.has_gen ≡ c.has_gen
  pub replay_base : d.replay_base ≡ c.replay_base
  pub replay_base_id : d.replay_base_id ≡ c.replay_base_id
  pub replay_base_height : d.replay_base_height ≡ c.replay_base_height
  pub store : d.store ≡ c.store
  pub state :
      Unchanged (IsTouched b c.state) c.state d.state
      ⊎ (apply_block node.env node.decode b c.state ≡ accepted d.state)

-- ===== src/Chain/Extend.antt =====
-- Adding a block to the head: `ApplyExternalBlock` and `ProduceBlock` of internal/chain/chain.go. A
-- time is the bit pattern of an int64; the clock's reading is an argument.
use shadowledger.Prelude.{
  ℕ, ◌+◌, ◌%◌, ◌^◌, Bool, not, List, [], ◌∷◌, Option, none, some, Bytes, length, ltb, ◌==◌,
  if◌then◌else◌, bytes_eq,
}
use shadowledger.Prelude.Words.{add64, mul64}
use shadowledger.Crypto.{Address}
use shadowledger.Netparams.{spec}
use shadowledger.Merkle.Tree.{zero_hash}
use shadowledger.Types.Data.{Transaction, Header, Block, ShardSet}
use shadowledger.Types.Encode.{header_id, encode_txs}
use shadowledger.Types.Sign.{KeyPair, key_address, sign_header}
use shadowledger.Types.Roots.{merkle_root_of, logs_root_of}
use shadowledger.State.Access.{next_reward}
use shadowledger.State.Apply.{accepted, refused, aborted, apply_block}
use shadowledger.Chain.Data.{
  ChainError, Node, Chain, ChainEffect, stored, failed, panicked, endless,
}
use shadowledger.Chain.Persist.{kept, lost, persist_block_set, persist_logs, record_block}
use shadowledger.Chain.Finality.{advance_finality}

-- `a < b` on int64
unfoldable pub int64_less : ℕ → ℕ → Bool
int64_less a b = ltb ((a + 2 ^ 63) % 2 ^ 64) ((b + 2 ^ 63) % 2 ^ 64)

-- The timestamp at which a round begins: the parent's and so many block times.
unfoldable pub round_start : Node → Header → ℕ → ℕ
round_start node parent round = add64 parent.timestamp (mul64 round node.block_time)

-- The tests of `ApplyExternalBlock` before the block is applied; `none` where all pass.
unfoldable pub check_external : Node → ℕ → Block → Chain → Option ChainError
check_external node now b c =
    let h : Header = b.header in
    if not c.has_gen then some ChainError.no_genesis else elim (node.authorize c.state h) [
      | some e ↦ some (ChainError.engine e)
      | none ↦
          if not (h.height == add64 c.head.height 1)
          then some ChainError.bad_height
          else if not (bytes_eq h.prev_hash (header_id node.env c.head))
          then some ChainError.bad_prev
          else if int64_less h.timestamp (round_start node c.head h.round)
          then some ChainError.bad_round
          else if int64_less (add64 now (mul64 2 node.block_time)) h.timestamp
          then some ChainError.bad_round
          else if not (bytes_eq (merkle_root_of node.env b.txs) h.merkle_root)
          then some ChainError.bad_merkle
          else if not (bytes_eq (node.env.sha256 (encode_txs b.txs)) h.body_hash)
          then some ChainError.bad_body_hash
          else none
    ]

-- What is stored of a block that has been applied: its shards and logs, the head and the tree.
unfoldable pub install : Node → Block → ShardSet → Chain → Chain
install node b set c =
    record_block node.env b
      (record c { store = persist_logs node b.header c.state.last_logs c.store; head = b.header })

-- The end of `ApplyExternalBlock`, over the state after the block.
unfoldable pub settle_external : Node → Block → Chain → ChainEffect (Unit {0})
settle_external node b c =
    if not (bytes_eq (logs_root_of node.env c.state.last_logs) b.header.logs_root)
    then failed ChainError.bad_logs_root c
    else elim (persist_block_set node b.header (encode_txs b.txs) c.store) [
      | lost e ↦ failed e c
      | kept set st ↦ advance_finality node (install node b set (record c { store = st }))
    ]

-- `ApplyExternalBlock`
unfoldable pub apply_external_block : Node → ℕ → Block → Chain → ChainEffect (Unit {0})
apply_external_block node now b c = elim (check_external node now b c) [
  | some e ↦ failed e c
  | none ↦ elim (apply_block node.env node.decode b c.state) [
    | refused e s ↦ failed (ChainError.apply e) (record c { state = s })
    | aborted ↦ panicked
    | accepted s ↦ settle_external node b (record c { state = s })
  ]
]

unfoldable pub sum_fees : ℕ → List Transaction → ℕ
sum_fees fees [] = fees
sum_fees fees (t ∷ txs) = sum_fees (add64 fees t.fee) txs

-- A transaction without a sender.
abbrev pub coinbase : Address → ℕ → Transaction
coinbase to amount = record {
  from = [];
  to = to;
  amount = amount;
  fee = 0;
  nonce = 0;
  chain_id = 0;
  kind = 0;
  gas = 0;
  payload = [];
  pub_key = [];
  sig = [];
}

-- The body of a new block: the reward and the fees to the producer, and the transactions.
unfoldable pub full_body : Node → KeyPair → List Transaction → Chain → List Transaction
full_body node kp txs c =
    let paid : ℕ = add64 (next_reward (add64 c.head.height 1) c.state) (sum_fees 0 txs) in
    if ltb 0 paid then coinbase (key_address node.env kp) paid ∷ txs else txs

-- The new header, before its logs root and signature.
unfoldable pub draft_header : Node → ℕ → KeyPair → ℕ → List Transaction → Chain → Header
draft_header node now kp round full c = record {
  height = add64 c.head.height 1;
  prev_hash = header_id node.env c.head;
  merkle_root = merkle_root_of node.env full;
  timestamp = now;
  validator = key_address node.env kp;
  tx_count = length full % 2 ^ 32;
  round = round;
  spec = spec (length node.members);
  body_hash = node.env.sha256 (encode_txs full);
  logs_root = zero_hash;
  sig = [];
  val_pub_key = [];
}

-- The end of `ProduceBlock`, over the state after the block, whose header is now signed.
unfoldable pub settle_produced : Node → Block → Chain → ChainEffect (Block × ShardSet)
settle_produced node b c = elim (persist_block_set node b.header (encode_txs b.txs) c.store) [
  | lost e ↦ failed e c
  | kept set st ↦ elim (advance_finality node (install node b set (record c { store = st }))) [
    | stored _ d ↦ stored (b, set) d
    | failed e d ↦ failed e d
    | panicked ↦ panicked
    | endless ↦ endless
  ]
]

-- `ProduceBlock`
unfoldable pub produce_block :
    Node → ℕ → KeyPair → ℕ → List Transaction → Chain → ChainEffect (Block × ShardSet)
produce_block node now kp round txs c =
    let full : List Transaction = full_body node kp txs c in
    let draft : Header = draft_header node now kp round full c in
    if not c.has_gen
    then failed ChainError.no_genesis c
    else elim (apply_block node.env node.decode (record { header = draft; txs = full }) c.state) [
      | refused e s ↦ failed (ChainError.apply e) (record c { state = s })
      | aborted ↦ panicked
      | accepted s ↦
          let logs : Bytes = logs_root_of node.env s.last_logs in
          let signed : Header = sign_header node.env kp (record draft { logs_root = logs }) in
          settle_produced node (record { header = signed; txs = full }) (record c { state = s })
    ]

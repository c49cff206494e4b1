-- ===== src/Chain/Origin.antt =====
-- The first block and the restart: `Genesis` and `New` of internal/chain/chain.go.
use shadowledger.Prelude.{
  ℕ, ◌%◌, ◌^◌, true, false, List, [], ◌∷◌, Option, none, some, Bytes, length, get_or, ltb,
  if◌then◌else◌, bytes_eq,
}
use shadowledger.Prelude.Words.{add64}
use shadowledger.Prelude.Map.{Map, lookup, insert, nat_eq, bytes_key}
use shadowledger.Crypto.{Address}
use shadowledger.Netparams.{genesis_spec}
use shadowledger.Merkle.Tree.{zero_hash}
use shadowledger.Consensus.Election.{sort_addresses}
use shadowledger.Types.Data.{Transaction, Header, Block, ShardSet}
use shadowledger.Types.Encode.{header_id, encode_txs}
use shadowledger.Types.Sign.{KeyPair, key_address, sign_header}
use shadowledger.Types.Roots.{merkle_root_of}
use shadowledger.State.Data.{State}
use shadowledger.State.Access.{credit, set_minted, register_genesis_validator, clone_state}
use shadowledger.Forkchoice.Tree.{add_block}
use shadowledger.Chain.Data.{
  ChainError, Store, Node, Chain, ChainEffect, stored, failed, save_replay_base, load_replay_base,
}
use shadowledger.Chain.Persist.{kept, lost, persist_block_set, get_header}
use shadowledger.Chain.Extend.{coinbase}

unfoldable pub funded : Map Address ℕ → List Address
funded [] = []
funded ((a, _) ∷ funding) = a ∷ funded funding

unfoldable pub funding_txs : Map Address ℕ → List Address → List Transaction
funding_txs funding [] = []
funding_txs funding (a ∷ addrs) =
    coinbase a (get_or (lookup a funding) 0) ∷ funding_txs funding addrs

-- The genesis body: the funding, sorted by address.
unfoldable pub genesis_body : Map Address ℕ → List Transaction
genesis_body funding = funding_txs funding (sort_addresses (funded funding))

-- The genesis header before it is signed.
unfoldable pub genesis_draft : Node → Map Address ℕ → Address → Header
genesis_draft node funding validator = record {
  height = 0;
  prev_hash = zero_hash;
  merkle_root = merkle_root_of node.env (genesis_body funding);
  timestamp = node.genesis_time;
  validator = validator;
  tx_count = length (genesis_body funding) % 2 ^ 32;
  round = 0;
  spec = genesis_spec;
  body_hash = node.env.sha256 (encode_txs (genesis_body funding));
  logs_root = zero_hash;
  sig = [];
  val_pub_key = [];
}

-- The genesis header, signed where the key is the validator's.
unfoldable pub genesis_header : Node → Map Address ℕ → Address → Option KeyPair → Header
genesis_header node funding validator none = genesis_draft node funding validator
genesis_header node funding validator (some kp) =
    let draft : Header = genesis_draft node funding validator in
    if bytes_eq (key_address node.env kp) validator then sign_header node.env kp draft else draft

-- The loop that credits the funding: the state and the premine.
unfoldable pub fund : ℕ → Map Address ℕ → State → ℕ × State
fund premine [] s = (premine, s)
fund premine ((a, amount) ∷ funding) s = fund (add64 premine amount) funding (credit a amount s)

-- The state at genesis.
unfoldable pub funded_state : Map Address ℕ → Address → State → State
funded_state funding validator s =
    let (premine, credited) = fund 0 funding s in
    record (register_genesis_validator validator (set_minted premine credited)) { height = 0 }

-- `Genesis` past the storing of its shards.
unfoldable pub plant : Node → Block → Chain → Chain
plant node b c =
    let id : Bytes = header_id node.env b.header in
    let based : Chain = record c {
      head = b.header;
      has_gen = true;
      replay_base = some (clone_state c.state);
      replay_base_id = id;
      replay_base_height = 0;
      tree = add_block id zero_hash 0 1 c.tree;
      block_by_id = insert id b c.block_by_id;
      store = record c.store { bodies = insert id b c.store.bodies };
    } in
    save_replay_base based

-- `Genesis`
unfoldable pub genesis : Node → Map Address ℕ → Address → Option KeyPair → Chain → ChainEffect Block
genesis node funding validator kp c =
    let b : Block = record {
      header = genesis_header node funding validator kp;
      txs = genesis_body funding;
    } in
    let s : State = funded_state funding validator c.state in
    if c.has_gen
    then failed ChainError.has_genesis c
    else elim (persist_block_set node b.header (encode_txs b.txs) c.store) [
      | lost e ↦ failed e (record c { state = s })
      | kept set st ↦ stored b (plant node b (record c { state = s; store = st }))
    ]

-- `Height` of the store: the greatest height of a header.
unfoldable pub max_height : Map ℕ (Header × ShardSet) → ℕ
max_height [] = 0
max_height ((h, _) ∷ headers) = let rest = max_height headers in if ltb rest h then h else rest

-- The blocks that are kept in memory after a restart.
abbrev pub reloaded : Bytes → Store → Map Bytes Block
reloaded id st = elim (lookup id st.bodies) [ none ↦ [] | some b ↦ (id, b) ∷ [] ]

-- `New` over an opened store, with the zero header where it is empty.
unfoldable pub new_chain : Node → Header → Store → State → Chain
new_chain node zero_header st s =
    let empty : Chain = record {
      store = st;
      state = s;
      head = zero_header;
      has_gen = false;
      tree = [];
      block_by_id = [];
      replay_base = none;
      replay_base_id = zero_hash;
      replay_base_height = 0;
    } in
    elim (get_header (max_height st.headers) st) [
      | none ↦ load_replay_base empty
      | some (h, _) ↦
          let id : Bytes = header_id node.env h in
          load_replay_base (record empty {
            head = h;
            has_gen = true;
            tree = add_block id h.prev_hash h.height 1 [];
            block_by_id = reloaded id st;
          })
    ]

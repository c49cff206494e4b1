-- ===== src/Chain/Persist.antt =====
-- Storing blocks, shards and logs, and getting them back: internal/chain/chain.go.
use shadowledger.Prelude.{
  ℕ, zero, suc, ◌+◌, not, List, [], ◌∷◌, ◌++◌, Option, none, some, Bytes, length, get_or, leb,
  if◌then◌else◌,
}
use shadowledger.Prelude.Map.{lookup, insert, nat_eq, bytes_key}
use shadowledger.Crypto.{Env}
use shadowledger.Netparams.{replication}
use shadowledger.Types.Data.{Header, Block, ShardSet, Log}
use shadowledger.Types.Encode.{header_id, encode_txs}
use shadowledger.Types.Roots.{encode_logs}
use shadowledger.Forkchoice.Tree.{add_block}
use shadowledger.Rendezvous.{is_holder}
use shadowledger.Erasure.{encoded, broken, build_shard_set, verify_shard}
use shadowledger.Chain.Data.{ChainError, Store, Node, Chain}

-- `PutShard`
unfoldable pub put_shard : Bytes → ℕ → Bytes → Store → Store
put_shard id i shard st = record st {
  shards = insert id (insert i shard (get_or (lookup id st.shards) [])) st.shards;
}

-- `GetShard`
unfoldable pub get_shard : Bytes → ℕ → Store → Option Bytes
get_shard id i st = lookup i (get_or (lookup id st.shards) [])

-- `storeAssignedShards`, from the shard of index `i` on
unfoldable pub store_assigned_shards : Node → Bytes → ℕ → List Bytes → Store → Store
store_assigned_shards node id i [] st = st
store_assigned_shards node id i (s ∷ shards) st =
    let mine =
      is_holder node.env node.self_id node.members id i (replication (length node.members)) in
    store_assigned_shards node id (i + 1) shards (if mine then put_shard id i s st else st)

-- `PutHeader`
unfoldable pub put_header : Header → ShardSet → Store → Store
put_header h set st = record st { headers = insert h.height (h, set) st.headers }

-- `GetHeader`
unfoldable pub get_header : ℕ → Store → Option (Header × ShardSet)
get_header height st = lookup height st.headers

-- What `persistBlockSet` returns: a shard set and the store, or an error.
pub data Persisted : Type 0 where
  kept : ShardSet → Store → Persisted
  lost : ChainError → Persisted

-- `persistBlockSet`
unfoldable pub persist_block_set : Node → Header → Bytes → Store → Persisted
persist_block_set node h body st =
    elim (build_shard_set node.env node.coder (header_id node.env h) body h.spec) [
      | broken e ↦ lost (ChainError.erasure e)
      | encoded (shards, set) ↦
          if not (node.writes h)
          then lost ChainError.disk
          else kept set
              (store_assigned_shards node (header_id node.env h) 0 shards (put_header h set st))
    ]

-- `logsID`: the digest of "sl-logs:" and the block's id
unfoldable pub logs_id : Env → Bytes → Bytes
logs_id env id = env.sha256 ((b's' ∷ b'l' ∷ b'-' ∷ b'l' ∷ b'o' ∷ b'g' ∷ b's' ∷ b':' ∷ []) ++ id)

-- `persistLogs`, over the last logs of the state
unfoldable pub persist_logs : Node → Header → List Log → Store → Store
persist_logs node h [] st = st
persist_logs node h (l ∷ logs) st =
    let lid = logs_id node.env (header_id node.env h) in
    elim (build_shard_set node.env node.coder lid (encode_logs (l ∷ logs)) h.spec) [
      | broken _ ↦ st
      | encoded (shards, set) ↦
          store_assigned_shards node lid 0 shards
            (record st { log_sets = insert h.height set st.log_sets })
    ]

-- `recordBlock`
unfoldable pub record_block : Env → Block → Chain → Chain
record_block env b c =
    let id = header_id env b.header in
    record c {
      tree = add_block id b.header.prev_hash b.header.height 1 c.tree;
      block_by_id = insert id b c.block_by_id;
      store = record c.store { bodies = insert id b c.store.bodies };
    }

-- `commitCanonical`, whose errors are dropped
unfoldable pub commit_canonical : Node → Block → Chain → Chain
commit_canonical node b c =
    let logged : Store → Store = persist_logs node b.header c.state.last_logs in
    elim (persist_block_set node b.header (encode_txs b.txs) c.store) [
      | lost _ ↦ record c { store = logged c.store }
      | kept _ st ↦ record c { store = logged st }
    ]

-- The first loop of `reconstructShards` at one index: a shard that is held and verifies. The order in
-- which the directory lists the indices changes nothing.
unfoldable pub held_shard : Env → Bytes → ShardSet → ℕ → Store → Option Bytes
held_shard env id set i st = elim (get_shard id i st) [
  | none ↦ none
  | some bytes ↦ if verify_shard env set i bytes then some bytes else none
]

-- The first loop, over the indices from `i` on.
unfoldable pub held_shards : Env → Bytes → ShardSet → Store → ℕ → ℕ → List (Option Bytes)
held_shards env id set st zero i = []
held_shards env id set st (suc left) i =
    held_shard env id set i st ∷ held_shards env id set st left (i + 1)

-- `FetchShard` of a source: what a peer answers, or nothing.
abbrev pub Source : Type 0
Source = Bytes → ℕ → ShardSet → Option Bytes

-- A shard that a peer sent and that verifies.
unfoldable pub fetched_shard : Env → Source → Bytes → ShardSet → ℕ → Option Bytes
fetched_shard env source id set i = elim (source id i set) [
  | none ↦ none
  | some bytes ↦ if verify_shard env set i bytes then some bytes else none
]

-- The second loop: missing shards are asked for until there are enough.
unfoldable pub fetch_shards :
    List (Option Bytes) → Env → Source → Bytes → ShardSet → ℕ → ℕ → List (Option Bytes)
fetch_shards [] env source id set i have = []
fetch_shards (some s ∷ shards) env source id set i have =
    some s ∷ fetch_shards shards env source id set (i + 1) have
fetch_shards (none ∷ shards) env source id set i have =
    elim (if leb set.spec.k have then none else fetched_shard env source id set i) [
      | none ↦ none ∷ fetch_shards shards env source id set (i + 1) have
      | some bytes ↦ some bytes ∷ fetch_shards shards env source id set (i + 1) (have + 1)
    ]

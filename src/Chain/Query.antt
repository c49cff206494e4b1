-- ===== src/Chain/Query.antt =====
-- Reading the history back: the queries of internal/chain/chain.go over its store.
use shadowledger.Prelude.{
  ℕ, Bool, false, not, List, [], Option, none, some, Bytes, get_elem?, ltb, leb, if◌then◌else◌,
  bytes_eq,
}
use shadowledger.Prelude.Map.{lookup, nat_eq}
use shadowledger.Crypto.{Env}
use shadowledger.Types.Data.{Transaction, Header, ShardSet, Log, total}
use shadowledger.Types.Encode.{header_id}
use shadowledger.Types.Roots.{merkle_root_of, logs_root_of}
use shadowledger.Types.Decode.{Memory, Reading, got, bad, panics, decode_txs, decode_logs}
use shadowledger.Erasure.{Coder, encoded, broken, encode, reconstruct, count_present, verify_shard}
use shadowledger.Chain.Data.{ChainError, Store}
use shadowledger.Chain.Persist.{Source, get_header, get_shard, held_shards, fetch_shards, logs_id}

-- What a query gives: a value, an error, or a panic.
pub data Answer (A : Type 0) : Type 0 where
  found : A → Answer A
  fault : ChainError → Answer A
  crash : Answer A

-- The environment of a query. A nil source is `none`.
pub record Reader : Type 0 where
  pub env : Env
  pub coder : Coder
  pub memory : Memory
  pub source : Option Source

-- The shards that `reconstructShards` pools: those that are held, and those that peers send where these
-- are too few.
unfoldable pub pooled_shards : Reader → Bytes → ShardSet → Store → List (Option Bytes)
pooled_shards r id set st =
    let held = held_shards r.env id set st (total set.spec) 0 in
    if leb set.spec.k (count_present held) then held else elim r.source [
      | none ↦ held
      | some source ↦ fetch_shards held r.env source id set 0 (count_present held)
    ]

-- `reconstructShards`
unfoldable pub reconstruct_shards : Reader → Bytes → ShardSet → Store → Answer Bytes
reconstruct_shards r id set st =
    let shards = pooled_shards r id set st in
    if ltb (count_present shards) set.spec.k
    then fault ChainError.reconstruct
    else elim (reconstruct r.coder shards set.spec set.orig_len) [
      | broken e ↦ fault (ChainError.erasure e)
      | encoded body ↦ found body
    ]

unfoldable pub answer_txs : Reading (List Transaction) → Answer (List Transaction)
answer_txs (got txs _) = found txs
answer_txs bad = fault ChainError.bad_body
answer_txs panics = crash

-- `ReconstructBody`
unfoldable pub reconstruct_body : Reader → ℕ → Store → Answer (List Transaction)
reconstruct_body r height st = elim (get_header height st) [
  | none ↦ fault ChainError.disk
  | some (h, set) ↦ elim (reconstruct_shards r (header_id r.env h) set st) [
    | fault e ↦ fault e
    | crash ↦ crash
    | found body ↦ answer_txs (decode_txs r.memory body)
  ]
]

-- The end of `VerifyAvailable`, over the reconstructed body.
unfoldable pub is_committed : Reader → Header → Bytes → Answer Bool
is_committed r h body =
    if not (bytes_eq (r.env.sha256 body) h.body_hash)
    then found false
    else elim (decode_txs r.memory body) [
      | got txs _ ↦ found (bytes_eq (merkle_root_of r.env txs) h.merkle_root)
      | bad ↦ found false
      | panics ↦ crash
    ]

-- `VerifyAvailable`
unfoldable pub verify_available : Reader → ℕ → Store → Answer Bool
verify_available r height st = elim (get_header height st) [
  | none ↦ fault ChainError.disk
  | some (h, set) ↦ elim (reconstruct_shards r (header_id r.env h) set st) [
    | fault e ↦ found false
    | crash ↦ crash
    | found body ↦ is_committed r h body
  ]
]

-- The end of `Logs`: what was read, against the root in the header.
unfoldable pub checked_logs : Reader → Header → Bytes → Answer (List Log)
checked_logs r h raw = elim (decode_logs r.memory raw) [
  | got logs _ ↦
      if not (bytes_eq (logs_root_of r.env logs) h.logs_root) then found [] else found logs
  | bad ↦ found []
  | panics ↦ crash
]

-- `Logs`, before its JSON
unfoldable pub logs_at : Reader → ℕ → Store → Answer (List Log)
logs_at r height st = elim (lookup height st.log_sets) [
  | none ↦ found []
  | some set ↦ elim (get_header height st) [
    | none ↦ found []
    | some (h, _) ↦ elim (reconstruct_shards r (logs_id r.env (header_id r.env h)) set st) [
      | fault _ ↦ found []
      | crash ↦ crash
      | found raw ↦ checked_logs r h raw
    ]
  ]
]

-- `BodyHashAt`
unfoldable pub body_hash_at : ℕ → Store → Option Bytes
body_hash_at height st = elim (get_header height st) [
  | none ↦ none
  | some (h, _) ↦ some h.body_hash
]

-- `ShardAt`
unfoldable pub shard_at : Env → ℕ → Store → Option (Bytes × ℕ)
shard_at env height st = elim (get_header height st) [
  | none ↦ none
  | some (h, set) ↦ some (header_id env h, total set.spec)
]

-- `ShardProofOK`
unfoldable pub shard_proof_ok : Env → ℕ → ℕ → Bytes → Store → Bool
shard_proof_ok env height index shard st = elim (get_header height st) [
  | none ↦ false
  | some (_, set) ↦ verify_shard env set index shard
]

-- The end of `ShardBytes`: the body, encoded again.
unfoldable pub encoded_shard : Reader → ShardSet → ℕ → Bytes → Answer (Option Bytes)
encoded_shard r set index body = elim (encode r.coder body set.spec) [
  | broken _ ↦ found none
  | encoded (shards, _, _) ↦ found (get_elem? shards index)
]

-- The part of `ShardBytes` after its bounds test: the shard at hand, or the body's.
unfoldable pub shard_of : Reader → Header → ShardSet → ℕ → Store → Answer (Option Bytes)
shard_of r h set index st =
    let rebuilt : Answer (Option Bytes) = elim (reconstruct_shards r (header_id r.env h) set st) [
      | fault _ ↦ found none
      | crash ↦ crash
      | found body ↦ encoded_shard r set index body
    ] in
    elim (get_shard (header_id r.env h) index st) [
      | none ↦ rebuilt
      | some bytes ↦ if verify_shard r.env set index bytes then found (some bytes) else rebuilt
    ]

-- `ShardBytes`, for an index that is not negative
unfoldable pub shard_bytes : Reader → ℕ → ℕ → Store → Answer (Option Bytes)
shard_bytes r height index st = elim (get_header height st) [
  | none ↦ found none
  | some (h, set) ↦ if leb (total set.spec) index then found none else shard_of r h set index st
]

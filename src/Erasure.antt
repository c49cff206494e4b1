-- ===== src/Erasure.antt =====
-- Fragmenting a body into shards and putting it together again, internal/erasure/erasure.go. The
-- Reed-Solomon library is a parameter, `Coder`. Lengths are Go ints that are not negative.
pub mod RoundTrip
use shadowledger.Prelude.{
  ℕ, zero, suc, ◌+◌, ◌-◌, ◌*◌, ◌/◌, Bool, false, ◌||◌, not, List, [], ◌∷◌, ◌++◌, Option, none, some,
  Bytes, length, get_elem?, take, drop, ltb, ◌==◌, if◌then◌else◌, bytes_eq, zeros,
}
use shadowledger.Vm.Stack.{be_u64}
use shadowledger.Crypto.{Env}
use shadowledger.Types.Data.{ShardSpec, ShardSet}
use shadowledger.Types.Encode.{put_u32}

-- The calls of the library for a shape: `New`, `Split` and `Encode` on the padded payload, and `New`,
-- `Reconstruct` and `Verify` on a sparse list of shards. `none` is an error.
pub record Coder : Type 0 where
  pub encode_shards : ShardSpec → Bytes → Option (List Bytes)
  pub rebuild_shards : ShardSpec → List (Option Bytes) → Option (List Bytes)

pub data ErasureError : Type 0 where
  bad_spec short_input coder_failed length_mismatch : ErasureError

pub data Erased (A : Type 0) : Type 0 where
  encoded : A → Erased A
  broken : ErasureError → Erased A

-- The body after its length.
unfoldable pub framed : Bytes → Bytes
unfolding put_u32
framed body = put_u32 (length body) ++ body

-- The size of a shard, rounded up.
unfoldable pub shard_len : ℕ → ℕ → ℕ
shard_len n k = if (n + k - 1) / k == 0 then 1 else (n + k - 1) / k

unfoldable pub padded : ℕ → Bytes → Bytes
unfolding framed shard_len
padded k body = framed body ++ zeros (shard_len (length (framed body)) k * k - length (framed body))

-- `Encode`: the shards, their length and the body's.
unfoldable pub encode : Coder → Bytes → ShardSpec → Erased (List Bytes × ℕ × ℕ)
unfolding padded
encode coder body spec =
    if ltb spec.k 1 || ltb spec.m 1
    then broken ErasureError.bad_spec
    else elim (coder.encode_shards spec (padded spec.k body)) [
      | none ↦ broken ErasureError.coder_failed
      | some shards ↦ encoded (shards, shard_len (length (framed body)) spec.k, length body)
    ]

-- `present`
unfoldable pub count_present : List (Option Bytes) → ℕ
count_present [] = 0
count_present (none ∷ shards) = count_present shards
count_present (some s ∷ shards) = count_present shards + 1

-- The first `k` shards, one after another.
unfoldable pub join_shards : ℕ → List Bytes → Bytes
join_shards zero shards = []
join_shards (suc k) [] = []
join_shards (suc k) (s ∷ shards) = s ++ join_shards k shards

-- The end of `Reconstruct`: the length in front, against the expected one and the bytes there are.
unfoldable pub unframe : Bytes → ℕ → Erased Bytes
unfolding be_u64
unframe joined orig_len =
    let n = be_u64 0 (take 4 joined) in
    if ltb (length joined) 4
    then broken ErasureError.short_input
    else if not (n == orig_len) || ltb (length joined) (n + 4)
    then broken ErasureError.length_mismatch
    else encoded (take n (drop 4 joined))

-- `Reconstruct`
unfoldable pub reconstruct : Coder → List (Option Bytes) → ShardSpec → ℕ → Erased Bytes
unfolding count_present join_shards unframe
reconstruct coder shards spec orig_len =
    if ltb spec.k 1 || ltb spec.m 1
    then broken ErasureError.bad_spec
    else if not (length shards == spec.k + spec.m)
    then broken ErasureError.short_input
    else if ltb (count_present shards) spec.k
    then broken ErasureError.short_input
    else elim (coder.rebuild_shards spec shards) [
      | none ↦ broken ErasureError.coder_failed
      | some all ↦ unframe (join_shards spec.k all) orig_len
    ]

-- `ShardHash`
unfoldable pub shard_hash : Env → Bytes → ℕ → Bytes → Bytes
unfolding put_u32
shard_hash env block_id index bytes = env.sha256 (block_id ++ (put_u32 index ++ bytes))

-- The loop of `BuildShardSet`.
unfoldable pub shard_hashes : Env → Bytes → ℕ → List Bytes → List Bytes
unfolding shard_hash
shard_hashes env block_id i [] = []
shard_hashes env block_id i (s ∷ shards) =
    shard_hash env block_id i s ∷ shard_hashes env block_id (i + 1) shards

-- `BuildShardSet`
unfoldable pub build_shard_set :
    Env → Coder → Bytes → Bytes → ShardSpec → Erased (List Bytes × ShardSet)
unfolding encode shard_hashes
build_shard_set env coder block_id body spec = elim (encode coder body spec) [
  | broken e ↦ broken e
  | encoded (shards, padded_len, orig_len) ↦ encoded (
    shards,
    record {
      block_id = block_id;
      spec = spec;
      padded_len = padded_len;
      orig_len = orig_len;
      shard_hash = shard_hashes env block_id 0 shards;
    },
  )
]

-- `VerifyShard`, for an index that is not negative
unfoldable pub verify_shard : Env → ShardSet → ℕ → Bytes → Bool
unfolding shard_hash
verify_shard env set index bytes = elim (get_elem? set.shard_hash index) [
  | none ↦ false
  | some h ↦ bytes_eq (shard_hash env set.block_id index bytes) h
]

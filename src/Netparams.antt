-- ===== src/Netparams.antt =====
-- The erasure shape and the replication that follow from the number of nodes,
-- internal/netparams/netparams.go. The node count is a Go int that is not negative.
use shadowledger.Prelude.{ℕ, ◌-◌, ◌/◌, ◌%◌, ◌≤◌, ◌≡◌, ltb, if◌then◌else◌, arith}
use shadowledger.Types.Data.{ShardSpec, total}

abbrev min_total_shards : ℕ
min_total_shards = 3

abbrev max_total_shards : ℕ
max_total_shards = 24

-- `t` of `Spec`: the node count, clamped.
unfoldable pub shard_count : ℕ → ℕ
shard_count n =
    let t = if ltb n min_total_shards then min_total_shards else n in
    if ltb max_total_shards t then max_total_shards else t

-- `Spec`, with the conversions to uint8
unfoldable pub spec : ℕ → ShardSpec
unfolding shard_count
spec n =
    let t = shard_count n in
    let m = if ltb (t / 3) 1 then 1 else t / 3 in
    let k = if ltb (t - m) 1 then 1 else t - m in record { k = k % 256; m = m % 256 }

-- `GenesisSpec`
abbrev pub genesis_spec : ShardSpec
genesis_spec = record { k = 2; m = 1 }

unfoldable pub replication : ℕ → ℕ
replication n = if ltb n 3 then 1 else if ltb n 8 then 2 else 3

-- The bounds of the shard count.
shard_count_bounds : (n : ℕ) → (3 ≤ shard_count n) × (shard_count n ≤ 24)
unfolding shard_count
shard_count_bounds n = ground arith

-- No clamp and no conversion of the rest of `Spec` changes anything.
spec_parts :
    (n : ℕ) → ((spec n).m ≡ shard_count n / 3) × ((spec n).k ≡ shard_count n - shard_count n / 3)
unfolding spec
spec_parts n = let (low, high) = shard_count_bounds n in ground (arith, low, high)

shard_count_grows : (n m : ℕ) → n ≤ m → shard_count n ≤ shard_count m
unfolding shard_count
shard_count_grows n m h = ground arith

total_spec : (n : ℕ) → total (spec n) ≡ shard_count n
unfolding total
total_spec n = omega (arith, spec_parts n)

-- More nodes never give fewer shards or fewer copies of each.
pub replication_grows :
    (n m : ℕ) → n ≤ m → (total (spec n) ≤ total (spec m)) × (replication n ≤ replication m)
unfolding replication
replication_grows n m h =
    (omega (arith, total_spec n, total_spec m, shard_count_grows n m h), ground arith)

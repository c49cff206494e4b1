-- ===== src/Rendezvous.antt =====
-- Which nodes hold a shard, internal/rendezvous/rendezvous.go. Indices and counts are Go ints that
-- are not negative.
pub mod Ranking
use shadowledger.Prelude.{
  ℕ, zero, suc, ◌+◌, Bool, true, false, ◌||◌, not, List, [], ◌∷◌, ◌++◌, Bytes, length, take, ltb,
  ◌==◌, if◌then◌else◌, bytes_eq,
}
use shadowledger.Vm.Stack.{be_u64}
use shadowledger.Crypto.{Env}
use shadowledger.Types.Encode.{put_u32}
use shadowledger.Consensus.Election.{string_less, contains}

-- `score`
unfoldable pub score : Env → Bytes → ℕ → Bytes → ℕ
unfolding be_u64 put_u32
score env block_id index node = be_u64 0 (take 8 (env.sha256 (node ++ (block_id ++ put_u32 index))))

pub record Ranked : Type 0 where
  pub id : Bytes
  pub score : ℕ

-- The comparison that `sort.Slice` is given.
unfoldable pub ranks_before : Ranked → Ranked → Bool
unfolding string_less
ranks_before a b = if not (a.score == b.score) then ltb b.score a.score else string_less a.id b.id

unfoldable pub insert_ranked : Ranked → List Ranked → List Ranked
unfolding ranks_before
insert_ranked a [] = a ∷ []
insert_ranked a (b ∷ rs) =
    let rest = insert_ranked a rs in if ranks_before b a then b ∷ rest else a ∷ b ∷ rs

-- The nodes with their scores, sorted.
unfoldable pub ranking : Env → Bytes → ℕ → List Bytes → List Ranked
unfolding insert_ranked score
ranking env block_id index [] = []
ranking env block_id index (n ∷ nodes) =
    insert_ranked (record { id = n; score = score env block_id index n })
      (ranking env block_id index nodes)

unfoldable pub ids_of : List Ranked → List Bytes
ids_of [] = []
ids_of (r ∷ rs) = r.id ∷ ids_of rs

-- `Holders`
unfoldable pub holders : Env → List Bytes → Bytes → ℕ → ℕ → List Bytes
unfolding ranking ids_of
holders env nodes block_id index r =
    if r == 0 then [] else take r (ids_of (ranking env block_id index nodes))

-- `IsHolder`
unfoldable pub is_holder : Env → Bytes → List Bytes → Bytes → ℕ → ℕ → Bool
unfolding holders contains
is_holder env node nodes block_id index r = contains node (holders env nodes block_id index r)

-- The loop of `AssignedShards`, with the number of indices left.
unfoldable pub assigned_from : Env → Bytes → List Bytes → Bytes → ℕ → ℕ → ℕ → List ℕ
unfolding is_holder
assigned_from env node nodes block_id r zero i = []
assigned_from env node nodes block_id r (suc left) i =
    let rest = assigned_from env node nodes block_id r left (i + 1) in
    if is_holder env node nodes block_id i r then i ∷ rest else rest

-- `AssignedShards`
unfoldable pub assigned_shards : Env → Bytes → List Bytes → Bytes → ℕ → ℕ → List ℕ
unfolding assigned_from
assigned_shards env node nodes block_id total r = assigned_from env node nodes block_id r total 0

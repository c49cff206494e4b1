-- ===== src/Chain/Walk.antt =====
-- `walkDown` of internal/chain/reorg.go, whose loop is also that of `advanceFinality`, and the replay of
-- the blocks that it finds.
use shadowledger.Prelude.{
  ℕ, zero, suc, ◌+◌, Bool, true, List, [], ◌∷◌, none, some, Bytes, if◌then◌else◌, bytes_eq,
}
use shadowledger.Types.Data.{Header, Block}
use shadowledger.State.Data.{State}
use shadowledger.State.Apply.{BlockEffect, accepted, refused, aborted, apply_block}
use shadowledger.Merkle.Tree.{zero_hash}
use shadowledger.Chain.Data.{Node, Chain, block}

-- The blocks found, oldest first; no path; or a loop that did not end within the fuel.
pub data Walk : Type 0 where
  walked : List Block → Walk
  no_path : Walk
  spent : Walk

-- The loop, from `id` towards `stop`, over the blocks found so far. It keeps the blocks that `keep`
-- says. Putting each block in front does what the code's reversal at the end does.
unfoldable pub walk : ℕ → (Block → Bool) → Bytes → Bytes → List Block → Chain → Walk
walk zero keep id stop found c = spent
walk (suc n) keep id stop found c = if bytes_eq id stop then walked found else elim (block id c) [
  | none ↦ no_path
  | some b ↦
      if bytes_eq b.header.prev_hash zero_hash
      then no_path
      else walk n keep b.header.prev_hash stop (if keep b then b ∷ found else found) c
]

-- Two turns more than the height of the block that the loop starts from.
unfoldable pub walk_fuel : Bytes → Chain → ℕ
walk_fuel id c = elim (block id c) [ none ↦ 2 | some b ↦ b.header.height + 2 ]

-- `walkDown`
unfoldable pub walk_down : Bytes → Bytes → Chain → Walk
walk_down tip stop c = walk (walk_fuel tip c) (λ _. true) tip stop [] c

-- The header of the last block, and the one before where there is none.
unfoldable pub last_header : Header → List Block → Header
last_header h [] = h
last_header h (b ∷ bs) = last_header b.header bs

-- `ApplyBlock` of one block after another, until an error.
unfoldable pub replay : Node → List Block → State → BlockEffect
replay node [] s = accepted s
replay node (b ∷ bs) s = elim (apply_block node.env node.decode b s) [
  | accepted t ↦ replay node bs t
  | refused e t ↦ refused e t
  | aborted ↦ aborted
]

-- ===== src/Chain/Accept.antt =====
-- A block from a peer, on any branch (internal/chain/reorg.go, AcceptBlock).
use shadowledger.Prelude.{◌≤◌, ◌≡◌, ◌≢◌, false, none, some, ◌⊎◌}
use shadowledger.Prelude.Words.{IsWord}
use shadowledger.Prelude.Map.{lookup, bytes_key}
use shadowledger.Types.Data.{Block}
use shadowledger.Types.Encode.{header_id}
use shadowledger.Chain.Data.{
  ChainError, Node, Chain, ChainEffect, stored, failed, panicked, endless, block,
}
use shadowledger.Chain.Persist.{record_block}
use shadowledger.Chain.Follow.{IsBranch, IsAtRest, IsStuck}
use shadowledger.Chain.Grow.{IsAlike}
use shadowledger.Chain.Reorg.{check_accept}

-- The parent's height is a word, and the block's own did not wrap.
abbrev pub IsAbove : Block → Chain → Type 0
IsAbove b c =
    (b.header.height ≢ 0)
    × ((p : Block) → block b.header.prev_hash c ≡ some p → IsWord p.header.height)

-- The error of `AcceptBlock` where it leaves the chain as it was.
abbrev IsRefusal : Node → Block → Chain → ChainError → Type 0
IsRefusal node b c e =
    ((c.has_gen ≡ false) × (e ≡ ChainError.no_genesis)) ⊎ (check_accept node b c ≡ some e)

-- What `AcceptBlock` does to a chain.
abbrev pub IsAccepted : Node → Block → Chain → ChainEffect (Unit {0}) → Type 0
IsAccepted node b c (stored _ d) =
    (c.replay_base_height ≤ d.replay_base_height)
    × (((d ≡ c) × (lookup (header_id node.env b.header) c.tree ≢ none))
        ⊎ ((check_accept node b c ≡ none)
            × (((d ≡ record_block node.env b c) × IsAtRest node (record_block node.env b c))
                ⊎ IsBranch node (record_block node.env b c) d)))
IsAccepted node b c (failed e d) =
    ((d ≡ c) × IsRefusal node b c e)
    ⊎ (((check_accept node b c ≡ none) × (e ≡ ChainError.reorg_replay))
        × (IsAlike (record_block node.env b c) d × IsStuck node (record_block node.env b c)))
IsAccepted node b c panicked = Unit
IsAccepted node b c endless = ⊥

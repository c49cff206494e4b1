-- ===== src/Chain/Joined.antt =====
-- What a header chain that is installed has been checked for (internal/chain/chain.go, SyncInstall).
use shadowledger.Prelude.{ℕ, ◌+◌, ◌≡◌, List, [], ◌∷◌, none, Bytes}
use shadowledger.Merkle.Tree.{zero_hash}
use shadowledger.Types.Data.{Header, ShardSet}
use shadowledger.Types.Encode.{header_id}
use shadowledger.State.Data.{State}
use shadowledger.Chain.Data.{Node, Chain, ChainEffect, stored, failed, panicked, endless}
use shadowledger.Chain.Sync.{Installed, linked, unlinked}

-- Records that are a chain: heights from `i` on, each previous hash the id of the header before, and every
-- header authorized.
abbrev pub IsHeaderChain : Node → State → ℕ → Bytes → List (Header × ShardSet) → Type 0
IsHeaderChain node s i prev [] = Unit
IsHeaderChain node s i prev (r ∷ records) =
    (r.0.height ≡ i)
    × ((r.0.prev_hash ≡ prev)
        × ((node.authorize s r.0 ≡ none)
            × IsHeaderChain node s (i + 1) (header_id node.env r.0) records))

-- The last header of a row of records.
abbrev pub last_of : Header → List (Header × ShardSet) → Header
last_of h [] = h
last_of h (r ∷ records) = last_of r.0 records

-- What the loop over the records has found where it ends with a header.
abbrev IsVerified :
    Node → State → ℕ → Bytes → Header → List (Header × ShardSet) → Installed → Type 0
IsVerified node s i prev last records (linked h st) =
    IsHeaderChain node s i prev records × (h ≡ last_of last records)
IsVerified node s i prev last records (unlinked e st) = Unit

-- What a chain is after it has joined, or has not.
abbrev pub IsJoined :
    Node → List (Header × ShardSet) → State → Chain → ChainEffect (Unit {0}) → Type 0
IsJoined node records snap c (stored _ d) =
    IsHeaderChain node c.state 0 zero_hash records
    × ((d.head ≡ last_of c.head records)
        × ((d.state.accounts ≡ snap.accounts)
            × ((d.replay_base_id ≡ header_id node.env d.head)
                × (d.replay_base_height ≡ d.head.height))))
IsJoined node records snap c (failed e d) =
    (d.head ≡ c.head)
    × ((d.state ≡ c.state) × ((d.tree ≡ c.tree) × (d.replay_base ≡ c.replay_base)))
IsJoined node records snap c panicked = ⊥
IsJoined node records snap c endless = ⊥

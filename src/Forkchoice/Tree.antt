-- ===== src/Forkchoice/Tree.antt =====
-- `Tree`, `Add`, `Best` and `less` of internal/forkchoice/forkchoice.go. The order of the list of
-- nodes is the order in which Go's map happens to be read.
use shadowledger.Prelude.{
  ℕ, Bool, false, ◌&&◌, ◌||◌, List, [], ◌∷◌, Option, none, some, Bytes, ltb, ◌==◌, if◌then◌else◌,
}
use shadowledger.Prelude.Words.{add64}
use shadowledger.Prelude.Map.{Map, lookup, insert, bytes_key}
use shadowledger.Merkle.Tree.{zero_hash}

pub record Entry : Type 0 where
  pub parent : Bytes
  pub height : ℕ
  pub cum : ℕ

-- `Tree`
abbrev pub BlockTree : Type 0
BlockTree = Map Bytes Entry

-- The weight of the chain below a block.
unfoldable pub cum_below : Option Entry → ℕ
cum_below none = 0
cum_below (some p) = p.cum

unfoldable pub add_block : Bytes → Bytes → ℕ → ℕ → BlockTree → BlockTree
unfolding cum_below
add_block id parent height weight t = elim (lookup id t) [
  | some _ ↦ t
  | none ↦
      insert id
        (record {
          parent = parent;
          height = height;
          cum = add64 weight (cum_below (lookup parent t));
        })
        t
]

-- The first byte in which two hashes differ decides.
unfoldable pub less : Bytes → Bytes → Bool
less [] b = false
less (x ∷ a) [] = false
less (x ∷ a) (y ∷ b) = if x == y then less a b else ltb x y

-- The condition of the loop of `Best`, for a block against the best so far.
unfoldable pub beats : Bytes × ℕ → Bytes × ℕ → Bool
unfolding less
beats (id, cum) (best, best_cum) = ltb best_cum cum || (cum == best_cum && less id best)

unfoldable pub best_loop : Bytes × ℕ → List (Bytes × Entry) → Bytes × ℕ
unfolding beats
best_loop best [] = best
best_loop best ((id, e) ∷ nodes) =
    best_loop (if beats (id, e.cum) best then (id, e.cum) else best) nodes

-- `Best`, with the first turn of its loop apart
unfoldable pub best_tip : BlockTree → Bytes × ℕ
unfolding best_loop
best_tip [] = (zero_hash, 0)
best_tip ((id, e) ∷ nodes) = best_loop (id, e.cum) nodes

-- ===== src/Chain/Heights.antt =====
-- The heights along a walk towards the replay base (internal/chain/chain.go, advanceFinality).
use shadowledger.Prelude.{
  ℕ, zero, suc, ◌≤◌, ◌<◌, ◌≡◌, sym, Bool, List, [], ◌∷◌, some, Bytes, leb, leb→le, if◌then◌else◌,
  bytes_eq, bytes_eq_iff, Bool-cases, Option-cases, inl, inr, All, arith,
}
use shadowledger.Types.Data.{Header, Block}
use shadowledger.Chain.Data.{Chain, block}
use shadowledger.Chain.Walk.{walked, walk, last_header}
use shadowledger.Chain.Linked.{IsLinked}

-- The block of the replay base is known, with its height.
abbrev pub IsFloored : Chain → Type 0
IsFloored c =
    (b : Block) × ((block c.replay_base_id c ≡ some b) × (b.header.height ≡ c.replay_base_height))

-- A block between two heights, the lower one excluded.
abbrev pub IsBetween : ℕ → ℕ → Block → Type 0
IsBetween low high b = (low < b.header.height) × (b.header.height ≤ high)

module _ (c : Chain) (linked : IsLinked c) (target : ℕ) (stop : Bytes) (base : Block)
    (known : block stop c ≡ some base) where
  abbrev final : Block → Bool
  final b = leb b.header.height target

  -- A walk that arrives has come from a block that is known and not lower.
  pub walk_from :
      (n : ℕ) (id : Bytes) (found bs : List Block)
      → walk n final id stop found c ≡ walked bs
      → (b : Block) × ((block id c ≡ some b) × (base.header.height ≤ b.header.height))
  unfolding walk
  walk_from zero id found bs e = absurd (ground (arith, e))
  walk_from (suc n) id found bs e = elim (Bool-cases (bytes_eq id stop)) [
    | inl at_stop ↦
        let here : id ≡ stop = (bytes_eq_iff id stop).0 at_stop in
        (base, (rw here known, omega arith))
    | inr away ↦ elim (Option-cases (block id c)) [
      | inl gone ↦ absurd (ground (arith, away, gone, e))
      | inr (b, mine) ↦
          let (p, (parent, high)) =
            walk_from n b.header.prev_hash (if final b then b ∷ found else found) bs
              (ground (arith, away, mine, e)) in
          let step = linked id b p mine parent in (b, (mine, omega arith))
    ]
  ]

  -- Every block that is kept lies above the base, up to the target.
  pub walk-All :
      (n : ℕ) (id : Bytes) (found bs : List Block)
      → All (IsBetween base.header.height target) found
      → walk n final id stop found c ≡ walked bs
      → All (IsBetween base.header.height target) bs
  unfolding walk
  walk-All zero id found bs h e = absurd (ground (arith, e))
  walk-All (suc n) id found bs h e = elim (Bool-cases (bytes_eq id stop)) [
    | inl at_stop ↦ let same : found ≡ bs = ground (arith, at_stop, e) in rw (sym same) h
    | inr away ↦ elim (Option-cases (block id c)) [
      | inl gone ↦ absurd (ground (arith, away, gone, e))
      | inr (b, mine) ↦
          let next : List Block = if final b then b ∷ found else found in
          let down : walk n final b.header.prev_hash stop next c ≡ walked bs =
            ground (arith, away, mine, e) in
          let (p, (parent, high)) = walk_from n b.header.prev_hash next bs down in
          let step = linked id b p mine parent in
          let kept : All (IsBetween base.header.height target) next = elim (Bool-cases (final b)) [
            | inl low ↦ rw low ((omega arith, leb→le b.header.height target low), h)
            | inr over ↦ rw over h
          ] in
          walk-All n b.header.prev_hash next bs kept down
    ]
  ]

pub last_header-All :
    (P : Block → Type 0) (Q : Header → Type 0)
    → ((b : Block) → P b → Q b.header)
    → (h : Header) (bs : List Block) → Q h
    → All P bs
    → Q (last_header h bs)
unfolding last_header
last_header-All P Q f h [] q a = q
last_header-All P Q f h (b ∷ bs) q a = last_header-All P Q f b.header bs (f b a.0) a.1

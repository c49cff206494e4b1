-- ===== src/Chain/Linked.antt =====
-- Where heights follow the parent links, the walks of internal/chain end, and what they find is a path.
use shadowledger.Prelude.{
  ℕ, zero, suc, ◌+◌, ◌≤◌, ◌≡◌, ◌≢◌, refl, sym, Bool, true, List, [], ◌∷◌, some, Bytes,
  if◌then◌else◌, bytes_eq, bytes_eq_iff, Bool-cases, Option-cases, inl, inr, arith,
}
use shadowledger.Types.Data.{Block}
use shadowledger.Chain.Data.{Chain, block}
use shadowledger.Chain.Walk.{walked, spent, walk, walk_fuel, walk_down}

-- A known block whose parent is known stands one above it.
abbrev pub IsLinked : Chain → Type 0
IsLinked c =
    (id : Bytes) (b p : Block)
    → block id c ≡ some b
    → block b.header.prev_hash c ≡ some p
    → b.header.height ≡ p.header.height + 1

-- Fuel for a walk from an id.
abbrev pub IsEnough : ℕ → Bytes → Chain → Type 0
IsEnough n id c = (1 ≤ n) × ((b : Block) → block id c ≡ some b → b.header.height + 2 ≤ n)

pub walk_fuel-IsEnough : (id : Bytes) (c : Chain) → IsEnough (walk_fuel id c) id c
unfolding walk_fuel
walk_fuel-IsEnough id c = elim (Option-cases (block id c)) [
  | inl e ↦ rw (e, walk_fuel) (omega arith, λ b f. absurd (cc))
  | inr (p, e) ↦ (rw (e, walk_fuel) (omega arith), λ b f. ground (arith, e, f))
]

module _ (c : Chain) (linked : IsLinked c) (keep : Block → Bool) (stop : Bytes) where
  down-IsEnough :
      (n : ℕ) (id : Bytes) (b : Block)
      → IsEnough (suc n) id c
      → block id c ≡ some b
      → IsEnough n b.header.prev_hash c
  down-IsEnough n id b h e =
      let high = h.1 b e in (omega arith, λ p f. let step = linked id b p e f in omega arith)

  pub walk_ends :
      (n : ℕ) (id : Bytes) (found : List Block) (k : ℕ)
      → IsEnough n id c
      → (walk n keep id stop found c ≢ spent)
        × (walk (n + k) keep id stop found c ≡ walk n keep id stop found c)
  unfolding walk
  walk_ends zero id found k h = absurd (omega (arith, h.0))
  walk_ends (suc n) id found k h =
      let more : suc n + k ≡ suc (n + k) = omega arith in
      elim (Bool-cases (bytes_eq id stop)) [
        | inl at_stop ↦ ground (arith, at_stop, more)
        | inr away ↦ elim (Option-cases (block id c)) [
          | inl gone ↦ ground (arith, away, gone, more)
          | inr (b, e) ↦
              let rest =
                walk_ends n b.header.prev_hash (if keep b then b ∷ found else found) k
                  (down-IsEnough n id b h e) in
              ground (arith, away, e, rest, more)
        ]
      ]

-- Where every known block stands one above its known parent, the walk from a tip ends within its fuel,
-- and more fuel gives the same.
pub walk_down_ends :
    (c : Chain) (tip stop : Bytes) (k : ℕ)
    → IsLinked c
    → (walk_down tip stop c ≢ spent)
      × (walk (walk_fuel tip c + k) (λ _. true) tip stop [] c ≡ walk_down tip stop c)
unfolding walk_down
walk_down_ends c tip stop k linked =
    walk_ends c linked (λ _. true) stop (walk_fuel tip c) tip [] k (walk_fuel-IsEnough tip c)

-- A row of known blocks, oldest first: the first one's parent is `stop`, each is the next one's parent,
-- and the last is the tip.
abbrev pub IsPath : Chain → Bytes → List Block → Bytes → Type 0
IsPath c stop [] tip = stop ≡ tip
IsPath c stop (b ∷ bs) tip =
    (b.header.prev_hash ≡ stop) × ((id : Bytes) × ((block id c ≡ some b) × IsPath c id bs tip))

module _ (c : Chain) (stop tip : Bytes) where
  walk-IsPath :
      (n : ℕ) (id : Bytes) (found bs : List Block)
      → IsPath c id found tip
      → walk n (λ _. true) id stop found c ≡ walked bs
      → IsPath c stop bs tip
  unfolding walk
  walk-IsPath zero id found bs path e = absurd (ground (arith, e))
  walk-IsPath (suc n) id found bs path e = elim (Bool-cases (bytes_eq id stop)) [
    | inl at_stop ↦
        let same : found ≡ bs = ground (arith, at_stop, e) in
        let here : id ≡ stop = (bytes_eq_iff id stop).0 at_stop in rw (sym same, sym here) path
    | inr away ↦ elim (Option-cases (block id c)) [
      | inl gone ↦ absurd (ground (arith, away, gone, e))
      | inr (b, known) ↦
          walk-IsPath n b.header.prev_hash (b ∷ found) bs (refl, (id, (known, path)))
            (ground (arith, away, known, e))
    ]
  ]

-- What `walkDown` returns are the known blocks from above `stop` to the tip, each the parent of the next.
pub walk_down-IsPath :
    (c : Chain) (tip stop : Bytes) (bs : List Block)
    → walk_down tip stop c ≡ walked bs
    → IsPath c stop bs tip
unfolding walk_down
walk_down-IsPath c tip stop bs e = walk-IsPath c stop tip (walk_fuel tip c) tip [] bs refl e

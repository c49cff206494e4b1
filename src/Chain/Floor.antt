-- ===== src/Chain/Floor.antt =====
-- The replay base only moves up (internal/chain/chain.go, advanceFinality).
use mathlib.Core.Path.{subst}
use shadowledger.Prelude.{
  ℕ, ◌+◌, ◌-◌, ◌≤◌, ◌<◌, ◌≡◌, ◌≢◌, refl, Bool, true, false, ◌||◌, List, [], ◌∷◌, Option, none, some,
  Bytes, ltb, leb, ◌==◌, if◌then◌else◌, inl, inr, ◌⊎◌, All, arith,
}
use shadowledger.Types.Data.{Block}
use shadowledger.Types.Encode.{header_id}
use shadowledger.State.Data.{State}
use shadowledger.State.Apply.{BlockEffect, accepted, refused, aborted}
use shadowledger.Chain.Data.{
  Node, Chain, ChainEffect, stored, failed, panicked, endless, save_replay_base,
}
use shadowledger.Chain.Walk.{Walk, walked, no_path, spent, walk_fuel, last_header, replay}
use shadowledger.Chain.Finality.{rewound, move_base, finalize, advance_finality}
use shadowledger.Chain.Linked.{IsLinked, walk_fuel-IsEnough, walk_ends}
use shadowledger.Chain.Heights.{last_header-All, IsFloored, IsBetween, walk-All}

-- What an advance leaves as it was: the head, the state, the tree and the blocks.
pub record IsKept (c d : Chain) : Type 0 where
  pub head : d.head ≡ c.head
  pub state : d.state ≡ c.state
  pub tree : d.tree ≡ c.tree
  pub block_by_id : d.block_by_id ≡ c.block_by_id
  pub bodies : d.store.bodies ≡ c.store.bodies
  pub has_gen : d.has_gen ≡ c.has_gen

-- The base is not lowered, and where it moves it stays as far below the head as the depth says.
pub record IsRaised (depth : ℕ) (c d : Chain) : Type 0 where
  pub kept : IsKept c d
  pub up : c.replay_base_height ≤ d.replay_base_height
  pub below :
      (d.replay_base_height ≡ c.replay_base_height) ⊎ (d.replay_base_height + depth ≤ c.head.height)

-- An advance has no error and ends; it may panic in a block that it replays.
abbrev pub IsAdvanced : ℕ → Chain → ChainEffect (Unit {0}) → Type 0
IsAdvanced depth c (stored _ d) = IsRaised depth c d
IsAdvanced depth c (failed e d) = ⊥
IsAdvanced depth c panicked = Unit
IsAdvanced depth c endless = ⊥

unmoved : (depth : ℕ) (c : Chain) → IsRaised depth c c
unmoved depth c = record {
  kept = record {
    head = refl;
    state = refl;
    tree = refl;
    block_by_id = refl;
    bodies = refl;
    has_gen = refl;
  };
  up = omega arith;
  below = inl refl;
}

move_base-IsRaised :
    (node : Node) (depth : ℕ) (c : Chain) (bs : List Block) (s : State)
    → depth ≤ c.head.height
    → All (IsBetween c.replay_base_height (c.head.height - depth)) bs
    → IsRaised depth c (move_base node bs s c)
unfolding move_base save_replay_base
move_base-IsRaised node depth c [] s h a = record {
  kept = record {
    head = refl;
    state = refl;
    tree = refl;
    block_by_id = refl;
    bodies = refl;
    has_gen = refl;
  };
  up = omega arith;
  below = inl refl;
}
move_base-IsRaised node depth c (b ∷ bs) s h a =
    let top : IsBetween c.replay_base_height (c.head.height - depth)
        (record b { header = last_header b.header bs }) =
      last_header-All (IsBetween c.replay_base_height (c.head.height - depth))
        (λ g. (c.replay_base_height < g.height) × (g.height ≤ c.head.height - depth)) (λ x p. p)
        b.header bs a.0 a.1 in
    record {
      kept = record {
        head = refl;
        state = refl;
        tree = refl;
        block_by_id = refl;
        bodies = refl;
        has_gen = refl;
      };
      up = omega arith;
      below = inr (omega arith);
    }

-- The outcome of a replay decides what becomes of the base.
module _ (node : Node) (depth : ℕ) (c : Chain) where
  settle_base :
      (r : BlockEffect) (bs : List Block)
      → ((s : State) → IsRaised depth c (move_base node bs s c))
      → IsAdvanced depth c (elim r [
        | refused _ _ ↦ stored tt c
        | aborted ↦ panicked
        | accepted s ↦ stored tt (move_base node bs s c)
      ])
  settle_base (accepted s) bs h = h s
  settle_base (refused e s) bs h = unmoved depth c
  settle_base aborted bs h = tt

  settle_walk :
      (w : Walk) (base : State)
      → w ≢ spent
      → ((bs : List Block) → w ≡ walked bs → (s : State) → IsRaised depth c (move_base node bs s c))
      → IsAdvanced depth c (elim w [
        | no_path ↦ stored tt c
        | spent ↦ endless
        | walked bs ↦ elim (replay node bs (rewound node base c)) [
          | refused _ _ ↦ stored tt c
          | aborted ↦ panicked
          | accepted s ↦ stored tt (move_base node bs s c)
        ]
      ])
  settle_walk (walked bs) base ends h =
      settle_base (replay node bs (rewound node base c)) bs (h bs refl)
  settle_walk no_path base ends h = unmoved depth c
  settle_walk spent base ends h = absurd (ends refl)

  finalize-IsAdvanced :
      (base : State)
      → IsLinked c
      → IsFloored c
      → depth ≤ c.head.height
      → IsAdvanced depth c (finalize node (c.head.height - depth) base c)
  unfolding finalize
  finalize-IsAdvanced base linked (floor, (known, height)) deep =
      let target : ℕ = c.head.height - depth in
      let tip : Bytes = header_id node.env c.head in
      let keep : Block → Bool = λ b. leb b.header.height target in
      settle_walk _ base
        (walk_ends c linked keep c.replay_base_id (walk_fuel tip c) tip [] 0
          (walk_fuel-IsEnough tip c)).0
        (λ bs e s.
          let between : All (IsBetween floor.header.height target) bs =
            walk-All c linked target c.replay_base_id floor known (walk_fuel tip c) tip [] bs tt
              e in
          move_base-IsRaised node depth c bs s deep
            (subst (λ low. All (IsBetween low target) bs) height between))

  settle_tests :
      (off low : Bool) (r : ChainEffect (Unit {0}))
      → (off ≡ false → IsAdvanced depth c r)
      → IsAdvanced depth c (if off then stored tt c else if low then stored tt c else r)
  settle_tests true low r h = unmoved depth c
  settle_tests false true r h = unmoved depth c
  settle_tests false false r h = h refl

-- Where every known block stands one above its known parent and the block of the replay base is known,
-- `advanceFinality` ends without an error, or panics in a block; it changes neither the head nor the
-- state, the tree or the blocks, never lowers the replay base, and moves it only to a block at least the
-- finality depth below the head.
pub advance_finality-IsAdvanced :
    (node : Node) (c : Chain)
    → IsLinked c
    → IsFloored c
    → IsAdvanced node.finality_depth c (advance_finality node c)
unfolding advance_finality
advance_finality-IsAdvanced node c linked floored = with_base c.replay_base
  where
    with_base :
        (o : Option State)
        → IsAdvanced node.finality_depth c (elim o [
          | none ↦ stored tt c
          | some base ↦
              if node.finality_depth == 0 || ltb c.head.height node.finality_depth
              then stored tt c
              else if leb (c.head.height - node.finality_depth) c.replay_base_height
              then stored tt c
              else finalize node (c.head.height - node.finality_depth) base c
        ])
    with_base none = unmoved node.finality_depth c
    with_base (some base) =
        settle_tests node node.finality_depth c
          (node.finality_depth == 0 || ltb c.head.height node.finality_depth) _ _
          (λ on. finalize-IsAdvanced node node.finality_depth c base linked floored (ground arith))

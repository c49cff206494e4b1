-- ===== src/Chain/Follow.antt =====
-- Where the head goes (internal/chain/reorg.go, reorgToBest and AcceptBlock): along a path of known
-- blocks that all apply, never below the replay base.
use shadowledger.Prelude.{
  ◌≤◌, ◌≡◌, refl, ◌∙◌, bytes_eq, bytes_eq_iff, Bool, true, false, List, [], ◌∷◌, Option, none, some,
  Bytes, if◌then◌else◌, inl, inr, ◌⊎◌, arith,
}
use shadowledger.Types.Data.{Block}
use shadowledger.Types.Encode.{header_id}
use shadowledger.State.Data.{State}
use shadowledger.State.Access.{replace_with}
use shadowledger.State.Effects.{StateError}
use shadowledger.State.Apply.{BlockEffect, accepted, refused, aborted}
use shadowledger.Forkchoice.Tree.{best_tip}
use shadowledger.Chain.Data.{
  ChainError, Node, Chain, ChainEffect, stored, failed, panicked, endless, block,
}
use shadowledger.Chain.Walk.{Walk, walked, no_path, spent, walk_down, last_header, replay}
use shadowledger.Chain.Finality.{rewound, advance_finality}
use shadowledger.Chain.Linked.{IsLinked, IsPath, walk_down_ends, walk_down-IsPath}
use shadowledger.Chain.Floor.{IsAdvanced, advance_finality-IsAdvanced}
use shadowledger.Chain.Grow.{IsAlike, chained-IsAlike, alike-IsFloored}
use shadowledger.Chain.Reorg.{
  move_head, fast_forward, commit_all, extend_head, switch_branch, follow, reorg_to_best,
}
use shadowledger.Chain.Blocks.{same_blocks-IsLinked}
use shadowledger.Chain.Heights.{IsFloored}
use shadowledger.Chain.Forward.{
  IsForward, Runs, Sticks, alike, fast_forward-IsForward, commit_all-IsAlike,
}

-- No walk from the best tip reaches the head.
abbrev IsDivergent : Node → Chain → Type 0
IsDivergent node c = walk_down (best_tip c.tree).0 (header_id node.env c.head) c ≡ no_path

-- The head after an operation that starts at `c` and succeeds at `d`: at the end of a path of known blocks
-- to the best tip, from the old head, where the blocks have run on the live state, or, where the best tip
-- does not descend from the head, from the replay base, where their replay gives the state.
pub record IsBranch (node : Node) (c d : Chain) : Type 0 where
  pub stop : Bytes
  pub blocks : List Block
  pub path : IsPath c stop blocks (best_tip c.tree).0
  pub head : d.head ≡ last_header c.head blocks
  pub state :
      ((stop ≡ header_id node.env c.head)
        × ((e : Chain) × (Runs node c blocks e × (d.state ≡ e.state))))
      ⊎ ((IsDivergent node c × (stop ≡ c.replay_base_id))
          × ((base : State) × ((c.replay_base ≡ some base)
                × ((s : State) × ((replay node blocks (rewound node base c) ≡ accepted s)
                      × (d.state ≡ replace_with s c.state))))))

-- Why the head stays: it is the best tip, or the best tip neither descends from it nor, where there is a
-- replay base, from that.
abbrev pub IsAtRest : Node → Chain → Type 0
IsAtRest node c =
    ((best_tip c.tree).0 ≡ header_id node.env c.head)
    ⊎ (IsDivergent node c
        × ((c.replay_base ≡ none) ⊎ (walk_down (best_tip c.tree).0 c.replay_base_id c ≡ no_path)))

-- A block of the path to the best tip is refused: of the path from the head, where the blocks before it
-- have run, or of the path from the replay base in the replay.
abbrev pub IsStuck : Node → Chain → Type 0
IsStuck node c =
    (bs : List Block) × ((IsPath c (header_id node.env c.head) bs (best_tip c.tree).0
        × Sticks node c bs)
      ⊎ ((IsDivergent node c × IsPath c c.replay_base_id bs (best_tip c.tree).0)
          × ((base : State) × ((c.replay_base ≡ some base)
                × ((e : StateError) × ((s : State) × (replay node bs (rewound node base c)
                        ≡ refused e s)))))))

abbrev pub IsFollowed : Node → Chain → ChainEffect (Unit {0}) → Type 0
IsFollowed node c (stored _ d) =
    (c.replay_base_height ≤ d.replay_base_height)
    × (((d ≡ c) × IsAtRest node c) ⊎ IsBranch node c d)
IsFollowed node c (failed e d) = (e ≡ ChainError.reorg_replay) × (IsAlike c d × IsStuck node c)
IsFollowed node c panicked = Unit
IsFollowed node c endless = ⊥

-- The head moves along a path, from a chain with its blocks and its floor.
module _ (node : Node) (c : Chain) (linked : IsLinked c) (floored : IsFloored c) where
  after_advance :
      (bs : List Block) (e : Chain) (r : ChainEffect (Unit {0}))
      → e.replay_base_height ≡ c.replay_base_height
      → e.head ≡ last_header c.head bs
      → ((f : Chain) → f.head ≡ last_header c.head bs → f.state ≡ e.state → IsBranch node c f)
      → IsAdvanced node.finality_depth e r
      → IsFollowed node c r
  after_advance bs e (stored _ f) low top h a =
      (omega (arith, low, a.up), inr (h f (a.kept.head ∙ top) a.kept.state))
  after_advance bs e (failed x f) low top h a = absurd a
  after_advance bs e panicked low top h a = tt
  after_advance bs e endless low top h a = a

  moved :
      (bs : List Block) (d : Chain)
      → IsAlike c d
      → ((f : Chain) → f.head ≡ last_header c.head bs → f.state ≡ d.state → IsBranch node c f)
      → IsFollowed node c (move_head node bs d)
  unfolding move_head last_header block
  moved [] d a h = (omega (arith, a.replay_base_height), inr (h d a.head refl))
  moved (b ∷ bs) d a h =
      let e : Chain = record d { head = last_header b.header bs } in
      after_advance (b ∷ bs) e (advance_finality node e) a.replay_base_height refl h (
        advance_finality-IsAdvanced node e (same_blocks-IsLinked c d a.same linked)
          (alike-IsFloored c d a floored))

  extended :
      (bs : List Block) (r : ChainEffect (Unit {0}))
      → IsPath c (header_id node.env c.head) bs (best_tip c.tree).0
      → IsForward node bs c r
      → IsFollowed node c (elim r as (λ _. ChainEffect (Unit {0})) [
        | stored _ d ↦ move_head node bs d
        | failed e d ↦ failed e d
        | panicked ↦ panicked
        | endless ↦ endless
      ])
  extended bs (stored _ d) path f = moved bs d f.0 (λ e top same. record {
    stop = header_id node.env c.head;
    blocks = bs;
    path = path;
    head = top;
    state = inl (refl, (d, (f.1, same)));
  })
  extended bs (failed e d) path f = (f.0, (f.1.0, (bs, inl (path, f.1.1))))
  extended bs panicked path f = tt
  extended bs endless path f = f

  replayed :
      (base : State) (bs : List Block) (r : BlockEffect)
      → IsDivergent node c
      → c.replay_base ≡ some base
      → IsPath c c.replay_base_id bs (best_tip c.tree).0
      → replay node bs (rewound node base c) ≡ r
      → IsFollowed node c (elim r as (λ _. ChainEffect (Unit {0})) [
        | refused _ _ ↦ failed ChainError.reorg_replay c
        | aborted ↦ panicked
        | accepted s ↦
            move_head node bs (commit_all node bs (record c { state = replace_with s c.state }))
      ])
  replayed base bs (refused e s) apart some_base path k =
      (refl, (alike c c.state, (bs, inr ((apart, path), (base, (some_base, (e, (s, k))))))))
  replayed base bs aborted apart some_base path k = tt
  replayed base bs (accepted s) apart some_base path k =
      let mid : Chain = record c { state = replace_with s c.state } in
      let (rest, same) = commit_all-IsAlike node bs mid in
      moved bs (commit_all node bs mid)
        (chained-IsAlike c mid _ (alike c (replace_with s c.state)) rest)
        (λ e top final. record {
          stop = c.replay_base_id;
          blocks = bs;
          path = path;
          head = top;
          state = inr ((apart, refl), (base, (some_base, (s, (k, final ∙ same)))));
        })

  stays : IsAtRest node c → IsFollowed node c (stored tt c)
  stays rest = (omega arith, inl (refl, rest))

  switched :
      (base : State) (w : Walk)
      → IsDivergent node c
      → c.replay_base ≡ some base
      → walk_down (best_tip c.tree).0 c.replay_base_id c ≡ w
      → IsFollowed node c (elim w as (λ _. ChainEffect (Unit {0})) [
        | no_path ↦ stored tt c
        | spent ↦ endless
        | walked branch ↦ elim (replay node branch (rewound node base c)) [
          | refused _ _ ↦ failed ChainError.reorg_replay c
          | aborted ↦ panicked
          | accepted s ↦
              move_head node branch
                (commit_all node branch (record c { state = replace_with s c.state }))
        ]
      ])
  switched base no_path apart some_base e = stays (inr (apart, inr e))
  switched base spent apart some_base e =
      absurd ((walk_down_ends c (best_tip c.tree).0 c.replay_base_id 0 linked).0 e)
  switched base (walked bs) apart some_base e =
      replayed base bs _ apart some_base
        (walk_down-IsPath c (best_tip c.tree).0 c.replay_base_id bs e) refl

  divergent :
      (o : Option State)
      → IsDivergent node c
      → c.replay_base ≡ o
      → IsFollowed node c (elim o as (λ _. ChainEffect (Unit {0})) [
        | none ↦ stored tt c
        | some base ↦ switch_branch node base (best_tip c.tree).0 c
      ])
  unfolding switch_branch
  divergent none apart e = stays (inr (apart, inl e))
  divergent (some base) apart e = switched base _ apart e refl

  followed :
      (w : Walk)
      → walk_down (best_tip c.tree).0 (header_id node.env c.head) c ≡ w
      → IsFollowed node c (elim w as (λ _. ChainEffect (Unit {0})) [
        | spent ↦ endless
        | walked suffix ↦ extend_head node suffix c
        | no_path ↦ elim c.replay_base [
          | none ↦ stored tt c
          | some base ↦ switch_branch node base (best_tip c.tree).0 c
        ]
      ])
  unfolding extend_head
  followed no_path e = divergent c.replay_base e refl
  followed spent e =
      absurd ((walk_down_ends c (best_tip c.tree).0 (header_id node.env c.head) 0 linked).0 e)
  followed (walked bs) e =
      extended bs (fast_forward node bs c)
        (walk_down-IsPath c (best_tip c.tree).0 (header_id node.env c.head) bs e)
        (fast_forward-IsForward node bs c)

  at_best :
      (t : Bool)
      → bytes_eq (best_tip c.tree).0 (header_id node.env c.head) ≡ t
      → IsFollowed node c (if t then stored tt c else follow node (best_tip c.tree).0 c)
  unfolding follow
  at_best true k = stays (inl ((bytes_eq_iff _ _).0 k))
  at_best false k = followed _ refl

-- Where every known block stands one above its known parent and the block of the replay base is known,
-- `reorgToBest` ends. Where it succeeds the replay base is not lowered, and either nothing changes, as the
-- head is the best tip or neither the head nor the replay base leads to it, or the head is the end, and the
-- state that of running or replaying, of a path of known blocks to the best tip; its only error is that of
-- a block of that path that is refused, and leaves head, tree, blocks and replay base as they were.
pub reorg_to_best-IsFollowed :
    (node : Node) (c : Chain) → IsLinked c → IsFloored c → IsFollowed node c (reorg_to_best node c)
unfolding reorg_to_best
reorg_to_best-IsFollowed node c linked floored = at_best node c linked floored _ refl

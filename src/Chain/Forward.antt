-- ===== src/Chain/Forward.antt =====
-- A fast-forward and the storing of a branch (internal/chain/reorg.go).
use shadowledger.Prelude.{◌≡◌, refl, ◌∙◌, ◌⊎◌, inl, inr, List, [], ◌∷◌}
use shadowledger.Types.Data.{Block}
use shadowledger.State.Data.{State}
use shadowledger.State.Effects.{StateError}
use shadowledger.State.Apply.{BlockEffect, accepted, refused, aborted, apply_block}
use shadowledger.Chain.Data.{
  ChainError, Node, Chain, ChainEffect, stored, failed, panicked, endless,
}
use shadowledger.Chain.Persist.{commit_canonical}
use shadowledger.Chain.Live.{live}
use shadowledger.Chain.Grow.{
  IsAlike, chained-IsAlike, commit_canonical-IsAlike, commit_canonical-state,
}
use shadowledger.Chain.Reorg.{fast_forward, commit_all}

-- The blocks apply one after another, each to the state and with the store that the one before it left;
-- what is left in the end is `d`.
abbrev pub Runs : Node → Chain → List Block → Chain → Type 0
Runs node c [] d = d ≡ c
Runs node c (b ∷ bs) d =
    (s : State) × ((apply_block node.env node.decode b (live node.env c.store c.state) ≡ accepted s)
      × Runs node (commit_canonical node b (record c { state = s })) bs d)

-- One of the blocks is refused, and those before it apply.
abbrev pub Sticks : Node → Chain → List Block → Type 0
Sticks node c [] = ⊥
Sticks node c (b ∷ bs) =
    ((e : StateError) × ((s : State) × (apply_block node.env node.decode b
            (live node.env c.store c.state)
          ≡ refused e s)))
    ⊎ ((s : State) × ((apply_block node.env node.decode b (live node.env c.store c.state)
            ≡ accepted s)
          × Sticks node (commit_canonical node b (record c { state = s })) bs))

-- A fast-forward runs its blocks on the live state; an error, of a block that is refused, leaves the head
-- where it was.
abbrev pub IsForward : Node → List Block → Chain → ChainEffect (Unit {0}) → Type 0
IsForward node bs c (stored _ d) = IsAlike c d × Runs node c bs d
IsForward node bs c (failed e d) = (e ≡ ChainError.reorg_replay) × (IsAlike c d × Sticks node c bs)
IsForward node bs c panicked = Unit
IsForward node bs c endless = ⊥

pub alike : (c : Chain) (s : State) → IsAlike c (record c { state = s })
alike c s = record {
  same = record { block_by_id = refl; bodies = refl };
  head = refl;
  tree = refl;
  replay_base = refl;
  replay_base_id = refl;
  replay_base_height = refl;
}

-- What the blocks after one that applied do.
after-IsForward :
    (node : Node) (b : Block) (bs : List Block) (c : Chain) (s : State) (r : ChainEffect (Unit {0}))
    → apply_block node.env node.decode b (live node.env c.store c.state) ≡ accepted s
    → IsAlike c (commit_canonical node b (record c { state = s }))
    → IsForward node bs (commit_canonical node b (record c { state = s })) r
    → IsForward node (b ∷ bs) c r
after-IsForward node b bs c s (stored _ e) k a f = (chained-IsAlike c _ e a f.0, (s, (k, f.1)))
after-IsForward node b bs c s (failed x e) k a f =
    (f.0, (chained-IsAlike c _ e a f.1.0, inr (s, (k, f.1.1))))
after-IsForward node b bs c s panicked k a f = tt
after-IsForward node b bs c s endless k a f = f

pub fast_forward-IsForward :
    (node : Node) (bs : List Block) (c : Chain) → IsForward node bs c (fast_forward node bs c)
unfolding fast_forward
fast_forward-IsForward node [] c = (alike c c.state, refl)
fast_forward-IsForward node (b ∷ bs) c =
    step (apply_block node.env node.decode b (live node.env c.store c.state)) refl
      (λ d. fast_forward-IsForward node bs d)
  where
    step :
        (r : BlockEffect)
        → apply_block node.env node.decode b (live node.env c.store c.state) ≡ r
        → ((d : Chain) → IsForward node bs d (fast_forward node bs d))
        → IsForward node (b ∷ bs) c (elim r [
          | refused _ s ↦ failed ChainError.reorg_replay (record c { state = s })
          | aborted ↦ panicked
          | accepted s ↦ fast_forward node bs (commit_canonical node b (record c { state = s }))
        ])
    step (refused e s) k rest = (refl, (alike c s, inl (e, (s, k))))
    step aborted k rest = tt
    step (accepted s) k rest =
        let mid : Chain = record c { state = s } in
        let next : Chain = commit_canonical node b mid in
        after-IsForward node b bs c s (fast_forward node bs next) k
          (chained-IsAlike c mid next (alike c s) (commit_canonical-IsAlike node b mid)) (rest next)

pub commit_all-IsAlike :
    (node : Node) (bs : List Block) (c : Chain)
    → IsAlike c (commit_all node bs c) × ((commit_all node bs c).state ≡ c.state)
unfolding commit_all
commit_all-IsAlike node [] c = (alike c c.state, refl)
commit_all-IsAlike node (b ∷ bs) c =
    let next : Chain = commit_canonical node b c in
    let (rest, state) = commit_all-IsAlike node bs next in
    (
      chained-IsAlike c next _ (commit_canonical-IsAlike node b c) rest,
      state ∙ commit_canonical-state node b c,
    )

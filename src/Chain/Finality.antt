-- ===== src/Chain/Finality.antt =====
-- The replay base and its advance: `advanceFinality` and `SetCheckpoint` of internal/chain/chain.go.
use shadowledger.Prelude.{
  ℕ, ◌-◌, ◌||◌, List, [], ◌∷◌, none, some, Bytes, ltb, leb, ◌==◌, if◌then◌else◌,
}
use shadowledger.Types.Data.{Header, Block}
use shadowledger.Types.Encode.{header_id}
use shadowledger.State.Data.{State}
use shadowledger.State.Apply.{accepted, refused, aborted}
use shadowledger.State.Access.{clone_state, inherit_config}
use shadowledger.Chain.Data.{Node, Chain, ChainEffect, stored, panicked, endless, save_replay_base}
use shadowledger.Chain.Live.{live}
use shadowledger.Chain.Walk.{walked, no_path, spent, walk, walk_fuel, last_header, replay}

-- The state that blocks are replayed on: a copy of the replay base, with the settings of the state, whose
-- callbacks read the chain's store.
unfoldable pub rewound : Node → State → Chain → State
rewound node base c = live node.env c.store (inherit_config c.state (clone_state base))

-- The new replay base, over the blocks that have become final.
unfoldable pub move_base : Node → List Block → State → Chain → Chain
move_base node [] s c = save_replay_base (record c { replay_base = some s })
move_base node (b ∷ bs) s c =
    let h : Header = last_header b.header bs in
    save_replay_base (record c {
      replay_base = some s;
      replay_base_id = header_id node.env h;
      replay_base_height = h.height;
    })

-- `advanceFinality` past its tests: the walk from the head to the replay base, and the replay.
unfoldable pub finalize : Node → ℕ → State → Chain → ChainEffect (Unit {0})
finalize node target base c =
    let tip : Bytes = header_id node.env c.head in
    elim (walk (walk_fuel tip c) (λ b. leb b.header.height target) tip c.replay_base_id [] c) [
      | no_path ↦ stored tt c
      | spent ↦ endless
      | walked bs ↦ elim (replay node bs (rewound node base c)) [
        | refused _ _ ↦ stored tt c
        | aborted ↦ panicked
        | accepted s ↦ stored tt (move_base node bs s c)
      ]
    ]

-- `advanceFinality`
unfoldable pub advance_finality : Node → Chain → ChainEffect (Unit {0})
advance_finality node c = elim c.replay_base [
  | none ↦ stored tt c
  | some base ↦
      if node.finality_depth == 0 || ltb c.head.height node.finality_depth
      then stored tt c
      else if leb (c.head.height - node.finality_depth) c.replay_base_height
      then stored tt c
      else finalize node (c.head.height - node.finality_depth) base c
]

-- `SetCheckpoint`
unfoldable pub set_checkpoint : Bytes → State → Chain → Chain
set_checkpoint id s c = save_replay_base (record c {
  replay_base = some (clone_state s);
  replay_base_id = id;
  replay_base_height = s.height;
})

-- ===== src/Chain/Reorg.antt =====
-- Following the heaviest branch: internal/chain/reorg.go.
use shadowledger.Prelude.{
  not, List, [], ◌∷◌, Option, none, some, Bytes, ◌==◌, if◌then◌else◌, bytes_eq,
}
use shadowledger.Prelude.Words.{add64}
use shadowledger.Prelude.Map.{lookup, bytes_key}
use shadowledger.Types.Data.{Header, Block}
use shadowledger.Types.Encode.{header_id, encode_txs}
use shadowledger.Types.Roots.{merkle_root_of}
use shadowledger.State.Data.{State}
use shadowledger.State.Access.{replace_with}
use shadowledger.State.Apply.{accepted, refused, aborted, apply_block}
use shadowledger.Forkchoice.Tree.{best_tip}
use shadowledger.Chain.Data.{
  ChainError, Node, Chain, ChainEffect, stored, failed, panicked, endless, block,
}
use shadowledger.Chain.Persist.{record_block, commit_canonical}
use shadowledger.Chain.Live.{live}
use shadowledger.Chain.Walk.{walked, no_path, spent, walk_down, last_header, replay}
use shadowledger.Chain.Finality.{rewound, advance_finality}
use shadowledger.Chain.Extend.{int64_less, round_start}

-- The head moves to the last of the new blocks, where there is one.
unfoldable pub move_head : Node → List Block → Chain → ChainEffect (Unit {0})
move_head node [] c = stored tt c
move_head node (b ∷ bs) c = advance_finality node (record c { head = last_header b.header bs })

-- The loop of a fast-forward: every block is applied to the live state, whose callbacks read the store that
-- the blocks before it were written to, and stored.
unfoldable pub fast_forward : Node → List Block → Chain → ChainEffect (Unit {0})
fast_forward node [] c = stored tt c
fast_forward node (b ∷ bs) c =
    elim (apply_block node.env node.decode b (live node.env c.store c.state)) [
      | refused _ s ↦ failed ChainError.reorg_replay (record c { state = s })
      | aborted ↦ panicked
      | accepted s ↦ fast_forward node bs (commit_canonical node b (record c { state = s }))
    ]

unfoldable pub commit_all : Node → List Block → Chain → Chain
commit_all node [] c = c
commit_all node (b ∷ bs) c = commit_all node bs (commit_canonical node b c)

-- `reorgToBest` where the best tip extends the head.
unfoldable pub extend_head : Node → List Block → Chain → ChainEffect (Unit {0})
extend_head node suffix c = elim (fast_forward node suffix c) [
  | stored _ d ↦ move_head node suffix d
  | failed e d ↦ failed e d
  | panicked ↦ panicked
  | endless ↦ endless
]

-- `reorgToBest` where the best tip is on another branch, from the replay base.
unfoldable pub switch_branch : Node → State → Bytes → Chain → ChainEffect (Unit {0})
switch_branch node base best c = elim (walk_down best c.replay_base_id c) [
  | no_path ↦ stored tt c
  | spent ↦ endless
  | walked branch ↦ elim (replay node branch (rewound node base c)) [
    | refused _ _ ↦ failed ChainError.reorg_replay c
    | aborted ↦ panicked
    | accepted s ↦
        move_head node branch (commit_all node branch (record c { state = replace_with s c.state }))
  ]
]

-- `reorgToBest` for a best tip that is not the head.
unfoldable pub follow : Node → Bytes → Chain → ChainEffect (Unit {0})
follow node best c = elim (walk_down best (header_id node.env c.head) c) [
  | spent ↦ endless
  | walked suffix ↦ extend_head node suffix c
  | no_path ↦ elim c.replay_base [ none ↦ stored tt c | some base ↦ switch_branch node base best c ]
]

-- `reorgToBest`
unfoldable pub reorg_to_best : Node → Chain → ChainEffect (Unit {0})
reorg_to_best node c =
    if bytes_eq (best_tip c.tree).0 (header_id node.env c.head)
    then stored tt c
    else follow node (best_tip c.tree).0 c

-- The tests of `AcceptBlock` on a block that is not known yet; `none` where all pass.
unfoldable pub check_accept : Node → Block → Chain → Option ChainError
check_accept node b c =
    let h : Header = b.header in
    elim (node.authorize c.state h) [
      | some e ↦ some (ChainError.engine e)
      | none ↦
          if not (bytes_eq (merkle_root_of node.env b.txs) h.merkle_root)
          then some ChainError.bad_merkle
          else if not (bytes_eq (node.env.sha256 (encode_txs b.txs)) h.body_hash)
          then some ChainError.bad_body_hash
          else elim (block h.prev_hash c) [
            | none ↦ some ChainError.unknown_parent
            | some p ↦
                if not (h.height == add64 p.header.height 1)
                then some ChainError.bad_height
                else if int64_less h.timestamp (round_start node p.header h.round)
                then some ChainError.bad_round
                else none
          ]
    ]

-- `AcceptBlock`
unfoldable pub accept_block : Node → Block → Chain → ChainEffect (Unit {0})
accept_block node b c =
    if not c.has_gen
    then failed ChainError.no_genesis c
    else elim (lookup (header_id node.env b.header) c.tree) [
      | some _ ↦ stored tt c
      | none ↦ elim (check_accept node b c) [
        | some e ↦ failed e c
        | none ↦ reorg_to_best node (record_block node.env b c)
      ]
    ]

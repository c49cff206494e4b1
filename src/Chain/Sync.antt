-- ===== src/Chain/Sync.antt =====
-- Joining by a verified header chain, and the errors that count as forgery: `SyncInstall` and `IsForgery`
-- of internal/chain/chain.go.
use shadowledger.Prelude.{
  ℕ, ◌+◌, Bool, true, false, not, List, [], ◌∷◌, Option, none, some, Bytes, ◌==◌, if◌then◌else◌,
  bytes_eq,
}
use shadowledger.Prelude.Map.{insert, bytes_key}
use shadowledger.Merkle.Tree.{zero_hash}
use shadowledger.Types.Data.{Header, ShardSet}
use shadowledger.Types.Encode.{header_id}
use shadowledger.Types.Sign.{SigError}
use shadowledger.Consensus.Authorize.{ConsensusError}
use shadowledger.State.Data.{State}
use shadowledger.State.Effects.{StateError}
use shadowledger.State.Access.{clone_state, replace_with}
use shadowledger.Forkchoice.Tree.{add_block}
use shadowledger.Chain.Data.{
  ChainError, Store, Node, Chain, ChainEffect, stored, failed, save_replay_base,
}
use shadowledger.Chain.Persist.{put_header}

-- How the loop over the records ends: with the last header, or with an error. The headers before the
-- error stay in the store.
pub data Installed : Type 0 where
  linked : Header → Store → Installed
  unlinked : ChainError → Store → Installed

-- The tests of one record, at index `i` after the block `prev`; `none` where all pass.
unfoldable pub check_record : Node → State → ℕ → Bytes → Header → Option ChainError
check_record node s i prev h =
    if not (h.height == i)
    then some ChainError.bad_height
    else if not (bytes_eq h.prev_hash prev)
    then some ChainError.bad_prev
    else elim (node.authorize s h) [
      | some e ↦ some (ChainError.engine e)
      | none ↦ if not (node.writes h) then some ChainError.disk else none
    ]

-- The loop of `SyncInstall`. The first record's previous block is the zero hash.
unfoldable pub install_headers :
    List (Header × ShardSet) → Node → State → ℕ → Bytes → Header → Store → Installed
install_headers [] node s i prev last st = linked last st
install_headers ((h, set) ∷ records) node s i prev last st = elim (check_record node s i prev h) [
  | some e ↦ unlinked e st
  | none ↦ install_headers records node s (i + 1) (header_id node.env h) h (put_header h set st)
]

-- `SyncInstall` past the loop.
unfoldable pub adopt : Node → State → Header → Store → Chain → Chain
adopt node snap h st c =
    let id : Bytes = header_id node.env h in
    save_replay_base (record c {
      store = st;
      state = replace_with snap c.state;
      head = h;
      has_gen = true;
      replay_base = some (clone_state snap);
      replay_base_id = id;
      replay_base_height = h.height;
      tree = add_block id h.prev_hash h.height 1 c.tree;
      block_by_id = insert id (record { header = h; txs = [] }) c.block_by_id;
    })

-- `SyncInstall`
unfoldable pub sync_install :
    Node → List (Header × ShardSet) → State → Chain → ChainEffect (Unit {0})
sync_install node [] snap c = failed ChainError.reconstruct c
sync_install node (r ∷ records) snap c =
    elim (install_headers (r ∷ records) node c.state 0 zero_hash r.0 c.store) [
      | linked last st ↦ stored tt (adopt node snap last st c)
      | unlinked e st ↦ failed e (record c { store = st })
    ]

-- A signature error that `IsForgery` names. `ErrBadPubKey` is not among them.
unfoldable pub is_forged_signature : SigError → Bool
is_forged_signature SigError.bad_pub_key = false
is_forged_signature SigError.pub_addr_mismatch = true
is_forged_signature SigError.bad_signature = true

unfoldable pub is_engine_forgery : ConsensusError → Bool
is_engine_forgery (ConsensusError.header_signature e) = is_forged_signature e
is_engine_forgery ConsensusError.unauthorized_validator = true
is_engine_forgery ConsensusError.not_leader = true

-- The errors of `ApplyBlock` are compared with the same values.
unfoldable pub is_state_forgery : StateError → Bool
is_state_forgery (StateError.signature e) = is_forged_signature e
is_state_forgery _ = false

-- `IsForgery`
unfoldable pub is_forgery : ChainError → Bool
is_forgery ChainError.bad_merkle = true
is_forgery ChainError.bad_body_hash = true
is_forgery ChainError.bad_logs_root = true
is_forgery ChainError.bad_round = true
is_forgery (ChainError.engine e) = is_engine_forgery e
is_forgery (ChainError.apply e) = is_state_forgery e
is_forgery _ = false

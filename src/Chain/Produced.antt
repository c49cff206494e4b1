-- ===== src/Chain/Produced.antt =====
-- What one node produces another accepts, and losing a race is no forgery (internal/chain/chain.go).
use mathlib.Core.Path.{subst}
use shadowledger.Prelude.{ℕ, ◌≡◌, refl, sym, ap, ◌∙◌, true, false, List, none, ==_iff, bytes_eq_iff}
use shadowledger.Prelude.Words.{add64, mul64}
use shadowledger.Types.Data.{Transaction, Header, Block, ShardSet}
use shadowledger.Types.Encode.{header_id, encode_txs}
use shadowledger.Types.Sign.{KeyPair, sign_header}
use shadowledger.Types.Roots.{merkle_root_of, logs_root_of}
use shadowledger.State.Data.{State}
use shadowledger.State.Apply.{accepted, apply_block}
use shadowledger.Chain.Data.{Store, Node, Chain, stored}
use shadowledger.Chain.Persist.{kept, persist_block_set}
use shadowledger.Chain.Finality.{advance_finality}
use shadowledger.Chain.Extend.{
  int64_less, round_start, check_external, install, settle_external, apply_external_block,
  draft_header, produce_block,
}
use shadowledger.Chain.Made.{IsMade, IsMaking, produce_block-IsMaking, apply_block_made}

made_root :
    (node : Node) (now : ℕ) (kp : KeyPair) (round : ℕ) (txs : List Transaction) (c : Chain)
    (b : Block)
    → (m : IsMade node now kp round txs c b)
    → b.header.logs_root ≡ logs_root_of node.env m.state.last_logs
unfolding sign_header draft_header
made_root node now kp round txs c b m = ap (λ x. x.header.logs_root) m.made

-- A block that `ProduceBlock` made passes the tests of a node that authorizes its header, at a time that the
-- two round tests let pass.
made_passes :
    (node q : Node) (now later : ℕ) (kp : KeyPair) (round : ℕ) (txs : List Transaction)
    (c e : Chain) (b : Block)
    → IsMade node now kp round txs c b
    → q.env ≡ node.env
    → e.head ≡ c.head
    → e.has_gen ≡ true
    → q.authorize e.state b.header ≡ none
    → int64_less b.header.timestamp (round_start q e.head b.header.round) ≡ false
    → int64_less (add64 later (mul64 2 q.block_time)) b.header.timestamp ≡ false
    → check_external q later b e ≡ none
unfolding check_external sign_header draft_header
made_passes node q now later kp round txs c e b m same top begun good early late =
    let height : b.header.height ≡ add64 e.head.height 1 =
      ap (λ x. x.header.height) m.made ∙ ap (λ h. add64 h.height 1) (sym top) in
    let prev : b.header.prev_hash ≡ header_id q.env e.head =
      ap (λ x. x.header.prev_hash) m.made
      ∙ ap (λ h. header_id node.env h) (sym top)
      ∙ ap (λ v. header_id v e.head) (sym same) in
    let merkle : merkle_root_of q.env b.txs ≡ b.header.merkle_root =
      ap (λ v. merkle_root_of v b.txs) same
      ∙ ap (λ x. merkle_root_of node.env x.txs) m.made
      ∙ sym (ap (λ x. x.header.merkle_root) m.made) in
    let body : q.env.sha256 (encode_txs b.txs) ≡ b.header.body_hash =
      ap (λ v. v.sha256 (encode_txs b.txs)) same
      ∙ ap (λ x. node.env.sha256 (encode_txs x.txs)) m.made
      ∙ sym (ap (λ x. x.header.body_hash) m.made) in
    let height' = (==_iff b.header.height (add64 e.head.height 1)).1 height in
    let prev' = (bytes_eq_iff b.header.prev_hash (header_id q.env e.head)).1 prev in
    let merkle' = (bytes_eq_iff (merkle_root_of q.env b.txs) b.header.merkle_root).1 merkle in
    let body' = (bytes_eq_iff (q.env.sha256 (encode_txs b.txs)) b.header.body_hash).1 body in
    rw (begun, good, height', prev', early, late, merkle', body', check_external) refl

-- A node that computes with the same functions and stands at the same head, with the same state.
pub record IsPeer (node q : Node) (c e : Chain) : Type 0 where
  pub env : q.env ≡ node.env
  pub decode : q.decode ≡ node.decode
  pub head : e.head ≡ c.head
  pub state : e.state ≡ c.state
  pub has_gen : e.has_gen ≡ true

-- A header that a node lets through at a time: authorized, and within the round.
pub record IsTimely (q : Node) (later : ℕ) (h : Header) (e : Chain) : Type 0 where
  pub good : q.authorize e.state h ≡ none
  pub early : int64_less h.timestamp (round_start q e.head h.round) ≡ false
  pub late : int64_less (add64 later (mul64 2 q.block_time)) h.timestamp ≡ false

-- A block that `ProduceBlock` gives is installed by `ApplyExternalBlock` of every node that stands at the
-- same head with the same state, authorizes the header within its round, and can store the shards: the
-- block applies there, and its finality advances.
pub apply_external_block-produce_block :
    (node q : Node) (now later : ℕ) (kp : KeyPair) (round : ℕ) (txs : List Transaction)
    (c d e : Chain) (b : Block) (set mine : ShardSet) (st : Store)
    → IsPeer node q c e
    → IsTimely q later b.header e
    → produce_block node now kp round txs c ≡ stored (b, set) d
    → persist_block_set q b.header (encode_txs b.txs) e.store ≡ kept mine st
    → (s : State) × ((apply_block q.env q.decode b e.state ≡ accepted s)
        × (apply_external_block q later b e
            ≡ advance_finality q (install q b mine (record e { state = s; store = st }))))
unfolding apply_external_block settle_external
apply_external_block-produce_block node q now later kp round txs c d e b set mine st peer timely
      done stores =
    let m : IsMade node now kp round txs c b =
      subst (IsMaking node now kp round txs c) done
        (produce_block-IsMaking node now kp round txs c) in
    let passes =
      made_passes node q now later kp round txs c e b m peer.env peer.head peer.has_gen timely.good
        timely.early timely.late in
    let works : apply_block q.env q.decode b e.state ≡ accepted m.state =
      ap (λ v. apply_block v q.decode b e.state) peer.env
      ∙ ap (λ v. apply_block node.env v b e.state) peer.decode
      ∙ ap (apply_block node.env node.decode b) peer.state
      ∙ apply_block_made node now kp round txs c b m in
    let root : logs_root_of q.env m.state.last_logs ≡ b.header.logs_root =
      ap (λ v. logs_root_of v m.state.last_logs) peer.env
      ∙ sym (made_root node now kp round txs c b m) in
    let root' = (bytes_eq_iff (logs_root_of q.env m.state.last_logs) b.header.logs_root).1 root in
    (
      m.state,
      (works, rw (passes, works, root', stores, apply_external_block, settle_external) refl),
    )

-- ===== src/Chain/Grow.antt =====
-- Storing shards, logs and headers leaves the known blocks alone (internal/chain/chain.go).
use shadowledger.Prelude.{
  ℕ, ◌+◌, ◌≡◌, refl, sym, ap, ◌∙◌, Bool, true, false, not, List, [], ◌∷◌, Bytes, if◌then◌else◌,
}
use shadowledger.Prelude.Map.{insert, nat_eq, bytes_key}
use shadowledger.Types.Data.{Header, Block, Log, ShardSet}
use shadowledger.Types.Encode.{header_id, encode_txs}
use shadowledger.State.Data.{State}
use shadowledger.Erasure.{Erased, encoded, broken}
use shadowledger.Chain.Data.{Store, Node, Chain, block, ChainError}
use shadowledger.Chain.Persist.{
  Persisted, kept, lost, store_assigned_shards, put_shard, put_header, persist_block_set,
  persist_logs, commit_canonical, logs_id,
}
use shadowledger.Chain.Blocks.{IsSameBlocks, block-IsSameBlocks}
use shadowledger.Chain.Heights.{IsFloored}

put_shard_if-bodies :
    (t : Bool) (id : Bytes) (i : ℕ) (shard : Bytes) (st : Store)
    → (if t then put_shard id i shard st else st).bodies ≡ st.bodies
unfolding put_shard
put_shard_if-bodies true id i shard st = refl
put_shard_if-bodies false id i shard st = refl

store_assigned_shards-bodies :
    (node : Node) (id : Bytes) (i : ℕ) (shards : List Bytes) (st : Store)
    → (store_assigned_shards node id i shards st).bodies ≡ st.bodies
unfolding store_assigned_shards
store_assigned_shards-bodies node id i [] st = refl
store_assigned_shards-bodies node id i (s ∷ shards) st =
    store_assigned_shards-bodies node id (i + 1) shards _ ∙ put_shard_if-bodies _ id i s st

logged-bodies :
    (node : Node) (h : Header) (lid : Bytes) (st : Store) (r : Erased (List Bytes × ShardSet))
    → (elim r as (λ _. Store) [
      | broken _ ↦ st
      | encoded (shards, set) ↦
          store_assigned_shards node lid 0 shards
            (record st { log_sets = insert h.height set st.log_sets })
    ]).bodies
      ≡ st.bodies
logged-bodies node h lid st (broken e) = refl
logged-bodies node h lid st (encoded (shards, set)) =
    store_assigned_shards-bodies node lid 0 shards _

pub persist_logs-bodies :
    (node : Node) (h : Header) (logs : List Log) (st : Store)
    → (persist_logs node h logs st).bodies ≡ st.bodies
unfolding persist_logs
persist_logs-bodies node h [] st = refl
persist_logs-bodies node h (l ∷ logs) st =
    logged-bodies node h (logs_id node.env (header_id node.env h)) st _

-- The blocks of the store after a set of shards has been stored, or not.
abbrev pub KeepsBodies : Store → Persisted → Type 0
KeepsBodies st (kept set new) = new.bodies ≡ st.bodies
KeepsBodies st (lost e) = Unit

persisted-KeepsBodies :
    (node : Node) (h : Header) (st : Store) (written : Bool) (r : Erased (List Bytes × ShardSet))
    → KeepsBodies st (elim r [
      | broken e ↦ lost (ChainError.erasure e)
      | encoded (shards, set) ↦
          if not written
          then lost ChainError.disk
          else kept set
              (store_assigned_shards node (header_id node.env h) 0 shards (put_header h set st))
    ])
unfolding put_header
persisted-KeepsBodies node h st written (broken e) = tt
persisted-KeepsBodies node h st false (encoded (shards, set)) = tt
persisted-KeepsBodies node h st true (encoded (shards, set)) =
    store_assigned_shards-bodies node (header_id node.env h) 0 shards (put_header h set st)

pub persist_block_set-KeepsBodies :
    (node : Node) (h : Header) (body : Bytes) (st : Store)
    → KeepsBodies st (persist_block_set node h body st)
unfolding persist_block_set
persist_block_set-KeepsBodies node h body st = persisted-KeepsBodies node h st (node.writes h) _

-- Two chains that differ at most in their state, their headers and their shards.
pub record IsAlike (c d : Chain) : Type 0 where
  pub same : IsSameBlocks c d
  pub head : d.head ≡ c.head
  pub tree : d.tree ≡ c.tree
  pub replay_base : d.replay_base ≡ c.replay_base
  pub replay_base_id : d.replay_base_id ≡ c.replay_base_id
  pub replay_base_height : d.replay_base_height ≡ c.replay_base_height

pub chained-IsAlike : (c d e : Chain) → IsAlike c d → IsAlike d e → IsAlike c e
chained-IsAlike c d e f g = record {
  same = record {
    block_by_id = g.same.block_by_id ∙ f.same.block_by_id;
    bodies = g.same.bodies ∙ f.same.bodies;
  };
  head = g.head ∙ f.head;
  tree = g.tree ∙ f.tree;
  replay_base = g.replay_base ∙ f.replay_base;
  replay_base_id = g.replay_base_id ∙ f.replay_base_id;
  replay_base_height = g.replay_base_height ∙ f.replay_base_height;
}

pub alike-IsFloored : (c d : Chain) → IsAlike c d → IsFloored c → IsFloored d
alike-IsFloored c d a (floor, (known, height)) = (
  floor,
  (
    ap (λ id. block id d) a.replay_base_id ∙ block-IsSameBlocks c d a.same c.replay_base_id ∙ known,
    height ∙ sym a.replay_base_height,
  ),
)

with_store-IsAlike :
    (c : Chain) (s : State) (st : Store)
    → st.bodies ≡ c.store.bodies
    → IsAlike c (record c { store = st; state = s })
with_store-IsAlike c s st e = record {
  same = record { block_by_id = refl; bodies = e };
  head = refl;
  tree = refl;
  replay_base = refl;
  replay_base_id = refl;
  replay_base_height = refl;
}

-- Making a block canonical touches the headers and shards alone.
pub commit_canonical-IsAlike :
    (node : Node) (b : Block) (c : Chain) → IsAlike c (commit_canonical node b c)
unfolding commit_canonical
commit_canonical-IsAlike node b c =
    committed (persist_block_set node b.header (encode_txs b.txs) c.store)
      (persist_block_set-KeepsBodies node b.header (encode_txs b.txs) c.store)
  where
    committed :
        (r : Persisted)
        → KeepsBodies c.store r
        → IsAlike c (elim r [
          | lost _ ↦ record c { store = persist_logs node b.header c.state.last_logs c.store }
          | kept _ st ↦ record c { store = persist_logs node b.header c.state.last_logs st }
        ])
    committed (lost e) h =
        with_store-IsAlike c c.state _ (persist_logs-bodies node b.header c.state.last_logs c.store)
    committed (kept set st) h =
        with_store-IsAlike c c.state _ (persist_logs-bodies node b.header c.state.last_logs st ∙ h)

committed-state :
    (node : Node) (b : Block) (c : Chain) (r : Persisted)
    → (elim r as (λ _. Chain) [
      | lost _ ↦ record c { store = persist_logs node b.header c.state.last_logs c.store }
      | kept _ st ↦ record c { store = persist_logs node b.header c.state.last_logs st }
    ]).state
      ≡ c.state
committed-state node b c (lost e) = refl
committed-state node b c (kept set st) = refl

pub commit_canonical-state :
    (node : Node) (b : Block) (c : Chain) → (commit_canonical node b c).state ≡ c.state
unfolding commit_canonical
commit_canonical-state node b c =
    committed-state node b c (persist_block_set node b.header (encode_txs b.txs) c.store)

-- ===== src/Tests/Joins.antt =====
-- A block that travels from its producer to a peer, and a node that joins.
use shadowledger.Prelude.{◌≡◌, refl, [], ◌∷◌, some}
use shadowledger.Prelude.Map.{lookup, insert, bytes_key, nat_eq}
use shadowledger.Crypto.{address_from_pub}
use shadowledger.Economy.{block_reward}
use shadowledger.Netparams.{spec}
use shadowledger.Types.Data.{Block, ShardSet}
use shadowledger.Types.Encode.{encode_txs}
use shadowledger.Types.Sign.{sign_header, is_coinbase}
use shadowledger.State.Data.{State}
use shadowledger.State.Apply.{accepted, apply_block, split_coinbase}
use shadowledger.State.Access.{next_reward}
use shadowledger.Erasure.{build_shard_set, encode}
use shadowledger.Chain.Data.{Store, Node, Chain, ChainEffect, stored}
use shadowledger.Chain.Persist.{Persisted, kept, lost, persist_block_set, record_block}
use shadowledger.Chain.Finality.{advance_finality}
use shadowledger.Chain.Extend.{
  install, apply_external_block, produce_block, full_body, sum_fees, draft_header, settle_produced,
  int64_less, round_start,
}
use shadowledger.Chain.Produced.{IsTimely, apply_external_block-produce_block}
use shadowledger.Tests.Fixtures.{plain, no_evidence, bob, genesis}
use shadowledger.Tests.Shards.{mirror_coder}
use shadowledger.Tests.Wire.{alice_pair}
use shadowledger.Tests.Chains.{alone, rooted, first_block}

-- A library that keeps a payload whole, whatever the shape.
abbrev producer : Node
producer = record alone {
  coder = record mirror_coder { encode_shards = λ spec payload. some (payload ∷ []) };
}

abbrev peer : Node
peer = record producer { self_id = bob }

abbrev block_of : ChainEffect (Block × ShardSet) → Block
block_of (stored (b, _) _) = b
block_of _ = first_block

abbrev set_of : ChainEffect (Block × ShardSet) → ShardSet
set_of (stored (_, set) _) = set
set_of _ = record {
  block_id = [];
  spec = first_block.header.spec;
  padded_len = 0;
  orig_len = 0;
  shard_hash = [];
}

abbrev chain_of : ChainEffect (Block × ShardSet) → Chain
chain_of (stored _ d) = d
chain_of _ = rooted

abbrev production : ChainEffect (Block × ShardSet)
production = produce_block producer 50 alice_pair 0 [] rooted

produced : production ≡ stored (block_of production, set_of production) (chain_of production)
unfolding produce_block settle_produced full_body sum_fees draft_header apply_block is_coinbase
    split_coinbase block_reward next_reward address_from_pub persist_block_set build_shard_set
    encode install advance_finality lookup insert sign_header spec record_block
produced = refl

abbrev kept_set : Persisted → ShardSet
kept_set (kept set st) = set
kept_set (lost e) = set_of production

abbrev kept_store : Persisted → Store
kept_store (kept set st) = st
kept_store (lost e) = rooted.store

abbrev stored_by_peer : Persisted
stored_by_peer =
    persist_block_set peer (block_of production).header (encode_txs (block_of production).txs)
      rooted.store

persisted : stored_by_peer ≡ kept (kept_set stored_by_peer) (kept_store stored_by_peer)
unfolding produce_block settle_produced full_body sum_fees draft_header apply_block is_coinbase
    split_coinbase block_reward next_reward address_from_pub persist_block_set build_shard_set
    encode install advance_finality lookup insert sign_header spec record_block
persisted = refl

timely : IsTimely peer 55 (block_of production).header rooted
unfolding produce_block settle_produced full_body sum_fees draft_header apply_block is_coinbase
    split_coinbase block_reward next_reward address_from_pub persist_block_set build_shard_set
    encode install advance_finality lookup insert sign_header spec record_block int64_less
    round_start
timely = record { good = refl; early = refl; late = refl }

apply_external_block-produce_block_example :
    (s : State) × ((apply_block plain no_evidence (block_of production) genesis ≡ accepted s)
      × (apply_external_block peer 55 (block_of production) rooted
          ≡ advance_finality peer (
              install peer
                (block_of production)
                (kept_set stored_by_peer)
                (record rooted { state = s; store = kept_store stored_by_peer }))))
apply_external_block-produce_block_example =
    apply_external_block-produce_block producer peer 50 55 alice_pair 0 [] rooted
      (chain_of production) rooted (block_of production) (set_of production)
      (kept_set stored_by_peer) (kept_store stored_by_peer)
      (record { env = refl; decode = refl; head = refl; state = refl; has_gen = refl }) timely
      produced persisted

-- ===== src/Tests/Chains.antt =====
-- A chain of one known block, and what follows it.
use shadowledger.Prelude.{
  ◌≡◌, ◌≢◌, ◌+◌, refl, sym, ap, true, false, [], ◌∷◌, none, some, Bytes, bytes_eq, bytes_eq_iff,
  Bool-cases, inl, inr, arith,
}
use mathlib.Core.Path.{subst}
use shadowledger.Prelude.Map.{lookup, bytes_key}
use shadowledger.Merkle.Tree.{zero_hash}
use shadowledger.Types.Data.{Block}
use shadowledger.Types.Encode.{header_id, header_signing_bytes, put_u64, put_bytes}
use shadowledger.Chain.Data.{ChainError, Store, Node, Chain, failed, block}
use shadowledger.Chain.Walk.{walked, spent, walk, walk_fuel, walk_down}
use shadowledger.Chain.Finality.{advance_finality}
use shadowledger.Chain.Linked.{IsLinked, IsPath, walk_down_ends, walk_down-IsPath}
use shadowledger.Chain.Floor.{IsAdvanced, advance_finality-IsAdvanced}
use shadowledger.Chain.Extend.{apply_external_block}
use shadowledger.Chain.External.{IsHeaded, IsAnswered, apply_external_block-IsAnswered}
use shadowledger.Chain.Sync.{is_forgery}
use shadowledger.Tests.Fixtures.{plain, no_evidence, alice, genesis, header, good_block}
use shadowledger.Tests.Shards.{mirror_coder, pair_spec}
use shadowledger.Chain.Blocks.{IsFresh}
use shadowledger.Chain.Heights.{IsFloored}
use shadowledger.Chain.Forgery.{is_forgery-apply_external_block}

abbrev pub alone : Node
alone = record {
  env = plain;
  decode = no_evidence;
  coder = mirror_coder;
  authorize = λ s h. none;
  self_id = alice;
  members = alice ∷ [];
  block_time = 10;
  genesis_time = 0;
  finality_depth = 2;
  writes = λ h. true;
}

abbrev pub first_block : Block
first_block = record {
  header = record header { height = 0; prev_hash = zero_hash; validator = []; spec = pair_spec };
  txs = [];
}

abbrev empty_store : Store
empty_store = record { headers = []; log_sets = []; shards = []; bodies = []; checkpoint = none }

abbrev pub rooted : Chain
rooted = record {
  store = empty_store;
  state = genesis;
  head = first_block.header;
  has_gen = true;
  tree =
      (header_id plain first_block.header, record { parent = zero_hash; height = 0; cum = 1 }) ∷ [];
  block_by_id = (header_id plain first_block.header, first_block) ∷ [];
  replay_base = some genesis;
  replay_base_id = header_id plain first_block.header;
  replay_base_height = 0;
}

rooted-block : (id : Bytes) (b : Block) → block id rooted ≡ some b → b ≡ first_block
unfolding block lookup
rooted-block id b e = elim (Bool-cases (bytes_eq id (header_id plain first_block.header))) [
  | inl here ↦ ground (arith, here, e)
  | inr away ↦ absurd (ground (arith, away, e))
]

-- Its parent is not known.
rooted-parent : (p : Block) → block zero_hash rooted ≢ some p
unfolding block lookup header_id header_signing_bytes put_u64 put_bytes
rooted-parent p e = absurd (cc)

rooted-IsLinked : IsLinked rooted
rooted-IsLinked id b p e f = absurd (
    rooted-parent p
      (subst (λ (x : Block). block x.header.prev_hash rooted ≡ some p) (rooted-block id b e) f))

rooted-known : block (header_id plain first_block.header) rooted ≡ some first_block
unfolding block lookup header_id header_signing_bytes put_u64 put_bytes
rooted-known = refl

rooted-IsFloored : IsFloored rooted
rooted-IsFloored = (first_block, (rooted-known, refl))

walk_down_ends_example :
    (walk_down (header_id plain first_block.header) zero_hash rooted ≢ spent)
    × (walk
          (walk_fuel (header_id plain first_block.header) rooted + 3)
          (λ _. true)
          (header_id plain first_block.header)
          zero_hash
          []
          rooted
        ≡ walk_down (header_id plain first_block.header) zero_hash rooted)
walk_down_ends_example =
    walk_down_ends rooted (header_id plain first_block.header) zero_hash 3 rooted-IsLinked

advance_finality-IsAdvanced_example : IsAdvanced 2 rooted (advance_finality alone rooted)
advance_finality-IsAdvanced_example =
    advance_finality-IsAdvanced alone rooted rooted-IsLinked rooted-IsFloored

abbrev pub second_block : Block
second_block = record {
  header = record header { prev_hash = header_id plain first_block.header; spec = pair_spec };
  txs = good_block.txs;
}

abbrev grown : Chain
grown = record rooted {
  block_by_id =
      (header_id plain first_block.header, first_block)
      ∷ (header_id plain second_block.header, second_block)
      ∷ [];
}

walk_down-grown :
    walk_down (header_id plain second_block.header) (header_id plain first_block.header) grown
    ≡ walked (second_block ∷ [])
unfolding walk_down walk walk_fuel block lookup header_id header_signing_bytes put_u64 put_bytes
walk_down-grown = refl

walk_down-IsPath_example :
    IsPath grown
      (header_id plain first_block.header)
      (second_block ∷ [])
      (header_id plain second_block.header)
walk_down-IsPath_example =
    walk_down-IsPath grown (header_id plain second_block.header)
      (header_id plain first_block.header) (second_block ∷ []) walk_down-grown

-- Ids of different lengths.
apart : (a b : Bytes) → bytes_eq a b ≡ false → a ≢ b
apart a b e same = let t = (bytes_eq_iff a b).1 same in absurd (cc)

not_zero : zero_hash ≢ header_id plain second_block.header
unfolding header_id header_signing_bytes put_u64 put_bytes
not_zero = apart zero_hash (header_id plain second_block.header) refl

not_first : header_id plain first_block.header ≢ header_id plain second_block.header
unfolding header_id header_signing_bytes put_u64 put_bytes
not_first = apart (header_id plain first_block.header) (header_id plain second_block.header) refl

second-IsFresh : IsFresh plain second_block rooted
second-IsFresh = record {
  childless = λ id k e.
      subst (λ (x : Block). x.header.prev_hash ≢ header_id plain second_block.header)
        (sym (rooted-block id k e)) not_zero;
  not_own = not_first;
  not_base = not_first;
}

rooted-IsHeaded : IsHeaded alone rooted
rooted-IsHeaded = record {
  known = λ p e. ap (λ (x : Block). x.header.height) (rooted-block _ p e);
  room = omega arith;
}

apply_external_block-IsAnswered_example :
    IsAnswered alone second_block rooted (apply_external_block alone 50 second_block rooted)
apply_external_block-IsAnswered_example =
    apply_external_block-IsAnswered alone 50 second_block rooted rooted-IsLinked rooted-IsFloored
      second-IsFresh rooted-IsHeaded

-- The first block comes again.
is_forgery-apply_external_block_example :
    (e : ChainError) × ((apply_external_block alone 50 first_block rooted ≡ failed e rooted)
      × (is_forgery e ≡ false))
is_forgery-apply_external_block_example =
    is_forgery-apply_external_block alone 50 first_block rooted refl
      (inl (λ e. absurd (omega (arith, e))))

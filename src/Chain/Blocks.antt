-- ===== src/Chain/Blocks.antt =====
-- The known blocks grow by one (internal/chain/chain.go, recordBlock).
use mathlib.Core.Path.{subst}
use shadowledger.Prelude.{
  ◌+◌, ◌≡◌, ◌≢◌, refl, sym, ap, ◌∙◌, Bool, true, false, Option, some, Bytes, if◌then◌else◌,
  bytes_eq, bytes_eq_iff, Bool-cases, inl, inr, arith,
}
use shadowledger.Prelude.Map.{lookup, insert, nat_eq, lookup-insert, bytes_key}
use shadowledger.Crypto.{Env}
use shadowledger.Types.Data.{Block}
use shadowledger.Types.Encode.{header_id}
use shadowledger.Chain.Data.{Chain, block, or_else}
use shadowledger.Chain.Persist.{record_block}
use shadowledger.Chain.Linked.{IsLinked}
use shadowledger.Chain.Heights.{IsFloored}

or_else-if :
    (t : Bool) (b : Block) (x y : Option Block)
    → or_else (if t then some b else x) (if t then some b else y)
      ≡ (if t then some b else or_else x y)
or_else-if true b x y = refl
or_else-if false b x y = refl

block-record_block :
    (env : Env) (b : Block) (c : Chain) (j : Bytes)
    → block j (record_block env b c)
      ≡ (if bytes_eq j (header_id env b.header) then some b else block j c)
unfolding block record_block
block-record_block env b c j =
    let id : Bytes = header_id env b.header in
    let mem : Option Block = lookup j c.block_by_id in
    let disk : Option Block = lookup j c.store.bodies in
    ap (λ o. or_else o (lookup j (insert id b c.store.bodies))) (lookup-insert id j b c.block_by_id)
    ∙ ap (or_else (if bytes_eq j id then some b else mem)) (lookup-insert id j b c.store.bodies)
    ∙ or_else-if (bytes_eq j id) b mem disk

-- No known block has this one for its parent, and it is not its own parent nor the replay base.
pub record IsFresh (env : Env) (b : Block) (c : Chain) : Type 0 where
  pub childless :
      (id : Bytes) (k : Block) → block id c ≡ some k → k.header.prev_hash ≢ header_id env b.header
  pub not_own : b.header.prev_hash ≢ header_id env b.header
  pub not_base : c.replay_base_id ≢ header_id env b.header

module _ (env : Env) (b : Block) (c : Chain) where
  -- A block that is known afterwards is the new one, or was known.
  known_after :
      (j : Bytes) (k : Block)
      → block j (record_block env b c) ≡ some k
      → (if bytes_eq j (header_id env b.header) then some b else block j c) ≡ some k
  known_after j k e = sym (block-record_block env b c j) ∙ e

  pub record_block-IsLinked :
      IsLinked c
      → IsFresh env b c
      → ((p : Block) → block b.header.prev_hash c ≡ some p → b.header.height ≡ p.header.height + 1)
      → IsLinked (record_block env b c)
  record_block-IsLinked linked fresh step j k p e f =
      let mine = known_after j k e in
      let parent = known_after k.header.prev_hash p f in
      let at_parent = bytes_eq_iff k.header.prev_hash (header_id env b.header) in
      elim (Bool-cases (bytes_eq j (header_id env b.header))) [
        | inl new ↦
            let same : b ≡ k = ground (arith, new, mine) in
            let own : k.header.prev_hash ≢ header_id env b.header =
              subst (λ x. x.header.prev_hash ≢ header_id env b.header) same fresh.not_own in
            let old : block k.header.prev_hash c ≡ some p =
              ground (arith, parent, at_parent, own) in
            subst
              (λ (x : Block).
                (block x.header.prev_hash c ≡ some p) → x.header.height ≡ p.header.height + 1)
              same (step p) old
        | inr old ↦
            let was : block j c ≡ some k = ground (arith, old, mine) in
            let up : block k.header.prev_hash c ≡ some p =
              ground (arith, parent, at_parent, fresh.childless j k was) in
            linked j k p was up
      ]

  pub record_block-IsFloored : IsFloored c → IsFresh env b c → IsFloored (record_block env b c)
  unfolding record_block
  record_block-IsFloored (floor, (known, height)) fresh =
      let away = bytes_eq_iff c.replay_base_id (header_id env b.header) in
      let other : bytes_eq c.replay_base_id (header_id env b.header) ≡ false =
        ground (arith, away, fresh.not_base) in
      (floor, (block-record_block env b c c.replay_base_id ∙ (rw other known), height))

-- The blocks are what they were where the two maps are.
pub record IsSameBlocks (c d : Chain) : Type 0 where
  pub block_by_id : d.block_by_id ≡ c.block_by_id
  pub bodies : d.store.bodies ≡ c.store.bodies

pub block-IsSameBlocks : (c d : Chain) → IsSameBlocks c d → (id : Bytes) → block id d ≡ block id c
unfolding block
block-IsSameBlocks c d same id =
    ap (λ m. or_else (lookup id m) (lookup id d.store.bodies)) same.block_by_id
    ∙ ap (λ m. or_else (lookup id c.block_by_id) (lookup id m)) same.bodies

pub same_blocks-IsLinked : (c d : Chain) → IsSameBlocks c d → IsLinked c → IsLinked d
same_blocks-IsLinked c d same linked id b p e f =
    linked id b p (sym (block-IsSameBlocks c d same id) ∙ e)
      (sym (block-IsSameBlocks c d same b.header.prev_hash) ∙ f)

pub same_blocks-IsFresh :
    (env : Env) (b : Block) (c d : Chain)
    → IsSameBlocks c d
    → d.replay_base_id ≡ c.replay_base_id
    → IsFresh env b c
    → IsFresh env b d
same_blocks-IsFresh env b c d same base fresh = record {
  childless = λ id k e. fresh.childless id k (sym (block-IsSameBlocks c d same id) ∙ e);
  not_own = fresh.not_own;
  not_base = λ e. fresh.not_base (sym base ∙ e);
}

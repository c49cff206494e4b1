-- ===== src/Chain/External.antt =====
-- A block from a peer that must extend the head (internal/chain/chain.go, ApplyExternalBlock).
use shadowledger.Prelude.{
  ℕ, ◌+◌, ◌<◌, ◌^◌, ◌≡◌, refl, sym, ap, ◌∙◌, Bool, true, false, not, Option, none, some,
  if◌then◌else◌, bytes_eq, bytes_eq_iff, inl, inr, ◌⊎◌, arith,
}
use shadowledger.Crypto.{Address}
use shadowledger.Types.Data.{Block, ShardSet}
use shadowledger.Types.Encode.{header_id, encode_txs}
use shadowledger.Types.Roots.{logs_root_of}
use shadowledger.State.Data.{State}
use shadowledger.State.Apply.{BlockEffect, accepted, refused, aborted, apply_block}
use shadowledger.State.Atomic.Block.{IsTouched, Unchanged, refused-Unchanged}
use shadowledger.Chain.Data.{
  ChainError, Store, Node, Chain, block, ChainEffect, stored, failed, panicked, endless,
}
use shadowledger.Chain.Persist.{
  Persisted, kept, lost, persist_block_set, persist_logs, record_block,
}
use shadowledger.Chain.Finality.{advance_finality}
use shadowledger.Chain.Linked.{IsLinked}
use shadowledger.Chain.Floor.{IsAdvanced, advance_finality-IsAdvanced}
use shadowledger.Chain.Grow.{KeepsBodies, persist_logs-bodies, persist_block_set-KeepsBodies}
use shadowledger.Chain.Extend.{check_external, install, settle_external, apply_external_block}
use shadowledger.Chain.Blocks.{
  IsFresh, record_block-IsLinked, record_block-IsFloored, IsSameBlocks, block-IsSameBlocks,
  same_blocks-IsLinked, same_blocks-IsFresh,
}
use shadowledger.Chain.Heights.{IsFloored}
use shadowledger.Chain.Authentic.{IsAuthentic, IsExtended, IsUnextended, check_external-IsAuthentic}

-- What `ApplyExternalBlock` does to a chain.
abbrev pub IsAnswered : Node → Block → Chain → ChainEffect (Unit {0}) → Type 0
IsAnswered node b c (stored _ d) = IsExtended node b c d
IsAnswered node b c (failed e d) = IsUnextended node b c d e
IsAnswered node b c panicked = Unit
IsAnswered node b c endless = ⊥

same_state : (P : Address → Type 0) (s : State) → Unchanged P s s
same_state P s = record {
  account = λ a. inl refl;
  validators = refl;
  height = refl;
  minted = refl;
  chain_id = refl;
  config = refl;
  last_logs = refl;
}

-- The head, where it is known, is known with its height, and one more is a word.
pub record IsHeaded (node : Node) (c : Chain) : Type 0 where
  pub known :
      (p : Block) → block (header_id node.env c.head) c ≡ some p → p.header.height ≡ c.head.height
  pub room : c.head.height + 1 < 2 ^ 64

module _ (node : Node) (now : ℕ) (b : Block) (c : Chain) where
  unextended : (e : ChainError) → IsUnextended node b c c e
  unextended e = record {
    head = refl;
    tree = refl;
    block_by_id = refl;
    has_gen = refl;
    replay_base = refl;
    replay_base_id = refl;
    replay_base_height = refl;
    store = refl;
    state = inl (same_state (IsTouched b c.state) c.state);
  }

  with_state :
      (e : ChainError) (s : State)
      → Unchanged (IsTouched b c.state) c.state s
        ⊎ (apply_block node.env node.decode b c.state ≡ accepted s)
      → IsUnextended node b c (record c { state = s }) e
  with_state e s h = record {
    head = refl;
    tree = refl;
    block_by_id = refl;
    has_gen = refl;
    replay_base = refl;
    replay_base_id = refl;
    replay_base_height = refl;
    store = refl;
    state = h;
  }

  -- The chain that a block's state, shards and logs have been stored in.
  abbrev settled : State → Store → Chain
  settled s st = record c {
    state = s;
    store = persist_logs node b.header s.last_logs st;
    head = b.header;
  }

  settled-IsSameBlocks :
      (s : State) (st : Store) → st.bodies ≡ c.store.bodies → IsSameBlocks c (settled s st)
  settled-IsSameBlocks s st e = record {
    block_by_id = refl;
    bodies = persist_logs-bodies node b.header s.last_logs st ∙ e;
  }

  module _ (linked : IsLinked c) (floored : IsFloored c) (fresh : IsFresh node.env b c)
      (headed : IsHeaded node c) (authentic : IsAuthentic node b c) where
    above_head :
        (d : Chain)
        → IsSameBlocks c d
        → (p : Block) → block b.header.prev_hash d ≡ some p
        → b.header.height ≡ p.header.height + 1
    above_head d same p f =
        let here : block (header_id node.env c.head) c ≡ some p =
          ap (λ id. block id c) (sym authentic.prev_hash)
          ∙ sym (block-IsSameBlocks c d same b.header.prev_hash)
          ∙ f in
        omega (arith, headed.known p here, authentic.height, headed.room)

    installed-IsAdvanced :
        (s : State) (st : Store) (set : ShardSet)
        → st.bodies ≡ c.store.bodies
        → IsAdvanced node.finality_depth
            (install node b set (record c { state = s; store = st }))
            (advance_finality node (install node b set (record c { state = s; store = st })))
    unfolding install
    installed-IsAdvanced s st set e =
        let d : Chain = settled s st in
        let same : IsSameBlocks c d = settled-IsSameBlocks s st e in
        advance_finality-IsAdvanced node (record_block node.env b d)
          (record_block-IsLinked node.env b d (same_blocks-IsLinked c d same linked)
            (same_blocks-IsFresh node.env b c d same refl fresh) (λ p f. above_head d same p f))
          (record_block-IsFloored node.env b d
            (floored.0, (block-IsSameBlocks c d same c.replay_base_id ∙ floored.1.0, floored.1.1))
            (same_blocks-IsFresh node.env b c d same refl fresh))

    answered :
        (s : State) (st : Store) (set : ShardSet) (r : ChainEffect (Unit {0}))
        → apply_block node.env node.decode b c.state ≡ accepted s
        → logs_root_of node.env s.last_logs ≡ b.header.logs_root
        → IsAdvanced node.finality_depth (install node b set (record c { state = s; store = st })) r
        → IsAnswered node b c r
    unfolding install record_block
    answered s st set (stored _ d) applied root a = record {
      authentic = authentic;
      head = a.kept.head;
      applied = applied ∙ ap accepted (sym a.kept.state);
      logs_root = ap (λ t. logs_root_of node.env t.last_logs) a.kept.state ∙ root;
      floor = a.up;
    }
    answered s st set (failed e d) applied root a = absurd a
    answered s st set panicked applied root a = tt
    answered s st set endless applied root a = a

    settled_with :
        (s : State) (r : Persisted)
        → apply_block node.env node.decode b c.state ≡ accepted s
        → logs_root_of node.env s.last_logs ≡ b.header.logs_root
        → KeepsBodies c.store r
        → IsAnswered node b c (elim r as (λ _. ChainEffect (Unit {0})) [
          | lost e ↦ failed e (record c { state = s })
          | kept set st ↦
              advance_finality node (install node b set (record c { state = s; store = st }))
        ])
    settled_with s (lost e) applied root k = with_state e s (inr applied)
    settled_with s (kept set st) applied root k =
        answered s st set _ applied root (installed-IsAdvanced s st set k)

    applied_with :
        (r : BlockEffect)
        → apply_block node.env node.decode b c.state ≡ r
        → IsAnswered node b c (elim r as (λ _. ChainEffect (Unit {0})) [
          | refused e s ↦ failed (ChainError.apply e) (record c { state = s })
          | aborted ↦ panicked
          | accepted s ↦ settle_external node b (record c { state = s })
        ])
    unfolding settle_external
    applied_with (refused e s) k =
        with_state (ChainError.apply e) s
          (inl (refused-Unchanged node.env node.decode b c.state s e k))
    applied_with aborted k = tt
    applied_with (accepted s) k =
        rooted (bytes_eq (logs_root_of node.env s.last_logs) b.header.logs_root) (λ t.
          settled_with s _ k ((bytes_eq_iff _ _).0 t)
            (persist_block_set-KeepsBodies node b.header (encode_txs b.txs) c.store))
      where
        rooted :
            (t : Bool)
            → (t ≡ true
                → IsAnswered node b c
                    (elim (persist_block_set node b.header (encode_txs b.txs) c.store)
                      as (λ _. ChainEffect (Unit {0})) [
                        | lost e ↦ failed e (record c { state = s })
                        | kept set st ↦
                            advance_finality node
                              (install node b set (record c { state = s; store = st }))
                      ]))
            → IsAnswered node b c (
                if not t
                then failed ChainError.bad_logs_root (record c { state = s })
                else elim (persist_block_set node b.header (encode_txs b.txs) c.store)
                    as (λ _. ChainEffect (Unit {0})) [
                      | lost e ↦ failed e (record c { state = s })
                      | kept set st ↦
                          advance_finality node
                            (install node b set (record c { state = s; store = st }))
                    ])
        rooted false h = with_state ChainError.bad_logs_root s (inr k)
        rooted true h = h refl

  tested :
      (o : Option ChainError)
      → check_external node now b c ≡ o
      → (IsAuthentic node b c
          → IsAnswered node b c
              (elim (apply_block node.env node.decode b c.state) as (λ _. ChainEffect (Unit {0})) [
                | refused e s ↦ failed (ChainError.apply e) (record c { state = s })
                | aborted ↦ panicked
                | accepted s ↦ settle_external node b (record c { state = s })
              ]))
      → IsAnswered node b c (elim o as (λ _. ChainEffect (Unit {0})) [
        | some e ↦ failed e c
        | none ↦ elim (apply_block node.env node.decode b c.state) [
          | refused e s ↦ failed (ChainError.apply e) (record c { state = s })
          | aborted ↦ panicked
          | accepted s ↦ settle_external node b (record c { state = s })
        ]
      ])
  tested (some e) k h = unextended e
  tested none k h = h (check_external-IsAuthentic node now b c k)

-- Where every known block stands one above its known parent, the blocks of the head and of the replay base
-- are known with their heights, and the new block's id is new, `ApplyExternalBlock` ends. Where it succeeds
-- the block is authorized, links to the old head by hash and height, is committed to by its roots and has
-- been applied, and it is the new head, with the replay base not lowered. Where it fails the head, the
-- tree, the blocks, the replay base and the store are as they were, and the state is the one after the
-- block, or is unchanged but for the faucet's claims and for empty accounts, where there was none, of the
-- block's senders and of the faucet's source. A panic in a block is not excluded.
pub apply_external_block-IsAnswered :
    (node : Node) (now : ℕ) (b : Block) (c : Chain)
    → IsLinked c
    → IsFloored c
    → IsFresh node.env b c
    → IsHeaded node c
    → IsAnswered node b c (apply_external_block node now b c)
unfolding apply_external_block
apply_external_block-IsAnswered node now b c linked floored fresh headed =
    tested node now b c _ refl
      (λ authentic. applied_with node now b c linked floored fresh headed authentic _ refl)

-- ===== src/Chain/Made.antt =====
-- What `ProduceBlock` makes (internal/chain/chain.go).
use shadowledger.Prelude.{ℕ, ◌≡◌, refl, ap, ◌∙◌, Bool, true, false, not, List, if◌then◌else◌}
use shadowledger.Types.Data.{Transaction, Header, Block, ShardSet}
use shadowledger.Types.Sign.{KeyPair, sign_header}
use shadowledger.Types.Roots.{logs_root_of}
use shadowledger.State.Data.{State}
use shadowledger.State.Apply.{BlockEffect, accepted, refused, aborted, apply_block}
use shadowledger.Chain.Data.{
  ChainError, Node, Chain, ChainEffect, stored, failed, panicked, endless,
}
use shadowledger.Chain.Persist.{Persisted, kept, lost}
use shadowledger.Chain.Finality.{advance_finality}
use shadowledger.Chain.Extend.{install, full_body, draft_header, settle_produced, produce_block}
use shadowledger.Chain.Forgery.{apply_block_header}

-- What `ProduceBlock` has made where it succeeds.
pub record IsMade (node : Node) (now : ℕ) (kp : KeyPair) (round : ℕ) (txs : List Transaction)
    (c : Chain) (b : Block) : Type 0 where
  pub state : State
  pub made : b ≡ record {
    header =
        sign_header node.env kp
          (record (draft_header node now kp round (full_body node kp txs c) c) {
            logs_root = logs_root_of node.env state.last_logs;
          });
    txs = full_body node kp txs c;
  }
  pub applied :
      apply_block node.env node.decode
        (record {
          header = draft_header node now kp round (full_body node kp txs c) c;
          txs = full_body node kp txs c;
        })
        c.state
      ≡ accepted state

-- What a production has made, where it has.
abbrev pub IsMaking :
    Node → ℕ → KeyPair → ℕ → List Transaction → Chain → ChainEffect (Block × ShardSet) → Type 0
IsMaking node now kp round txs c (stored (b, _) _) = IsMade node now kp round txs c b
IsMaking node now kp round txs c _ = Unit

module _ (node : Node) (now : ℕ) (kp : KeyPair) (round : ℕ) (txs : List Transaction)
    (c : Chain) where
  settled :
      (b : Block) (set : ShardSet) (r : ChainEffect (Unit {0}))
      → IsMade node now kp round txs c b
      → IsMaking node now kp round txs c (elim r as (λ _. ChainEffect (Block × ShardSet)) [
        | stored _ d ↦ stored (b, set) d
        | failed e d ↦ failed e d
        | panicked ↦ panicked
        | endless ↦ endless
      ])
  settled b set (stored _ d) m = m
  settled b set (failed e d) m = tt
  settled b set panicked m = tt
  settled b set endless m = tt

  persisted :
      (b : Block) (d : Chain) (r : Persisted)
      → IsMade node now kp round txs c b
      → IsMaking node now kp round txs c (elim r as (λ _. ChainEffect (Block × ShardSet)) [
        | lost e ↦ failed e d
        | kept set st ↦
            elim (advance_finality node (install node b set (record d { store = st }))) [
              | stored _ d ↦ stored (b, set) d
              | failed e d ↦ failed e d
              | panicked ↦ panicked
              | endless ↦ endless
            ]
      ])
  persisted b d (lost e) m = tt
  persisted b d (kept set st) m = settled b set _ m

  abbrev draft_block : Block
  draft_block = record {
    header = draft_header node now kp round (full_body node kp txs c) c;
    txs = full_body node kp txs c;
  }

  abbrev signed_block : State → Block
  signed_block s = record {
    header =
        sign_header node.env kp
          (record (draft_header node now kp round (full_body node kp txs c) c) {
            logs_root = logs_root_of node.env s.last_logs;
          });
    txs = full_body node kp txs c;
  }

  drafted :
      (r : BlockEffect)
      → apply_block node.env node.decode draft_block c.state ≡ r
      → IsMaking node now kp round txs c (elim r as (λ _. ChainEffect (Block × ShardSet)) [
        | refused e s ↦ failed (ChainError.apply e) (record c { state = s })
        | aborted ↦ panicked
        | accepted s ↦ settle_produced node (signed_block s) (record c { state = s })
      ])
  unfolding settle_produced
  drafted (refused e s) k = tt
  drafted aborted k = tt
  drafted (accepted s) k =
      persisted (signed_block s) (record c { state = s }) _
        (record { state = s; made = refl; applied = k })

  begun :
      (t : Bool)
      → IsMaking node now kp round txs c (
          if not t
          then failed ChainError.no_genesis c
          else elim (apply_block node.env node.decode draft_block c.state)
              as (λ _. ChainEffect (Block × ShardSet)) [
                | refused e s ↦ failed (ChainError.apply e) (record c { state = s })
                | aborted ↦ panicked
                | accepted s ↦ settle_produced node (signed_block s) (record c { state = s })
              ])
  begun false = tt
  begun true = drafted _ refl

  pub produce_block-IsMaking :
      IsMaking node now kp round txs c (produce_block node now kp round txs c)
  unfolding produce_block
  produce_block-IsMaking = begun c.has_gen

-- The signed block does what the draft did.
pub apply_block_made :
    (node : Node) (now : ℕ) (kp : KeyPair) (round : ℕ) (txs : List Transaction) (c : Chain)
    (b : Block)
    → (m : IsMade node now kp round txs c b)
    → apply_block node.env node.decode b c.state ≡ accepted m.state
unfolding sign_header draft_header
apply_block_made node now kp round txs c b m =
    let draft : Header = draft_header node now kp round (full_body node kp txs c) c in
    let signed : Header =
      sign_header node.env kp
        (record draft { logs_root = logs_root_of node.env m.state.last_logs }) in
    ap (λ x. apply_block node.env node.decode x c.state) m.made
    ∙ apply_block_header node.env node.decode signed draft (full_body node kp txs c) c.state refl
        refl
    ∙ m.applied

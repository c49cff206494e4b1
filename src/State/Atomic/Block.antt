-- ===== src/State/Atomic/Block.antt =====
-- `ApplyBlock` is atomic in what it restores (internal/state/state.go).
use shadowledger.Prelude.{
  All, ◌⊎◌, inl, inr, sym, ℕ, ◌+◌, ◌≡◌, refl, ◌∙◌, List, [], ◌∷◌, Option, none, some, arith,
}
use mathlib.Core.Path.{ap, subst}
use shadowledger.Prelude.Map.{lookup, bytes_key}
use shadowledger.Crypto.{Env, Address}
use shadowledger.Types.Data.{Transaction, Header, Block}
use shadowledger.State.Data.{State}
use shadowledger.State.Ledger.{Work, rollback}
use shadowledger.State.Effects.{StateError, Effect, applied, rejected, crashed, EvidenceDecoder}
use shadowledger.State.Confine.{IsSameOrNew}
use shadowledger.State.Tracked.{
  OnEffect, on_applied, on_rejected, on_crashed, Tracked, Tracked-refl, Tracked-trans,
}
use shadowledger.State.Apply.{
  BlockEffect, refused, and_then, split_coinbase, apply_txs, apply_coinbase, begin, finish,
  apply_block,
}
use shadowledger.State.Atomic.Kinds.{apply_tx-Tracked}
use shadowledger.State.Atomic.Restore.{lookup-restore_all}

refused_state :
    {e e' : StateError} {s s' : State}
    → ◌≡◌ {A = BlockEffect} (refused e s) (refused e' s')
    → s ≡ s'
refused_state eq = cc

module _ {P : Address → Type 0} (env : Env) (decode : EvidenceDecoder) (height : ℕ) where
  pub apply_txs-Tracked :
      (i : ℕ) (ts : List Transaction) (u w : Work)
      → All (λ t. P t.from) ts
      → P u.st.config.faucet_source
      → Tracked P u w
      → OnEffect (Tracked P u) (apply_txs env decode height i ts w)
  unfolding apply_txs
  apply_txs-Tracked i [] u w senders source p = on_applied p
  apply_txs-Tracked i (t ∷ ts) u w senders source p =
      go _
        (apply_tx-Tracked env decode height i t w senders.0
          (subst (λ c. P c.faucet_source) (sym p.config) source))
        (λ w'. apply_txs-Tracked (i + 1) ts u w' senders.1 source)
    where
      go :
          (e : Effect)
          → OnEffect (Tracked P w) e
          → ((w' : Work)
              → Tracked P u w'
              → OnEffect (Tracked P u) (apply_txs env decode height (i + 1) ts w'))
          → OnEffect (Tracked P u) (and_then e (apply_txs env decode height (i + 1) ts))
      go _ (on_applied q) rest = rest _ (Tracked-trans p q)
      go _ (on_rejected q) rest = on_rejected (Tracked-trans p q)
      go _ on_crashed rest = on_crashed

-- Whether an address sends one of the transactions.
abbrev IsSender : List Transaction → Address → Type 0
IsSender [] a = ⊥
IsSender (t ∷ ts) a = (a ≡ t.from) ⊎ IsSender ts a

-- The addresses that a refused block may leave an empty account at: the senders of its transactions but
-- the coinbase, and the faucet's source.
abbrev pub IsTouched : Block → State → Address → Type 0
IsTouched b s a = IsSender (split_coinbase b.txs).1 a ⊎ (a ≡ s.config.faucet_source)

-- What a refused block leaves: every account as it was, but for an account that was missing and is empty
-- now at an address of `P`; and the validators, the height, the minted total, the chain id, the
-- configuration and the last block's logs.
pub record Unchanged (P : Address → Type 0) (s s' : State) : Type 0 where
  pub account : (a : Address) → IsSameOrNew P a (lookup a s.accounts) (lookup a s'.accounts)
  pub validators : s'.validators ≡ s.validators
  pub height : s'.height ≡ s.height
  pub minted : s'.minted ≡ s.minted
  pub chain_id : s'.chain_id ≡ s.chain_id
  pub config : s'.config ≡ s.config
  pub last_logs : s'.last_logs ≡ s.last_logs

pub senders_all :
    (P : Address → Type 0) (ts : List Transaction)
    → ((a : Address) → IsSender ts a → P a)
    → All (λ t. P t.from) ts
senders_all P [] h = tt
senders_all P (t ∷ ts) h = (h t.from (inl refl), senders_all P ts (λ a k. h a (inr k)))

rollback-Unchanged :
    (P : Address → Type 0) (s : State) (w : Work)
    → Tracked P (begin s) w
    → Unchanged P s (rollback s.validators w)
unfolding rollback lookup
rollback-Unchanged P s w p = record {
  account = λ a.
      subst (IsSameOrNew P a (lookup a s.accounts))
        (sym (lookup-restore_all a w.saved w.st.accounts (p.confined.unique tt)))
        (p.confined.restored_same a);
  validators = refl;
  height = p.height;
  minted = p.minted;
  chain_id = p.chain_id;
  config = p.config;
  last_logs = p.last_logs;
}

-- An error of the coinbase comes with the work as it was.
coinbase_error :
    (h : Header) (c : Option Transaction) (w w' : Work) (e : StateError)
    → apply_coinbase h c w ≡ rejected e w'
    → w ≡ w'
unfolding apply_coinbase
coinbase_error h none w w' e eq = ground arith
coinbase_error h (some c) w w' e eq = ground arith

module _ (P : Address → Type 0) (s : State) (h : Header) (c : Option Transaction) (e : StateError)
    (s' : State) where
  settled :
      (w : Work) (y : Effect)
      → Tracked P (begin s) w
      → apply_coinbase h c w ≡ y
      → finish s h y ≡ refused e s'
      → Unchanged P s s'
  settled w (applied w') p ey eq = absurd (cc)
  settled w (rejected x w') p ey eq =
      let same : rollback s.validators w ≡ s' =
        ap (rollback s.validators) (coinbase_error h c w w' x ey) ∙ refused_state eq in
      subst (Unchanged P s) same (rollback-Unchanged P s w p)
  settled w crashed p ey eq = absurd (cc)

  looped :
      (x : Effect)
      → OnEffect (Tracked P (begin s)) x
      → finish s h (and_then x (apply_coinbase h c)) ≡ refused e s'
      → Unchanged P s s'
  looped _ (on_applied p) eq = settled _ _ p refl eq
  looped _ (on_rejected p) eq =
      subst (Unchanged P s) (refused_state eq) (rollback-Unchanged P s _ p)
  looped _ on_crashed eq = absurd (cc)

-- A block that is refused, by any error at any transaction or at the coinbase, leaves every entry of the
-- accounts as it was, but that one of its senders or the faucet's source may have an empty account where
-- it had none; and the validator registry, the height, the minted total, the chain id, the configuration
-- and the last block's logs as they were. (The faucet's claims are not among these: they are not restored.)
pub refused-Unchanged :
    (env : Env) (decode : EvidenceDecoder) (b : Block) (s s' : State) (e : StateError)
    → apply_block env decode b s ≡ refused e s'
    → Unchanged (IsTouched b s) s s'
unfolding apply_block
refused-Unchanged env decode b s s' e eq =
    let (coinbase, payload) = split_coinbase b.txs in
    looped (IsTouched b s) s b.header coinbase e s' _
      (apply_txs-Tracked env decode b.header.height 0 payload (begin s) (begin s)
        (senders_all (IsTouched b s) payload (λ a h. inl h)) (inr refl) (Tracked-refl (begin s)))
      eq

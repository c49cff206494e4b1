-- ===== src/State/Solvent/Block.antt =====
-- The money in circulation never exceeds what was minted, and that never exceeds the cap
-- (`ApplyBlock`, internal/state/state.go).
use shadowledger.Prelude.{
  ℕ, ◌+◌, ◌≤◌, ◌≡◌, refl, ap, true, false, not, Option, none, some, arith, ◌==◌, All,
}
use mathlib.Core.Path.{subst}
use shadowledger.Prelude.Words.{add64}
use shadowledger.Prelude.Map.{bytes_key}
use shadowledger.Economy.{block_reward, block_reward_fits, max_supply}
use shadowledger.Crypto.{Env, Address}
use shadowledger.Types.Data.{Transaction, Header, Block}
use shadowledger.State.Data.{State}
use shadowledger.State.Ledger.{Work, modify, pay, snap}
use shadowledger.State.Money.{balances, bonds}
use shadowledger.State.Confine.{IsAnywhere}
use shadowledger.State.Tracked.{OnEffect, Tracked, Tracked-refl}
use shadowledger.State.Atomic.Block.{apply_txs-Tracked, senders_all}
use shadowledger.State.Intact.{snap-Intact, st-snap}
use shadowledger.State.Effects.{Effect, applied, rejected, crashed, EvidenceDecoder}
use shadowledger.State.Apply.{
  BlockEffect, accepted, and_then, split_coinbase, apply_coinbase, begin, finish, apply_block,
}
use shadowledger.State.Solvent.Wealth.{
  wealth, Gains, OnApplied, on_applied, on_rejected, on_crashed, OnApplied-if, wealth-pay,
  wealth-snap,
}
use shadowledger.State.Solvent.Loop.{IsWordTx, apply_txs-Gains}

-- The balances and bonds are within the total that was minted, which is within the cap.
pub record IsBacked (s : State) : Type 0 where
  pub funds : balances s.accounts + bonds s.validators ≤ s.minted
  pub cap : s.minted ≤ max_supply

abbrev minted_of : State → ℕ
minted_of s = s.minted

module _ (h : Header) where
  -- The coinbase pays out what it mints and the fees.
  minted_at :
      (c : Transaction) (w : Work)
      → wealth w ≤ w.st.minted
      → w.st.minted ≤ max_supply
      → (c.amount == add64 (block_reward h.height w.st.minted) w.fees) ≡ true
      → c.amount ≡ block_reward h.height w.st.minted + w.fees
  minted_at c w funds limit e =
      ground (arith, block_reward_fits h.height w.st.minted limit, funds, e)

  -- Paying `x` into a saved account, with `k` newly minted.
  paid-IsBacked :
      (a : Address) (x k : ℕ) (w : Work)
      → wealth w ≤ w.st.minted
      → x ≡ k + w.fees
      → w.st.minted + k ≤ max_supply
      → (balances (modify a (pay x) (snap a w)).st.accounts
            + bonds (modify a (pay x) (snap a w)).st.validators
          ≤ w.st.minted + k)
        × ((modify a (pay x) (snap a w)).st.minted ≡ w.st.minted)
  paid-IsBacked a x k w funds e top =
      let fees : (modify a (pay x) (snap a w)).fees ≡ (snap a w).fees = unfold modify in refl in
      let minted : (modify a (pay x) (snap a w)).st.minted ≡ w.st.minted =
        unfold modify in ap minted_of (st-snap a w) in
      (
        omega (
          arith,
          wealth-pay a x (snap a w),
          wealth-snap a w,
          funds,
          e,
          top,
          (snap-Intact a w).fees,
          fees,
        ),
        minted,
      )

  coinbase-IsBacked :
      (c : Option Transaction) (w : Work)
      → wealth w ≤ w.st.minted
      → w.st.minted ≤ max_supply
      → OnApplied (λ w'. IsBacked w'.st) (apply_coinbase h c w)
  unfolding apply_coinbase
  coinbase-IsBacked none w funds limit =
      let le = paid-IsBacked h.validator w.fees 0 w funds (omega arith) (omega (arith, limit)) in
      let r : IsBacked (modify h.validator (pay w.fees) (snap h.validator w)).st = record {
        funds = omega (arith, le);
        cap = omega (arith, limit, le);
      } in
      let kept : IsBacked w.st = record { funds = omega (arith, funds); cap = limit } in
      search (OnApplied-if, on_applied, r, kept)
  coinbase-IsBacked (some c) w funds limit =
      let reward = block_reward h.height w.st.minted in
      let paid : Work = modify c.to (pay c.amount) (snap c.to w) in
      let top = block_reward_fits h.height w.st.minted limit in
      let r : not (c.amount == add64 reward w.fees) ≡ false
          → IsBacked (record paid.st { minted = add64 paid.st.minted reward }) =
        λ e.
          let le =
            paid-IsBacked c.to c.amount reward w funds
              (minted_at c w funds limit (ground (arith, e))) top in
          record { funds = omega (arith, le, top); cap = omega (arith, top, le) } in
      search (OnApplied-if, on_applied, on_rejected, r)

finish-IsBacked :
    {s s' : State}
    → IsBacked s
    → s'.accounts ≡ s.accounts
    → s'.validators ≡ s.validators
    → s'.minted ≡ s.minted
    → IsBacked s'
finish-IsBacked p a v m = record {
  funds = omega (arith, p.funds, ap balances a, ap bonds v, m);
  cap = omega (arith, p.cap, m);
}

accepted_state : {s s' : State} → ◌≡◌ {A = BlockEffect} (accepted s) (accepted s') → s ≡ s'
accepted_state eq = cc

module _ (s : State) (h : Header) (c : Option Transaction) (s' : State) where
  ended : (y : Effect) → OnApplied (λ w. IsBacked w.st) y → finish s h y ≡ accepted s' → IsBacked s'
  ended _ (on_applied p) eq = subst IsBacked (accepted_state eq) (finish-IsBacked p refl refl refl)
  ended _ on_rejected eq = absurd (cc)
  ended _ on_crashed eq = absurd (cc)

  looped :
      (x : Effect)
      → IsBacked s
      → OnEffect (Tracked IsAnywhere (begin s)) x
      → OnApplied (Gains 0 (begin s)) x
      → finish s h (and_then x (apply_coinbase h c)) ≡ accepted s'
      → IsBacked s'
  looped (applied w) b (OnEffect.on_applied p) (on_applied g) eq =
      ended _
        (coinbase-IsBacked h c w
          (omega (arith, g.at (omega (arith, b.funds, b.cap)), b.funds, p.minted))
          (omega (arith, b.cap, p.minted)))
        eq
  looped (rejected e w) b p g eq = absurd (cc)
  looped crashed b p g eq = absurd (cc)

-- A block whose payload transactions carry 64-bit amounts and fees, applied to a state whose balances
-- and bonds are within what was minted and that within the cap of 21 million coins, leads to such a
-- state: no kind of transaction, contract calls included, brings in money that was not minted.
pub apply_block-IsBacked :
    (env : Env) (decode : EvidenceDecoder) (b : Block) (s s' : State)
    → All IsWordTx (split_coinbase b.txs).1
    → IsBacked s
    → apply_block env decode b s ≡ accepted s'
    → IsBacked s'
unfolding apply_block
apply_block-IsBacked env decode b s s' words backed eq =
    let (coinbase, payload) = split_coinbase b.txs in
    looped s b.header coinbase s' _ backed
      (apply_txs-Tracked env decode b.header.height 0 payload (begin s) (begin s)
        (senders_all IsAnywhere payload (λ a h. tt)) tt (Tracked-refl (begin s)))
      (apply_txs-Gains env decode b.header.height 0 payload (begin s) words
        (omega (arith, backed.funds, backed.cap)))
      eq

-- ===== src/State/Tracked.antt =====
-- What every step of `ApplyBlock` keeps for the rollback (internal/state/state.go).
use shadowledger.Prelude.{
  ◌≡◌, refl, ◌∙◌, ap, Bool, true, false, if◌then◌else◌, Option-cases, inl, inr,
}
use shadowledger.Prelude.Map.{Map, lookup, bytes_key}
use shadowledger.Crypto.{Address}
use shadowledger.State.Data.{Account, Validator, State}
use shadowledger.State.Ledger.{Work, acct, modify, snap}
use shadowledger.State.Confine.{
  Confined, Confined-refl, Confined-trans, snap-Confined, snap-saved, acct-Confined,
  modify-Confined, is_saved, MayCreate,
}
use shadowledger.State.Execution.{Safe}
use shadowledger.State.Effects.{StateError, Effect, applied, rejected, crashed, set_validators}

-- A property of the work that an effect carries, of an error's too.
pub data OnEffect (P : Work → Type 0) : Effect → Type 0 where
  on_applied : {w : Work} → P w → OnEffect P (applied w)
  on_rejected : {e : StateError} {w : Work} → P w → OnEffect P (rejected e w)
  on_crashed : OnEffect P crashed

pub OnEffect-if :
    (P : Work → Type 0) (b : Bool) (x y : Effect)
    → OnEffect P x
    → OnEffect P y
    → OnEffect P (if b then x else y)
OnEffect-if P true x y hx hy = hx
OnEffect-if P false x y hx hy = hy

-- `w'` came from `w` with nothing lost that a rollback needs, and with the same height, minted total,
-- chain id, configuration and logs of the last block.
pub record Tracked (P : Address → Type 0) (w w' : Work) : Type 0 where
  pub confined : Confined P w w'
  pub height : w'.st.height ≡ w.st.height
  pub minted : w'.st.minted ≡ w.st.minted
  pub chain_id : w'.st.chain_id ≡ w.st.chain_id
  pub config : w'.st.config ≡ w.st.config
  pub last_logs : w'.st.last_logs ≡ w.st.last_logs

module _ {P : Address → Type 0} where
  pub Tracked-refl : (w : Work) → Tracked P w w
  Tracked-refl w = record {
    confined = Confined-refl w;
    height = refl;
    minted = refl;
    chain_id = refl;
    config = refl;
    last_logs = refl;
  }

  pub Tracked-trans : {u v w : Work} → Tracked P u v → Tracked P v w → Tracked P u w
  Tracked-trans p q = record {
    confined = Confined-trans p.confined q.confined;
    height = q.height ∙ p.height;
    minted = q.minted ∙ p.minted;
    chain_id = q.chain_id ∙ p.chain_id;
    config = q.config ∙ p.config;
    last_logs = q.last_logs ∙ p.last_logs;
  }

  pub snap-Tracked : (a : Address) (w : Work) → Tracked P w (snap a w)
  unfolding snap
  snap-Tracked a w = elim (Option-cases (lookup a w.saved)) [
    | inr (o, e) ↦ rw (e, snap) (Tracked-refl w)
    | inl e ↦ record {
      confined = snap-Confined a w;
      height = rw (e, snap);
      minted = rw (e, snap);
      chain_id = rw (e, snap);
      config = rw (e, snap);
      last_logs = rw (e, snap);
    }
  ]

  pub acct-Tracked : (a : Address) (w : Work) → MayCreate P a w → Tracked P w (acct a w)
  unfolding acct
  acct-Tracked a w may = record {
    confined = acct-Confined a w may;
    height = refl;
    minted = refl;
    chain_id = refl;
    config = refl;
    last_logs = refl;
  }

  pub modify-Tracked :
      (a : Address) (f : Account → Account) (w : Work)
      → is_saved a w ≡ true
      → Tracked P w (modify a f w)
  unfolding modify
  modify-Tracked a f w h = record {
    confined = modify-Confined a f w h;
    height = refl;
    minted = refl;
    chain_id = refl;
    config = refl;
    last_logs = refl;
  }

  -- A write to an account that is saved just before.
  pub put-Tracked :
      (a : Address) (f : Account → Account) (w : Work) → Tracked P w (modify a f (snap a w))
  put-Tracked a f w =
      Tracked-trans (snap-Tracked a w) (modify-Tracked a f (snap a w) (snap-saved a w))

  pub set_validators-Tracked :
      (vs : Map Address Validator) (w : Work) → Tracked P w (set_validators w vs)
  set_validators-Tracked vs w = record {
    confined = record { restored_same = λ a. inl refl; saved_still = λ a h. h; unique = λ h. h };
    height = refl;
    minted = refl;
    chain_id = refl;
    config = refl;
    last_logs = refl;
  }

  pub of_Safe : {w w' : Work} → Safe P w w' → Tracked P w w'
  of_Safe s = record {
    confined = s.confined;
    height = ap (λ (st : State). st.height) s.intact.rest;
    minted = ap (λ (st : State). st.minted) s.intact.rest;
    chain_id = ap (λ (st : State). st.chain_id) s.intact.rest;
    config = ap (λ (st : State). st.config) s.intact.rest;
    last_logs = ap (λ (st : State). st.last_logs) s.intact.rest;
  }

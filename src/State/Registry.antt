-- ===== src/State/Registry.antt =====
-- The validator cases of `ApplyBlock`, and `applySlash` (internal/state/state.go).
use shadowledger.Prelude.{
  ℕ, ◌/◌, Bool, true, false, ◌||◌, not, Option, none, some, ltb, leb, ◌==◌, if◌then◌else◌, length,
  take, bytes_eq,
}
use shadowledger.Prelude.Words.{add64}
use shadowledger.Prelude.Map.{lookup, insert, erase, bytes_key}
use shadowledger.Vm.Stack.{be_u64}
use shadowledger.Economy.{min_bond}
use shadowledger.Crypto.{Env}
use shadowledger.Types.Data.{Transaction, EquivocationEvidence}
use shadowledger.Types.Encode.{header_id}
use shadowledger.Types.Sign.{SigError, verify_header}
use shadowledger.Pow.{reg_verify}
use shadowledger.State.Data.{Validator}
use shadowledger.State.Ledger.{Work, modify, pay, snap}
use shadowledger.State.Effects.{
  StateError, Effect, applied, rejected, EvidenceDecoder, set_validators,
}

-- `&Validator{Bond: bond, Active: true, Since: since}`
abbrev pub new_validator : ℕ → ℕ → Validator
new_validator bond since = record {
  bond = bond;
  active = true;
  since = since;
  slashed = false;
  storage_score = 0;
  last_proof_at = 0;
}

-- `&Validator{Bond: 0, Active: false, Since: since, Slashed: true}`
abbrev pub barred : ℕ → Validator
barred since = record {
  bond = 0;
  active = false;
  since = since;
  slashed = true;
  storage_score = 0;
  last_proof_at = 0;
}

-- `v != nil && (v.Active || v.Slashed)`
abbrev pub is_taken : Option Validator → Bool
is_taken none = false
is_taken (some v) = v.active || v.slashed

-- `err != nil`
abbrev pub is_error : Option SigError → Bool
is_error none = false
is_error (some e) = true

-- The tests on the evidence: two signed headers of one validator and height, and two blocks.
unfoldable pub is_equivocation : Env → EquivocationEvidence → Bool
is_equivocation env ev =
    if is_error (verify_header env ev.a)
    then false
    else if is_error (verify_header env ev.b)
    then false
    else not (
        not (bytes_eq ev.a.validator ev.b.validator)
        || (not (ev.a.height == ev.b.height) || bytes_eq (header_id env ev.a) (header_id env ev.b)))

module _ (env : Env) (t : Transaction) where
  -- The puzzle's nonce: the first 8 bytes of the data, or 0.
  unfoldable pub reg_nonce : ℕ
  unfolding be_u64
  reg_nonce = if leb 8 (length t.payload) then be_u64 0 (take 8 t.payload) else 0

  unfoldable pub apply_register : ℕ → Work → Effect
  apply_register height w =
      if not (reg_verify env w.st.chain_id t.from reg_nonce w.st.config.reg_pow_bits)
      then rejected StateError.bad_reg_pow w
      else if ltb t.amount min_bond
      then rejected StateError.bond_too_low w
      else if is_taken (lookup t.from w.st.validators)
      then rejected StateError.already_validator w
      else applied
          (set_validators w (insert t.from (new_validator t.amount height) w.st.validators))

  unfoldable pub unregister : Work → Option Validator → Effect
  unfolding modify
  unregister w none = rejected StateError.not_validator w
  unregister w (some v) =
      if not v.active
      then rejected StateError.not_validator w
      else let paid : Work = modify t.from (pay (add64 v.bond t.amount)) w in
        applied (set_validators paid (erase t.from paid.st.validators))

  unfoldable pub apply_unregister : Work → Effect
  unfolding unregister
  apply_unregister w = unregister w (lookup t.from w.st.validators)

  -- The bounty, and the validator barred, where the evidence holds.
  unfoldable pub slash : EquivocationEvidence → Work → Option Validator → Effect
  unfolding modify snap
  slash ev w none = rejected StateError.not_validator w
  slash ev w (some v) =
      if not v.active
      then rejected StateError.not_validator w
      else let paid : Work = modify t.from (pay (v.bond / 10)) (snap t.from w) in
        applied (set_validators paid (insert ev.a.validator (barred v.since) paid.st.validators))

  -- `applySlash`
  unfoldable pub apply_slash : EvidenceDecoder → Work → Effect
  unfolding is_equivocation slash
  apply_slash decode w = elim (decode t.payload) [
    | none ↦ rejected StateError.bad_evidence w
    | some ev ↦
        if is_equivocation env ev
        then slash ev w (lookup ev.a.validator w.st.validators)
        else rejected StateError.bad_evidence w
  ]

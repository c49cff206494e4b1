-- ===== src/State/Effects.antt =====
-- The errors of internal/state/state.go, and what one transaction of a block leads to.
use shadowledger.Prelude.{Option, Bytes}
use shadowledger.Prelude.Map.{Map}
use shadowledger.Crypto.{Address}
use shadowledger.Types.Data.{EquivocationEvidence}
use shadowledger.Types.Sign.{SigError}
use shadowledger.State.Data.{Validator}
use shadowledger.State.Ledger.{Work}

pub data StateError : Type 0 where
  signature : SigError → StateError
  bad_nonce insufficient coinbase_in_body bad_coinbase bond_too_low already_validator : StateError
  not_validator bad_evidence bad_chain_id bad_reg_pow faucet_disabled bad_faucet : StateError
  bad_faucet_pow faucet_cooldown faucet_dry storage_disabled bad_storage_proof : StateError

-- What a transaction leads to. An error comes with what was done before it, for the rollback.
pub data Effect : Type 0 where
  applied : Work → Effect
  rejected : StateError → Work → Effect
  crashed : Effect

-- `json.Unmarshal` of slashing evidence; `none` is its error.
abbrev pub EvidenceDecoder : Type 0
EvidenceDecoder = Bytes → Option EquivocationEvidence

abbrev pub set_validators : Work → Map Address Validator → Work
set_validators w vs = record w { st = record w.st { validators = vs } }

-- ===== src/Consensus/Authorize.antt =====
-- `AuthorizeHeader` and `CanProduce`, internal/consensus/consensus.go. The storage gate of a
-- scoreboard compares a float ratio and is a parameter.
use shadowledger.Prelude.{
  ℕ, ◌≡◌, Bool, true, false, ◌&&◌, not, List, [], Option, none, some, Bytes, ◌==◌, if◌then◌else◌,
  bytes_eq, bytes_eq_iff, arith,
}
use shadowledger.Prelude.Map.{Map}
use shadowledger.Crypto.{Env, Address}
use shadowledger.Types.Data.{Header}
use shadowledger.Types.Sign.{SigError, verify_header}
use shadowledger.Consensus.Election.{contains, leader_for}

pub data ConsensusError : Type 0 where
  header_signature : SigError → ConsensusError
  unauthorized_validator not_leader : ConsensusError

-- `PoStorage`: what the validator and weight providers return, this node's address, and the gate.
pub record PoStorage : Type 0 where
  pub validators : List Address
  pub weights : Option (Map Address ℕ)
  pub self : Address
  pub eligible : Option (Address → Bool)

-- `Authority`
pub record Authority : Type 0 where
  pub set : List Address
  pub self : Address

-- `Authority.AuthorizeHeader`; `none` is a nil error.
unfoldable pub authority_header : Env → Authority → Header → Option ConsensusError
authority_header env a h = elim (verify_header env h) [
  | some e ↦ some (ConsensusError.header_signature e)
  | none ↦
      if not (contains h.validator a.set) then some ConsensusError.unauthorized_validator else none
]

-- `Authority.CanProduce`
unfoldable pub authority_produce : Authority → Bool
authority_produce a = not (bytes_eq a.self []) && contains a.self a.set

-- The tests of `PoStorage.AuthorizeHeader` after the signature.
unfoldable pub check_leader : Env → PoStorage → Header → Option ConsensusError
check_leader env p h =
    if not (contains h.validator p.validators)
    then some ConsensusError.unauthorized_validator
    else if h.height == 0
    then none
    else if not (
        bytes_eq h.validator
          (leader_for env.sha256 h.height h.prev_hash h.round p.validators p.weights))
    then some ConsensusError.not_leader
    else none

-- `PoStorage.AuthorizeHeader`
unfoldable pub authorize_header : Env → PoStorage → Header → Option ConsensusError
unfolding check_leader
authorize_header env p h = elim (verify_header env h) [
  | some e ↦ some (ConsensusError.header_signature e)
  | none ↦ check_leader env p h
]

-- `PoStorage.CanProduce`
unfoldable pub can_produce : Env → PoStorage → ℕ → Bytes → ℕ → Bool
can_produce env p height prev round =
    if not (not (bytes_eq p.self []) && contains p.self p.validators)
    then false
    else if not (bytes_eq (leader_for env.sha256 height prev round p.validators p.weights) p.self)
    then false
    else elim p.eligible [ none ↦ true | some gate ↦ if not (gate p.self) then false else true ]

-- A header that a node makes where `CanProduce` lets it, validly signed, is authorized by every node
-- with the same validators and weights.
pub can_produce-authorize_header :
    (env : Env) (p q : PoStorage) (h : Header)
    → q.validators ≡ p.validators
    → q.weights ≡ p.weights
    → h.validator ≡ p.self
    → verify_header env h ≡ none
    → can_produce env p h.height h.prev_hash h.round ≡ true
    → authorize_header env q h ≡ none
unfolding authorize_header check_leader can_produce
can_produce-authorize_header env p q h vs ws mine signed can =
    let leader = leader_for env.sha256 h.height h.prev_hash h.round p.validators p.weights in
    rw (signed, authorize_header)
      (rw (mine, vs, ws, check_leader)
        (ground (arith, bytes_eq_iff leader p.self, bytes_eq_iff p.self leader)))

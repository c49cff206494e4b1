-- ===== src/Types/Sign.antt =====
-- Signature checks of internal/types/tx.go and block.go.
use shadowledger.Prelude.{
  Bytes, ◌≡◌, refl, ==_iff, bytes_eq_iff, arith, Bool, true, false, [], ◌∷◌, ◌==◌, not,
  if◌then◌else◌, length, Option, none, some,
}
use shadowledger.Crypto.{Env, Address, address_from_pub, verify, pub_matches_address}
use shadowledger.Types.Data.{Transaction, Header}
use shadowledger.Types.Encode.{tx_signing_bytes, header_signing_bytes}

pub data SigError : Type 0 where
  bad_pub_key pub_addr_mismatch bad_signature : SigError

-- `Transaction.IsCoinbase`: no sender
unfoldable pub is_coinbase : Transaction → Bool
is_coinbase t = elim t.from [ [] ↦ true | _ ∷ _ ↦ false ]

-- `Transaction.VerifySig`; `none` is a nil error.
unfoldable pub verify_tx : Env → Transaction → Option SigError
verify_tx env t =
    if is_coinbase t
    then none
    else if not (length t.pub_key == 32)
    then some SigError.bad_pub_key
    else if not (pub_matches_address env t.pub_key t.from)
    then some SigError.pub_addr_mismatch
    else if not (verify env t.pub_key (tx_signing_bytes t) t.sig)
    then some SigError.bad_signature
    else none

-- `Header.VerifySig`
unfoldable pub verify_header : Env → Header → Option SigError
verify_header env h =
    if not (pub_matches_address env h.val_pub_key h.validator)
    then some SigError.pub_addr_mismatch
    else if not (verify env h.val_pub_key (header_signing_bytes h) h.sig)
    then some SigError.bad_signature
    else none

-- A key pair: `Pub`, and what `ed25519.Sign` makes of a message.
pub record KeyPair : Type 0 where
  pub pub_key : Bytes
  pub sign : Bytes → Bytes

-- `KeyPair.Address`
abbrev pub key_address : Env → KeyPair → Address
key_address env kp = address_from_pub env kp.pub_key

-- `Header.Sign`
unfoldable pub sign_header : Env → KeyPair → Header → Header
unfolding header_signing_bytes
sign_header env kp h =
    let named : Header = record h { validator = key_address env kp; val_pub_key = kp.pub_key } in
    record named { sig = kp.sign (header_signing_bytes named) }

-- `Transaction.Sign`
unfoldable pub sign_tx : Env → KeyPair → Transaction → Transaction
unfolding tx_signing_bytes
sign_tx env kp t =
    let named : Transaction = record t { from = key_address env kp; pub_key = kp.pub_key } in
    record named { sig = kp.sign (tx_signing_bytes named) }

-- What Ed25519 promises of a key pair.
pub record IsKeyPair (env : Env) (kp : KeyPair) : Type 0 where
  pub size : length kp.pub_key ≡ 32
  pub signs : (msg : Bytes) → env.ed25519_verify kp.pub_key msg (kp.sign msg) ≡ true

own_address :
    (env : Env) (key : Bytes) → pub_matches_address env key (address_from_pub env key) ≡ true
unfolding pub_matches_address
own_address env key = let a = address_from_pub env key in (bytes_eq_iff a a).1 refl

own_signature :
    (env : Env) (kp : KeyPair) (msg : Bytes)
    → IsKeyPair env kp
    → verify env kp.pub_key msg (kp.sign msg) ≡ true
unfolding verify
own_signature env kp msg k = ground (arith, k.size, k.signs msg)

not_coinbase : (env : Env) (kp : KeyPair) (t : Transaction) → is_coinbase (sign_tx env kp t) ≡ false
unfolding is_coinbase sign_tx address_from_pub
not_coinbase env kp t = refl

-- With a key pair that does what Ed25519 promises, a header that is signed verifies, and so does a
-- transaction, whatever they held before.
pub verify-sign :
    (env : Env) (kp : KeyPair) (h : Header) (t : Transaction)
    → IsKeyPair env kp
    → (verify_header env (sign_header env kp h) ≡ none) × (verify_tx env (sign_tx env kp t) ≡ none)
unfolding verify_header verify_tx sign_header sign_tx
verify-sign env kp h t k =
    let own = own_address env kp.pub_key in
    let size : (length kp.pub_key == 32) ≡ true = (==_iff (length kp.pub_key) 32).1 k.size in
    (
      rw (own, own_signature env kp (header_signing_bytes _) k) refl,
      rw (not_coinbase env kp t, size, own, own_signature env kp (tx_signing_bytes _) k) refl,
    )

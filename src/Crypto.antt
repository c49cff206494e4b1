-- ===== src/Crypto.antt =====
-- Addresses and signatures, internal/crypto/crypto.go. SHA-256 and Ed25519 are the standard
-- library's and enter as the fields of `Env`.
use shadowledger.Prelude.{
  ℕ, zero, suc, ◌+◌, ◌*◌, ◌≤◌, ◌≡◌, refl, true, ◌&&◌, ◌||◌, leb, drop, All, length-take, ==_iff,
  arith, ◌/◌, ◌%◌, Bool, false, [], ◌∷◌, ◌++◌, ltb, ◌==◌, not, if◌then◌else◌, take, length, Bytes,
  bytes_eq,
}
use shadowledger.Prelude.Words.{IsByte}

-- What the code calls and does not implement: `sha256.Sum256` and `ed25519.Verify`.
pub record Env : Type 0 where
  pub sha256 : Bytes → Bytes
  pub ed25519_verify : Bytes → Bytes → Bytes → Bool

-- A Go string: its bytes. The empty address is `[]`.
abbrev pub Address : Type 0
Address = Bytes

-- `hex.EncodeToString`, in lower case
abbrev pub hex_digit : ℕ → ℕ
hex_digit d = if ltb d 10 then 48 + d else 87 + d

unfoldable pub hex : Bytes → Bytes
hex [] = []
hex (b ∷ bs) = hex_digit (b / 16) ∷ hex_digit (b % 16) ∷ hex bs

-- "sl"
abbrev pub address_prefix : Bytes
address_prefix = b's' ∷ b'l' ∷ []

unfoldable pub address_from_pub : Env → Bytes → Address
unfolding hex
address_from_pub env pub_key = address_prefix ++ hex (take 20 (env.sha256 pub_key))

unfoldable pub verify : Env → Bytes → Bytes → Bytes → Bool
verify env pub_key msg sig =
    if not (length pub_key == 32) then false else env.ed25519_verify pub_key msg sig

unfoldable pub pub_matches_address : Env → Bytes → Address → Bool
unfolding address_from_pub
pub_matches_address env pub_key addr = bytes_eq (address_from_pub env pub_key) addr

-- `hex.DecodeString` has no error.
unfoldable pub is_hex : Bytes → Bool
is_hex [] = true
is_hex (d ∷ ds) =
    ((leb 48 d && leb d 57) || ((leb 97 d && leb d 102) || (leb 65 d && leb d 70))) && is_hex ds

-- `Address.Valid`
unfoldable pub is_valid : Address → Bool
unfolding is_hex
is_valid a =
    if not (length a == 42)
    then false
    else if not (bytes_eq (take 2 a) address_prefix)
    then false
    else is_hex (drop 2 a)

-- Hex digits are two for a byte, and are read back as digits.
hex_digits :
    (bs : Bytes) → All IsByte bs → (length (hex bs) ≡ 2 * length bs) × (is_hex (hex bs) ≡ true)
unfolding hex is_hex
hex_digits [] h = (refl, refl)
hex_digits (b ∷ bs) h = let (len, digits) = hex_digits bs h.1 in (omega arith, ground arith)

All-take : (n : ℕ) (bs : Bytes) → All IsByte bs → All IsByte (take n bs)
All-take zero bs h = tt
All-take (suc n) [] h = tt
All-take (suc n) (b ∷ bs) h = (h.0, All-take n bs h.1)

-- The address of every public key is well formed, where a digest is bytes, at least 20 of them.
pub address_from_pub-is_valid :
    (env : Env) (pub_key : Bytes)
    → All IsByte (env.sha256 pub_key)
    → 20 ≤ length (env.sha256 pub_key)
    → is_valid (address_from_pub env pub_key) ≡ true
unfolding is_valid address_from_pub
address_from_pub-is_valid env pub_key bytes long =
    let digest = take 20 (env.sha256 pub_key) in
    let (len, digits) = hex_digits digest (All-take 20 (env.sha256 pub_key) bytes) in
    let cut = length-take 20 (env.sha256 pub_key) in
    let whole : (suc (suc (length (hex digest))) == 42) ≡ true =
      (==_iff (suc (suc (length (hex digest)))) 42).1 (omega (arith, len, cut)) in
    rw (whole, digits) refl

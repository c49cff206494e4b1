-- ===== src/Pow.antt =====
-- The proof-of-work puzzles: internal/regpow/regpow.go and internal/faucet/faucet.go. A difficulty of
-- 0 stands for every `bits <= 0`.
use shadowledger.Prelude.{
  ℕ, zero, suc, ◌+◌, ◌/◌, ◌%◌, ◌^◌, Bool, true, [], ◌∷◌, ◌++◌, leb, ◌==◌, if◌then◌else◌, Bytes,
}
use shadowledger.Crypto.{Env, Address}
use shadowledger.Types.Encode.{put_u64}

-- The zero bits of a byte above its highest one, from bit `i - 1` down.
unfoldable pub byte_zeros : ℕ → ℕ → ℕ
byte_zeros zero b = 0
byte_zeros (suc i) b = if b / 2 ^ i % 2 == 0 then suc (byte_zeros i b) else 0

-- `leadingZeroBits`
unfoldable pub leading_zero_bits : Bytes → ℕ
unfolding byte_zeros
leading_zero_bits [] = 0
leading_zero_bits (b ∷ bs) = if b == 0 then 8 + leading_zero_bits bs else byte_zeros 8 b

-- "sl-regpow:"
abbrev reg_prefix : Bytes
reg_prefix = b's' ∷ b'l' ∷ b'-' ∷ b'r' ∷ b'e' ∷ b'g' ∷ b'p' ∷ b'o' ∷ b'w' ∷ b':' ∷ []

-- "sl-faucet:"
abbrev faucet_prefix : Bytes
faucet_prefix = b's' ∷ b'l' ∷ b'-' ∷ b'f' ∷ b'a' ∷ b'u' ∷ b'c' ∷ b'e' ∷ b't' ∷ b':' ∷ []

-- `regpow.Hash`
unfoldable pub reg_hash : Env → ℕ → Address → ℕ → Bytes
unfolding put_u64
reg_hash env chain_id addr nonce =
    env.sha256 (reg_prefix ++ (put_u64 chain_id ++ (addr ++ put_u64 nonce)))

-- `regpow.Verify`
unfoldable pub reg_verify : Env → ℕ → Address → ℕ → ℕ → Bool
unfolding reg_hash leading_zero_bits
reg_verify env chain_id addr nonce bits =
    if bits == 0 then true else leb bits (leading_zero_bits (reg_hash env chain_id addr nonce))

-- `faucet.Hash`
unfoldable pub faucet_hash : Env → ℕ → Address → Bytes → ℕ → Bytes
unfolding put_u64
faucet_hash env chain_id addr anchor nonce =
    env.sha256 (faucet_prefix ++ (put_u64 chain_id ++ (addr ++ (anchor ++ put_u64 nonce))))

-- `faucet.Verify`
unfoldable pub faucet_verify : Env → ℕ → Address → Bytes → ℕ → ℕ → Bool
unfolding faucet_hash leading_zero_bits
faucet_verify env chain_id addr anchor nonce bits =
    if bits == 0
    then true
    else leb bits (leading_zero_bits (faucet_hash env chain_id addr anchor nonce))

-- ===== src/Prelude/Words.antt =====
-- Go's uint64 as native numbers: the wrap-around is written out. `-` on ℕ stops at 0, so the
-- modulus is added first.
use Prim.Native.Nat.{ℕ, ◌+◌, ◌-◌, ◌*◌, ◌%◌, ◌^◌, ◌<◌}

abbrev pub u64_mod : ℕ
u64_mod = 2 ^ 64

abbrev pub add64 : ℕ → ℕ → ℕ
add64 a b = (a + b) % 2 ^ 64

abbrev pub sub64 : ℕ → ℕ → ℕ
sub64 a b = (a + 2 ^ 64 - b) % 2 ^ 64

abbrev pub mul64 : ℕ → ℕ → ℕ
mul64 a b = (a * b) % 2 ^ 64

-- ^a
abbrev pub not64 : ℕ → ℕ
not64 a = 2 ^ 64 - 1 - a

-- v<<8 | b, for a byte b
abbrev pub shift_in : ℕ → ℕ → ℕ
shift_in v b = (v * 256) % 2 ^ 64 + b

abbrev pub IsWord : ℕ → Type 0
IsWord a = a < 2 ^ 64

abbrev pub IsByte : ℕ → Type 0
IsByte b = b < 256

-- ===== src/Vm/Arith.antt =====
-- The arithmetic of internal/vm/vm.go against exact integers: the checked operations, and the words
-- of the call data.
use native.Mathlib.Nat.{div-mul-le_self, mod-eq_of_lt, mul-div_cancel_left}
use shadowledger.Prelude.{
  ℕ, zero, suc, ◌+◌, ◌-◌, ◌*◌, ◌/◌, ◌^◌, ◌≤◌, ◌<◌, ◌≡◌, refl, List, [], ◌∷◌, none, some, arith,
  false, ltb, if◌then◌else◌, length, get_elem?, get_elem?-eq-none, Bytes, Bool-cases, Option-cases,
  All, get_or, ◌∙◌, inl, inr, ◌≢◌, ◌++◌,
}
use shadowledger.Prelude.Words.{IsWord, add64, mul64, shift_in}
use shadowledger.Vm.Opcodes.{Opcode}
use shadowledger.Vm.Stack.{VmError, Exec, ok, err, checked, word, read_be, be_bytes}

-- What ADDC, SUBC and MULC compute, over exact integers.
abbrev pub exact : Opcode → ℕ → ℕ → Exec ℕ
exact Opcode.addc a b = if ltb (a + b) (2 ^ 64) then ok (a + b) else err VmError.overflow
exact Opcode.subc a b = if ltb a b then err VmError.overflow else ok (a - b)
exact Opcode.mulc a b = if ltb (a * b) (2 ^ 64) then ok (a * b) else err VmError.overflow
exact _ a b = ok 0

-- The quotient test of MULC finds every overflow, and only those.
mul_wraps : (a b : ℕ) → 0 < a → 2 ^ 64 ≤ a * b → mul64 a b / a ≢ b
mul_wraps a b p h e =
    let bound : b * a ≤ mul64 a b = rw e at (div-mul-le_self (mul64 a b) a) in absurd (omega arith)

mul_fits : (a b : ℕ) → 0 < a → a * b < 2 ^ 64 → mul64 a b / a ≡ b
mul_fits a b p h = rw (mod-eq_of_lt h) (mul-div_cancel_left b p)

mulc-eq-exact : (a b : ℕ) → checked Opcode.mulc a b ≡ exact Opcode.mulc a b
unfolding checked
mulc-eq-exact zero b = ground arith
mulc-eq-exact (suc a) b = elim (Bool-cases (ltb (suc a * b) (2 ^ 64))) [
  | inl fits ↦ ground (arith, mul_fits (suc a) b (omega arith) (ground arith))
  | inr wraps ↦ ground (arith, mul_wraps (suc a) b (omega arith) (ground arith))
]

-- On 64-bit words the checked operations are exact: they return the true sum, difference or product,
-- and fail exactly where it is out of range.
pub checked-eq-exact : (op : Opcode) (a b : ℕ) → IsWord a → IsWord b → checked op a b ≡ exact op a b
unfolding checked
checked-eq-exact Opcode.addc a b ha hb = ground arith
checked-eq-exact Opcode.subc a b ha hb = ground arith
checked-eq-exact Opcode.mulc a b ha hb = mulc-eq-exact a b
checked-eq-exact _ a b ha hb = refl

-- Big-endian bytes read back.
read_be-be_bytes : (v : ℕ) (rest : Bytes) → IsWord v → read_be 8 (be_bytes v ++ rest) 0 0 ≡ some v
unfolding read_be be_bytes
read_be-be_bytes v rest h = ground arith

get_elem?-append :
    (pre xs : Bytes) (i : ℕ) → get_elem? (pre ++ xs) (length pre + i) ≡ get_elem? xs i
get_elem?-append [] xs i = let e : 0 + i ≡ i = omega arith in rw e
get_elem?-append (x ∷ pre) xs i =
    let e : suc (length pre) + i ≡ suc (length pre + i) = omega arith in
    rw e (get_elem?-append pre xs i)

read_be-append :
    (n : ℕ) (pre xs : Bytes) (i v : ℕ) → read_be n (pre ++ xs) (length pre + i) v ≡ read_be n xs i v
unfolding read_be
read_be-append zero pre xs i v = refl
read_be-append (suc n) pre xs i v = elim (Option-cases (get_elem? xs i)) [
  | inl e ↦ ground (arith, get_elem?-append pre xs i)
  | inr (b, e) ↦
      ground (arith, get_elem?-append pre xs i, read_be-append n pre xs (i + 1) (shift_in v b))
]

-- Call data that encodes a list of words, one after another.
unfoldable pub encode_words : List ℕ → Bytes
encode_words [] = []
encode_words (v ∷ vs) = be_bytes v ++ encode_words vs

length-encode_words : (vs : List ℕ) → length (encode_words vs) ≡ 8 * length vs
unfolding encode_words be_bytes
length-encode_words [] = refl
length-encode_words (v ∷ vs) = omega (arith, length-encode_words vs)

read_be-encode_words :
    (vs : List ℕ) (i : ℕ)
    → All IsWord vs
    → i < length vs
    → read_be 8 (encode_words vs) (8 * i) 0 ≡ some (get_or (get_elem? vs i) 0)
unfolding encode_words be_bytes
read_be-encode_words [] i h lt = absurd (omega arith)
read_be-encode_words (v ∷ vs) zero h lt = read_be-be_bytes v (encode_words vs) h.0
read_be-encode_words (v ∷ vs) (suc i) h lt =
    let e : 8 * suc i ≡ 8 + 8 * i = omega arith in
    rw e (
      read_be-append 8 (be_bytes v) (encode_words vs) (8 * i) 0
      ∙ read_be-encode_words vs i h.1 (omega arith))

-- Where the index is small enough nothing wraps.
word_unwrapped :
    (input : Bytes) (i : ℕ)
    → i < 2 ^ 61 - 1
    → word input i ≡ (if ltb (length input) (8 * i + 8) then some 0 else read_be 8 input (8 * i) 0)
unfolding word
word_unwrapped input i h =
    let off : mul64 i 8 ≡ 8 * i = omega arith in
    let end : add64 (8 * i) 8 ≡ 8 * i + 8 = omega arith in rw off (rw end)

get_elem?-past : (vs : List ℕ) (i : ℕ) → ltb i (length vs) ≡ false → get_or (get_elem? vs i) 0 ≡ 0
get_elem?-past vs i h = rw (get_elem?-eq-none vs i (ground arith))

-- CDLOAD of index `i` reads the `i`-th word of encoded call data, and 0 past its end, for every
-- index below 2^61 - 1.
pub word-encode_words :
    (vs : List ℕ) (i : ℕ)
    → All IsWord vs
    → i < 2 ^ 61 - 1
    → word (encode_words vs) i ≡ some (get_or (get_elem? vs i) 0)
word-encode_words vs i h lt =
    word_unwrapped (encode_words vs) i lt ∙ elim (Bool-cases (ltb i (length vs))) [
      | inl inside ↦ ground (arith, length-encode_words vs, read_be-encode_words vs i h)
      | inr outside ↦ ground (arith, length-encode_words vs, get_elem?-past vs i)
    ]

-- At the index 2^61 - 1, and at every index that is the same modulo 2^61, the bounds test of `word`
-- wraps to 0 and passes, so CDLOAD panics whatever the call data are.
pub word_panics :
    (input : Bytes) (k : ℕ) → length input < 2 ^ 63 → word input (k * 2 ^ 61 + (2 ^ 61 - 1)) ≡ none
unfolding word read_be
word_panics input k h =
    let off : mul64 (k * 2 ^ 61 + (2 ^ 61 - 1)) 8 ≡ 2 ^ 64 - 8 = omega arith in
    let past : get_elem? input (2 ^ 64 - 8) ≡ none =
      get_elem?-eq-none input (2 ^ 64 - 8) (omega arith) in
    rw off (rw (past, read_be) (ground arith))

-- ===== src/Vm/Stack.antt =====
-- Errors, the operand stack and the word operations of internal/vm/vm.go. A stack is listed with
-- its top first. `panic` is a Go run-time panic, which ends the process.
use shadowledger.Prelude.{
  ℕ, zero, suc, ◌+◌, ◌/◌, ◌%◌, ◌^◌, bit_and, bit_or, Bool, true, false, ◌&&◌, not, List, [], ◌∷◌,
  Option, none, some, ltb, leb, ◌==◌, if◌then◌else◌, length, get_elem?, Bytes,
}
use shadowledger.Prelude.Words.{add64, sub64, mul64, shift_in}
use shadowledger.Vm.Opcodes.{Opcode}

pub data VmError : Type 0 where
  out_of_gas stack_under stack_over bad_jump div_zero bad_code step_limit reverted overflow :
      VmError

pub data Exec (A : Type 0) : Type 0 where
  ok : A → Exec A
  err : VmError → Exec A
  panic : Exec A

infixl 5 ◌>>=◌
abbrev pub ◌>>=◌ : {A B : Type 0} → Exec A → (A → Exec B) → Exec B
ok a >>= f = f a
err e >>= f = err e
panic >>= f = panic

infixl 5 ◌>>◌
abbrev pub ◌>>◌ : {B : Type 0} → Exec (Unit {0}) → Exec B → Exec B
m >> k = m >>= λ _. k

-- `if c { return nil, e }`
abbrev pub fail_if : Bool → VmError → Exec (Unit {0})
fail_if true e = err e
fail_if false e = ok tt

abbrev pub max_stack : ℕ
max_stack = 1024

unfoldable pub push : ℕ → List ℕ → Exec (List ℕ)
push v st = if leb max_stack (length st) then err VmError.stack_over else ok (v ∷ st)

-- `push(a)` with its error dropped
unfoldable pub push_quiet : ℕ → List ℕ → List ℕ
push_quiet v st = if leb max_stack (length st) then st else v ∷ st

unfoldable pub pop : List ℕ → Exec (ℕ × List ℕ)
pop [] = err VmError.stack_under
pop (v ∷ st) = ok (v, st)

abbrev pub b2u : Bool → ℕ
b2u true = 1
b2u false = 0

-- `binop`, over the opcodes that its caller passes to it
unfoldable pub binop : Opcode → ℕ → ℕ → Exec ℕ
binop Opcode.add a b = ok (add64 a b)
binop Opcode.sub a b = ok (sub64 a b)
binop Opcode.mul a b = ok (mul64 a b)
binop Opcode.div a b = if b == 0 then err VmError.div_zero else ok (a / b)
binop Opcode.modulo a b = if b == 0 then err VmError.div_zero else ok (a % b)
binop Opcode.eq a b = ok (b2u (a == b))
binop Opcode.lt a b = ok (b2u (ltb a b))
binop Opcode.gt a b = ok (b2u (ltb b a))
binop Opcode.and a b = ok (bit_and a b)
binop Opcode.or a b = ok (bit_or a b)
binop _ a b = err VmError.bad_code

-- The checked operations: the inner `switch` of ADDC, SUBC and MULC.
unfoldable pub checked : Opcode → ℕ → ℕ → Exec ℕ
checked Opcode.addc a b = let r = add64 a b in if ltb r a then err VmError.overflow else ok r
checked Opcode.subc a b = if ltb a b then err VmError.overflow else ok (sub64 a b)
checked Opcode.mulc a b =
    let r = mul64 a b in if not (a == 0) && not (r / a == b) then err VmError.overflow else ok r
checked _ a b = ok 0

-- `n` bytes from `off` on, most significant first; `none` where an index is out of range.
unfoldable pub read_be : ℕ → Bytes → ℕ → ℕ → Option ℕ
read_be zero xs off v = some v
read_be (suc n) xs off v = elim (get_elem? xs off) [
  | none ↦ none
  | some b ↦ read_be n xs (off + 1) (shift_in v b)
]

-- `word`: the index times 8, and the end of the word, wrap at 2^64.
unfoldable pub word : Bytes → ℕ → Option ℕ
word input idx =
    let off = mul64 idx 8 in
    if ltb (length input) (add64 off 8) then some 0 else read_be 8 input off 0

abbrev pub or_panic : {A : Type 0} → Option A → Exec A
or_panic none = panic
or_panic (some a) = ok a

-- The topics of a LOG: what is popped first comes last.
unfoldable pub pop_topics : ℕ → List ℕ → List ℕ → Exec (List ℕ × List ℕ)
unfolding pop
pop_topics zero st topics = ok (topics, st)
pop_topics (suc n) [] topics = err VmError.stack_under
pop_topics (suc n) (v ∷ st) topics = pop_topics n st (v ∷ topics)

-- `beU64`
unfoldable pub be_u64 : ℕ → Bytes → ℕ
be_u64 v [] = v
be_u64 v (b ∷ bs) = be_u64 (shift_in v b) bs

-- `byte(v >> 56), byte(v >> 48), …`
unfoldable pub be_bytes : ℕ → Bytes
be_bytes v =
    (v / 2 ^ 56 % 256)
    ∷ (v / 2 ^ 48 % 256)
    ∷ (v / 2 ^ 40 % 256)
    ∷ (v / 2 ^ 32 % 256)
    ∷ (v / 2 ^ 24 % 256)
    ∷ (v / 2 ^ 16 % 256)
    ∷ (v / 2 ^ 8 % 256)
    ∷ (v % 256)
    ∷ []

-- ===== src/Shl/Gen.antt =====
-- The state of the code generator and what writes to it: `gen` of internal/shl/compile.go.
use shadowledger.Prelude.{
  ℕ, zero, suc, ◌+◌, ◌-◌, ◌^◌, List, [], ◌∷◌, ◌++◌, Option, none, some, Bytes, length, take, drop,
  get_elem?, zeros, ltb, if◌then◌else◌,
}
use shadowledger.Prelude.Words.{add64}
use shadowledger.Prelude.Map.{Map, lookup, insert, bytes_key}
use shadowledger.Types.Encode.{put_u64}

-- `fixupEntry`
pub record Fixup : Type 0 where
  pub pos : ℕ
  pub label : ℕ

-- `gen`. A label is `none` until it is marked.
pub record Gen : Type 0 where
  pub code : Bytes
  pub vars : Map Bytes ℕ
  pub next : ℕ
  pub state : Map Bytes ℕ
  pub next_state : ℕ
  pub labels : List (Option ℕ)
  pub fixups : List Fixup

-- An error, a panic in an index, or the generator's state.
pub data Generated : Type 0 where
  generated : Gen → Generated
  rejected : Generated
  crashed : Generated

abbrev pub then_gen : Generated → (Gen → Generated) → Generated
then_gen (generated g) f = f g
then_gen rejected f = rejected
then_gen crashed f = crashed

abbrev pub local_base : ℕ
local_base = 0xFFFFFFFF00000000

abbrev pub state_base : ℕ
state_base = 0xFFFFFFF000000000

unfoldable pub emit : ℕ → Gen → Gen
emit b g = record g { code = g.code ++ (b ∷ []) }

-- `pushU64`, with the opcode of PUSH
unfoldable pub push_u64 : ℕ → Gen → Gen
push_u64 v g = record g { code = (g.code ++ (0x01 ∷ [])) ++ put_u64 v }

-- `newLabel`: the id is the number of labels so far.
unfoldable pub new_label : Gen → Gen
new_label g = record g { labels = g.labels ++ (none ∷ []) }

unfoldable pub set_label : ℕ → ℕ → List (Option ℕ) → List (Option ℕ)
set_label id pos [] = []
set_label zero pos (l ∷ labels) = some pos ∷ labels
set_label (suc id) pos (l ∷ labels) = l ∷ set_label id pos labels

-- `mark`, which panics at an id that is not there
unfoldable pub mark : ℕ → Gen → Generated
mark id g =
    if ltb id (length g.labels)
    then generated (record g { labels = set_label id (length g.code) g.labels })
    else crashed

-- `pushLabel`
unfoldable pub push_label : ℕ → Gen → Gen
push_label id g = record g {
  code = (g.code ++ (0x01 ∷ [])) ++ zeros 8;
  fixups = g.fixups ++ (record { pos = length g.code + 1; label = id } ∷ []);
}

-- `slot`
unfoldable pub slot : Bytes → Gen → ℕ × Gen
slot name g = elim (lookup name g.vars) [
  | some s ↦ (s, g)
  | none ↦ (g.next, record g { next = add64 g.next 1; vars = insert name g.next g.vars })
]

-- `declState`
unfoldable pub decl_state : Bytes → Gen → Gen
decl_state name g = elim (lookup name g.state) [
  | some _ ↦ g
  | none ↦ record g { next_state = add64 g.next_state 1; state = insert name g.next_state g.state }
]

-- What is written for a label: its position, or -1 as a uint64 where it was not marked.
abbrev pub label_word : Option ℕ → ℕ
label_word none = 2 ^ 64 - 1
label_word (some pos) = pos

-- One turn of the loop of `resolve`: eight bytes are written over; a position or a label that is not
-- there is a panic.
unfoldable pub patch : Fixup → List (Option ℕ) → Bytes → Option Bytes
patch f labels code = elim (get_elem? labels f.label) [
  | none ↦ none
  | some l ↦
      if ltb (length code) (f.pos + 8)
      then none
      else some (take f.pos code ++ (put_u64 (label_word l) ++ drop (f.pos + 8) code))
]

-- `resolve`
unfoldable pub resolve : List Fixup → List (Option ℕ) → Bytes → Option Bytes
resolve [] labels code = some code
resolve (f ∷ fixups) labels code = elim (patch f labels code) [
  | none ↦ none
  | some patched ↦ resolve fixups labels patched
]

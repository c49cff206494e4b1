-- ===== src/Shl/Lexer.antt =====
-- The lexer of internal/shl/lexer.go. The cursor holds the source that is left, with its index and line.
use shadowledger.Prelude.{
  ℕ, zero, suc, ◌+◌, ◌-◌, ◌*◌, ◌^◌, Bool, true, false, ◌&&◌, ◌||◌, List, [], ◌∷◌, Option, none,
  some, Bytes, length, leb, ltb, ◌==◌, if◌then◌else◌,
}

pub data TokKind : Type 0 where
  eof number ident punct : TokKind

pub record Token : Type 0 where
  pub kind : TokKind
  pub str : Bytes
  pub num : ℕ
  pub pos : ℕ
  pub line : ℕ

pub record Cursor : Type 0 where
  pub i : ℕ
  pub line : ℕ
  pub rest : Bytes

unfoldable pub is_digit : ℕ → Bool
is_digit c = leb 48 c && leb c 57

-- `isIdentStart`
unfoldable pub is_ident_start : ℕ → Bool
is_ident_start c = c == 95 || ((leb 97 c && leb c 122) || (leb 65 c && leb c 90))

-- `isIdentPart`
unfoldable pub is_ident_part : ℕ → Bool
is_ident_part c = is_ident_start c || is_digit c

-- A second slash comes next.
abbrev pub slash_next : Bytes → Bool
slash_next [] = false
slash_next (c ∷ cs) = c == 47

-- `skip`; the flag is on in the loop over a comment, which stops before the end of the line.
unfoldable pub skip : Bytes → Bool → ℕ → ℕ → Cursor
skip [] comment i line = record { i = i; line = line; rest = [] }
skip (c ∷ cs) comment i line =
    let next_line = skip cs false (i + 1) (line + 1) in
    let in_comment = skip cs true (i + 1) line in
    let next = skip cs false (i + 1) line in
    if c == 10
    then next_line
    else if comment
    then in_comment
    else if c == 32 || (c == 9 || c == 13)
    then next
    else if c == 47 && slash_next cs
    then in_comment
    else record { i = i; line = line; rest = c ∷ cs }

-- The loop over the characters of one token: those that pass, and what is left.
unfoldable pub span : (ℕ → Bool) → Bytes → Bytes × Bytes
span test [] = ([], [])
span test (c ∷ cs) =
    let (front, back) = span test cs in if test c then (c ∷ front, back) else ([], c ∷ cs)

-- `strconv.ParseUint` on digits; `none` where the number is out of range.
unfoldable pub parse_digits : ℕ → Bytes → ℕ
parse_digits n [] = n
parse_digits n (d ∷ ds) = parse_digits (n * 10 + (d - 48)) ds

unfoldable pub parse_uint : Bytes → Option ℕ
parse_uint ds = if ltb (parse_digits 0 ds) (2 ^ 64) then some (parse_digits 0 ds) else none

-- "==", "&&", "||", "!=", "<=", ">="
unfoldable pub is_pair : ℕ → ℕ → Bool
is_pair c d =
    (d == 61 && (c == 61 || (c == 33 || (c == 60 || c == 62))))
    || ((c == 38 && d == 38) || (c == 124 && d == 124))

-- The characters that are tokens of their own.
unfoldable pub is_single : ℕ → Bool
is_single c =
    (leb 40 c && leb c 47)
    || (c == 123 || (c == 125 || (c == 91 || (c == 93 || (c == 59 || (leb 60 c && leb c 62))))))
    || (c == 37 || c == 33)

-- A token and the cursor after it, or an error.
pub data Next : Type 0 where
  token : Token → Cursor → Next
  unexpected : Next

abbrev moved : Cursor → Bytes → Bytes → Cursor
moved c front back = record { i = c.i + length front; line = c.line; rest = back }

-- An operator, of two characters or of one.
unfoldable pub operator_token : Cursor → ℕ → Bytes → Next
operator_token c x [] =
    if is_single x
    then token (record { kind = TokKind.punct; str = x ∷ []; num = 0; pos = c.i; line = c.line })
        (moved c (x ∷ []) [])
    else unexpected
operator_token c x (y ∷ back) =
    if is_pair x y
    then token
        (record { kind = TokKind.punct; str = x ∷ y ∷ []; num = 0; pos = c.i; line = c.line })
        (moved c (x ∷ y ∷ []) back)
    else if is_single x
    then token (record { kind = TokKind.punct; str = x ∷ []; num = 0; pos = c.i; line = c.line })
        (moved c (x ∷ []) (y ∷ back))
    else unexpected

-- `next`, past the spaces
unfoldable pub next_token : Cursor → Bytes → Next
next_token c [] =
    token (record { kind = TokKind.eof; str = []; num = 0; pos = c.i; line = c.line }) c
next_token c (x ∷ back) =
    let (digits, after_digits) = span is_digit back in
    let (name, after_name) = span is_ident_part back in
    if is_digit x
    then elim (parse_uint (x ∷ digits)) [
      | none ↦ unexpected
      | some n ↦
          token (record { kind = TokKind.number; str = []; num = n; pos = c.i; line = c.line })
            (moved c (x ∷ digits) after_digits)
    ]
    else if is_ident_start x
    then token (record { kind = TokKind.ident; str = x ∷ name; num = 0; pos = c.i; line = c.line })
        (moved c (x ∷ name) after_name)
    else operator_token c x back

-- `next`
unfoldable pub next : Cursor → Next
next c = let d : Cursor = skip c.rest false c.i c.line in next_token d d.rest

-- The tokens, an error, or a loop that did not end within the fuel.
pub data Lexed : Type 0 where
  lexed : List Token → Lexed
  bad_source : Lexed
  spent : Lexed

abbrev pub cons_token : Token → Lexed → Lexed
cons_token t (lexed ts) = lexed (t ∷ ts)
cons_token t bad_source = bad_source
cons_token t spent = spent

-- What a token does to the tokens after it: the end of the source is the last.
abbrev pub and_more : Token → Lexed → Lexed
and_more t more = elim t.kind [ TokKind.eof ↦ lexed (t ∷ []) | _ ↦ cons_token t more ]

-- The loop of `lex`
unfoldable pub lex_loop : ℕ → Cursor → Lexed
lex_loop zero c = spent
lex_loop (suc n) c = elim (next c) [
  | unexpected ↦ bad_source
  | token t d ↦ and_more t (lex_loop n d)
]

-- `lex`, with a turn more than there are characters
unfoldable pub lex : Bytes → Lexed
lex src = lex_loop (length src + 1) (record { i = 0; line = 1; rest = src })

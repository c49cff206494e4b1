-- ===== src/Shl/Tokens.antt =====
-- The lexer ends (internal/shl/lexer.go): every token but the last takes a character.
use shadowledger.Prelude.{
  ℕ, zero, suc, ◌+◌, ◌≤◌, ◌<◌, ◌≡◌, ◌≢◌, refl, Bool, true, false, [], ◌∷◌, Option, none, some,
  Bytes, length, if◌then◌else◌, Bool-cases, inl, inr, ◌⊎◌, arith,
}
use shadowledger.Shl.Lexer.{
  TokKind, Token, Cursor, skip, span, is_digit, is_ident_start, is_ident_part, is_pair, is_single,
  parse_uint, Next, token, unexpected, operator_token, next_token, next, Lexed, lexed, bad_source,
  spent, cons_token, and_more, lex_loop, lex,
}

length-skip :
    (bs : Bytes) (comment : Bool) (i line : ℕ) → length (skip bs comment i line).rest ≤ length bs
unfolding skip
length-skip [] comment i line = omega arith
length-skip (c ∷ cs) comment i line =
    let a = length-skip cs false (i + 1) (line + 1) in
    let b = length-skip cs true (i + 1) line in
    let d = length-skip cs false (i + 1) line in ground arith

length-span : (test : ℕ → Bool) (bs : Bytes) → length (span test bs).1 ≤ length bs
unfolding span
length-span test [] = omega arith
length-span test (c ∷ cs) = let rest = length-span test cs in ground arith

-- A token that is the end, or that leaves fewer than so many characters.
abbrev IsShorter : ℕ → Next → Type 0
IsShorter n unexpected = Unit
IsShorter n (token t d) = (t.kind ≡ TokKind.eof) ⊎ (length d.rest < n)

operator_token-IsShorter :
    (c : Cursor) (x : ℕ) (back : Bytes) → IsShorter (suc (length back)) (operator_token c x back)
unfolding operator_token
operator_token-IsShorter c x [] = elim (Bool-cases (is_single x)) [
  | inl e ↦ rw e (inr (omega arith))
  | inr e ↦ rw e tt
]
operator_token-IsShorter c x (y ∷ back) = elim (Bool-cases (is_pair x y)) [
  | inl e ↦ rw e (inr (omega arith))
  | inr e ↦
      rw e (elim (Bool-cases (is_single x)) [ inl f ↦ rw f (inr (omega arith)) | inr f ↦ rw f tt ])
]

next_token-IsShorter : (c : Cursor) (bs : Bytes) → IsShorter (length bs) (next_token c bs)
unfolding next_token
next_token-IsShorter c [] = inl refl
next_token-IsShorter c (x ∷ back) =
    chosen (is_digit x) (is_ident_start x) (parse_uint (x ∷ (span is_digit back).0))
  where
    chosen :
        (digit start : Bool) (o : Option ℕ)
        → IsShorter (suc (length back)) (
            if digit
            then elim o as (λ _. Next) [
              | none ↦ unexpected
              | some n ↦
                  token
                    (record { kind = TokKind.number; str = []; num = n; pos = c.i; line = c.line })
                    (record {
                      i = c.i + length (x ∷ (span is_digit back).0);
                      line = c.line;
                      rest = (span is_digit back).1;
                    })
            ]
            else if start
            then token
                (record {
                  kind = TokKind.ident;
                  str = x ∷ (span is_ident_part back).0;
                  num = 0;
                  pos = c.i;
                  line = c.line;
                })
                (record {
                  i = c.i + length (x ∷ (span is_ident_part back).0);
                  line = c.line;
                  rest = (span is_ident_part back).1;
                })
            else operator_token c x back)
    chosen true start none = tt
    chosen true start (some n) = inr (omega (arith, length-span is_digit back))
    chosen false true o = inr (omega (arith, length-span is_ident_part back))
    chosen false false o = operator_token-IsShorter c x back

cons_token_ends : (t : Token) (more : Lexed) → more ≢ spent → cons_token t more ≢ spent
cons_token_ends t (lexed ts) h e = absurd (cc)
cons_token_ends t bad_source h e = absurd (cc)
cons_token_ends t spent h e = h refl

and_more_ends :
    (t : Token) (more : Lexed) → (t.kind ≡ TokKind.eof) ⊎ (more ≢ spent) → and_more t more ≢ spent
and_more_ends t more h = kinds t.kind h
  where
    kinds :
        (k : TokKind)
        → (k ≡ TokKind.eof) ⊎ (more ≢ spent)
        → (elim k as (λ _. Lexed) [ TokKind.eof ↦ lexed (t ∷ []) | _ ↦ cons_token t more ]) ≢ spent
    kinds TokKind.eof o e = absurd (cc)
    kinds TokKind.number (inl other) e = absurd (cc)
    kinds TokKind.number (inr ends) e = cons_token_ends t more ends e
    kinds TokKind.ident (inl other) e = absurd (cc)
    kinds TokKind.ident (inr ends) e = cons_token_ends t more ends e
    kinds TokKind.punct (inl other) e = absurd (cc)
    kinds TokKind.punct (inr ends) e = cons_token_ends t more ends e

lex_loop_ends : (n : ℕ) (c : Cursor) → length c.rest < n → lex_loop n c ≢ spent
unfolding lex_loop next
lex_loop_ends zero c h e = absurd (omega arith)
lex_loop_ends (suc n) c h e =
    let d : Cursor = skip c.rest false c.i c.line in
    stepped (next_token d d.rest) (next_token-IsShorter d d.rest)
      (length-skip c.rest false c.i c.line) (λ k. lex_loop_ends n k) e
  where
    stepped :
        {m : ℕ} (r : Next)
        → IsShorter m r
        → m ≤ length c.rest
        → ((k : Cursor) → length k.rest < n → lex_loop n k ≢ spent)
        → (elim r as (λ _. Lexed) [
          | unexpected ↦ bad_source
          | token t d ↦ and_more t (lex_loop n d)
        ])
          ≢ spent
    stepped unexpected s small rest e = absurd (cc)
    stepped (token t d) (inl last) small rest e = and_more_ends t (lex_loop n d) (inl last) e
    stepped (token t d) (inr less) small rest e =
        and_more_ends t (lex_loop n d) (inr (rest d (omega arith))) e

-- `lex` gives the tokens or an error for every source: its loop takes at most a turn more than there are
-- characters.
pub lex_ends : (src : Bytes) → lex src ≢ spent
unfolding lex
lex_ends src = lex_loop_ends (length src + 1) (record { i = 0; line = 1; rest = src }) (omega arith)

-- ===== src/Tests/Contracts.antt =====
-- A contract compiled.
use shadowledger.Prelude.{◌≡◌, ◌≢◌, refl, List, [], ◌∷◌, Bytes}
use shadowledger.Types.Encode.{put_u64}
use shadowledger.Vm.Stack.{be_bytes}
use shadowledger.Shl.Ast.{num, binary, require_stmt, return_stmt, Item, plain_stmt}
use shadowledger.Shl.Gen.{emit, push_u64, new_label, mark, set_label, push_label, patch, resolve}
use shadowledger.Shl.Code.{operator, expr_code, binop_code, emit_all, stmt_code}
use shadowledger.Shl.Compile.{
  compiled, panicked, compile, flat_code, flat_of, functions_of, declare_all, finish_code,
}
use shadowledger.Shl.Estimate.{estimate, estimate_loop, estimated_cost, pushed_constant}
use shadowledger.Shl.Program.{compile_ends}
use shadowledger.Shl.Lexer.{
  TokKind, lexed, spent, lex, lex_loop, next, next_token, skip, span, is_digit, is_ident_start,
  is_ident_part, is_pair, is_single, parse_uint, parse_digits, operator_token,
}
use shadowledger.Shl.Tokens.{lex_ends}
use shadowledger.Tests.Fixtures.{plain}

-- require(7 > 2); return 1;
abbrev guarded : List Item
guarded =
    plain_stmt (require_stmt (binary (b'>' ∷ []) (num 7) (num 2)))
    ∷ plain_stmt (return_stmt (num 1))
    ∷ []

abbrev guarded_code : Bytes
guarded_code =
    0x01 ∷ 0 ∷ 0 ∷ 0 ∷ 0 ∷ 0 ∷ 0 ∷ 0 ∷ 7 ∷ 0x01 ∷ 0 ∷ 0 ∷ 0 ∷ 0 ∷ 0 ∷ 0 ∷ 0 ∷ 2 ∷ 0x22 ∷ 0x01 ∷ 0
    ∷ 0 ∷ 0 ∷ 0 ∷ 0 ∷ 0 ∷ 0 ∷ 30 ∷ 0x41 ∷ 0x74 ∷ 0x01 ∷ 0 ∷ 0 ∷ 0 ∷ 0 ∷ 0 ∷ 0 ∷ 0 ∷ 1 ∷ 0x70 ∷ 0x00
    ∷ []

compile-guarded : compile plain guarded ≡ compiled guarded_code
unfolding compile flat_code flat_of functions_of declare_all finish_code stmt_code expr_code
    binop_code operator emit_all emit push_u64 new_label mark set_label push_label patch resolve
    put_u64 be_bytes
compile-guarded = refl

estimate-guarded : estimate guarded_code ≡ 17
unfolding estimate estimate_loop estimated_cost pushed_constant
estimate-guarded = refl

compile_ends_example : compile plain guarded ≢ panicked
compile_ends_example = compile_ends plain guarded

-- "a  // b\n >=  12;"
abbrev snippet : Bytes
snippet = 97 ∷ 32 ∷ 32 ∷ 47 ∷ 47 ∷ 32 ∷ 98 ∷ 10 ∷ 32 ∷ 62 ∷ 61 ∷ 32 ∷ 32 ∷ 49 ∷ 50 ∷ 59 ∷ []

lex-snippet :
    lex snippet
    ≡ lexed (
        record { kind = TokKind.ident; str = 97 ∷ []; num = 0; pos = 0; line = 1 }
        ∷ record { kind = TokKind.punct; str = 62 ∷ 61 ∷ []; num = 0; pos = 9; line = 2 }
        ∷ record { kind = TokKind.number; str = []; num = 12; pos = 13; line = 2 }
        ∷ record { kind = TokKind.punct; str = 59 ∷ []; num = 0; pos = 15; line = 2 }
        ∷ record { kind = TokKind.eof; str = []; num = 0; pos = 16; line = 2 }
        ∷ [])
unfolding lex lex_loop next next_token skip span is_digit is_ident_start is_ident_part is_pair
    is_single parse_uint parse_digits operator_token
lex-snippet = refl

lex_ends_example : lex snippet ≢ spent
lex_ends_example = lex_ends snippet

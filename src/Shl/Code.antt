-- ===== src/Shl/Code.antt =====
-- Code for expressions and statements: `expr`, `binop`, `stmt` and `stmts` of internal/shl/compile.go.
-- The bytes are the machine's opcodes.
use shadowledger.Prelude.{
  ℕ, ◌+◌, List, [], ◌∷◌, Option, none, some, Bytes, length, if◌then◌else◌, bytes_eq,
}
use shadowledger.Prelude.Map.{lookup, bytes_key}
use shadowledger.Shl.Ast.{
  Expr, num, var, load, index, builtin, arg, unary, binary, Stmt, let_stmt, store_stmt, index_store,
  if_stmt, while_stmt, emit_stmt, return_stmt, require_stmt, stop_stmt, revert_stmt, Stmts, end,
  and_then,
}
use shadowledger.Shl.Gen.{
  Gen, Generated, generated, rejected, then_gen, emit, push_u64, new_label, mark, push_label, slot,
}

-- `binop`: the bytes for an operator; `none` for an unknown one
unfoldable pub operator : Bytes → Option Bytes
operator op =
    if bytes_eq op (b'+' ∷ [])
    then some (0x15 ∷ [])
    else if bytes_eq op (b'-' ∷ [])
    then some (0x16 ∷ [])
    else if bytes_eq op (b'*' ∷ [])
    then some (0x17 ∷ [])
    else if bytes_eq op (b'/' ∷ [])
    then some (0x13 ∷ [])
    else if bytes_eq op (b'%' ∷ [])
    then some (0x14 ∷ [])
    else if bytes_eq op (b'=' ∷ b'=' ∷ [])
    then some (0x20 ∷ [])
    else if bytes_eq op (b'<' ∷ [])
    then some (0x21 ∷ [])
    else if bytes_eq op (b'>' ∷ [])
    then some (0x22 ∷ [])
    else if bytes_eq op (b'&' ∷ b'&' ∷ [])
    then some (0x24 ∷ [])
    else if bytes_eq op (b'|' ∷ b'|' ∷ [])
    then some (0x25 ∷ [])
    else if bytes_eq op (b'!' ∷ b'=' ∷ [])
    then some (0x20 ∷ 0x23 ∷ [])
    else if bytes_eq op (b'<' ∷ b'=' ∷ [])
    then some (0x22 ∷ 0x23 ∷ [])
    else if bytes_eq op (b'>' ∷ b'=' ∷ [])
    then some (0x21 ∷ 0x23 ∷ [])
    else none

unfoldable pub emit_all : Bytes → Gen → Gen
emit_all [] g = g
emit_all (b ∷ bs) g = emit_all bs (emit b g)

unfoldable pub binop_code : Bytes → Gen → Generated
binop_code op g = elim (operator op) [ none ↦ rejected | some bs ↦ generated (emit_all bs g) ]

-- The builtins without an argument.
unfoldable pub builtin_code : Bytes → Option ℕ
builtin_code name =
    if bytes_eq name (b'c' ∷ b'a' ∷ b'l' ∷ b'l' ∷ b'e' ∷ b'r' ∷ [])
    then some 0x60
    else if bytes_eq name (b'v' ∷ b'a' ∷ b'l' ∷ b'u' ∷ b'e' ∷ [])
    then some 0x61
    else if bytes_eq name (b'b' ∷ b'a' ∷ b'l' ∷ b'a' ∷ b'n' ∷ b'c' ∷ b'e' ∷ [])
    then some 0x62
    else if bytes_eq name (b's' ∷ b'e' ∷ b'l' ∷ b'f' ∷ [])
    then some 0x64
    else none

-- The slot of a variable: a local first, then a named state scalar.
unfoldable pub slot_of : Bytes → Gen → Option ℕ
slot_of name g = elim (lookup name g.vars) [ some s ↦ some s | none ↦ lookup name g.state ]

-- `expr`
unfoldable pub expr_code : Expr → Gen → Generated
expr_code (num v) g = generated (push_u64 v g)
expr_code (var name) g = elim (slot_of name g) [
  | none ↦ rejected
  | some s ↦ generated (emit 0x50 (push_u64 s g))
]
expr_code (load key) g = then_gen (expr_code key g) (λ h. generated (emit 0x50 h))
expr_code (index name key) g = elim (lookup name g.state) [
  | none ↦ rejected
  | some s ↦ then_gen (expr_code key (push_u64 s g)) (λ h. generated (emit 0x50 (emit 0x57 h)))
]
expr_code (builtin name) g = elim (builtin_code name) [
  | none ↦ rejected
  | some b ↦ generated (emit b g)
]
expr_code (arg x) g = then_gen (expr_code x g) (λ h. generated (emit 0x63 h))
expr_code (unary x) g = then_gen (expr_code x g) (λ h. generated (emit 0x23 h))
expr_code (binary op l r) g =
    then_gen (expr_code l g) (λ h. then_gen (expr_code r h) (binop_code op))

unfoldable pub exprs_code : List Expr → Gen → Generated
exprs_code [] g = generated g
exprs_code (e ∷ es) g = then_gen (expr_code e g) (exprs_code es)

-- The slot that an assignment writes: a named state scalar's, or a local's, allocated on first use.
unfoldable pub target_slot : Bytes → Gen → ℕ × Gen
target_slot name g = elim (lookup name g.state) [ some s ↦ (s, g) | none ↦ slot name g ]

unfoldable mutual
  -- `stmt`. The labels of a statement are the next two ids, or the next one.
  pub stmt_code : Stmt → Gen → Generated
  stmt_code (let_stmt name val) g =
      let (s, h) = target_slot name g in
      then_gen (expr_code val (push_u64 s h)) (λ k. generated (emit 0x51 k))
  stmt_code (store_stmt key val) g =
      then_gen (expr_code key g) (λ h. then_gen (expr_code val h) (λ k. generated (emit 0x51 k)))
  stmt_code (index_store name key val) g = elim (lookup name g.state) [
    | none ↦ rejected
    | some s ↦
        then_gen (expr_code key (push_u64 s g))
          (λ h. then_gen (expr_code val (emit 0x57 h)) (λ k. generated (emit 0x51 k)))
  ]
  stmt_code (if_stmt cond then_body else_body) g =
      let else_label = length g.labels in
      let end_label = length g.labels + 1 in
      then_gen (expr_code cond (new_label (new_label g))) (λ h.
        then_gen (stmts_code then_body (emit 0x41 (push_label else_label (emit 0x23 h)))) (λ i.
          then_gen (mark else_label (emit 0x40 (push_label end_label i)))
            (λ j. then_gen (stmts_code else_body j) (mark end_label))))
  stmt_code (while_stmt cond body) g =
      let start_label = length g.labels in
      let end_label = length g.labels + 1 in
      then_gen (mark start_label (new_label (new_label g))) (λ h. then_gen (expr_code cond h) (λ i.
        then_gen (stmts_code body (emit 0x41 (push_label end_label (emit 0x23 i))))
          (λ j. mark end_label (emit 0x40 (push_label start_label j)))))
  stmt_code (emit_stmt args) g =
      then_gen (exprs_code args g) (λ h. generated (emit 0x72 (push_u64 (length args) h)))
  stmt_code (return_stmt val) g = then_gen (expr_code val g) (λ h. generated (emit 0x70 h))
  stmt_code (require_stmt cond) g =
      let cont = length g.labels in
      then_gen (expr_code cond (new_label g))
        (λ h. mark cont (emit 0x74 (emit 0x41 (push_label cont h))))
  stmt_code stop_stmt g = generated (emit 0x00 g)
  stmt_code revert_stmt g = generated (emit 0x74 g)

  -- `stmts`
  pub stmts_code : Stmts → Gen → Generated
  stmts_code end g = generated g
  stmts_code (and_then s rest) g = then_gen (stmt_code s g) (stmts_code rest)

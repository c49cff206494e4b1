-- ===== src/Shl/Ast.antt =====
-- The syntax trees of internal/shl/parser.go. Names and operators are their bytes; a line number is
-- only in an error's text.
use shadowledger.Prelude.{ℕ, List, Bytes}

pub data Expr : Type 0 where
  num : ℕ → Expr
  var : Bytes → Expr
  load : Expr → Expr
  index : Bytes → Expr → Expr
  builtin : Bytes → Expr
  arg : Expr → Expr
  unary : Expr → Expr
  binary : Bytes → Expr → Expr → Expr

mutual
  pub data Stmt : Type 0 where
    let_stmt : Bytes → Expr → Stmt
    store_stmt : Expr → Expr → Stmt
    index_store : Bytes → Expr → Expr → Stmt
    if_stmt : Expr → Stmts → Stmts → Stmt
    while_stmt : Expr → Stmts → Stmt
    emit_stmt : List Expr → Stmt
    return_stmt : Expr → Stmt
    require_stmt : Expr → Stmt
    stop_stmt revert_stmt : Stmt

  pub data Stmts : Type 0 where
    end : Stmts
    and_then : Stmt → Stmts → Stmts

pub record FnDecl : Type 0 where
  pub name : Bytes
  pub params : List Bytes
  pub body : Stmts

-- What stands at the top level of a program.
pub data Item : Type 0 where
  state_decl : Bytes → Item
  fn_decl : FnDecl → Item
  plain_stmt : Stmt → Item

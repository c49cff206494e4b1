-- ===== src/Shl/Compile.antt =====
-- Whole programs: `Compile`, `dispatch` and `Selector` of internal/shl/compile.go, over the parsed items,
-- and `Estimate` of internal/shl/estimate.go.
use shadowledger.Prelude.{ℕ, ◌+◌, List, [], ◌∷◌, none, some, Bytes, length, take}
use shadowledger.Vm.Stack.{be_u64}
use shadowledger.Crypto.{Env}
use shadowledger.Shl.Ast.{Stmt, FnDecl, Item, state_decl, fn_decl, plain_stmt}
use shadowledger.Shl.Gen.{
  Gen, Generated, generated, rejected, crashed, then_gen, local_base, state_base, emit, push_u64,
  new_label, mark, push_label, slot, decl_state, resolve,
}
use shadowledger.Shl.Code.{stmt_code, stmts_code}

-- `Selector`
unfoldable pub selector : Env → Bytes → ℕ
selector env name = be_u64 0 (take 8 (env.sha256 name))

-- The first pass of `Compile`: the state variables, the functions and the flat statements.
unfoldable pub declare_all : List Item → Gen → Gen
declare_all [] g = g
declare_all (state_decl name ∷ items) g = declare_all items (decl_state name g)
declare_all (fn_decl f ∷ items) g = declare_all items g
declare_all (plain_stmt s ∷ items) g = declare_all items g

unfoldable pub functions_of : List Item → List FnDecl
functions_of [] = []
functions_of (state_decl name ∷ items) = functions_of items
functions_of (fn_decl f ∷ items) = f ∷ functions_of items
functions_of (plain_stmt s ∷ items) = functions_of items

unfoldable pub flat_of : List Item → List Stmt
flat_of [] = []
flat_of (state_decl name ∷ items) = flat_of items
flat_of (fn_decl f ∷ items) = flat_of items
flat_of (plain_stmt s ∷ items) = s ∷ flat_of items

unfoldable pub flat_code : List Stmt → Gen → Generated
flat_code [] g = generated g
flat_code (s ∷ rest) g = then_gen (stmt_code s g) (flat_code rest)

-- The first loop of `dispatch`, where a function's label is the next id.
unfoldable pub route : Env → List FnDecl → Gen → Gen
route env [] g = g
route env (f ∷ fns) g =
    let label = length g.labels in
    route env fns (
      emit 0x41
        (push_label label (emit 0x20 (push_u64 (selector env f.name) (emit 0x30 (new_label g))))))

-- The parameters of a function, bound to the words of the call data from word `i` on.
unfoldable pub bind_params : List Bytes → ℕ → Gen → Gen
bind_params [] i g = g
bind_params (p ∷ params) i g =
    let (s, h) = slot p g in
    bind_params params (i + 1) (emit 0x51 (emit 0x63 (push_u64 i (push_u64 s h))))

-- One turn of the second loop of `dispatch`.
unfoldable pub function_code : FnDecl → ℕ → Gen → Generated
function_code f label g = then_gen (mark label g) (λ h.
    then_gen
      (stmts_code f.body
        (bind_params f.params 1 (record (emit 0x02 h) { vars = []; next = local_base })))
      (λ k. generated (emit 0x00 k)))

-- The second loop of `dispatch`, over the functions and their labels.
unfoldable pub functions_code : List FnDecl → ℕ → Gen → Generated
functions_code [] label g = generated g
functions_code (f ∷ fns) label g =
    then_gen (function_code f label g) (functions_code fns (label + 1))

-- `dispatch`
unfoldable pub dispatch : Env → List FnDecl → Gen → Generated
dispatch env fns g =
    let first_label = length g.labels in
    functions_code fns first_label
      (emit 0x74 (emit 0x02 (route env fns (emit 0x63 (push_u64 0 g)))))

-- What `Compile` gives: the code, an error, or a panic.
pub data Compiled : Type 0 where
  compiled : Bytes → Compiled
  refused : Compiled
  panicked : Compiled

abbrev pub empty_gen : Gen
empty_gen = record {
  code = [];
  vars = [];
  next = local_base;
  state = [];
  next_state = state_base;
  labels = [];
  fixups = [];
}

-- The end of `Compile`: STOP, and the labels filled in.
unfoldable pub finish_code : Generated → Compiled
finish_code rejected = refused
finish_code crashed = panicked
finish_code (generated g) = elim (resolve (emit 0x00 g).fixups g.labels (emit 0x00 g).code) [
  | none ↦ panicked
  | some code ↦ compiled code
]

-- `Compile`, over the items that `Parse` gives
unfoldable pub compile : Env → List Item → Compiled
compile env items = finish_code (
    then_gen (flat_code (flat_of items) (declare_all items empty_gen))
      (λ g. elim (functions_of items) [ [] ↦ generated g | f ∷ fns ↦ dispatch env (f ∷ fns) g ]))

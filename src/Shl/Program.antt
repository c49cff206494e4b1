-- ===== src/Shl/Program.antt =====
-- Compiling never panics (internal/shl/compile.go).
use mathlib.Core.Path.{subst}
use shadowledger.Prelude.{
  ℕ, zero, suc, ◌+◌, ◌-◌, ◌≤◌, ◌<◌, ◌≡◌, ◌≢◌, refl, sym, ◌∙◌, false, List, [], ◌∷◌, ◌++◌, Option,
  none, some, Bytes, length, take, drop, length-append, length-take, get_elem?-eq-some, ltb, All,
  arith,
}
use shadowledger.Prelude.Words.{add64}
use shadowledger.Prelude.Map.{lookup, insert, bytes_key}
use shadowledger.Crypto.{Env}
use shadowledger.Types.Encode.{put_u64}
use shadowledger.Vm.Stack.{be_bytes}
use shadowledger.Shl.Ast.{Stmt, FnDecl, Item, state_decl, fn_decl, plain_stmt}
use shadowledger.Shl.Gen.{
  Fixup, Gen, Generated, generated, rejected, crashed, emit, push_u64, new_label, push_label, slot,
  decl_state, patch, resolve, local_base, label_word,
}
use shadowledger.Shl.Code.{stmt_code}
use shadowledger.Shl.Compile.{
  selector, declare_all, functions_of, flat_of, flat_code, route, bind_params, function_code,
  functions_code, dispatch, Compiled, compiled, panicked, empty_gen, finish_code, compile,
}
use shadowledger.Shl.Grows.{
  IsInside, IsGood, IsGrown, same-IsGrown, chained-IsGrown, emit-IsGrown, push_u64-IsGrown,
  new_label-IsGrown, push_label-IsGrown, IsSafe, mark-IsSafe, then_gen-IsSafe, from-IsSafe,
  slot-IsGrown,
}
use shadowledger.Shl.Sound.{stmt_code-IsSafe, stmts_code-IsSafe}

flat_code-IsSafe : (ss : List Stmt) (g : Gen) → IsSafe g (flat_code ss g)
unfolding flat_code
flat_code-IsSafe [] g = same-IsGrown g
flat_code-IsSafe (s ∷ ss) g =
    then_gen-IsSafe g (stmt_code s g) _ (stmt_code-IsSafe s g) (λ h a. flat_code-IsSafe ss h)

-- The router has a label for every function.
route-IsGrown :
    (env : Env) (fns : List FnDecl) (g : Gen)
    → IsGrown g (route env fns g) × (length g.labels + length fns ≤ length (route env fns g).labels)
unfolding route
route-IsGrown env [] g = (same-IsGrown g, omega arith)
route-IsGrown env (f ∷ fns) g =
    let (one, n) = new_label-IsGrown g in
    let two = emit-IsGrown 0x30 (new_label g) in
    let three = push_u64-IsGrown (selector env f.name) (emit 0x30 (new_label g)) in
    let asked : Gen = push_u64 (selector env f.name) (emit 0x30 (new_label g)) in
    let four = emit-IsGrown 0x20 asked in
    let five =
      push_label-IsGrown (length g.labels) (emit 0x20 asked)
        (omega (arith, n, two.labels, three.labels, four.labels)) in
    let jump : Gen = push_label (length g.labels) (emit 0x20 asked) in
    let six = emit-IsGrown 0x41 jump in
    let (rest, m) = route-IsGrown env fns (emit 0x41 jump) in
    (
      chained-IsGrown g (new_label g) _ one (
          chained-IsGrown (new_label g) (emit 0x30 (new_label g)) _ two (
            chained-IsGrown (emit 0x30 (new_label g)) asked _ three (
              chained-IsGrown asked (emit 0x20 asked) _ four (
                chained-IsGrown (emit 0x20 asked) jump _ five
                  (chained-IsGrown jump (emit 0x41 jump) _ six rest))))),
      omega (arith, n, m, two.labels, three.labels, four.labels, five.labels, six.labels),
    )

bind_params-IsGrown : (ps : List Bytes) (i : ℕ) (g : Gen) → IsGrown g (bind_params ps i g)
unfolding bind_params
bind_params-IsGrown [] i g = same-IsGrown g
bind_params-IsGrown (p ∷ ps) i g =
    let h : Gen = (slot p g).1 in
    let k : Gen = push_u64 (slot p g).0 h in
    let l : Gen = push_u64 i k in
    chained-IsGrown g h _ (slot-IsGrown p g) (
      chained-IsGrown h k _ (push_u64-IsGrown _ h) (
        chained-IsGrown k l _ (push_u64-IsGrown i k) (
          chained-IsGrown l (emit 0x63 l) _ (emit-IsGrown 0x63 l) (
            chained-IsGrown (emit 0x63 l) (emit 0x51 (emit 0x63 l)) _ (emit-IsGrown 0x51 _)
              (bind_params-IsGrown ps (i + 1) (emit 0x51 (emit 0x63 l)))))))

-- A new scope leaves code and labels.
scope-IsGrown : (g : Gen) → IsGrown g (record g { vars = []; next = local_base })
scope-IsGrown g = record { labels = omega arith; code = omega arith; good = λ x. x }

function_code-IsSafe :
    (f : FnDecl) (label : ℕ) (g : Gen)
    → label < length g.labels
    → IsSafe g (function_code f label g)
unfolding function_code
function_code-IsSafe f label g inside = then_gen-IsSafe g _ _ (mark-IsSafe label g inside) (λ h a.
    let scope : Gen = record (emit 0x02 h) { vars = []; next = local_base } in
    let bound : Gen = bind_params f.params 1 scope in
    from-IsSafe h bound _
      (chained-IsGrown h (emit 0x02 h) _ (emit-IsGrown 0x02 h) (
        chained-IsGrown (emit 0x02 h) scope _ (scope-IsGrown (emit 0x02 h))
          (bind_params-IsGrown f.params 1 scope)))
      (then_gen-IsSafe bound _ _ (stmts_code-IsSafe f.body bound) (λ k b. emit-IsGrown 0x00 k)))

functions_code-IsSafe :
    (fns : List FnDecl) (label : ℕ) (g : Gen)
    → label + length fns ≤ length g.labels
    → IsSafe g (functions_code fns label g)
unfolding functions_code
functions_code-IsSafe [] label g room = same-IsGrown g
functions_code-IsSafe (f ∷ fns) label g room =
    then_gen-IsSafe g _ _ (function_code-IsSafe f label g (omega arith))
      (λ h a. functions_code-IsSafe fns (label + 1) h (omega (arith, a.labels)))

dispatch-IsSafe : (env : Env) (fns : List FnDecl) (g : Gen) → IsSafe g (dispatch env fns g)
unfolding dispatch
dispatch-IsSafe env fns g =
    let one = push_u64-IsGrown 0 g in
    let two = emit-IsGrown 0x63 (push_u64 0 g) in
    let loaded : Gen = emit 0x63 (push_u64 0 g) in
    let (three, n) = route-IsGrown env fns loaded in
    let routed : Gen = route env fns loaded in
    let four = emit-IsGrown 0x02 routed in
    let five = emit-IsGrown 0x74 (emit 0x02 routed) in
    from-IsSafe g (emit 0x74 (emit 0x02 routed)) _
      (chained-IsGrown g (push_u64 0 g) _ one (
        chained-IsGrown (push_u64 0 g) loaded _ two (
          chained-IsGrown loaded routed _ three
            (chained-IsGrown routed (emit 0x02 routed) _ four five))))
      (functions_code-IsSafe fns (length g.labels) (emit 0x74 (emit 0x02 routed))
        (omega (arith, n, one.labels, two.labels, four.labels, five.labels)))

word_length : (v : ℕ) → length (put_u64 v) ≡ 8
unfolding put_u64 be_bytes
word_length v = refl

length-drop : (n : ℕ) (xs : Bytes) → length (drop n xs) ≡ length xs - n
length-drop zero xs = omega arith
length-drop (suc n) [] = omega arith
length-drop (suc n) (x ∷ xs) = omega (arith, length-drop n xs)

-- A placeholder inside the code is written over, and the code keeps its length.
length-patch :
    (f : Fixup) (labels : List (Option ℕ)) (code : Bytes)
    → IsInside (length labels) (length code) f
    → (new : Bytes) × ((patch f labels code ≡ some new) × (length new ≡ length code))
unfolding patch
length-patch f labels code (known, inside) =
    let (l, e) = get_elem?-eq-some labels f.label known in
    let fits : ltb (length code) (f.pos + 8) ≡ false = ground arith in
    let new : Bytes = take f.pos code ++ (put_u64 (label_word l) ++ drop (f.pos + 8) code) in
    (
      new,
      (
        rw (e, fits, patch) refl,
        omega (
          arith,
          length-append (take f.pos code) (put_u64 (label_word l) ++ drop (f.pos + 8) code),
          length-append (put_u64 (label_word l)) (drop (f.pos + 8) code),
          word_length (label_word l),
          length-take f.pos code,
          length-drop (f.pos + 8) code,
        ),
      ),
    )

resolve_ends :
    (fs : List Fixup) (labels : List (Option ℕ)) (code : Bytes)
    → All (IsInside (length labels) (length code)) fs
    → resolve fs labels code ≢ none
unfolding resolve
resolve_ends [] labels code h e = absurd (cc)
resolve_ends (f ∷ fs) labels code h e =
    let (new, (done, same)) = length-patch f labels code h.0 in
    let rest : All (IsInside (length labels) (length new)) fs =
      subst (λ n. All (IsInside (length labels) n) fs) (sym same) h.1 in
    resolve_ends fs labels new rest (sym (rw (done, resolve) refl) ∙ e)

decl_state-IsGrown : (name : Bytes) (g : Gen) → IsGrown g (decl_state name g)
unfolding decl_state
decl_state-IsGrown name g = found (lookup name g.state)
  where
    found :
        (o : Option ℕ)
        → IsGrown g (elim o as (λ _. Gen) [
          | some _ ↦ g
          | none ↦ record g {
            next_state = add64 g.next_state 1;
            state = insert name g.next_state g.state;
          }
        ])
    found (some s) = same-IsGrown g
    found none = record { labels = omega arith; code = omega arith; good = λ x. x }

declare_all-IsGrown : (items : List Item) (g : Gen) → IsGrown g (declare_all items g)
unfolding declare_all
declare_all-IsGrown [] g = same-IsGrown g
declare_all-IsGrown (state_decl name ∷ items) g =
    chained-IsGrown g (decl_state name g) _ (decl_state-IsGrown name g)
      (declare_all-IsGrown items (decl_state name g))
declare_all-IsGrown (fn_decl f ∷ items) g = declare_all-IsGrown items g
declare_all-IsGrown (plain_stmt s ∷ items) g = declare_all-IsGrown items g

-- What the end of a compilation makes of an outcome that is safe from a good state.
finish_code_ends : (g : Gen) (r : Generated) → IsGood g → IsSafe g r → finish_code r ≢ panicked
unfolding finish_code emit
finish_code_ends g rejected good safe e = absurd (cc)
finish_code_ends g crashed good safe e = safe
finish_code_ends g (generated h) good safe e =
    let stopped : IsGrown h (emit 0x00 h) = emit-IsGrown 0x00 h in
    let inside = stopped.good (safe.good good) in
    resolved (resolve h.fixups h.labels (h.code ++ (0x00 ∷ [])))
      (resolve_ends h.fixups h.labels (h.code ++ (0x00 ∷ [])) inside) e
  where
    resolved :
        (o : Option Bytes)
        → o ≢ none
        → (elim o as (λ _. Compiled) [ none ↦ panicked | some code ↦ compiled code ]) ≢ panicked
    resolved none n k = n refl
    resolved (some code) n k = absurd (cc)

-- `Compile` gives code or an error for every program, and never panics: every label that it writes is
-- one of its labels, and every placeholder that it fills in lies inside the code.
pub compile_ends : (env : Env) (items : List Item) → compile env items ≢ panicked
unfolding compile
compile_ends env items =
    let start : Gen = declare_all items empty_gen in
    let good : IsGood start = (declare_all-IsGrown items empty_gen).good tt in
    finish_code_ends start _ good (
      then_gen-IsSafe start _ _ (flat_code-IsSafe (flat_of items) start)
        (λ g a. routed g (functions_of items)))
  where
    routed :
        (g : Gen) (fns : List FnDecl)
        → IsSafe g (elim fns as (λ _. Generated) [
          | [] ↦ generated g
          | f ∷ rest ↦ dispatch env (f ∷ rest) g
        ])
    routed g [] = same-IsGrown g
    routed g (f ∷ rest) = dispatch-IsSafe env (f ∷ rest) g

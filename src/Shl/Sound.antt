-- ===== src/Shl/Sound.antt =====
-- No statement makes the generator panic (internal/shl/compile.go).
use shadowledger.Prelude.{ℕ, ◌+◌, ◌<◌, ◌≡◌, List, [], ◌∷◌, Option, none, some, Bytes, length, arith}
use shadowledger.Prelude.Map.{lookup, bytes_key}
use shadowledger.Shl.Ast.{
  Expr, num, var, load, index, builtin, arg, unary, binary, Stmt, let_stmt, store_stmt, index_store,
  if_stmt, while_stmt, emit_stmt, return_stmt, require_stmt, stop_stmt, revert_stmt, Stmts, end,
  and_then,
}
use shadowledger.Shl.Gen.{
  Gen, Generated, generated, rejected, then_gen, emit, push_u64, new_label, push_label, slot,
}
use shadowledger.Shl.Code.{
  operator, emit_all, binop_code, builtin_code, slot_of, expr_code, exprs_code, target_slot,
  stmt_code, stmts_code,
}
use shadowledger.Shl.Grows.{
  IsGrown, same-IsGrown, chained-IsGrown, emit-IsGrown, push_u64-IsGrown, new_label-IsGrown,
  push_label-IsGrown, IsSafe, mark-IsSafe, then_gen-IsSafe, from-IsSafe, slot-IsGrown,
}

emit_all-IsGrown : (bs : Bytes) (g : Gen) → IsGrown g (emit_all bs g)
unfolding emit_all
emit_all-IsGrown [] g = same-IsGrown g
emit_all-IsGrown (b ∷ bs) g =
    chained-IsGrown g (emit b g) _ (emit-IsGrown b g) (emit_all-IsGrown bs (emit b g))

-- An outcome that depends on a lookup.
looked_up-IsSafe :
    {A : Type 0} (g : Gen) (f : A → Generated) (o : Option A)
    → ((a : A) → IsSafe g (f a))
    → IsSafe g (elim o as (λ _. Generated) [ none ↦ rejected | some a ↦ f a ])
looked_up-IsSafe g f none h = tt
looked_up-IsSafe g f (some a) h = h a

binop_code-IsSafe : (op : Bytes) (g : Gen) → IsSafe g (binop_code op g)
unfolding binop_code
binop_code-IsSafe op g =
    looked_up-IsSafe g (λ bs. generated (emit_all bs g)) (operator op) (λ bs. emit_all-IsGrown bs g)

pub expr_code-IsSafe : (e : Expr) (g : Gen) → IsSafe g (expr_code e g)
unfolding expr_code
expr_code-IsSafe (num v) g = push_u64-IsGrown v g
expr_code-IsSafe (var name) g =
    looked_up-IsSafe g (λ s. generated (emit 0x50 (push_u64 s g))) (slot_of name g)
      (λ s. chained-IsGrown g (push_u64 s g) _ (push_u64-IsGrown s g) (emit-IsGrown 0x50 _))
expr_code-IsSafe (load key) g =
    then_gen-IsSafe g (expr_code key g) _ (expr_code-IsSafe key g) (λ h a. emit-IsGrown 0x50 h)
expr_code-IsSafe (index name key) g =
    looked_up-IsSafe g
      (λ s. then_gen (expr_code key (push_u64 s g)) (λ h. generated (emit 0x50 (emit 0x57 h))))
      (lookup name g.state)
      (λ s. from-IsSafe g (push_u64 s g) _ (push_u64-IsGrown s g) (
        then_gen-IsSafe (push_u64 s g) (expr_code key (push_u64 s g)) _
          (expr_code-IsSafe key (push_u64 s g))
          (λ h a. chained-IsGrown h (emit 0x57 h) _ (emit-IsGrown 0x57 h) (emit-IsGrown 0x50 _))))
expr_code-IsSafe (builtin name) g =
    looked_up-IsSafe g (λ b. generated (emit b g)) (builtin_code name) (λ b. emit-IsGrown b g)
expr_code-IsSafe (arg x) g =
    then_gen-IsSafe g (expr_code x g) _ (expr_code-IsSafe x g) (λ h a. emit-IsGrown 0x63 h)
expr_code-IsSafe (unary x) g =
    then_gen-IsSafe g (expr_code x g) _ (expr_code-IsSafe x g) (λ h a. emit-IsGrown 0x23 h)
expr_code-IsSafe (binary op l r) g =
    then_gen-IsSafe g (expr_code l g) _ (expr_code-IsSafe l g) (λ h a.
      then_gen-IsSafe h (expr_code r h) _ (expr_code-IsSafe r h) (λ k b. binop_code-IsSafe op k))

exprs_code-IsSafe : (es : List Expr) (g : Gen) → IsSafe g (exprs_code es g)
unfolding exprs_code
exprs_code-IsSafe [] g = same-IsGrown g
exprs_code-IsSafe (e ∷ es) g =
    then_gen-IsSafe g (expr_code e g) _ (expr_code-IsSafe e g) (λ h a. exprs_code-IsSafe es h)

target_slot-IsGrown : (name : Bytes) (g : Gen) → IsGrown g (target_slot name g).1
unfolding target_slot
target_slot-IsGrown name g = found (lookup name g.state)
  where
    found :
        (o : Option ℕ)
        → IsGrown g (elim o as (λ _. ℕ × Gen) [ some s ↦ (s, g) | none ↦ slot name g ]).1
    found (some s) = same-IsGrown g
    found none = slot-IsGrown name g

-- A jump to a label that is there: an opcode, the placeholder and the jump.
jump-IsGrown : (id op : ℕ) (g : Gen) → id < length g.labels → IsGrown g (emit op (push_label id g))
jump-IsGrown id op g h =
    chained-IsGrown g (push_label id g) _ (push_label-IsGrown id g h) (emit-IsGrown op _)

branch-IsGrown :
    (id : ℕ) (g : Gen) → id < length g.labels → IsGrown g (emit 0x41 (push_label id (emit 0x23 g)))
branch-IsGrown id g h =
    let a = emit-IsGrown 0x23 g in
    chained-IsGrown g (emit 0x23 g) _ a
      (jump-IsGrown id 0x41 (emit 0x23 g) (omega (arith, h, a.labels)))

two_labels :
    (g : Gen)
    → IsGrown g (new_label (new_label g))
      × (length (new_label (new_label g)).labels ≡ length g.labels + 2)
two_labels g =
    let (one, n) = new_label-IsGrown g in
    let (two, m) = new_label-IsGrown (new_label g) in
    (chained-IsGrown g (new_label g) _ one two, omega (arith, n, m))

mutual
  unfolding stmt_code

  pub stmt_code-IsSafe : (s : Stmt) (g : Gen) → IsSafe g (stmt_code s g)
  stmt_code-IsSafe (let_stmt name val) g =
      let h : Gen = (target_slot name g).1 in
      let k : Gen = push_u64 (target_slot name g).0 h in
      from-IsSafe g k _ (chained-IsGrown g h k (target_slot-IsGrown name g) (push_u64-IsGrown _ h))
        (then_gen-IsSafe k (expr_code val k) _ (expr_code-IsSafe val k)
          (λ l a. emit-IsGrown 0x51 l))
  stmt_code-IsSafe (store_stmt key val) g =
      then_gen-IsSafe g (expr_code key g) _ (expr_code-IsSafe key g) (λ h a.
        then_gen-IsSafe h (expr_code val h) _ (expr_code-IsSafe val h) (λ k b. emit-IsGrown 0x51 k))
  stmt_code-IsSafe (index_store name key val) g =
      looked_up-IsSafe g
        (λ s.
          then_gen (expr_code key (push_u64 s g))
            (λ h. then_gen (expr_code val (emit 0x57 h)) (λ k. generated (emit 0x51 k))))
        (lookup name g.state)
        (λ s. from-IsSafe g (push_u64 s g) _ (push_u64-IsGrown s g) (
          then_gen-IsSafe (push_u64 s g) _ _ (expr_code-IsSafe key (push_u64 s g)) (λ h a.
            from-IsSafe h (emit 0x57 h) _ (emit-IsGrown 0x57 h) (
              then_gen-IsSafe (emit 0x57 h) _ _ (expr_code-IsSafe val (emit 0x57 h))
                (λ k b. emit-IsGrown 0x51 k)))))
  stmt_code-IsSafe (if_stmt cond then_body else_body) g =
      let start : Gen = new_label (new_label g) in
      let (grown, count) = two_labels g in
      from-IsSafe g start _ grown (
        then_gen-IsSafe start _ _ (expr_code-IsSafe cond start) (λ h a.
          let test : Gen = emit 0x41 (push_label (length g.labels) (emit 0x23 h)) in
          let b = branch-IsGrown (length g.labels) h (omega (arith, count, a.labels)) in
          from-IsSafe h test _ b (
            then_gen-IsSafe test _ _ (stmts_code-IsSafe then_body test) (λ i c.
              let skip : Gen = emit 0x40 (push_label (length g.labels + 1) i) in
              let d =
                jump-IsGrown (length g.labels + 1) 0x40 i
                  (omega (arith, count, a.labels, b.labels, c.labels)) in
              from-IsSafe i skip _ d (
                then_gen-IsSafe skip _ _
                  (mark-IsSafe (length g.labels) skip
                    (omega (arith, count, a.labels, b.labels, c.labels, d.labels)))
                  (λ j e. then_gen-IsSafe j _ _ (stmts_code-IsSafe else_body j) (λ k f.
                    mark-IsSafe (length g.labels + 1) k (
                      omega (
                        arith, count, a.labels, b.labels, c.labels, d.labels, e.labels, f.labels,
                      )))))))))
  stmt_code-IsSafe (while_stmt cond body) g =
      let start : Gen = new_label (new_label g) in
      let (grown, count) = two_labels g in
      from-IsSafe g start _ grown (
        then_gen-IsSafe start _ _ (mark-IsSafe (length g.labels) start (omega (arith, count)))
          (λ h a. then_gen-IsSafe h _ _ (expr_code-IsSafe cond h) (λ i b.
            let test : Gen = emit 0x41 (push_label (length g.labels + 1) (emit 0x23 i)) in
            let c =
              branch-IsGrown (length g.labels + 1) i (omega (arith, count, a.labels, b.labels)) in
            from-IsSafe i test _ c (
              then_gen-IsSafe test _ _ (stmts_code-IsSafe body test) (λ j d.
                let back : Gen = emit 0x40 (push_label (length g.labels) j) in
                let e =
                  jump-IsGrown (length g.labels) 0x40 j
                    (omega (arith, count, a.labels, b.labels, c.labels, d.labels)) in
                from-IsSafe j back _ e (
                  mark-IsSafe (length g.labels + 1) back
                    (omega (arith, count, a.labels, b.labels, c.labels, d.labels, e.labels))))))))
  stmt_code-IsSafe (emit_stmt args) g =
      then_gen-IsSafe g (exprs_code args g) _ (exprs_code-IsSafe args g) (λ h a.
        chained-IsGrown h (push_u64 (length args) h) _ (push_u64-IsGrown (length args) h)
          (emit-IsGrown 0x72 _))
  stmt_code-IsSafe (return_stmt val) g =
      then_gen-IsSafe g (expr_code val g) _ (expr_code-IsSafe val g) (λ h a. emit-IsGrown 0x70 h)
  stmt_code-IsSafe (require_stmt cond) g =
      let (one, n) = new_label-IsGrown g in
      from-IsSafe g (new_label g) _ one (
        then_gen-IsSafe (new_label g) _ _ (expr_code-IsSafe cond (new_label g)) (λ h a.
          let jump : Gen = emit 0x41 (push_label (length g.labels) h) in
          let b = jump-IsGrown (length g.labels) 0x41 h (omega (arith, n, a.labels)) in
          let c = emit-IsGrown 0x74 jump in
          from-IsSafe h (emit 0x74 jump) _ (chained-IsGrown h jump _ b c) (
            mark-IsSafe (length g.labels) (emit 0x74 jump)
              (omega (arith, n, a.labels, b.labels, c.labels)))))
  stmt_code-IsSafe stop_stmt g = emit-IsGrown 0x00 g
  stmt_code-IsSafe revert_stmt g = emit-IsGrown 0x74 g

  pub stmts_code-IsSafe : (ss : Stmts) (g : Gen) → IsSafe g (stmts_code ss g)
  stmts_code-IsSafe end g = same-IsGrown g
  stmts_code-IsSafe (and_then s rest) g =
      then_gen-IsSafe g (stmt_code s g) _ (stmt_code-IsSafe s g) (λ h a. stmts_code-IsSafe rest h)

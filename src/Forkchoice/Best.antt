-- ===== src/Forkchoice/Best.antt =====
-- `Best` picks one tip, whatever the order in which the map is read
-- (internal/forkchoice/forkchoice.go).
use shadowledger.Prelude.{
  ℕ, ◌≡◌, refl, ◌∙◌, false, List, [], ◌∷◌, Bytes, if◌then◌else◌, Bool-cases, inl, inr, ◌⊎◌,
}
use shadowledger.Forkchoice.Tree.{Entry, BlockTree, beats, best_loop, best_tip}
use shadowledger.Forkchoice.Order.{IsTip, beats_irrefl, beats_asym, beats_trans, beats_total}

-- A block of the tree, with its cumulative weight.
abbrev pub IsTipOf : Bytes × ℕ → List (Bytes × Entry) → Type 0
IsTipOf p [] = ⊥
IsTipOf p ((id, e) ∷ nodes) = (p ≡ (id, e.cum)) ⊎ IsTipOf p nodes

-- Every id is a hash of 32 bytes.
abbrev pub AreIds : List (Bytes × Entry) → Type 0
AreIds nodes = (p : Bytes × ℕ) → IsTipOf p nodes → IsTip p

-- The better of two tips is beaten by neither.
module _ (q best : Bytes × ℕ) where
  pub better-IsTip : IsTip q → IsTip best → IsTip (if beats q best then q else best)
  better-IsTip hq hb = elim (Bool-cases (beats q best)) [ inl e ↦ rw e hq | inr e ↦ rw e hb ]

  beats-better_old : beats best (if beats q best then q else best) ≡ false
  beats-better_old = elim (Bool-cases (beats q best)) [
    | inl e ↦ rw e (beats_asym q best e)
    | inr e ↦ rw e (beats_irrefl best)
  ]

  beats-better_new : beats q (if beats q best then q else best) ≡ false
  beats-better_new = elim (Bool-cases (beats q best)) [
    | inl e ↦ let same : (if beats q best then q else best) ≡ q = rw e in rw same (beats_irrefl q)
    | inr e ↦ let same : (if beats q best then q else best) ≡ best = rw e in rw same e
  ]

better_of :
    (q best : Bytes × ℕ)
    → ((if beats q best then q else best) ≡ q) ⊎ ((if beats q best then q else best) ≡ best)
better_of q best = elim (Bool-cases (beats q best)) [ inl e ↦ inl (rw e) | inr e ↦ inr (rw e) ]

best_loop-IsTip :
    (nodes : List (Bytes × Entry)) (best : Bytes × ℕ)
    → IsTip best
    → AreIds nodes
    → IsTip (best_loop best nodes)
unfolding best_loop
best_loop-IsTip [] best h ids = h
best_loop-IsTip ((id, e) ∷ nodes) best h ids =
    best_loop-IsTip nodes (if beats (id, e.cum) best then (id, e.cum) else best)
      (better-IsTip (id, e.cum) best (ids _ (inl refl)) h) (λ p m. ids p (inr m))

-- The tip that the loop starts from does not beat the one that it ends with.
beats-best_loop :
    (nodes : List (Bytes × Entry)) (best : Bytes × ℕ)
    → IsTip best
    → AreIds nodes
    → beats best (best_loop best nodes) ≡ false
unfolding best_loop
beats-best_loop [] best h ids = beats_irrefl best
beats-best_loop ((id, e) ∷ nodes) best h ids =
    let q : Bytes × ℕ = (id, e.cum) in
    let next : Bytes × ℕ = if beats q best then q else best in
    let hn : IsTip next = better-IsTip q best (ids q (inl refl)) h in
    let rest : AreIds nodes = λ p m. ids p (inr m) in
    beats_trans best next (best_loop next nodes) h hn (best_loop-IsTip nodes next hn rest)
      (beats-better_old q best) (beats-best_loop nodes next hn rest)

unbeaten :
    (nodes : List (Bytes × Entry)) (best p : Bytes × ℕ)
    → IsTip best
    → AreIds nodes
    → IsTipOf p nodes
    → beats p (best_loop best nodes) ≡ false
unfolding best_loop
unbeaten [] best p h ids m = absurd m
unbeaten ((id, e) ∷ nodes) best p h ids m =
    let q : Bytes × ℕ = (id, e.cum) in
    let next : Bytes × ℕ = if beats q best then q else best in
    let hn : IsTip next = better-IsTip q best (ids q (inl refl)) h in
    let rest : AreIds nodes = λ r n. ids r (inr n) in
    elim m [
      | inl same ↦ rw same (
          beats_trans q next (best_loop next nodes) (ids q (inl refl)) hn
            (best_loop-IsTip nodes next hn rest) (beats-better_new q best)
            (beats-best_loop nodes next hn rest))
      | inr n ↦ unbeaten nodes next p hn rest n
    ]

-- The loop ends with the tip that it started from or one of the list.
best_loop-IsTipOf :
    (nodes : List (Bytes × Entry)) (best : Bytes × ℕ)
    → (best_loop best nodes ≡ best) ⊎ IsTipOf (best_loop best nodes) nodes
unfolding best_loop
best_loop-IsTipOf [] best = inl refl
best_loop-IsTipOf ((id, e) ∷ nodes) best =
    let q : Bytes × ℕ = (id, e.cum) in
    let next : Bytes × ℕ = if beats q best then q else best in
    elim (best_loop-IsTipOf nodes next) [
      | inr m ↦ inr (inr m)
      | inl same ↦ elim (better_of q best) [
        | inl new ↦ inr (inl (same ∙ new))
        | inr old ↦ inl (same ∙ old)
      ]
    ]

pub best_tip_lem :
    (t : BlockTree) (m : Bytes × Entry)
    → AreIds (m ∷ t)
    → IsTipOf (best_tip (m ∷ t)) (m ∷ t)
      × ((p : Bytes × ℕ) → IsTipOf p (m ∷ t) → beats p (best_tip (m ∷ t)) ≡ false)
unfolding best_tip
best_tip_lem t (id, e) ids = (
  best_loop-IsTipOf t (id, e.cum),
  λ p n. elim n [
    | inl same ↦ rw same (beats-best_loop t (id, e.cum) (ids _ (inl refl)) (λ r k. ids r (inr k)))
    | inr k ↦ unbeaten t (id, e.cum) p (ids _ (inl refl)) (λ r l. ids r (inr l)) k
  ],
)

-- Two trees with the same blocks and weights, whose ids have 32 bytes each, have the same best tip,
-- however their maps are ordered.
pub best_tip_unique :
    (t u : BlockTree)
    → AreIds t
    → AreIds u
    → ((p : Bytes × ℕ) → IsTipOf p t → IsTipOf p u)
    → ((p : Bytes × ℕ) → IsTipOf p u → IsTipOf p t)
    → best_tip t ≡ best_tip u
unfolding best_tip
best_tip_unique [] [] ht hu there back = refl
best_tip_unique [] (n ∷ u) ht hu there back = absurd (back _ (inl refl))
best_tip_unique (m ∷ t) [] ht hu there back = absurd (there _ (inl refl))
best_tip_unique (m ∷ t) (n ∷ u) ht hu there back =
    let (mine, top) = best_tip_lem t m ht in
    let (yours, top') = best_tip_lem u n hu in
    beats_total _ _ (ht _ mine) (hu _ yours) (top' _ (there _ mine)) (top _ (back _ yours))

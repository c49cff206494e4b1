-- ===== src/Merkle/Inclusion.antt =====
-- Proofs of inclusion are complete, and what the root does not tell apart (internal/merkle/merkle.go).
use shadowledger.Prelude.{
  get_elem?-eq-none, ℕ, zero, suc, ◌+◌, ◌-◌, ◌/◌, ◌%◌, ◌≤◌, ◌<◌, ◌≡◌, refl, sym, ap, ◌∙◌, true,
  false, List, [], ◌∷◌, ◌++◌, map, Bytes, length, get_elem?, bytes_eq, bytes_eq_iff, ltb, Option,
  some, arith, length-append, Bool-cases, inl, inr,
}
use shadowledger.Merkle.Tree.{
  pad, proof_step, leaf_hash, inner_hash, pairs, climb, root, proof_steps, proof, combine,
  fold_steps, verify_proof,
}

some_inj : {x y : Bytes} → ◌≡◌ {A = Option Bytes} (some x) (some y) → x ≡ y
some_inj e = cc

bytes_eq_refl : (xs : Bytes) → bytes_eq xs xs ≡ true
bytes_eq_refl xs = ground (arith, bytes_eq_iff xs xs)

not_ltb : (a b : ℕ) → ltb a b ≡ false → b ≤ a
not_ltb a b h = ground arith

-- Two places further on, the sibling is that of the rest of the level.
proof_step-shift :
    (i : ℕ) (a b : Bytes) (level : List Bytes)
    → proof_step (suc (suc i)) (a ∷ b ∷ level) ≡ proof_step i level
unfolding proof_step
proof_step-shift zero a b level = refl
proof_step-shift (suc i) a b level =
    let parity : suc (suc (suc i)) % 2 ≡ suc i % 2 = omega arith in
    let up : suc (suc (suc i)) + 1 ≡ suc (suc (suc (suc i))) = omega arith in
    let up' : suc i + 1 ≡ suc (suc i) = omega arith in
    let down : suc (suc (suc i)) - 1 ≡ suc (suc i) = omega arith in
    let down' : suc i - 1 ≡ i = omega arith in
    unfold proof_step in rw (parity, up, up', down, down')

module _ (sha256 : Bytes → Bytes) where
  length-pairs : (level : List Bytes) → length (pairs sha256 (pad level)) ≡ (length level + 1) / 2
  unfolding pairs pad
  length-pairs [] = refl
  length-pairs (a ∷ []) = refl
  length-pairs (a ∷ b ∷ level) = omega (arith, length-pairs level)

  -- The parent of a node is the node combined with its sibling.
  pairs-parent :
      (level : List Bytes) (idx : ℕ) (cur : Bytes)
      → get_elem? level idx ≡ some cur
      → get_elem? (pairs sha256 (pad level)) (idx / 2)
        ≡ some (combine sha256 (proof_step idx (pad level)) cur)
  unfolding pairs pad combine proof_step
  pairs-parent [] idx cur e = absurd (cc)
  pairs-parent (a ∷ []) zero cur e = ap some (ap (λ x. inner_hash sha256 x a) (some_inj e))
  pairs-parent (a ∷ []) (suc i) cur e = absurd (cc)
  pairs-parent (a ∷ b ∷ level) zero cur e = ap some (ap (λ x. inner_hash sha256 x b) (some_inj e))
  pairs-parent (a ∷ b ∷ level) (suc zero) cur e = ap some (ap (inner_hash sha256 a) (some_inj e))
  pairs-parent (a ∷ b ∷ level) (suc (suc i)) cur e =
      let half : suc (suc i) / 2 ≡ suc (i / 2) = omega arith in
      rw (half, proof_step-shift i a b (pad level)) (pairs-parent level i cur e)

  fold_steps-climb :
      (n idx : ℕ) (level : List Bytes) (cur : Bytes)
      → length level ≤ n
      → get_elem? level idx ≡ some cur
      → fold_steps sha256 (proof_steps sha256 n idx level) cur ≡ climb sha256 n level
  unfolding fold_steps proof_steps climb
  fold_steps-climb n idx [] cur le e = absurd (cc)
  fold_steps-climb n zero (a ∷ []) cur le e = sym (some_inj e)
  fold_steps-climb n (suc i) (a ∷ []) cur le e = absurd (cc)
  fold_steps-climb zero idx (a ∷ b ∷ level) cur le e = absurd (omega arith)
  fold_steps-climb (suc n) idx (a ∷ b ∷ level) cur le e =
      fold_steps-climb n (idx / 2) (pairs sha256 (pad (a ∷ b ∷ level))) _
        (omega (arith, length-pairs (a ∷ b ∷ level))) (pairs-parent (a ∷ b ∷ level) idx cur e)

  get_elem?-map :
      (items : List Bytes) (i : ℕ) (x : Bytes)
      → get_elem? items i ≡ some x
      → get_elem? (map (leaf_hash sha256) items) i ≡ some (leaf_hash sha256 x)
  get_elem?-map [] i x e = absurd (cc)
  get_elem?-map (y ∷ items) zero x e = ap some (ap (leaf_hash sha256) (some_inj e))
  get_elem?-map (y ∷ items) (suc i) x e = get_elem?-map items i x e

  length-map : (items : List Bytes) → length (map (leaf_hash sha256) items) ≡ length items
  length-map [] = refl
  length-map (y ∷ items) = omega (arith, length-map items)

  -- The proof that `Proof` gives for an item verifies against the root of the items.
  pub verify_proof-proof :
      (items : List Bytes) (i : ℕ) (x : Bytes)
      → get_elem? items i ≡ some x
      → verify_proof sha256 x (proof sha256 items i) (root sha256 items) ≡ true
  unfolding verify_proof proof root
  verify_proof-proof items i x e =
      let climbs =
        fold_steps-climb (length items) i (map (leaf_hash sha256) items) _
          (omega (arith, length-map items)) (get_elem?-map items i x e) in
      elim (Bool-cases (ltb i (length items))) [
        | inl inside ↦ rw (inside, climbs) (bytes_eq_refl (root sha256 items))
        | inr past ↦
            let nothing = get_elem?-eq-none items i (not_ltb i (length items) past) in absurd (cc)
      ]

  -- Any fuel that is at least the number of nodes gives the same root.
  climb-enough :
      (n m : ℕ) (level : List Bytes)
      → length level ≤ n
      → length level ≤ m
      → climb sha256 n level ≡ climb sha256 m level
  unfolding climb
  climb-enough n m [] hn hm = refl
  climb-enough n m (a ∷ []) hn hm = refl
  climb-enough (suc n) (suc m) (a ∷ b ∷ level) hn hm =
      let l = length-pairs (a ∷ b ∷ level) in
      climb-enough n m (pairs sha256 (pad (a ∷ b ∷ level))) (omega (arith, l)) (omega (arith, l))
  climb-enough zero m (a ∷ b ∷ level) hn hm = absurd (omega arith)
  climb-enough (suc n) zero (a ∷ b ∷ level) hn hm = absurd (omega arith)

  pad-twice :
      (level : List Bytes) (z : Bytes)
      → length level % 2 ≡ 0
      → pad (level ++ z ∷ z ∷ []) ≡ pad (level ++ z ∷ [])
  unfolding pad
  pad-twice [] z e = refl
  pad-twice (a ∷ []) z e = absurd (omega arith)
  pad-twice (a ∷ b ∷ level) z e = ap (λ l. a ∷ b ∷ l) (pad-twice level z (omega arith))

  map-append :
      (xs ys : List Bytes)
      → map (leaf_hash sha256) (xs ++ ys) ≡ map (leaf_hash sha256) xs ++ map (leaf_hash sha256) ys
  map-append [] ys = refl
  map-append (x ∷ xs) ys = ap (λ l. leaf_hash sha256 x ∷ l) (map-append xs ys)

  climb-twice :
      (n : ℕ) (a b : Bytes) (level : List Bytes) (z : Bytes)
      → length level % 2 ≡ 0
      → length level + 4 ≤ n
      → climb sha256 n (a ∷ b ∷ (level ++ z ∷ z ∷ [])) ≡ climb sha256 n (a ∷ b ∷ (level ++ z ∷ []))
  unfolding climb pad
  climb-twice zero a b level z e le = absurd (omega arith)
  climb-twice (suc n) a b level z e le =
      ap (λ l. climb sha256 n (pairs sha256 (a ∷ b ∷ l))) (pad-twice level z e)

  -- Of an odd number of items, three or more, the last may be given twice: the root is the same.
  pub root-twice :
      (xs : List Bytes) (z : Bytes)
      → length xs % 2 ≡ 0
      → 0 < length xs
      → root sha256 (xs ++ z ∷ z ∷ []) ≡ root sha256 (xs ++ z ∷ [])
  unfolding root
  root-twice [] z e p = absurd (omega arith)
  root-twice (a ∷ []) z e p = absurd (omega arith)
  root-twice (a ∷ b ∷ xs) z e p =
      let leaves = map (leaf_hash sha256) xs in
      let leaf = leaf_hash sha256 in
      let fuelled = λ (ys : List Bytes).
        climb-enough (length (a ∷ b ∷ (xs ++ ys))) (length xs + 4)
          (leaf a ∷ leaf b ∷ map leaf (xs ++ ys)) in
      let long = length-append xs (z ∷ z ∷ []) in
      let short = length-append xs (z ∷ []) in
      let same =
        climb-twice (length xs + 4) (leaf a) (leaf b) leaves (leaf z) (omega (arith, length-map xs))
          (omega (arith, length-map xs)) in
      fuelled (z ∷ z ∷ []) (omega (arith, length-map (xs ++ z ∷ z ∷ [])))
        (omega (arith, long, length-map (xs ++ z ∷ z ∷ [])))
      ∙ ap (λ l. climb sha256 (length xs + 4) (leaf a ∷ leaf b ∷ l)) (map-append xs (z ∷ z ∷ []))
      ∙ same
      ∙ sym (ap (λ l. climb sha256 (length xs + 4) (leaf a ∷ leaf b ∷ l)) (map-append xs (z ∷ [])))
      ∙ sym (
          fuelled (z ∷ []) (omega (arith, length-map (xs ++ z ∷ [])))
            (omega (arith, short, length-map (xs ++ z ∷ []))))

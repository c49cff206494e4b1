-- ===== src/Merkle/Tree.antt =====
-- `Root`, `Proof` and `Verify` of internal/merkle/merkle.go, over SHA-256 as a parameter. A level is
-- halved until one node is left: the fuel is the number of nodes.
use shadowledger.Prelude.{
  ℕ, zero, suc, ◌+◌, ◌-◌, ◌/◌, ◌%◌, Bool, true, false, List, [], ◌∷◌, ◌++◌, map, Bytes, length,
  get_elem?, get_or, bytes_eq, ltb, ◌==◌, if◌then◌else◌,
}

-- `Zero`: 32 zero bytes
abbrev zeros8 : Bytes
zeros8 = 0 ∷ 0 ∷ 0 ∷ 0 ∷ 0 ∷ 0 ∷ 0 ∷ 0 ∷ []

abbrev pub zero_hash : Bytes
zero_hash = zeros8 ++ zeros8 ++ zeros8 ++ zeros8

pub record ProofStep : Type 0 where
  pub sibling : Bytes
  pub is_left : Bool

-- An odd level gets its last node once more.
unfoldable pub pad : List Bytes → List Bytes
pad [] = []
pad (a ∷ []) = a ∷ a ∷ []
pad (a ∷ b ∷ level) = a ∷ b ∷ pad level

-- `level[i]`, an index that the code has in range
abbrev pub node : List Bytes → ℕ → Bytes
node level i = get_or (get_elem? level i) zero_hash

-- The sibling of `idx` in a padded level.
unfoldable pub proof_step : ℕ → List Bytes → ProofStep
proof_step idx level =
    if idx % 2 == 0
    then record { sibling = node level (idx + 1); is_left = false }
    else record { sibling = node level (idx - 1); is_left = true }

module _ (sha256 : Bytes → Bytes) where
  unfoldable pub leaf_hash : Bytes → Bytes
  leaf_hash content = sha256 (0x00 ∷ content)

  unfoldable pub inner_hash : Bytes → Bytes → Bytes
  inner_hash l r = sha256 (0x01 ∷ l ++ r)

  -- The loop that builds `next` from a padded level.
  unfoldable pub pairs : List Bytes → List Bytes
  pairs (a ∷ b ∷ level) = inner_hash a b ∷ pairs level
  pairs _ = []

  -- `for len(level) > 1`, and then `level[0]`
  unfoldable pub climb : ℕ → List Bytes → Bytes
  climb n [] = zero_hash
  climb n (a ∷ []) = a
  climb zero (a ∷ b ∷ level) = zero_hash
  climb (suc n) (a ∷ b ∷ level) = climb n (pairs (pad (a ∷ b ∷ level)))

  unfoldable pub root : List Bytes → Bytes
  root items = climb (length items) (map leaf_hash items)

  -- The same loop, which collects the siblings.
  unfoldable pub proof_steps : ℕ → ℕ → List Bytes → List ProofStep
  proof_steps n idx [] = []
  proof_steps n idx (a ∷ []) = []
  proof_steps zero idx (a ∷ b ∷ level) = []
  proof_steps (suc n) idx (a ∷ b ∷ level) =
      let padded = pad (a ∷ b ∷ level) in
      proof_step idx padded ∷ proof_steps n (idx / 2) (pairs padded)

  -- `Proof`, at an index that is not negative.
  unfoldable pub proof : List Bytes → ℕ → List ProofStep
  proof items index =
      if ltb index (length items)
      then proof_steps (length items) index (map leaf_hash items)
      else []

  -- One turn of the loop of `Verify`.
  unfoldable pub combine : ProofStep → Bytes → Bytes
  combine s cur = if s.is_left then inner_hash s.sibling cur else inner_hash cur s.sibling

  unfoldable pub fold_steps : List ProofStep → Bytes → Bytes
  fold_steps [] cur = cur
  fold_steps (s ∷ steps) cur = fold_steps steps (combine s cur)

  unfoldable pub verify_proof : Bytes → List ProofStep → Bytes → Bool
  verify_proof content steps expected = bytes_eq (fold_steps steps (leaf_hash content)) expected

-- ===== src/Forkchoice/Order.antt =====
-- The order on blocks that `Best` picks by is total (internal/forkchoice/forkchoice.go).
use shadowledger.Prelude.{ℕ, ◌≡◌, refl, true, false, [], ◌∷◌, Bytes, length, arith}
use shadowledger.Forkchoice.Tree.{less, beats}

less_irrefl : (a : Bytes) → less a a ≡ false
unfolding less
less_irrefl [] = refl
less_irrefl (x ∷ a) = ground (arith, less_irrefl a)

less_asym : (a b : Bytes) → less a b ≡ true → less b a ≡ false
unfolding less
less_asym [] b h = ground arith
less_asym (x ∷ a) [] h = ground arith
less_asym (x ∷ a) (y ∷ b) h = ground (arith, less_asym a b)

-- Of hashes of one length, one that is no less than a second and a second no less than a third.
less_trans :
    (a b c : Bytes)
    → length a ≡ length b
    → length b ≡ length c
    → less a b ≡ false
    → less b c ≡ false
    → less a c ≡ false
unfolding less
less_trans [] b c hab hbc h k = refl
less_trans (x ∷ a) [] c hab hbc h k = absurd (omega arith)
less_trans (x ∷ a) (y ∷ b) [] hab hbc h k = refl
less_trans (x ∷ a) (y ∷ b) (z ∷ c) hab hbc h k =
    let rest = less_trans a b c (omega arith) (omega arith) in ground arith

less_total : (a b : Bytes) → length a ≡ length b → less a b ≡ false → less b a ≡ false → a ≡ b
unfolding less
less_total [] [] l h k = refl
less_total [] (y ∷ b) l h k = absurd (omega arith)
less_total (x ∷ a) [] l h k = absurd (omega arith)
less_total (x ∷ a) (y ∷ b) l h k = let rest = less_total a b (omega arith) in ground arith

-- Ids are hashes of 32 bytes.
abbrev pub IsTip : Bytes × ℕ → Type 0
IsTip (id, cum) = length id ≡ 32

pub beats_irrefl : (p : Bytes × ℕ) → beats p p ≡ false
unfolding beats
beats_irrefl (a, m) = ground (arith, less_irrefl a)

pub beats_asym : (p q : Bytes × ℕ) → beats p q ≡ true → beats q p ≡ false
unfolding beats
beats_asym (a, m) (b, n) h = ground (arith, less_asym a b)

pub beats_trans :
    (p q r : Bytes × ℕ)
    → IsTip p
    → IsTip q
    → IsTip r
    → beats p q ≡ false
    → beats q r ≡ false
    → beats p r ≡ false
unfolding beats
beats_trans (a, m) (b, n) (c, k) ha hb hc h h' =
    let ids = less_trans a b c (omega arith) (omega arith) in ground arith

pub beats_total :
    (p q : Bytes × ℕ) → IsTip p → IsTip q → beats p q ≡ false → beats q p ≡ false → p ≡ q
unfolding beats
beats_total (a, m) (b, n) ha hb h k = let ids = less_total a b (omega arith) in ground arith

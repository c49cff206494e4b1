-- ===== src/Consensus/Member.antt =====
-- The elected leader is one of the validators, internal/consensus/consensus.go.
use shadowledger.Prelude.{
  ℕ, zero, suc, ◌+◌, ◌≤◌, ◌≡◌, refl, sym, ap, ◌∙◌, true, ◌||◌, ◌&&◌, List, [], ◌∷◌, Option, none,
  some, Bytes, ltb, ◌==◌, bytes_eq, bytes_eq_iff, arith, Bool-cases, inl, inr, All,
}
use shadowledger.Prelude.Map.{Map, bytes_key}
use shadowledger.Crypto.{Address}
use shadowledger.Consensus.Election.{
  contains, distinct, insert_sorted, sort_addresses, validator_list, leader_score, elect, copies_of,
  elect_copies, elect_all, leader_for, string_less,
}

contains_head : (v : Address) (vs : List Address) → contains v (v ∷ vs) ≡ true
unfolding contains
contains_head v vs = ground (arith, bytes_eq_iff v v)

-- A sorted list has the addresses that were inserted, and no others.
contains-insert_sorted :
    (a v : Address) (vs : List Address)
    → contains a (insert_sorted v vs) ≡ (bytes_eq a v || contains a vs)
unfolding contains insert_sorted
contains-insert_sorted a v [] = refl
contains-insert_sorted a v (u ∷ us) = let rest = contains-insert_sorted a v us in ground arith

contains-sort_addresses :
    (a : Address) (vs : List Address) → contains a (sort_addresses vs) ≡ contains a vs
unfolding contains sort_addresses
contains-sort_addresses a [] = refl
contains-sort_addresses a (v ∷ vs) =
    contains-insert_sorted a v (sort_addresses vs)
    ∙ ap (λ b. bytes_eq a v || b) (contains-sort_addresses a vs)

-- What is kept of a list is its own.
contains-distinct :
    (a : Address) (seen vs : List Address)
    → contains a (distinct seen vs) ≡ true
    → contains a vs ≡ true
unfolding contains distinct
contains-distinct a seen [] h = h
contains-distinct a seen (v ∷ vs) h =
    let fresh = contains-distinct a (v ∷ seen) vs in
    let same = contains-distinct a seen vs in ground arith

-- A first address is kept where none has been seen.
distinct_head : (v : Address) (vs : List Address) → distinct [] (v ∷ vs) ≡ v ∷ distinct (v ∷ []) vs
unfolding distinct contains
distinct_head v vs = refl

module _ (P : Address → Type 0) where
  elect-Keeps : (v : Address) (s : ℕ) (best : Address × ℕ) → P v → P best.0 → P (elect v s best).0
  unfolding elect
  elect-Keeps v s (b, n) hv hb =
      elim (Bool-cases (bytes_eq b [] || (ltb n s || (s == n && string_less v b)))) [
        | inl e ↦ rw e hv
        | inr e ↦ rw e hb
      ]

  module _ (sha256 : Bytes → Bytes) (height : ℕ) (prev : Bytes) (round : ℕ) where
    elect_copies-Keeps :
        (n j : ℕ) (v : Address) (best : Address × ℕ)
        → P v
        → P best.0
        → P (elect_copies sha256 height prev round n j v best).0
    unfolding elect_copies
    elect_copies-Keeps zero j v best hv hb = hb
    elect_copies-Keeps (suc n) j v best hv hb =
        elect_copies-Keeps n (j + 1) v _ hv
          (elect-Keeps v (leader_score sha256 prev v height round j) best hv hb)

    elect_all-Keeps :
        (w : Option (Map Address ℕ)) (vs : List Address) (best : Address × ℕ)
        → All P vs
        → P best.0
        → P (elect_all sha256 height prev round w vs best).0
    unfolding elect_all
    elect_all-Keeps w [] best h hb = hb
    elect_all-Keeps w (v ∷ vs) best h hb =
        elect_all-Keeps w vs _ h.1 (elect_copies-Keeps (copies_of w v) 0 v best h.0 hb)

contains-All :
    (P : Address → Type 0) (vs : List Address)
    → ((a : Address) → contains a vs ≡ true → P a)
    → All P vs
contains-All P [] h = tt
contains-All P (v ∷ vs) h = (
  h v (contains_head v vs),
  contains-All P vs (λ a e. h a (unfold contains in ground (arith, e))),
)

copies_of_positive : (w : Option (Map Address ℕ)) (v : Address) → 1 ≤ copies_of w v
unfolding copies_of
copies_of_positive none v = omega arith
copies_of_positive (some weights) v = ground arith

module _ (P : Address → Type 0) (sha256 : Bytes → Bytes) (height : ℕ) (prev : Bytes)
    (round : ℕ) where
  first_copies :
      (n : ℕ) (v : Address)
      → 1 ≤ n
      → P v
      → P (elect_copies sha256 height prev round n 0 v ([], 0)).0
  unfolding elect_copies elect
  first_copies zero v h hv = absurd (omega arith)
  first_copies (suc n) v h hv =
      elect_copies-Keeps P sha256 height prev round n 1 v
        (v, leader_score sha256 prev v height round 0) hv hv

  elected :
      (w : Option (Map Address ℕ)) (v : Address) (vs : List Address)
      → contains v vs ≡ true
      → All P vs
      → P (elect_all sha256 height prev round w vs ([], 0)).0
  unfolding elect_all
  elected w v [] e h = unfold contains in absurd (cc)
  elected w v (u ∷ us) e h =
      elect_all-Keeps P sha256 height prev round w us _ h.1
        (first_copies (copies_of w u) u (copies_of_positive w u) h.0)

-- Of a validator set that is not empty, whatever the weights, the elected leader is a member: every
-- height and round has a leader that the set holds.
pub leader_for-contains :
    (sha256 : Bytes → Bytes) (height : ℕ) (prev : Bytes) (round : ℕ) (v : Address)
    (vs : List Address) (w : Option (Map Address ℕ))
    → contains (leader_for sha256 height prev round (v ∷ vs) w) (v ∷ vs) ≡ true
unfolding leader_for validator_list
leader_for-contains sha256 height prev round v vs w =
    let kept = distinct [] (v ∷ vs) in
    let mine : contains v kept ≡ true =
      ap (contains v) (distinct_head v vs) ∙ contains_head v (distinct (v ∷ []) vs) in
    elected (λ a. contains a (v ∷ vs) ≡ true) sha256 height prev round w v (sort_addresses kept)
      (contains-sort_addresses v kept ∙ mine)
      (contains-All (λ a. contains a (v ∷ vs) ≡ true) (sort_addresses kept)
        (λ a e. contains-distinct a [] (v ∷ vs) (sym (contains-sort_addresses a kept) ∙ e)))

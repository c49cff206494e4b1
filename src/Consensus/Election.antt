-- ===== src/Consensus/Election.antt =====
-- The validator set and the election of a leader, internal/consensus/consensus.go.
use shadowledger.Prelude.{
  ℕ, zero, suc, ◌+◌, Bool, true, false, ◌&&◌, ◌||◌, List, [], ◌∷◌, ◌++◌, Option, none, some, Bytes,
  take, ltb, ◌==◌, if◌then◌else◌, bytes_eq,
}
use shadowledger.Prelude.Map.{Map, lookup, bytes_key}
use shadowledger.Vm.Stack.{be_bytes, be_u64}
use shadowledger.Crypto.{Address}
use shadowledger.Types.Encode.{put_u32}

-- `a < b` on strings
unfoldable pub string_less : Bytes → Bytes → Bool
string_less a [] = false
string_less [] (y ∷ b) = true
string_less (x ∷ a) (y ∷ b) = if x == y then string_less a b else ltb x y

-- `set[a]`
unfoldable pub contains : Address → List Address → Bool
contains a [] = false
contains a (v ∷ vs) = bytes_eq a v || contains a vs

-- The loop of `validatorSet`, which keeps the first of equal addresses.
unfoldable pub distinct : List Address → List Address → List Address
unfolding contains
distinct seen [] = []
distinct seen (v ∷ vs) =
    let rest = distinct (v ∷ seen) vs in
    let same = distinct seen vs in if contains v seen then same else v ∷ rest

unfoldable pub insert_sorted : Address → List Address → List Address
unfolding string_less
insert_sorted a [] = a ∷ []
insert_sorted a (v ∷ vs) =
    let rest = insert_sorted a vs in if string_less v a then v ∷ rest else a ∷ v ∷ vs

-- `sort.Slice` on addresses
unfoldable pub sort_addresses : List Address → List Address
unfolding insert_sorted
sort_addresses [] = []
sort_addresses (v ∷ vs) = insert_sorted v (sort_addresses vs)

-- The list of `validatorSet`
unfoldable pub validator_list : List Address → List Address
unfolding distinct sort_addresses
validator_list validators = sort_addresses (distinct [] validators)

-- `leaderScore`
unfoldable pub leader_score : (Bytes → Bytes) → Bytes → Address → ℕ → ℕ → ℕ → ℕ
unfolding be_bytes put_u32
leader_score sha256 prev v height round copy =
    be_u64 0
      (take 8 (sha256 (prev ++ (v ++ (be_bytes height ++ (put_u32 round ++ be_bytes copy))))))

-- One entry against the best so far.
unfoldable pub elect : Address → ℕ → Address × ℕ → Address × ℕ
unfolding string_less
elect v s (best, best_score) =
    if bytes_eq best [] || (ltb best_score s || (s == best_score && string_less v best))
    then (v, s)
    else (best, best_score)

-- A validator's number of entries: its weight, if that is more than 1.
unfoldable pub copies_of : Option (Map Address ℕ) → Address → ℕ
copies_of none v = 1
copies_of (some weights) v = elim (lookup v weights) [
  | none ↦ 1
  | some cw ↦ if ltb 1 cw then cw else 1
]

module _ (sha256 : Bytes → Bytes) (height : ℕ) (prev : Bytes) (round : ℕ) where
  -- The inner loop, with `n` entries left of which the next is the `j`-th.
  unfoldable pub elect_copies : ℕ → ℕ → Address → Address × ℕ → Address × ℕ
  unfolding elect leader_score
  elect_copies zero j v best = best
  elect_copies (suc n) j v best =
      elect_copies n (j + 1) v (elect v (leader_score sha256 prev v height round j) best)

  unfoldable pub elect_all : Option (Map Address ℕ) → List Address → Address × ℕ → Address × ℕ
  unfolding elect_copies copies_of
  elect_all w [] best = best
  elect_all w (v ∷ vs) best = elect_all w vs (elect_copies (copies_of w v) 0 v best)

  -- `PoStorage.LeaderFor`
  unfoldable pub leader_for : List Address → Option (Map Address ℕ) → Address
  unfolding validator_list elect_all
  leader_for validators w = (elect_all w (validator_list validators) ([], 0)).0

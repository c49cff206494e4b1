-- ===== src/Rendezvous/Ranking.antt =====
-- The holders of a shard do not depend on the order in which the nodes are listed
-- (internal/rendezvous/rendezvous.go).
use shadowledger.Prelude.{
  ℕ, suc, min, ◌≡◌, refl, ap, ◌∙◌, true, false, List, [], ◌∷◌, Bytes, length, if◌then◌else◌,
  Bool-cases, inl, inr, length-take, arith,
}
use shadowledger.Crypto.{Env}
use shadowledger.Consensus.Election.{string_less}
use shadowledger.Rendezvous.{
  Ranked, ranks_before, insert_ranked, ranking, ids_of, holders, is_holder, score,
}

string_less_irrefl : (a : Bytes) → string_less a a ≡ false
unfolding string_less
string_less_irrefl [] = refl
string_less_irrefl (x ∷ a) = ground (arith, string_less_irrefl a)

string_less_asym : (a b : Bytes) → string_less a b ≡ true → string_less b a ≡ false
unfolding string_less
string_less_asym a [] h = absurd (ground arith)
string_less_asym [] (y ∷ b) h = refl
string_less_asym (x ∷ a) (y ∷ b) h = ground (arith, string_less_asym a b)

string_less_trans :
    (a b c : Bytes) → string_less a b ≡ true → string_less b c ≡ true → string_less a c ≡ true
unfolding string_less
string_less_trans a b [] h k = absurd (ground arith)
string_less_trans [] b (z ∷ c) h k = refl
string_less_trans (x ∷ a) [] (z ∷ c) h k = absurd (ground arith)
string_less_trans (x ∷ a) (y ∷ b) (z ∷ c) h k = let rest = string_less_trans a b c in ground arith

string_less_total : (a b : Bytes) → string_less a b ≡ false → string_less b a ≡ false → a ≡ b
unfolding string_less
string_less_total [] [] h k = refl
string_less_total [] (y ∷ b) h k = absurd (ground arith)
string_less_total (x ∷ a) [] h k = absurd (ground arith)
string_less_total (x ∷ a) (y ∷ b) h k = let rest = string_less_total a b in ground arith

ranks_before_asym : (a b : Ranked) → ranks_before a b ≡ true → ranks_before b a ≡ false
unfolding ranks_before
ranks_before_asym a b h = ground (arith, string_less_asym a.id b.id)

ranks_before_trans :
    (a b c : Ranked) → ranks_before a b ≡ true → ranks_before b c ≡ true → ranks_before a c ≡ true
unfolding ranks_before
ranks_before_trans a b c h k = ground (arith, string_less_trans a.id b.id c.id)

ranks_before_total : (a b : Ranked) → ranks_before a b ≡ false → ranks_before b a ≡ false → a ≡ b
unfolding ranks_before
ranks_before_total a b h k = let ids = string_less_total a.id b.id in ground arith

-- What does not come after a third comes before what comes after the third.
ranks_before_chain :
    (a b c : Ranked) → ranks_before c b ≡ true → ranks_before c a ≡ false → ranks_before a b ≡ true
ranks_before_chain a b c h k = elim (Bool-cases (ranks_before a c)) [
  | inl e ↦ ranks_before_trans a c b e h
  | inr e ↦ rw (ranks_before_total a c e k) h
]

insert_ranked_pair :
    (a b : Ranked) (rs : List Ranked)
    → (if ranks_before b a then b ∷ a ∷ rs else a ∷ b ∷ rs)
      ≡ (if ranks_before a b then a ∷ b ∷ rs else b ∷ a ∷ rs)
insert_ranked_pair a b rs = elim (Bool-cases (ranks_before a b)) [
  | inl e ↦ ground (arith, e, ranks_before_asym a b e)
  | inr e ↦ elim (Bool-cases (ranks_before b a)) [
    | inl f ↦ ground (arith, e, f)
    | inr f ↦ rw (ranks_before_total a b e f) refl
  ]
]

-- Inserting two in either order gives one list.
insert_ranked_swap :
    (a b : Ranked) (rs : List Ranked)
    → insert_ranked a (insert_ranked b rs) ≡ insert_ranked b (insert_ranked a rs)
unfolding insert_ranked
insert_ranked_swap a b [] = insert_ranked_pair a b []
insert_ranked_swap a b (c ∷ rs) =
    let rest = insert_ranked_swap a b rs in
    elim (Bool-cases (ranks_before c a)) [
      | inl ca ↦ elim (Bool-cases (ranks_before c b)) [
        | inl cb ↦ ground (arith, ca, cb, rest)
        | inr cb ↦ ground (arith, ca, cb, ranks_before_chain b a c ca cb, ranks_before_asym b a)
      ]
      | inr ca ↦ elim (Bool-cases (ranks_before c b)) [
        | inl cb ↦ ground (arith, ca, cb, ranks_before_chain a b c cb ca, ranks_before_asym a b)
        | inr cb ↦ ground (arith, ca, cb, insert_ranked_pair a b (c ∷ rs))
      ]
    ]

-- A list of nodes, and the same nodes in another order.
pub data IsReordered : List Bytes → List Bytes → Type 0 where
  same_nodes : IsReordered [] []
  keep : (n : Bytes) (xs ys : List Bytes) → IsReordered xs ys → IsReordered (n ∷ xs) (n ∷ ys)
  swap : (n m : Bytes) (xs : List Bytes) → IsReordered (n ∷ m ∷ xs) (m ∷ n ∷ xs)
  and_again : (xs ys zs : List Bytes) → IsReordered xs ys → IsReordered ys zs → IsReordered xs zs

module _ (env : Env) (block_id : Bytes) (index : ℕ) where
  abbrev ranked_of : Bytes → Ranked
  ranked_of n = record { id = n; score = score env block_id index n }

  ranking_unique :
      (xs ys : List Bytes)
      → IsReordered xs ys
      → ranking env block_id index xs ≡ ranking env block_id index ys
  unfolding ranking
  ranking_unique _ _ same_nodes = refl
  ranking_unique _ _ (keep n xs ys h) = ap (insert_ranked (ranked_of n)) (ranking_unique xs ys h)
  ranking_unique _ _ (swap n m xs) =
      insert_ranked_swap (ranked_of n) (ranked_of m) (ranking env block_id index xs)
  ranking_unique _ _ (and_again xs ys zs h k) = ranking_unique xs ys h ∙ ranking_unique ys zs k

-- Every node finds the same holders for a shard, and takes itself for a holder alike, in whatever
-- order it lists the members.
pub holders_unique :
    (env : Env) (xs ys : List Bytes) (node block_id : Bytes) (index r : ℕ)
    → IsReordered xs ys
    → (holders env xs block_id index r ≡ holders env ys block_id index r)
      × (is_holder env node xs block_id index r ≡ is_holder env node ys block_id index r)
unfolding holders is_holder
holders_unique env xs ys node block_id index r h =
    let one = ranking_unique env block_id index xs ys h in (rw one refl, rw one refl)

length-insert_ranked :
    (a : Ranked) (rs : List Ranked)
    → length (ids_of (insert_ranked a rs)) ≡ suc (length (ids_of rs))
unfolding insert_ranked ids_of
length-insert_ranked a [] = refl
length-insert_ranked a (b ∷ rs) = let rest = length-insert_ranked a rs in ground arith

length-ranking :
    (env : Env) (block_id : Bytes) (index : ℕ) (nodes : List Bytes)
    → length (ids_of (ranking env block_id index nodes)) ≡ length nodes
unfolding ranking ids_of
length-ranking env block_id index [] = refl
length-ranking env block_id index (n ∷ nodes) =
    length-insert_ranked _ (ranking env block_id index nodes)
    ∙ ap suc (length-ranking env block_id index nodes)

-- A shard has as many holders as the replication factor says, or as many as there are nodes where
-- these are fewer.
pub length-holders :
    (env : Env) (nodes : List Bytes) (block_id : Bytes) (index r : ℕ)
    → length (holders env nodes block_id index r) ≡ min r (length nodes)
unfolding holders
length-holders env nodes block_id index r =
    let cut = length-take r (ids_of (ranking env block_id index nodes)) in
    ground (arith, cut, length-ranking env block_id index nodes)

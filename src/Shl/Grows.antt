-- ===== src/Shl/Grows.antt =====
-- The generator's code and labels only grow, and every placeholder stays inside them
-- (internal/shl/compile.go).
use shadowledger.Prelude.{
  ℕ, zero, suc, ◌+◌, ◌≤◌, ◌<◌, ◌≡◌, refl, true, List, [], ◌∷◌, ◌++◌, Option, none, some, Bytes,
  length, length-append, zeros, ltb, All, arith,
}
use shadowledger.Prelude.Map.{lookup, insert, bytes_key}
use shadowledger.Prelude.Words.{add64}
use shadowledger.Types.Encode.{put_u64}
use shadowledger.Shl.Gen.{
  Fixup, Gen, Generated, generated, rejected, crashed, then_gen, emit, push_u64, new_label,
  set_label, mark, push_label, slot,
}

-- A placeholder inside so many labels and so many bytes.
abbrev pub IsInside : ℕ → ℕ → Fixup → Type 0
IsInside labels bytes f = (f.label < labels) × (f.pos + 8 ≤ bytes)

abbrev pub IsGood : Gen → Type 0
IsGood g = All (IsInside (length g.labels) (length g.code)) g.fixups

pub record IsGrown (g h : Gen) : Type 0 where
  pub labels : length g.labels ≤ length h.labels
  pub code : length g.code ≤ length h.code
  pub good : IsGood g → IsGood h

All-wider :
    (n m a b : ℕ) (fs : List Fixup) → n ≤ m → a ≤ b → All (IsInside n a) fs → All (IsInside m b) fs
All-wider n m a b [] h k l = tt
All-wider n m a b (f ∷ fs) h k l =
    ((omega (arith, l.0.0), omega (arith, l.0.1)), All-wider n m a b fs h k l.1)

All-snoc :
    (n a : ℕ) (fs : List Fixup) (f : Fixup)
    → All (IsInside n a) fs
    → IsInside n a f
    → All (IsInside n a) (fs ++ f ∷ [])
All-snoc n a [] f h k = (k, tt)
All-snoc n a (x ∷ fs) f h k = (h.0, All-snoc n a fs f h.1 k)

-- More labels and more code, with the same placeholders.
wider-IsGrown :
    (g h : Gen)
    → h.fixups ≡ g.fixups
    → length g.labels ≤ length h.labels
    → length g.code ≤ length h.code
    → IsGrown g h
wider-IsGrown g h same labels code = record {
  labels = labels;
  code = code;
  good = λ good. rw same (
      All-wider (length g.labels) (length h.labels) (length g.code) (length h.code) g.fixups labels
        code good);
}

pub same-IsGrown : (g : Gen) → IsGrown g g
same-IsGrown g = wider-IsGrown g g refl (omega arith) (omega arith)

pub chained-IsGrown : (g h k : Gen) → IsGrown g h → IsGrown h k → IsGrown g k
chained-IsGrown g h k a b = record {
  labels = omega (arith, a.labels, b.labels);
  code = omega (arith, a.code, b.code);
  good = λ x. b.good (a.good x);
}

pub emit-IsGrown : (b : ℕ) (g : Gen) → IsGrown g (emit b g)
unfolding emit
emit-IsGrown b g =
    wider-IsGrown g _ refl (omega arith) (omega (arith, length-append g.code (b ∷ [])))

pub push_u64-IsGrown : (v : ℕ) (g : Gen) → IsGrown g (push_u64 v g)
unfolding push_u64
push_u64-IsGrown v g = wider-IsGrown g _ refl (omega arith) (
    omega
      (arith, length-append (g.code ++ (0x01 ∷ [])) (put_u64 v), length-append g.code (0x01 ∷ [])))

pub new_label-IsGrown :
    (g : Gen) → IsGrown g (new_label g) × (length (new_label g).labels ≡ length g.labels + 1)
unfolding new_label
new_label-IsGrown g =
    let more = length-append g.labels (none ∷ []) in
    (wider-IsGrown g _ refl (omega (arith, more)) (omega arith), omega (arith, more))

pub push_label-IsGrown : (id : ℕ) (g : Gen) → id < length g.labels → IsGrown g (push_label id g)
unfolding push_label
push_label-IsGrown id g h =
    let all = length-append (g.code ++ (0x01 ∷ [])) (zeros 8) in
    let one = length-append g.code (0x01 ∷ []) in
    let longer : length g.code + 9 ≡ length ((g.code ++ (0x01 ∷ [])) ++ zeros 8) = omega arith in
    record {
      labels = omega arith;
      code = omega arith;
      good = λ good.
          All-snoc (length g.labels) _ g.fixups _
            (All-wider (length g.labels) (length g.labels) (length g.code) _ g.fixups (omega arith)
              (omega arith) good)
            (h, omega arith);
    }

length-set_label :
    (id pos : ℕ) (labels : List (Option ℕ)) → length (set_label id pos labels) ≡ length labels
unfolding set_label
length-set_label zero pos [] = refl
length-set_label (suc id) pos [] = refl
length-set_label zero pos (l ∷ labels) = refl
length-set_label (suc id) pos (l ∷ labels) = omega (arith, length-set_label id pos labels)

-- How a step from a state may end: in a grown state or with an error, never in a panic.
abbrev pub IsSafe : Gen → Generated → Type 0
IsSafe g (generated h) = IsGrown g h
IsSafe g rejected = Unit
IsSafe g crashed = ⊥

pub mark-IsSafe : (id : ℕ) (g : Gen) → id < length g.labels → IsSafe g (mark id g)
unfolding mark
mark-IsSafe id g h =
    let inside : ltb id (length g.labels) ≡ true = ground arith in
    let same = length-set_label id (length g.code) g.labels in
    rw inside (wider-IsGrown g _ refl (omega (arith, same)) (omega arith))

-- One step after another.
pub then_gen-IsSafe :
    (g : Gen) (r : Generated) (f : Gen → Generated)
    → IsSafe g r
    → ((h : Gen) → IsGrown g h → IsSafe h (f h))
    → IsSafe g (then_gen r f)
then_gen-IsSafe g (generated h) f a k = after (f h) (k h a)
  where
    after : (r : Generated) → IsSafe h r → IsSafe g r
    after (generated l) b = chained-IsGrown g h l a b
    after rejected b = tt
    after crashed b = b
then_gen-IsSafe g rejected f a k = tt
then_gen-IsSafe g crashed f a k = a

pub from-IsSafe : (g h : Gen) (r : Generated) → IsGrown g h → IsSafe h r → IsSafe g r
from-IsSafe g h (generated l) a b = chained-IsGrown g h l a b
from-IsSafe g h rejected a b = tt
from-IsSafe g h crashed a b = b

pub slot-IsGrown : (name : Bytes) (g : Gen) → IsGrown g (slot name g).1
unfolding slot
slot-IsGrown name g = found (lookup name g.vars)
  where
    found :
        (o : Option ℕ)
        → IsGrown g
            (elim o as (λ _. ℕ × Gen) [
              | some s ↦ (s, g)
              | none ↦
                  (g.next, record g { next = add64 g.next 1; vars = insert name g.next g.vars })
            ]).1
    found (some s) = same-IsGrown g
    found none = wider-IsGrown g _ refl (omega arith) (omega arith)

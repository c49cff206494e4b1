-- ===== src/Erasure/RoundTrip.antt =====
-- A body is rebuilt from its shards (internal/erasure/erasure.go).
use native.Mathlib.Nat.{div-add-mod', mod-lt}
use shadowledger.Prelude.{
  ℕ, zero, suc, ◌+◌, ◌-◌, ◌*◌, ◌/◌, ◌%◌, ◌^◌, ◌≤◌, ◌<◌, false, Bool-cases, Option-cases, inl, inr,
  ◌⊎◌, ==_iff, get_elem?-eq-none, ◌≡◌, refl, ap, sym, ◌∙◌, true, List, [], ◌∷◌, ◌++◌, Option, none,
  some, Bytes, length, get_elem?, ◌==◌, bytes_eq_iff, length-append, length-zeros, take-append,
  zeros, arith,
}
use shadowledger.Crypto.{Env}
use shadowledger.Types.Data.{ShardSpec, ShardSet}
use shadowledger.Types.Encode.{put_u32}
use shadowledger.Types.RoundTrip.{front4}
use shadowledger.Erasure.{
  Coder, ErasureError, Erased, encoded, broken, framed, shard_len, padded, encode, count_present,
  join_shards, unframe, reconstruct, shard_hash, shard_hashes, build_shard_set, verify_shard,
}

unframe-put_u32 :
    (body rest : Bytes)
    → length body < 2 ^ 32
    → unframe (put_u32 (length body) ++ (body ++ rest)) (length body) ≡ encoded body
unfolding unframe
unframe-put_u32 body rest h =
    let n = (front4 (length body) (body ++ rest) h).0 in
    let all = length-append body rest in
    let front = take-append body rest in rw n (unfold put_u32 in ground (arith, all, front))

-- What `Reconstruct` cuts off a payload is what `Encode` added.
unframe-padded :
    (k : ℕ) (body : Bytes)
    → length body < 2 ^ 32
    → unframe (padded k body) (length body) ≡ encoded body
unfolding padded framed
unframe-padded k body h = unframe-put_u32 body _ h

-- A list of shards with some left out.
abbrev pub IsSparse : List (Option Bytes) → List Bytes → Type 0
IsSparse [] [] = Unit
IsSparse (none ∷ sparse) (s ∷ shards) = IsSparse sparse shards
IsSparse (some t ∷ sparse) (s ∷ shards) = (t ≡ s) × IsSparse sparse shards
IsSparse _ _ = ⊥

length-IsSparse :
    (sparse : List (Option Bytes)) (shards : List Bytes)
    → IsSparse sparse shards
    → length sparse ≡ length shards
length-IsSparse [] [] h = refl
length-IsSparse [] (s ∷ shards) h = absurd h
length-IsSparse (none ∷ sparse) [] h = absurd h
length-IsSparse (some t ∷ sparse) [] h = absurd h
length-IsSparse (none ∷ sparse) (s ∷ shards) h = omega (arith, length-IsSparse sparse shards h)
length-IsSparse (some t ∷ sparse) (s ∷ shards) h = omega (arith, length-IsSparse sparse shards h.1)

-- What the Reed-Solomon library documents: a payload of a whole number of shards is cut into the
-- data shards in order, the parity shards come after them, and any `k` shards give all of them back.
pub record IsReedSolomon (coder : Coder) : Type 0 where
  pub splits :
      (spec : ShardSpec) (payload : Bytes) (shards : List Bytes) (q : ℕ)
      → length payload ≡ q * spec.k
      → coder.encode_shards spec payload ≡ some shards
      → (join_shards spec.k shards ≡ payload) × (length shards ≡ spec.k + spec.m)
  pub rebuilds :
      (spec : ShardSpec) (payload : Bytes) (shards : List Bytes) (sparse : List (Option Bytes))
      → coder.encode_shards spec payload ≡ some shards
      → IsSparse sparse shards
      → spec.k ≤ count_present sparse
      → coder.rebuild_shards spec sparse ≡ some shards

shard_len_enough : (n k : ℕ) → 1 ≤ k → n ≤ shard_len n k * k
unfolding shard_len
shard_len_enough n k h =
    let q : ℕ = (n + k - 1) / k in
    let whole : q * k + (n + k - 1) % k ≡ n + k - 1 = div-add-mod' (n + k - 1) k in
    let part : (n + k - 1) % k < k = mod-lt (n + k - 1) (omega arith) in
    let least : n ≤ q * k = omega arith in
    elim (Bool-cases ((n + k - 1) / k == 0)) [
      | inl e ↦
          let z : q ≡ 0 = (==_iff q 0).0 e in
          let l : n ≤ 0 * k = rw (sym z) least in rw e (omega arith)
      | inr e ↦ rw e least
    ]

length-padded :
    (k : ℕ) (body : Bytes) → 1 ≤ k → length (padded k body) ≡ shard_len (length (framed body)) k * k
unfolding padded
length-padded k body h =
    let enough = shard_len_enough (length (framed body)) k h in
    let gap = length-zeros (shard_len (length (framed body)) k * k - length (framed body)) in
    let sum =
      length-append (framed body)
        (zeros (shard_len (length (framed body)) k * k - length (framed body))) in
    omega arith

Erased-cases :
    {A : Type 0} (r : Erased A)
    → ((e : ErasureError) × (r ≡ broken e)) ⊎ ((a : A) × (r ≡ encoded a))
Erased-cases (broken e) = inl (e, refl)
Erased-cases (encoded a) = inr (a, refl)

-- A good shape, and what the library gave for it.
record IsCoded (coder : Coder) (body : Bytes) (spec : ShardSpec) (shards : List Bytes) (orig : ℕ)
    : Type 0 where
  data_shards : 1 ≤ spec.k
  parity_shards : 1 ≤ spec.m
  coded : coder.encode_shards spec (padded spec.k body) ≡ some shards
  orig_len : orig ≡ length body

encode-IsCoded :
    (coder : Coder) (body : Bytes) (spec : ShardSpec) (shards : List Bytes) (len orig : ℕ)
    → encode coder body spec ≡ encoded (shards, len, orig)
    → IsCoded coder body spec shards orig
unfolding encode
encode-IsCoded coder body spec shards len orig e =
    elim (Option-cases (coder.encode_shards spec (padded spec.k body))) [
      | inl failed ↦ absurd (ground (arith, failed, e))
      | inr (all, done) ↦ record {
        data_shards = ground (arith, done, e);
        parity_shards = ground (arith, done, e);
        coded = ground (arith, done, e);
        orig_len = ground (arith, done, e);
      }
    ]

-- A body shorter than 2^32 bytes is rebuilt, byte for byte, from any `K` of the shards that `Encode`
-- makes of it, with a library that does what it documents.
pub reconstruct-encode :
    (coder : Coder) (body : Bytes) (spec : ShardSpec) (shards : List Bytes) (len orig : ℕ)
    (sparse : List (Option Bytes))
    → IsReedSolomon coder
    → length body < 2 ^ 32
    → encode coder body spec ≡ encoded (shards, len, orig)
    → IsSparse sparse shards
    → spec.k ≤ count_present sparse
    → reconstruct coder sparse spec orig ≡ encoded body
unfolding reconstruct
reconstruct-encode coder body spec shards len orig sparse rs short e from enough =
    let c : IsCoded coder body spec shards orig =
      encode-IsCoded coder body spec shards len orig e in
    let (joined, count) =
      rs.splits spec (padded spec.k body) shards _ (length-padded spec.k body c.data_shards)
        c.coded in
    let rebuilt = rs.rebuilds spec (padded spec.k body) shards sparse c.coded from enough in
    let same = length-IsSparse sparse shards from in
    let cut : unframe (join_shards spec.k shards) orig ≡ encoded body =
      rw (joined, c.orig_len) (unframe-padded spec.k body short) in
    ground (arith, c.data_shards, c.parity_shards, joined, rebuilt, same, count, cut)

module _ (env : Env) (id : Bytes) where
  hash_of_some :
      (i j n : ℕ) (shards : List Bytes) (s : Bytes)
      → n ≡ i + j
      → get_elem? shards j ≡ some s
      → get_elem? (shard_hashes env id i shards) j ≡ some (shard_hash env id n s)
  unfolding shard_hashes
  hash_of_some i j n [] s e h = absurd (cc)
  hash_of_some i zero n (t ∷ shards) s e h =
      let z : n ≡ i = omega arith in
      rw z (ap (λ o. elim o [ none ↦ none | some u ↦ some (shard_hash env id i u) ]) h)
  hash_of_some i (suc j) n (t ∷ shards) s e h = hash_of_some (i + 1) j n shards s (omega arith) h

  length-shard_hashes :
      (i : ℕ) (shards : List Bytes) → length (shard_hashes env id i shards) ≡ length shards
  unfolding shard_hashes
  length-shard_hashes i [] = refl
  length-shard_hashes i (s ∷ shards) = omega (arith, length-shard_hashes (i + 1) shards)

set_of :
    (env : Env) (coder : Coder) (id body : Bytes) (spec : ShardSpec) (shards : List Bytes)
    (set : ShardSet)
    → build_shard_set env coder id body spec ≡ encoded (shards, set)
    → (set.block_id ≡ id) × (set.shard_hash ≡ shard_hashes env id 0 shards)
unfolding build_shard_set
set_of env coder id body spec shards set e = elim (Erased-cases (encode coder body spec)) [
  | inl (b, f) ↦ absurd (ground (arith, f, e))
  | inr (r, f) ↦ ground (arith, f, e)
]

-- Of the shards that `BuildShardSet` makes, each verifies at its own index against the set that it
-- makes, and nothing verifies past the last.
pub verify_shard-build_shard_set :
    (env : Env) (coder : Coder) (id body : Bytes) (spec : ShardSpec) (shards : List Bytes)
    (set : ShardSet) (i : ℕ) (bytes : Bytes)
    → build_shard_set env coder id body spec ≡ encoded (shards, set)
    → ((get_elem? shards i ≡ some bytes) → verify_shard env set i bytes ≡ true)
      × (length shards ≤ i → verify_shard env set i bytes ≡ false)
unfolding verify_shard
verify_shard-build_shard_set env coder id body spec shards set i bytes e =
    let (same, hashes) = set_of env coder id body spec shards set e in
    (
      λ here.
          let mine = hash_of_some env id 0 i i shards bytes (omega arith) here in
          let hash = shard_hash env id i bytes in
          let found : get_elem? set.shard_hash i ≡ some hash =
            ap (λ l. get_elem? l i) hashes ∙ mine in
          rw (found, verify_shard) (rw same ((bytes_eq_iff hash hash).1 refl)),
      λ past.
          let none_there =
            get_elem?-eq-none (shard_hashes env id 0 shards) i
              (omega (arith, length-shard_hashes env id 0 shards)) in
          let gone : get_elem? set.shard_hash i ≡ none =
            ap (λ l. get_elem? l i) hashes ∙ none_there in
          rw (gone, verify_shard) refl,
    )

-- ===== src/Tests/Shards.antt =====
-- Shards under a stand-in for the Reed-Solomon library, and who holds them.
use mathlib.Core.List.{append-nil}
use mathlib.Core.Path.{subst}
use shadowledger.Prelude.{
  ◌≡◌, ◌≤◌, ◌∙◌, refl, sym, Bool, true, false, ◌&&◌, List, [], ◌∷◌, Option, none, some, Bytes,
  length, min, ◌==◌, if◌then◌else◌, get_elem?, Bool-cases, inl, inr, arith, ap,
}
use shadowledger.Types.Data.{ShardSpec, ShardSet}
use shadowledger.Types.Encode.{put_u32}
use shadowledger.Erasure.{
  Coder, encoded, join_shards, count_present, encode, reconstruct, build_shard_set, shard_hashes,
  verify_shard, shard_hash, framed, shard_len, padded,
}
use shadowledger.Erasure.RoundTrip.{
  IsReedSolomon, IsSparse, reconstruct-encode, verify_shard-build_shard_set,
}
use shadowledger.Rendezvous.{holders, is_holder}
use shadowledger.Rendezvous.Ranking.{swap, holders_unique, length-holders}
use shadowledger.Tests.Fixtures.{plain, alice, bob}

-- One data shard and one parity shard that repeats it; no other shape.
abbrev mirror : List (Option Bytes) → Option (List Bytes)
mirror (some s ∷ rest) = some (s ∷ s ∷ [])
mirror (none ∷ some s ∷ rest) = some (s ∷ s ∷ [])
mirror _ = none

abbrev is_two_shards : ShardSpec → Bool
is_two_shards spec = spec.k == 1 && spec.m == 1

abbrev pub mirror_coder : Coder
mirror_coder = record {
  encode_shards =
      λ spec payload. if is_two_shards spec then some (payload ∷ payload ∷ []) else none;
  rebuild_shards = λ spec sparse. if is_two_shards spec then mirror sparse else none;
}

mirror_back :
    (p : Bytes) (sparse : List (Option Bytes))
    → IsSparse sparse (p ∷ p ∷ [])
    → 1 ≤ count_present sparse
    → mirror sparse ≡ some (p ∷ p ∷ [])
unfolding count_present
mirror_back p [] h n = absurd h
mirror_back p (some s ∷ rest) h n = ap (λ x. some (x ∷ x ∷ [])) h.0
mirror_back p (none ∷ []) h n = absurd h
mirror_back p (none ∷ some s ∷ rest) h n = ap (λ x. some (x ∷ x ∷ [])) h.0
mirror_back p (none ∷ none ∷ []) h n = absurd (omega arith)
mirror_back p (none ∷ none ∷ none ∷ rest) h n = absurd h
mirror_back p (none ∷ none ∷ some s ∷ rest) h n = absurd h

-- What the stand-in gives, where it gives something.
mirrored :
    (spec : ShardSpec) (p : Bytes) (shards : List Bytes)
    → mirror_coder.encode_shards spec p ≡ some shards
    → (is_two_shards spec ≡ true) × ((spec.k ≡ 1) × ((spec.m ≡ 1) × (shards ≡ p ∷ p ∷ [])))
mirrored spec p shards e = elim (Bool-cases (is_two_shards spec)) [
  | inl pair ↦ (pair, (ground (arith, pair), (ground (arith, pair), ground (arith, pair, e))))
  | inr other ↦ absurd (ground (arith, other, e))
]

mirror_coder-IsReedSolomon : IsReedSolomon mirror_coder
unfolding join_shards
mirror_coder-IsReedSolomon = record {
  splits = λ spec p shards q len e.
      let (pair, (k, (m, same))) = mirrored spec p shards e in
      (
        ap (λ n. join_shards n shards) k ∙ ap (join_shards 1) same ∙ append-nil p,
        omega (arith, k, m, ap length same),
      );
  rebuilds = λ spec p shards sparse e from enough.
      let (pair, (k, (m, same))) = mirrored spec p shards e in
      rw pair (
        mirror_back p sparse (subst (IsSparse sparse) same from) (omega arith)
        ∙ ap some (sym same));
}

abbrev pub pair_spec : ShardSpec
pair_spec = record { k = 1; m = 1 }

abbrev body : Bytes
body = 7 ∷ 8 ∷ 9 ∷ []

abbrev framed_body : Bytes
framed_body = 0 ∷ 0 ∷ 0 ∷ 3 ∷ 7 ∷ 8 ∷ 9 ∷ []

encode-body : encode mirror_coder body pair_spec ≡ encoded (framed_body ∷ framed_body ∷ [], 7, 3)
unfolding encode padded framed shard_len put_u32
encode-body = refl

-- The data shard is lost.
reconstruct-encode_example :
    reconstruct mirror_coder (none ∷ some framed_body ∷ []) pair_spec 3 ≡ encoded body
unfolding count_present
reconstruct-encode_example =
    reconstruct-encode mirror_coder body pair_spec (framed_body ∷ framed_body ∷ []) 7 3
      (none ∷ some framed_body ∷ []) mirror_coder-IsReedSolomon (omega arith) encode-body (refl, tt)
      (omega arith)

abbrev body_set : ShardSet
body_set = record {
  block_id = 5 ∷ [];
  spec = pair_spec;
  padded_len = 7;
  orig_len = 3;
  shard_hash = (5 ∷ 0 ∷ 0 ∷ 0 ∷ 0 ∷ framed_body) ∷ (5 ∷ 0 ∷ 0 ∷ 0 ∷ 1 ∷ framed_body) ∷ [];
}

build_shard_set-body :
    build_shard_set plain mirror_coder (5 ∷ []) body pair_spec
    ≡ encoded (framed_body ∷ framed_body ∷ [], body_set)
unfolding build_shard_set encode padded framed shard_len put_u32 shard_hashes shard_hash
build_shard_set-body = refl

verify_shard-build_shard_set_example :
    ((get_elem? (framed_body ∷ framed_body ∷ []) 1 ≡ some framed_body)
      → verify_shard plain body_set 1 framed_body ≡ true)
    × (2 ≤ 1 → verify_shard plain body_set 1 framed_body ≡ false)
verify_shard-build_shard_set_example =
    verify_shard-build_shard_set plain mirror_coder (5 ∷ []) body pair_spec
      (framed_body ∷ framed_body ∷ []) body_set 1 framed_body build_shard_set-body

holders_unique_example :
    (holders plain (alice ∷ bob ∷ []) (5 ∷ []) 0 1 ≡ holders plain (bob ∷ alice ∷ []) (5 ∷ []) 0 1)
    × (is_holder plain bob (alice ∷ bob ∷ []) (5 ∷ []) 0 1
        ≡ is_holder plain bob (bob ∷ alice ∷ []) (5 ∷ []) 0 1)
holders_unique_example =
    holders_unique plain (alice ∷ bob ∷ []) (bob ∷ alice ∷ []) bob (5 ∷ []) 0 1 (swap alice bob [])

length-holders_example : length (holders plain (alice ∷ bob ∷ []) (5 ∷ []) 0 3) ≡ min 3 2
length-holders_example = length-holders plain (alice ∷ bob ∷ []) (5 ∷ []) 0 3

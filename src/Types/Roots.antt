-- ===== src/Types/Roots.antt =====
-- What a header commits to: `MerkleRootOf` of internal/types/block.go, and the log encoding and
-- `LogsRootOf` of internal/types/logs.go.
use shadowledger.Prelude.{
  ℕ, List, [], ◌∷◌, ◌++◌, map, length, Bytes, refl, arith, ◌≡◌, ◌%◌, ◌<◌, ap, ◌∙◌, sym,
}
use shadowledger.Crypto.{Env}
use shadowledger.Types.Data.{Transaction, Log}
use shadowledger.Types.Encode.{put_u64, put_u32, put_bytes, tx_hash}
use shadowledger.Merkle.Tree.{root, zero_hash}
use shadowledger.Merkle.Inclusion.{root-twice}

unfoldable pub merkle_root_of : Env → List Transaction → Bytes
merkle_root_of env txs = root env.sha256 (map (tx_hash env) txs)

-- The topics of `Log.canonical`, one after the other.
unfoldable pub put_topics : List ℕ → Bytes
put_topics [] = []
put_topics (t ∷ topics) = put_u64 t ++ put_topics topics

-- `Log.canonical`
unfoldable pub log_canonical : Log → Bytes
unfolding put_topics
log_canonical l =
    put_bytes l.contract
    ++ (put_u64 l.tx_index ++ (put_u64 (length l.topics) ++ put_topics l.topics))

-- `LogsRootOf`
unfoldable pub logs_root_of : Env → List Log → Bytes
logs_root_of env [] = zero_hash
logs_root_of env (l ∷ logs) = root env.sha256 (map log_canonical (l ∷ logs))

unfoldable pub encode_each_log : List Log → Bytes
encode_each_log [] = []
encode_each_log (l ∷ logs) = put_bytes (log_canonical l) ++ encode_each_log logs

-- `EncodeLogs`
unfoldable pub encode_logs : List Log → Bytes
unfolding encode_each_log
encode_logs logs = put_u32 (length logs) ++ encode_each_log logs

module _ {A : Type 0} (f : A → Bytes) where
  map-append : (xs ys : List A) → map f (xs ++ ys) ≡ map f xs ++ map f ys
  map-append [] ys = refl
  map-append (x ∷ xs) ys = ap (λ l. f x ∷ l) (map-append xs ys)

  length-map : (xs : List A) → length (map f xs) ≡ length xs
  length-map [] = refl
  length-map (x ∷ xs) = omega (arith, length-map xs)

-- Two bodies with the same root: an odd number of transactions, three or more, and the same with the
-- last one given twice. The root alone does not fix a block's transactions.
pub merkle_root_of-twice :
    (env : Env) (txs : List Transaction) (t : Transaction)
    → length txs % 2 ≡ 0
    → 0 < length txs
    → merkle_root_of env (txs ++ t ∷ t ∷ []) ≡ merkle_root_of env (txs ++ t ∷ [])
unfolding merkle_root_of
merkle_root_of-twice env txs t e p =
    let f = tx_hash env in
    ap (root env.sha256) (map-append f txs (t ∷ t ∷ []))
    ∙ root-twice env.sha256 (map f txs) (f t) (omega (arith, length-map f txs))
        (omega (arith, length-map f txs))
    ∙ sym (ap (root env.sha256) (map-append f txs (t ∷ [])))

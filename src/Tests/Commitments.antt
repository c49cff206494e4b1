-- ===== src/Tests/Commitments.antt =====
-- Roots, proofs, shard shapes and tips on concrete inputs. The digest here is its argument.
use shadowledger.Prelude.{ℕ, ◌≤◌, ◌≡◌, refl, true, List, [], ◌∷◌, ◌++◌, Bytes, arith, inl, inr}
use shadowledger.Types.Data.{total}
use shadowledger.Types.Roots.{merkle_root_of, merkle_root_of-twice}
use shadowledger.Merkle.Tree.{root, proof, verify_proof, zero_hash}
use shadowledger.Merkle.Inclusion.{verify_proof-proof}
use shadowledger.Netparams.{spec, replication, replication_grows}
use shadowledger.Forkchoice.Tree.{Entry, BlockTree, beats, best_tip, best_loop, less}
use shadowledger.Forkchoice.Best.{IsTipOf, AreIds, best_tip_unique}
use shadowledger.Tests.Fixtures.{plain, payment}

abbrev eight : Bytes
eight = 0 ∷ 0 ∷ 0 ∷ 0 ∷ 0 ∷ 0 ∷ 0 ∷ 0 ∷ []

abbrev items : List Bytes
items = (1 ∷ []) ∷ (2 ∷ []) ∷ (3 ∷ []) ∷ []

verify_proof-proof_example :
    verify_proof (λ x. x) (3 ∷ []) (proof (λ x. x) items 2) (root (λ x. x) items) ≡ true
verify_proof-proof_example = verify_proof-proof (λ x. x) items 2 (3 ∷ []) refl

merkle_root_of-twice_example :
    merkle_root_of plain (payment 0 ∷ payment 1 ∷ payment 2 ∷ payment 2 ∷ [])
    ≡ merkle_root_of plain (payment 0 ∷ payment 1 ∷ payment 2 ∷ [])
merkle_root_of-twice_example =
    merkle_root_of-twice plain (payment 0 ∷ payment 1 ∷ []) (payment 2) (omega arith) (omega arith)

six_nodes : ((spec 6).k ≡ 4) × ((spec 6).m ≡ 2)
unfolding spec
six_nodes = (refl, refl)

replication_grows_example : (total (spec 5) ≤ total (spec 9)) × (replication 5 ≤ replication 9)
replication_grows_example = replication_grows 5 9 (omega arith)

-- Two blocks of equal weight, with the ids 1 0 … 0 and 0 … 0.
abbrev id_a : Bytes
id_a = 1 ∷ 0 ∷ 0 ∷ 0 ∷ 0 ∷ 0 ∷ 0 ∷ 0 ∷ (eight ++ eight ++ eight)

abbrev entry : ℕ → Entry
entry height = record { parent = zero_hash; height = height; cum = 4 }

abbrev tree : BlockTree
tree = (id_a, entry 3) ∷ (zero_hash, entry 2) ∷ []

abbrev reordered : BlockTree
reordered = (zero_hash, entry 2) ∷ (id_a, entry 3) ∷ []

lower_id_wins : best_tip tree ≡ (zero_hash, 4)
unfolding best_tip best_loop beats less
lower_id_wins = refl

tree-AreIds : AreIds tree
tree-AreIds p (inl e) = rw e refl
tree-AreIds p (inr (inl e)) = rw e refl
tree-AreIds p (inr (inr e)) = absurd e

reordered-AreIds : AreIds reordered
reordered-AreIds p (inl e) = rw e refl
reordered-AreIds p (inr (inl e)) = rw e refl
reordered-AreIds p (inr (inr e)) = absurd e

there : (p : Bytes × ℕ) → IsTipOf p tree → IsTipOf p reordered
there p (inl e) = inr (inl e)
there p (inr (inl e)) = inl e
there p (inr (inr e)) = absurd e

back : (p : Bytes × ℕ) → IsTipOf p reordered → IsTipOf p tree
back p (inl e) = inr (inl e)
back p (inr (inl e)) = inl e
back p (inr (inr e)) = absurd e

best_tip_unique_example : best_tip tree ≡ best_tip reordered
best_tip_unique_example = best_tip_unique tree reordered tree-AreIds reordered-AreIds there back

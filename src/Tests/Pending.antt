-- ===== src/Tests/Pending.antt =====
-- A pool with a gap in the nonces.
use shadowledger.Prelude.{◌≤◌, ◌≡◌, refl, [], ◌∷◌, some, arith, length}
use shadowledger.Prelude.Map.{lookup, insert, bytes_key}
use shadowledger.Crypto.{pub_matches_address, verify}
use shadowledger.Types.Sign.{is_coinbase, verify_tx}
use shadowledger.State.Apply.{check_tx}
use shadowledger.Mempool.Pool.{
  Pool, PoolError, submit, new_pool, reap, take_groups, take_run, group_by_sender, sort_by_nonce,
  insert_by_nonce,
}
use shadowledger.Mempool.Batch.{IsWithinLimit, submit-IsWithinLimit, reap_bounds}
use shadowledger.Mempool.Runs.{IsBatch, reap-IsBatch}
use shadowledger.Tests.Fixtures.{plain, genesis, payment}

abbrev pool : Pool
pool = record {
  by_id = (3 ∷ [], payment 3) ∷ (1 ∷ [], payment 1) ∷ (0 ∷ [], payment 0) ∷ [];
  limit = 3;
}

run-reap : reap genesis 10 pool ≡ payment 0 ∷ payment 1 ∷ []
unfolding reap take_groups take_run group_by_sender sort_by_nonce insert_by_nonce lookup insert
run-reap = refl

-- The size is tested only after a transaction has been added.
run-reap_none : reap genesis 0 pool ≡ payment 0 ∷ []
unfolding reap take_groups take_run group_by_sender sort_by_nonce insert_by_nonce lookup insert
run-reap_none = refl

run-submit_full : submit plain genesis (payment 0) pool ≡ (some PoolError.full, pool)
unfolding submit check_tx verify_tx is_coinbase pub_matches_address verify lookup
run-submit_full = refl

submit-IsWithinLimit_example : IsWithinLimit (submit plain genesis (payment 0) (new_pool 0)).1
submit-IsWithinLimit_example =
    submit-IsWithinLimit plain genesis (payment 0) (new_pool 0) (unfold new_pool in omega arith)

reap_bounds_example : length (reap genesis 1 pool) ≤ 1
reap_bounds_example = reap_bounds genesis 1 pool (omega arith)

reap-IsBatch_example : IsBatch genesis (reap genesis 10 pool)
reap-IsBatch_example = reap-IsBatch genesis 10 pool

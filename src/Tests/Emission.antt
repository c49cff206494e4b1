-- ===== src/Tests/Emission.antt =====
-- The emission schedule at concrete heights.
use shadowledger.Prelude.{◌≤◌, ◌≡◌, refl, arith}
use shadowledger.Economy.{block_reward, emitted, emitted_bounds, max_supply}

first_reward : block_reward 0 0 ≡ 5_000_000_000
unfolding block_reward
first_reward = refl

after_halving : block_reward 210_000 0 ≡ 2_500_000_000
unfolding block_reward
after_halving = refl

-- The last coins are clamped to the cap.
clamped : block_reward 0 2_099_999_999_999_999 ≡ 1
unfolding block_reward
clamped = refl

emitted_bounds_example :
    (2_099_999_999_999_999 ≤ emitted 3 209_999 2_099_999_999_999_999)
    × (emitted 3 209_999 2_099_999_999_999_999 ≤ max_supply)
emitted_bounds_example = emitted_bounds 3 209_999 2_099_999_999_999_999 (omega arith)

-- ===== src/Economy.antt =====
-- The emission schedule, internal/economy/economy.go.
use shadowledger.Prelude.{
  ℕ, zero, suc, ◌+◌, ◌-◌, ◌*◌, ◌/◌, ◌^◌, ◌≤◌, ltb, leb, if◌then◌else◌, arith,
}

abbrev pub coin : ℕ
coin = 100_000_000

abbrev pub max_supply : ℕ
max_supply = 21_000_000 * coin

abbrev pub initial_reward : ℕ
initial_reward = 50 * coin

abbrev pub halving_interval : ℕ
halving_interval = 210_000

abbrev pub min_bond : ℕ
min_bond = 1_000 * coin

-- The subsidy before the clamp: `InitialReward >> halvings`, and 0 from 64 halvings on.
unfoldable pub subsidy : ℕ → ℕ
subsidy height =
    let halvings = height / halving_interval in
    if leb 64 halvings then 0 else initial_reward / 2 ^ halvings

unfoldable pub block_reward : ℕ → ℕ → ℕ
unfolding subsidy
block_reward height minted =
    if leb max_supply minted
    then 0
    else let remaining = max_supply - minted in
      if ltb remaining (subsidy height) then remaining else subsidy height

-- The total after the blocks `height`, `height + 1`, … have been rewarded, `n` of them.
unfoldable pub emitted : ℕ → ℕ → ℕ → ℕ
emitted zero height minted = minted
emitted (suc n) height minted = emitted n (height + 1) (minted + block_reward height minted)

pub block_reward_fits :
    (height minted : ℕ) → minted ≤ max_supply → minted + block_reward height minted ≤ max_supply
unfolding block_reward
block_reward_fits height minted h = ground arith

-- However many blocks are rewarded, from whatever height, a total within the cap stays within it and
-- never falls.
pub emitted_bounds :
    (n height minted : ℕ)
    → minted ≤ max_supply
    → (minted ≤ emitted n height minted) × (emitted n height minted ≤ max_supply)
unfolding emitted
emitted_bounds zero height minted h = (omega arith, h)
emitted_bounds (suc n) height minted h = omega (
  arith,
  emitted_bounds n (height + 1) (minted + block_reward height minted)
      (block_reward_fits height minted h),
)

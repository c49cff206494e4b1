-- ===== src/State/Proofs.antt =====
-- The faucet and storage-proof cases of `ApplyBlock` (internal/state/state.go).
use shadowledger.Prelude.{
  ℕ, ◌+◌, ◌-◌, ◌%◌, Bool, false, ◌||◌, not, Option, none, some, ltb, leb, ◌==◌, if◌then◌else◌,
  length, take, drop, Bytes, ◌++◌,
}
use shadowledger.Prelude.Words.{add64, sub64}
use shadowledger.Prelude.Map.{lookup, insert, bytes_key}
use shadowledger.Vm.Stack.{be_u64}
use shadowledger.Crypto.{Env}
use shadowledger.Types.Data.{Transaction}
use shadowledger.Pow.{faucet_verify}
use shadowledger.State.Data.{Validator}
use shadowledger.State.Ledger.{Work, account_of, acct, modify, pay, snap}
use shadowledger.State.Effects.{StateError, Effect, applied, rejected, set_validators}

-- `last, seen := …; seen && H < last + cooldown`
abbrev pub is_cooling : ℕ → ℕ → Option ℕ → Bool
is_cooling height cooldown none = false
is_cooling height cooldown (some last) = ltb height (add64 last cooldown)

module _ (env : Env) (t : Transaction) (height : ℕ) where
  -- From the anchor's body hash on: the puzzle, the cooldown, the treasury, the payout.
  unfoldable pub claim : ℕ → Work → Option Bytes → Effect
  unfolding acct modify snap account_of
  claim nonce w none = rejected StateError.bad_faucet w
  claim nonce w (some anchor) =
      let c = w.st.config in
      if not (faucet_verify env w.st.chain_id t.from anchor nonce c.faucet_bits)
      then rejected StateError.bad_faucet_pow w
      else if is_cooling height c.faucet_cooldown (lookup t.from w.st.faucet_claims)
      then rejected StateError.faucet_cooldown w
      else let seen : Work = acct c.faucet_source w in
        if ltb (account_of c.faucet_source seen.st.accounts).balance c.faucet_amount
        then rejected StateError.faucet_dry seen
        else let drawn : Work =
            modify c.faucet_source (λ ac. record ac { balance = sub64 ac.balance c.faucet_amount })
              (snap c.faucet_source seen) in
          let paid : Work = modify t.from (pay c.faucet_amount) drawn in
          applied (record paid {
            st = record paid.st { faucet_claims = insert t.from height paid.st.faucet_claims };
          })

  -- Over the resolver of anchors; a nil one disables the faucet.
  unfoldable pub faucet : Option (ℕ → Option Bytes) → Work → Effect
  unfolding claim be_u64
  faucet none w = rejected StateError.faucet_disabled w
  faucet (some anchor_of) w =
      if w.st.config.faucet_amount == 0
      then rejected StateError.faucet_disabled w
      else if ltb (length t.payload) 16
      then rejected StateError.bad_faucet w
      else let anchor_height : ℕ = be_u64 0 (take 8 t.payload) in
        let nonce : ℕ = be_u64 0 (take 8 (drop 8 t.payload)) in
        if ltb height (add64 anchor_height w.st.config.faucet_depth)
          || ltb (add64 anchor_height 256) height
        then rejected StateError.bad_faucet w
        else claim nonce w (anchor_of anchor_height)

  unfoldable pub apply_faucet : Work → Effect
  unfolding faucet
  apply_faucet w = faucet w.st.config.anchor_body_hash w

  -- From the block's shard commitment on. The shard's index is the sender's and the block's.
  unfoldable pub prove :
      (ℕ → ℕ → Bytes → Bool) → ℕ → Bytes → Validator → Work → Option (Bytes × ℕ) → Effect
  prove proof_ok target shard v w none = rejected StateError.bad_storage_proof w
  prove proof_ok target shard v w (some (block_id, total)) =
      let index : ℕ = be_u64 0 (take 8 (env.sha256 (t.from ++ block_id))) % total in
      if total == 0
      then rejected StateError.bad_storage_proof w
      else if not (proof_ok target index shard)
      then rejected StateError.bad_storage_proof w
      else applied (
          set_validators w (
            insert t.from
              (record v {
                storage_score =
                    if ltb v.storage_score w.st.config.storage_cap
                    then v.storage_score + 1
                    else v.storage_score;
                last_proof_at = height;
              })
              w.st.validators))

  unfoldable pub storage_proof :
      (ℕ → Option (Bytes × ℕ)) → (ℕ → ℕ → Bytes → Bool) → Work → Option Validator → Effect
  unfolding prove be_u64
  storage_proof shard_at proof_ok w none = rejected StateError.not_validator w
  storage_proof shard_at proof_ok w (some v) =
      if not v.active
      then rejected StateError.not_validator w
      else if ltb (length t.payload) 8
      then rejected StateError.bad_storage_proof w
      else let target : ℕ = be_u64 0 (take 8 t.payload) in
        if leb height target
          || (ltb (add64 target w.st.config.storage_window) height
              || ltb (height - target) w.st.config.storage_min_depth)
        then rejected StateError.bad_storage_proof w
        else prove proof_ok target (drop 8 t.payload) v w (shard_at target)

  -- Over the two resolvers of shards; a nil one disables the proofs.
  unfoldable pub with_shards :
      Option (ℕ → Option (Bytes × ℕ)) → Option (ℕ → ℕ → Bytes → Bool) → Work → Effect
  unfolding storage_proof
  with_shards (some shard_at) (some proof_ok) w =
      storage_proof shard_at proof_ok w (lookup t.from w.st.validators)
  with_shards _ _ w = rejected StateError.storage_disabled w

  unfoldable pub apply_storage_proof : Work → Effect
  unfolding with_shards
  apply_storage_proof w = with_shards w.st.config.shard_at w.st.config.shard_proof_ok w

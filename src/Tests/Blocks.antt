-- ===== src/Tests/Blocks.antt =====
-- Blocks applied to a concrete state.
use shadowledger.Prelude.{All}
use shadowledger.Prelude.Map.{lookup, insert, erase}
use shadowledger.Crypto.{pub_matches_address, verify}
use shadowledger.Types.Sign.{is_coinbase, verify_tx}
use shadowledger.State.Money.{balances, bonds}
use shadowledger.State.Solvent.Loop.{IsWordTx}
use shadowledger.State.Ledger.{rollback}
use shadowledger.State.Payment.{apply_transfer}
use shadowledger.State.Apply.{begin, check_tx, split_coinbase, apply_tx, apply_kind}
use shadowledger.Economy.{block_reward}
use shadowledger.Prelude.{◌+◌, ◌*◌, ◌∷◌, [], ◌≡◌, refl, arith}
use shadowledger.State.Data.{empty_account, State}
use shadowledger.State.Effects.{StateError}
use shadowledger.State.Apply.{accepted, refused, apply_block}
use shadowledger.State.Atomic.Block.{IsTouched, Unchanged, refused-Unchanged}
use shadowledger.State.Solvent.Block.{IsBacked, apply_block-IsBacked}
use shadowledger.State.Admission.{Agrees, admitted, opened, apply_tx-Agrees}
use shadowledger.Prelude.{some, true, false}
use shadowledger.Prelude.Map.{bytes_key}
use shadowledger.State.Access.{storage_weights, weights_of}
use shadowledger.Tests.Fixtures.{
  payment, plain, no_evidence, alice, bob, genesis, good_block, replaying_block,
}
use shadowledger.Economy.{coin}

abbrev after_good : State
after_good = record genesis {
  accounts =
      (alice, record empty_account { balance = 968; nonce = 1 })
      ∷ (bob, record empty_account { balance = 50 * coin + 32 })
      ∷ [];
  height = 1;
  minted = 50 * coin + 2000;
}

run-good : apply_block plain no_evidence good_block genesis ≡ accepted after_good
unfolding apply_block is_coinbase apply_tx verify_tx pub_matches_address verify lookup insert
    apply_kind apply_transfer block_reward
run-good = refl

run-replaying :
    apply_block plain no_evidence replaying_block genesis ≡ refused StateError.bad_nonce genesis
unfolding apply_block is_coinbase apply_tx verify_tx pub_matches_address verify lookup insert
    apply_kind apply_transfer rollback erase
run-replaying = refl

refused-Unchanged_example : Unchanged (IsTouched replaying_block genesis) genesis genesis
refused-Unchanged_example =
    refused-Unchanged plain no_evidence replaying_block genesis genesis StateError.bad_nonce
      run-replaying

words : All IsWordTx (split_coinbase good_block.txs).1
unfolding split_coinbase is_coinbase
words = ((omega arith, omega arith), tt)

genesis-IsBacked : IsBacked genesis
unfolding balances bonds
genesis-IsBacked = record { funds = omega arith; cap = omega arith }

apply_block-IsBacked_example : IsBacked after_good
apply_block-IsBacked_example =
    apply_block-IsBacked plain no_evidence good_block genesis after_good words genesis-IsBacked
      run-good

apply_tx-Agrees_example :
    Agrees
      (admitted plain no_evidence 1 0 (payment 0) (opened (payment 0) (begin genesis)))
      (check_tx plain (payment 0) genesis)
      (apply_tx plain no_evidence 1 0 (payment 0) (begin genesis))
apply_tx-Agrees_example = apply_tx-Agrees plain no_evidence 1 0 (payment 0) (begin genesis)

-- Bob's two proofs are fresh, within a cap of 3.
abbrev proven : State
proven = record genesis {
  config = record genesis.config { storage_cap = 3 };
  validators =
      (
        bob,
        record {
          bond = 0;
          active = true;
          since = 0;
          slashed = false;
          storage_score = 2;
          last_proof_at = 0;
        },
      )
      ∷ [];
}

bob_weight : lookup bob (storage_weights proven) ≡ some 3
unfolding storage_weights weights_of lookup
bob_weight = refl

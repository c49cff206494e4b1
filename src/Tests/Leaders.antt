-- ===== src/Tests/Leaders.antt =====
-- An election and two headers at a concrete height.
use shadowledger.Prelude.{◌≡◌, refl, true, none, [], ◌∷◌}
use shadowledger.Vm.Stack.{be_bytes, be_u64}
use shadowledger.Types.Encode.{put_u32}
use shadowledger.Crypto.{pub_matches_address, verify}
use shadowledger.Types.Data.{Header}
use shadowledger.Types.Sign.{verify_header}
use shadowledger.Consensus.Election.{
  leader_for, elect_all, elect_copies, elect, copies_of, validator_list, sort_addresses,
  insert_sorted, distinct, contains, leader_score, string_less,
}
use shadowledger.Consensus.Authorize.{
  PoStorage, authorize_header, can_produce, can_produce-authorize_header,
}
use shadowledger.Prelude.{some}
use shadowledger.Consensus.Member.{leader_for-contains}
use shadowledger.Tests.Fixtures.{plain, alice, alice_key, bob, header}

abbrev node_a : PoStorage
node_a = record {
  validators = bob ∷ alice ∷ bob ∷ [];
  weights = none;
  self = alice;
  eligible = none;
}

abbrev node_b : PoStorage
node_b = record { validators = bob ∷ alice ∷ bob ∷ []; weights = none; self = bob; eligible = none }

abbrev made : Header
made = record header { validator = alice; val_pub_key = alice_key; prev_hash = alice_key }

signed : verify_header plain made ≡ none
unfolding verify_header pub_matches_address verify
signed = refl

may_produce : can_produce plain node_a 1 alice_key 0 ≡ true
unfolding be_bytes be_u64 put_u32 can_produce leader_for elect_all elect_copies elect copies_of
    validator_list sort_addresses insert_sorted distinct contains leader_score string_less
may_produce = refl

can_produce-authorize_header_example : authorize_header plain node_b made ≡ none
can_produce-authorize_header_example =
    can_produce-authorize_header plain node_a node_b made refl refl refl signed may_produce

leader_for-contains_example :
    contains
      (leader_for plain.sha256 7 alice_key 2 (bob ∷ alice ∷ []) (some ((alice, 3) ∷ [])))
      (bob ∷ alice ∷ [])
    ≡ true
leader_for-contains_example =
    leader_for-contains plain.sha256 7 alice_key 2 bob (alice ∷ []) (some ((alice, 3) ∷ []))

-- ===== src/Tests/Wire.antt =====
-- Bodies, logs, signatures, addresses and bans at concrete inputs.
use shadowledger.Prelude.{
  ℕ, zero, suc, zeros, ◌≡◌, ◌≤◌, ◌<◌, ◌+◌, ◌*◌, refl, true, false, [], ◌∷◌, none, All, arith,
}
use shadowledger.Prelude.Map.{lookup, insert, bytes_key}
use shadowledger.Crypto.{is_valid, address_from_pub}
use shadowledger.Types.Data.{Log}
use shadowledger.Types.Encode.{canonical, encode_txs, put_bytes}
use shadowledger.Types.Roots.{encode_logs, log_canonical}
use shadowledger.Types.Sign.{KeyPair, sign_header, sign_tx, verify_header, verify_tx, verify-sign}
use shadowledger.Types.Decode.{Memory, got, decode_txs, decode_logs}
use shadowledger.Types.RoundTrip.{IsEncodable, decode_txs-encode_txs}
use shadowledger.Types.LogRoundTrip.{IsEncodableLog, decode_logs-encode_logs}
use shadowledger.Crypto.{address_from_pub-is_valid}
use shadowledger.Banlist.{Banlist, strike, banned, after}
use shadowledger.Banlist.Bans.{banned-strike}
use shadowledger.Tests.Fixtures.{plain, alice, alice_key, header, payment}

abbrev ample : Memory
ample = record { bytes = λ n. true; words = λ n. true; txs = λ n. true; logs = λ n. true }

payment-IsEncodable : IsEncodable ample (payment 0)
unfolding canonical
payment-IsEncodable = record {
  from = (omega arith, refl);
  to = (omega arith, refl);
  amount = omega arith;
  fee = omega arith;
  nonce = omega arith;
  chain_id = omega arith;
  gas = omega arith;
  payload = (omega arith, refl);
  pub_key = (omega arith, refl);
  sig = (omega arith, refl);
  all = omega arith;
}

decode_txs-encode_txs_example :
    decode_txs ample (encode_txs (payment 0 ∷ [])) ≡ got (payment 0 ∷ []) []
decode_txs-encode_txs_example =
    decode_txs-encode_txs ample (payment 0 ∷ []) (payment-IsEncodable, tt) (omega arith) refl

abbrev event : Log
event = record { contract = alice; topics = 4 ∷ 5 ∷ []; tx_index = 2 }

event-IsEncodableLog : IsEncodableLog ample event
unfolding log_canonical put_bytes
event-IsEncodableLog = record {
  contract = (omega arith, refl);
  tx_index = omega arith;
  topics = (omega arith, (omega arith, tt));
  topic_count = omega arith;
  room = refl;
  all = (omega arith, refl);
}

decode_logs-encode_logs_example : decode_logs ample (encode_logs (event ∷ [])) ≡ got (event ∷ []) []
decode_logs-encode_logs_example =
    decode_logs-encode_logs ample (event ∷ []) (event-IsEncodableLog, tt) (omega arith) refl

-- Every signature is good under the stand-in.
abbrev pub alice_pair : KeyPair
alice_pair = record { pub_key = alice_key; sign = λ msg. [] }

verify-sign_example :
    (verify_header plain (sign_header plain alice_pair header) ≡ none)
    × (verify_tx plain (sign_tx plain alice_pair (payment 0)) ≡ none)
verify-sign_example =
    verify-sign plain alice_pair header (payment 0) (record { size = refl; signs = λ msg. refl })

zeros-All : (n : ℕ) → All (λ b. b < 256) (zeros n)
zeros-All zero = tt
zeros-All (suc n) = (omega arith, zeros-All n)

address_from_pub-is_valid_example : is_valid (address_from_pub plain alice_key) ≡ true
address_from_pub-is_valid_example =
    address_from_pub-is_valid plain alice_key (zeros-All 32) (omega arith)

abbrev no_bans : Banlist
no_bans = record { strikes = []; until = []; threshold = 1; base = 10 }

abbrev one_ban : Banlist
one_ban = record { strikes = (alice, 1) ∷ []; until = (alice, 110) ∷ []; threshold = 1; base = 10 }

strike-alice : strike alice 100 no_bans ≡ (true, one_ban)
unfolding strike after lookup insert
strike-alice = refl

banned-strike_example :
    (105 < 100 + 10 → banned alice 105 one_ban ≡ (true, one_ban))
    × (100 + 64 * 10 ≤ 105
        → ((banned alice 105 one_ban).0 ≡ false)
          × (lookup alice (banned alice 105 one_ban).1.strikes ≡ none))
banned-strike_example =
    banned-strike alice 100 105 no_bans one_ban (omega arith, omega arith) strike-alice

-- ===== src/Tests/Fixtures.antt =====
-- A small chain: one funded account, and blocks signed under a stand-in for the cryptography.
use shadowledger.Prelude.{ℕ, ◌+◌, ◌*◌, ◌++◌, ◌∷◌, [], Bytes, none, true}
use shadowledger.Crypto.{Env, Address}
use shadowledger.Types.Data.{Transaction, Header, Block}
use shadowledger.State.Data.{empty_account, Config, State}
use shadowledger.State.Effects.{EvidenceDecoder}
use shadowledger.Economy.{coin}

-- The digest is its argument, and every signature is good.
abbrev pub plain : Env
plain = record { sha256 = λ x. x; ed25519_verify = λ k m s. true }

abbrev pub no_evidence : EvidenceDecoder
no_evidence payload = none

abbrev zeros8 : Bytes
zeros8 = 0 ∷ 0 ∷ 0 ∷ 0 ∷ 0 ∷ 0 ∷ 0 ∷ 0 ∷ []

abbrev pub alice_key : Bytes
alice_key = zeros8 ++ zeros8 ++ zeros8 ++ zeros8

abbrev hex8 : Bytes
hex8 = 48 ∷ 48 ∷ 48 ∷ 48 ∷ 48 ∷ 48 ∷ 48 ∷ 48 ∷ []

-- "sl" and forty zeros
abbrev pub alice : Address
alice = 115 ∷ 108 ∷ (hex8 ++ hex8 ++ hex8 ++ hex8 ++ hex8)

abbrev pub bob : Address
bob = 115 ∷ 108 ∷ 49 ∷ []

abbrev pub settings : Config
settings = record {
  reg_pow_bits = 0;
  faucet_bits = 0;
  faucet_amount = 0;
  faucet_cooldown = 0;
  faucet_depth = 0;
  faucet_source = [];
  anchor_body_hash = none;
  storage_window = 0;
  storage_min_depth = 0;
  storage_cap = 0;
  shard_at = none;
  shard_proof_ok = none;
}

-- Alice holds 1,000 of the 2,000 minted.
abbrev pub genesis : State
genesis = record {
  accounts = (alice, record empty_account { balance = 1000 }) ∷ [];
  validators = [];
  height = 0;
  minted = 2000;
  chain_id = 5;
  faucet_claims = [];
  config = settings;
  last_logs = [];
}

abbrev pub payment : ℕ → Transaction
payment nonce = record {
  from = alice;
  to = bob;
  amount = 30;
  fee = 2;
  nonce = nonce;
  chain_id = 5;
  kind = 0;
  gas = 0;
  payload = [];
  pub_key = alice_key;
  sig = [];
}

-- The first reward and a fee of 2, to Bob.
abbrev pub reward : Transaction
reward = record {
  from = [];
  to = bob;
  amount = 50 * coin + 2;
  fee = 0;
  nonce = 0;
  chain_id = 5;
  kind = 0;
  gas = 0;
  payload = [];
  pub_key = [];
  sig = [];
}

abbrev pub header : Header
header = record {
  height = 1;
  prev_hash = [];
  merkle_root = [];
  timestamp = 0;
  validator = bob;
  tx_count = 2;
  round = 0;
  spec = record { k = 1; m = 0 };
  body_hash = [];
  logs_root = [];
  sig = [];
  val_pub_key = [];
}

abbrev pub good_block : Block
good_block = record { header = header; txs = reward ∷ payment 0 ∷ [] }

-- The second payment repeats the first one's nonce.
abbrev pub replaying_block : Block
replaying_block = record { header = header; txs = reward ∷ payment 0 ∷ payment 0 ∷ [] }

-- ===== src/Types/Encode.antt =====
-- The canonical encodings of internal/types/tx.go and block.go.
use shadowledger.Prelude.{ℕ, ◌/◌, ◌%◌, ◌^◌, List, [], ◌∷◌, ◌++◌, length, Bytes, take}
use shadowledger.Vm.Stack.{be_bytes, be_u64}
use shadowledger.Crypto.{Env, Address, address_prefix, hex}
use shadowledger.Types.Data.{Transaction, Header}

-- `putU64`
unfoldable pub put_u64 : ℕ → Bytes
unfolding be_bytes
put_u64 v = be_bytes v

-- `putString` and `putBytes`: the length, then the bytes.
unfoldable pub put_bytes : Bytes → Bytes
unfolding put_u64
put_bytes bs = put_u64 (length bs) ++ bs

-- `Transaction.SigningBytes`
unfoldable pub tx_signing_bytes : Transaction → Bytes
unfolding put_u64 put_bytes
tx_signing_bytes t =
    put_bytes t.from
    ++ (put_bytes t.to
        ++ (put_u64 t.amount
            ++ (put_u64 t.fee
                ++ (put_u64 t.nonce
                    ++ (put_u64 t.chain_id
                        ++ (t.kind
                            ∷ (put_u64 t.gas ++ (put_bytes t.payload ++ put_bytes t.pub_key))))))))

-- `Transaction.canonical`
unfoldable pub canonical : Transaction → Bytes
unfolding tx_signing_bytes
canonical t = tx_signing_bytes t ++ put_bytes t.sig

-- `Transaction.Hash`
unfoldable pub tx_hash : Env → Transaction → Bytes
tx_hash env t = env.sha256 (canonical t)

-- `Header.SigningBytes`
unfoldable pub header_signing_bytes : Header → Bytes
unfolding put_u64 put_bytes
header_signing_bytes h =
    put_u64 h.height
    ++ (h.prev_hash
        ++ (h.merkle_root
            ++ (put_u64 h.timestamp
                ++ (put_bytes h.validator
                    ++ (put_u64 h.tx_count
                        ++ (put_u64 h.round
                            ++ (h.spec.k ∷ (h.spec.m ∷ (h.body_hash ++ h.logs_root)))))))))

-- `Header.ID`
unfoldable pub header_id : Env → Header → Bytes
header_id env h = env.sha256 (header_signing_bytes h)

unfoldable pub put_u32 : ℕ → Bytes
put_u32 v = (v / 2 ^ 24 % 256) ∷ (v / 2 ^ 16 % 256) ∷ (v / 2 ^ 8 % 256) ∷ (v % 256) ∷ []

unfoldable pub encode_each : List Transaction → Bytes
encode_each [] = []
encode_each (t ∷ ts) = put_bytes (canonical t) ++ encode_each ts

-- `EncodeTxs`
unfoldable pub encode_txs : List Transaction → Bytes
unfolding put_u32 encode_each
encode_txs txs = put_u32 (length txs) ++ encode_each txs

-- `ContractAddress`: the nonce's bytes, most significant first, after "contract:" and the deployer.
unfoldable pub contract_address : Env → Address → ℕ → Address
unfolding hex
contract_address env deployer nonce =
    address_prefix
    ++ hex (
        take 20 (
          env.sha256 (
            (b'c' ∷ b'o' ∷ b'n' ∷ b't' ∷ b'r' ∷ b'a' ∷ b'c' ∷ b't' ∷ b':' ∷ [])
            ++ (deployer ++ be_bytes nonce))))

-- `AddrDigest`
unfoldable pub addr_digest : Env → Address → ℕ
addr_digest env a = be_u64 0 (take 8 (env.sha256 a))

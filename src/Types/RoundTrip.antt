-- ===== src/Types/RoundTrip.antt =====
-- Bodies and logs are read back as they were written (internal/types/block.go, logs.go).
use mathlib.Core.List.{append-nil, append_assoc}
use shadowledger.Prelude.{
  ℕ, ◌+◌, ◌-◌, ◌^◌, ◌<◌, ◌≡◌, refl, ap, ◌∙◌, true, false, List, [], ◌∷◌, ◌++◌, Bytes, length, take,
  drop, take-append, drop-append, length-append, ltb, All, arith,
}
use shadowledger.Prelude.Words.{IsWord}
use shadowledger.Vm.Stack.{be_u64, be_bytes}
use shadowledger.Types.Data.{Transaction}
use shadowledger.Types.Encode.{put_u64, put_bytes, put_u32, canonical, encode_each, encode_txs}
use shadowledger.Types.Decode.{
  Memory, got, then_read, read_into, read_u64, read_sized, read_bytes, read_byte, decode_tx,
  decode_one, decode_each, decode_txs,
}

be_u64-be_bytes : (v : ℕ) → IsWord v → be_u64 0 (be_bytes v) ≡ v
unfolding be_u64 be_bytes
be_u64-be_bytes v h = omega arith

read_into-append :
    (bs rest : Bytes) → 0 < length bs → read_into (length bs) (bs ++ rest) ≡ got bs rest
unfolding read_into
read_into-append [] rest h = absurd (omega arith)
read_into-append (b ∷ bs) rest h =
    let none_left : length (b ∷ bs) - length (b ∷ (bs ++ rest)) ≡ 0 =
      omega (arith, length-append bs rest) in
    rw (none_left, take-append bs rest, drop-append bs rest, append-nil bs) refl

pub read_u64-put_u64 :
    (v : ℕ) → IsWord v → (rest : Bytes) → read_u64 (put_u64 v ++ rest) ≡ got v rest
unfolding read_u64 read_into put_u64 be_bytes
read_u64-put_u64 v h rest =
    ap (λ r. then_read r (λ b rest. got (be_u64 0 b) rest))
      (read_into-append (be_bytes v) rest (omega arith))
    ∙ ap (λ w. got w rest) (be_u64-be_bytes v h)

-- The length that stands in front.
front8 :
    (v : ℕ) (rest : Bytes)
    → IsWord v
    → (be_u64 0 (take 8 (put_u64 v ++ rest)) ≡ v)
      × (drop 8 (put_u64 v ++ rest) ≡ rest)
      × (length (put_u64 v ++ rest) ≡ 8 + length rest)
unfolding put_u64 be_bytes
front8 v rest h = (be_u64-be_bytes v h, refl, omega arith)

pub front4 :
    (v : ℕ) (rest : Bytes)
    → v < 2 ^ 32
    → (be_u64 0 (take 4 (put_u32 v ++ rest)) ≡ v)
      × (drop 4 (put_u32 v ++ rest) ≡ rest)
      × (length (put_u32 v ++ rest) ≡ 4 + length rest)
unfolding put_u32 be_u64
front4 v rest h = (omega arith, refl, omega arith)

sized : (bs rest : Bytes) → put_bytes bs ++ rest ≡ put_u64 (length bs) ++ (bs ++ rest)
unfolding put_bytes
sized bs rest = append_assoc (put_u64 (length bs)) bs rest

counted : (ts : List Transaction) → encode_txs ts ≡ put_u32 (length ts) ++ encode_each ts
unfolding encode_txs
counted ts = refl

module _ (memory : Memory) where
  -- A field of bytes that can be read back.
  abbrev pub Fits : Bytes → Type 0
  Fits bs = IsWord (length bs) × (memory.bytes (length bs) ≡ true)

  read_sized-append :
      (bs rest : Bytes)
      → memory.bytes (length bs) ≡ true
      → read_sized memory (length bs) (bs ++ rest) ≡ got bs rest
  unfolding read_sized read_into
  read_sized-append [] rest h = ground (arith, h)
  read_sized-append (b ∷ bs) rest h =
      let mine = read_into-append (b ∷ bs) rest (omega arith) in ground (arith, h, mine)

  pub read_bytes-put_bytes :
      (bs : Bytes)
      → Fits bs
      → (rest : Bytes) → read_bytes memory (put_bytes bs ++ rest) ≡ got bs rest
  unfolding read_bytes
  read_bytes-put_bytes bs h rest =
      let n = read_u64-put_u64 (length bs) h.0 (bs ++ rest) in
      let mine = read_sized-append bs rest h.1 in
      let apart : put_bytes bs ++ rest ≡ put_u64 (length bs) ++ (bs ++ rest) = sized bs rest in
      rw apart (rw n mine)

  pub record IsEncodable (t : Transaction) : Type 0 where
    pub from : Fits t.from
    pub to : Fits t.to
    pub amount : IsWord t.amount
    pub fee : IsWord t.fee
    pub nonce : IsWord t.nonce
    pub chain_id : IsWord t.chain_id
    pub gas : IsWord t.gas
    pub payload : Fits t.payload
    pub pub_key : Fits t.pub_key
    pub sig : Fits t.sig
    pub all : IsWord (length (canonical t))

  -- The encoding as one row of fields.
  abbrev fields : Transaction → Bytes
  fields t =
      put_bytes t.from
      ++ (put_bytes t.to
          ++ (put_u64 t.amount
              ++ (put_u64 t.fee
                  ++ (put_u64 t.nonce
                      ++ (put_u64 t.chain_id
                          ++ (t.kind
                              ∷ (put_u64 t.gas
                                  ++ (put_bytes t.payload
                                      ++ (put_bytes t.pub_key ++ (put_bytes t.sig ++ []))))))))))

  canonical-eq-fields : (t : Transaction) → canonical t ≡ fields t
  unfolding canonical put_bytes
  canonical-eq-fields t = simp (append_assoc, append-nil)

  decode_tx-fields : (t : Transaction) → IsEncodable t → decode_tx memory (fields t) ≡ got t []
  unfolding decode_tx read_byte
  decode_tx-fields t h = simp (
    read_bytes-put_bytes t.from h.from,
    read_bytes-put_bytes t.to h.to,
    read_u64-put_u64 t.amount h.amount,
    read_u64-put_u64 t.fee h.fee,
    read_u64-put_u64 t.nonce h.nonce,
    read_u64-put_u64 t.chain_id h.chain_id,
    read_u64-put_u64 t.gas h.gas,
    read_bytes-put_bytes t.payload h.payload,
    read_bytes-put_bytes t.pub_key h.pub_key,
    read_bytes-put_bytes t.sig h.sig,
  )

  decode_tx-canonical :
      (t : Transaction) → IsEncodable t → decode_tx memory (canonical t) ≡ got t []
  decode_tx-canonical t h = rw (canonical-eq-fields t) (decode_tx-fields t h)

  decode_one-encode :
      (t : Transaction)
      → IsEncodable t
      → (rest : Bytes) → decode_one memory (put_bytes (canonical t) ++ rest) ≡ got t rest
  unfolding decode_one
  decode_one-encode t h rest =
      let all : Bytes = canonical t in
      let (n, body, len) = front8 (length all) (all ++ rest) h.all in
      let sum = length-append all rest in
      let mine = decode_tx-canonical t h in
      let sizes : (ltb (8 + length (all ++ rest)) 8 ≡ false)
          × (ltb (8 + length (all ++ rest) - 8) (length all) ≡ false) =
        (ground arith, ground (arith, sum)) in
      rw
        (
          sized all rest,
          n,
          body,
          len,
          sizes.0,
          sizes.1,
          take-append all rest,
          drop-append all rest,
          mine,
        )
        refl

  decode_each-encode_each :
      (ts : List Transaction)
      → All IsEncodable ts
      → decode_each (length ts) memory (encode_each ts) ≡ got ts []
  unfolding decode_each encode_each
  decode_each-encode_each [] h = refl
  decode_each-encode_each (t ∷ ts) h =
      rw (decode_one-encode t h.0 (encode_each ts), decode_each-encode_each ts h.1) refl

  -- Every body of at most as many transactions as a list can be made of, and fewer than 2^32, each with
  -- fields that are words and byte fields that can be made, is read back from its encoding.
  pub decode_txs-encode_txs :
      (ts : List Transaction)
      → All IsEncodable ts
      → length ts < 2 ^ 32
      → memory.txs (length ts) ≡ true
      → decode_txs memory (encode_txs ts) ≡ got ts []
  unfolding decode_txs
  decode_txs-encode_txs ts h short room =
      let (n, body, len) = front4 (length ts) (encode_each ts) short in
      let size : ltb (4 + length (encode_each ts)) 4 ≡ false = ground arith in
      let mine = decode_each-encode_each ts h in rw (counted ts, n, body, len, size, room) mine

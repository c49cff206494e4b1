-- ===== src/Types/Decode.antt =====
-- Reading bodies and logs back: `DecodeTxs` of internal/types/block.go and `DecodeLogs` of
-- internal/types/logs.go. How much `make` can allocate before it panics is a parameter.
use shadowledger.Prelude.{
  ℕ, zero, suc, ◌-◌, Bool, List, [], ◌∷◌, ◌++◌, Bytes, length, take, drop, zeros, ltb, ◌==◌, not,
  if◌then◌else◌,
}
use shadowledger.Vm.Stack.{be_u64}
use shadowledger.Types.Data.{Transaction, Log}

-- Whether a slice of so many elements can be made.
pub record Memory : Type 0 where
  pub bytes : ℕ → Bool
  pub words : ℕ → Bool
  pub txs : ℕ → Bool
  pub logs : ℕ → Bool

-- What a reader gives: a value and the bytes after it, an error, or a panic.
pub data Reading (A : Type 0) : Type 0 where
  got : A → Bytes → Reading A
  bad : Reading A
  panics : Reading A

abbrev pub then_read : {A B : Type 0} → Reading A → (A → Bytes → Reading B) → Reading B
then_read (got a rest) f = f a rest
then_read bad f = bad
then_read panics f = panics

-- `r.Read(buf)` into `n` bytes that are zero: an error at the end of the input only, and the bytes that
-- there are where they are too few.
unfoldable pub read_into : ℕ → Bytes → Reading Bytes
read_into n [] = bad
read_into n (b ∷ bs) = got (take n (b ∷ bs) ++ zeros (n - length (b ∷ bs))) (drop n (b ∷ bs))

-- `readU64`
unfoldable pub read_u64 : Bytes → Reading ℕ
unfolding read_into be_u64
read_u64 r = then_read (read_into 8 r) (λ b rest. got (be_u64 0 b) rest)

-- The last part of `readBytes`.
unfoldable pub read_sized : Memory → ℕ → Bytes → Reading Bytes
unfolding read_into
read_sized memory n rest =
    if not (memory.bytes n) then panics else if n == 0 then got [] rest else read_into n rest

-- `readBytes`
unfoldable pub read_bytes : Memory → Bytes → Reading Bytes
read_bytes memory r = then_read (read_u64 r) (read_sized memory)

-- `r.ReadByte()`
unfoldable pub read_byte : Bytes → Reading ℕ
read_byte [] = bad
read_byte (b ∷ rest) = got b rest

-- `decodeTx`
unfoldable pub decode_tx : Memory → Bytes → Reading Transaction
decode_tx memory r = then_read (read_bytes memory r) (λ from r.
    then_read (read_bytes memory r) (λ to r. then_read (read_u64 r) (λ amount r.
      then_read (read_u64 r) (λ fee r. then_read (read_u64 r) (λ nonce r.
        then_read (read_u64 r) (λ chain_id r. then_read (read_byte r) (λ kind r.
          then_read (read_u64 r) (λ gas r. then_read (read_bytes memory r) (λ payload r.
            then_read (read_bytes memory r) (λ pub_key r. then_read (read_bytes memory r) (λ sig r.
              got
                (record {
                  from = from;
                  to = to;
                  amount = amount;
                  fee = fee;
                  nonce = nonce;
                  chain_id = chain_id;
                  kind = kind;
                  gas = gas;
                  payload = payload;
                  pub_key = pub_key;
                  sig = sig;
                })
                r)))))))))))

-- One turn of the loop of `DecodeTxs`: a transaction and the bytes after it.
unfoldable pub decode_one : Memory → Bytes → Reading Transaction
decode_one memory data_left =
    let l = be_u64 0 (take 8 data_left) in
    if ltb (length data_left) 8
    then bad
    else if ltb (length data_left - 8) l
    then bad
    else then_read (decode_tx memory (take l (drop 8 data_left)))
        (λ t _. got t (drop l (drop 8 data_left)))

unfoldable pub decode_each : ℕ → Memory → Bytes → Reading (List Transaction)
decode_each zero memory r = got [] r
decode_each (suc n) memory r =
    then_read (decode_one memory r)
      (λ t r. then_read (decode_each n memory r) (λ ts r. got (t ∷ ts) r))

-- `DecodeTxs`; what is left after the last transaction is ignored.
unfoldable pub decode_txs : Memory → Bytes → Reading (List Transaction)
decode_txs memory bytes =
    let n = be_u64 0 (take 4 bytes) in
    if ltb (length bytes) 4
    then bad
    else if not (memory.txs n)
    then panics
    else decode_each n memory (drop 4 bytes)

unfoldable pub read_words : ℕ → Bytes → Reading (List ℕ)
read_words zero r = got [] r
read_words (suc n) r =
    then_read (read_u64 r) (λ t r. then_read (read_words n r) (λ ts r. got (t ∷ ts) r))

-- `decodeLog`
unfoldable pub decode_log : Memory → Bytes → Reading Log
decode_log memory r = then_read (read_bytes memory r) (λ contract r.
    then_read (read_u64 r) (λ tx_index r. then_read (read_u64 r) (λ n r.
      if not (memory.words n)
      then panics
      else then_read (read_words n r) (λ topics r.
        got (record { contract = contract; topics = topics; tx_index = tx_index }) r))))

unfoldable pub decode_each_log : ℕ → Memory → Bytes → Reading (List Log)
decode_each_log zero memory r = got [] r
decode_each_log (suc n) memory r = then_read (read_bytes memory r) (λ raw r.
    then_read (decode_log memory raw)
      (λ l _. then_read (decode_each_log n memory r) (λ ls r. got (l ∷ ls) r)))

-- `DecodeLogs`
unfoldable pub decode_logs : Memory → Bytes → Reading (List Log)
decode_logs memory bytes =
    let n = be_u64 0 (take 4 bytes) in
    if ltb (length bytes) 4
    then bad
    else if not (memory.logs n)
    then panics
    else decode_each_log n memory (drop 4 bytes)

-- ===== src/Types/LogRoundTrip.antt =====
-- Logs are read back as they were written (internal/types/logs.go).
use shadowledger.Prelude.{
  ℕ, ◌+◌, ◌^◌, ◌<◌, ◌≡◌, refl, true, false, List, [], ◌∷◌, ◌++◌, Bytes, length, ltb, All, arith,
}
use mathlib.Core.List.{append-nil, append_assoc}
use shadowledger.Prelude.Words.{IsWord}
use shadowledger.Types.Data.{Log}
use shadowledger.Types.Encode.{put_u64, put_bytes, put_u32}
use shadowledger.Types.Roots.{put_topics, log_canonical, encode_each_log, encode_logs}
use shadowledger.Types.Decode.{Memory, got, read_words, decode_log, decode_each_log, decode_logs}
use shadowledger.Types.RoundTrip.{front4, read_u64-put_u64, Fits, read_bytes-put_bytes}

read_words-put_topics :
    (topics : List ℕ)
    → All IsWord topics
    → (rest : Bytes) → read_words (length topics) (put_topics topics ++ rest) ≡ got topics rest
unfolding read_words put_topics
read_words-put_topics [] h rest = refl
read_words-put_topics (t ∷ topics) h rest =
    simp (append_assoc, read_u64-put_u64 t h.0, read_words-put_topics topics h.1)

counted : (logs : List Log) → encode_logs logs ≡ put_u32 (length logs) ++ encode_each_log logs
unfolding encode_logs
counted logs = refl

module _ (memory : Memory) where
  pub record IsEncodableLog (l : Log) : Type 0 where
    pub contract : Fits memory l.contract
    pub tx_index : IsWord l.tx_index
    pub topics : All IsWord l.topics
    pub topic_count : IsWord (length l.topics)
    pub room : memory.words (length l.topics) ≡ true
    pub all : Fits memory (log_canonical l)

  abbrev fields : Log → Bytes
  fields l =
      put_bytes l.contract
      ++ (put_u64 l.tx_index ++ (put_u64 (length l.topics) ++ (put_topics l.topics ++ [])))

  log_canonical-eq-fields : (l : Log) → log_canonical l ≡ fields l
  unfolding log_canonical
  log_canonical-eq-fields l = simp append-nil

  decode_log-fields : (l : Log) → IsEncodableLog l → decode_log memory (fields l) ≡ got l []
  unfolding decode_log
  decode_log-fields l h = simp (
    read_bytes-put_bytes memory l.contract h.contract,
    read_u64-put_u64 l.tx_index h.tx_index,
    read_u64-put_u64 (length l.topics) h.topic_count,
    h.room,
    read_words-put_topics l.topics h.topics,
  )

  decode_log-canonical :
      (l : Log) → IsEncodableLog l → decode_log memory (log_canonical l) ≡ got l []
  decode_log-canonical l h = rw (log_canonical-eq-fields l) (decode_log-fields l h)

  decode_each_log-encode_each_log :
      (logs : List Log)
      → All IsEncodableLog logs
      → decode_each_log (length logs) memory (encode_each_log logs) ≡ got logs []
  unfolding decode_each_log encode_each_log
  decode_each_log-encode_each_log [] h = refl
  decode_each_log-encode_each_log (l ∷ logs) h = simp (
    read_bytes-put_bytes memory (log_canonical l) h.0.all,
    decode_log-canonical l h.0,
    decode_each_log-encode_each_log logs h.1,
  )

  -- Fewer than 2^32 logs, of at most as many as a list can be made of, each with words for its numbers
  -- and byte fields and topics that can be made, are read back from their encoding.
  pub decode_logs-encode_logs :
      (logs : List Log)
      → All IsEncodableLog logs
      → length logs < 2 ^ 32
      → memory.logs (length logs) ≡ true
      → decode_logs memory (encode_logs logs) ≡ got logs []
  unfolding decode_logs
  decode_logs-encode_logs logs h short room =
      let (n, body, len) = front4 (length logs) (encode_each_log logs) short in
      let size : ltb (4 + length (encode_each_log logs)) 4 ≡ false = ground arith in
      let mine = decode_each_log-encode_each_log logs h in
      rw (counted logs, n, body, len, size, room) mine

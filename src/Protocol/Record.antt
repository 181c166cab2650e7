-- ===== src/Protocol/Record.antt =====
-- One log record, without the frame header: `appendLogRecord` and `readLogRecord`.
use log_bridge.Base.{
  ℕ, ◌+◌, ◌%◌, ◌^◌, ◌≤◌, ◌<◌, ◌≡◌, ◌≢◌, arith, [], ◌++◌, append-nil, append_assoc, length,
  length-append, ok, ℤ, pos, negsuc, IsInt64,
}
use mathlib.Core.Path.{subst₂}
use log_bridge.Message.{Bytes, LogMessage, IsTyped, IsBytes}
use log_bridge.Protocol.Format.{
  max_client_id_length, max_source_length, max_content_length, log_record_fixed_size,
}
use log_bridge.Protocol.Write.{bits_of_int64, log_record_size, append_log_record}
use log_bridge.Protocol.Reader.{Reader, pure, lift, ◌>>=◌}
use log_bridge.Protocol.Read.{
  int64_of_bits, check_lengths, read_log_record, read_uint64, read_uint32, read_string,
}
use log_bridge.Protocol.Words.{big_endian, append_words}
use log_bridge.Protocol.Cursor.{
  Parses, Parses-bind, Parses-pure, Parses-read_string, Takes, Takes-trans, Takes-IsBytes,
  Takes-read_string, Reader-bind-cases, pure-eq-ok,
}
use log_bridge.Protocol.Ints.{
  Parses-read_uint32, Parses-read_uint64, Takes-read_uint32, Takes-read_uint64,
}

-- The limits that both directions enforce.
pub record IsEncodable (m : LogMessage) : Type 0 where
  pub id_set : m.id ≢ 0
  pub client_id_set : 1 ≤ length m.client_id
  pub client_id_short : length m.client_id ≤ max_client_id_length
  pub source_short : length m.source ≤ max_source_length
  pub content_short : length m.content ≤ max_content_length

abbrev pub record_size : LogMessage → ℕ
record_size m = log_record_fixed_size + length m.client_id + length m.source + length m.content

-- `logRecordSize` returns for exactly the messages within the limits.
pub log_record_size-ok : (m : LogMessage) → IsEncodable m → log_record_size m ≡ ok (record_size m)
unfolding log_record_size
log_record_size-ok m h = ground arith

pub log_record_size-eq-ok :
    (m : LogMessage) {n : ℕ} → log_record_size m ≡ ok n → IsEncodable m × (n ≡ record_size m)
unfolding log_record_size
log_record_size-eq-ok m h = ground arith

-- The layout: two words of 64 bits, three lengths, three strings.
abbrev pub record_bytes : LogMessage → Bytes
record_bytes m =
    big_endian 8 m.id
    ++ (big_endian 8 (bits_of_int64 m.timestamp_ms)
        ++ (big_endian 4 (length m.client_id)
            ++ (big_endian 4 (length m.source)
                ++ (big_endian 4 (length m.content) ++ (m.client_id ++ (m.source ++ m.content))))))

small_mod : (n : ℕ) → n < 2 ^ 32 → n % 2 ^ 32 ≡ n
small_mod n h = omega arith

pub append_log_record-eq :
    (output : Bytes) (m : LogMessage)
    → IsEncodable m
    → append_log_record output m ≡ output ++ record_bytes m
unfolding append_log_record
append_log_record-eq output m h = simp (
  append_words,
  small_mod (length m.client_id) (omega arith),
  small_mod (length m.source) (omega arith),
  small_mod (length m.content) (omega arith),
  append_assoc,
)

pub length-record_bytes : (m : LogMessage) → length (record_bytes m) ≡ record_size m
unfolding big_endian
length-record_bytes m =
    omega
      (arith, length-append m.client_id (m.source ++ m.content), length-append m.source m.content)

int64_bits : (t : ℤ) → IsInt64 t → int64_of_bits (bits_of_int64 t) ≡ t
int64_bits t h = ground arith

bits-IsInt64 :
    (u : ℕ) → u < 2 ^ 64 → (bits_of_int64 (int64_of_bits u) ≡ u) × IsInt64 (int64_of_bits u)
bits-IsInt64 u h = ground arith

bits-lt : (t : ℤ) → IsInt64 t → bits_of_int64 t < 2 ^ 64
bits-lt (pos n) h = omega arith
bits-lt (negsuc n) h = omega arith

check_lengths-ok :
    (m : LogMessage)
    → IsEncodable m
    → Parses (check_lengths m.id (length m.client_id) (length m.source) (length m.content)) [] tt
unfolding check_lengths ◌>>=◌ lift
check_lengths-ok m h = record { at = λ input offset rest e fits. ground arith }

-- A record that stands behind the offset is read back.
pub Parses-read_log_record :
    (m : LogMessage) → IsTyped m → IsEncodable m → Parses read_log_record (record_bytes m) m
unfolding read_log_record
Parses-read_log_record m t h = Parses-bind _ (Parses-read_uint64 m.id t.id_fits) (
    Parses-bind _ (Parses-read_uint64 _ (bits-lt m.timestamp_ms t.timestamp_fits)) (
      Parses-bind _ (Parses-read_uint32 (length m.client_id) (omega arith)) (
        Parses-bind _ (Parses-read_uint32 (length m.source) (omega arith)) (
          Parses-bind _ (Parses-read_uint32 (length m.content) (omega arith)) (
            Parses-bind _ (check_lengths-ok m h) (
              Parses-bind _ (Parses-read_string m.client_id) (
                Parses-bind _ (Parses-read_string m.source)
                  (rw (int64_bits m.timestamp_ms t.timestamp_fits) last))))))))
  where
    pure_content : Bytes → Reader LogMessage
    pure_content content = pure (record m { content = content })

    tail : Parses (read_string (length m.content) >>= pure_content) (m.content ++ []) m
    tail = Parses-bind pure_content (Parses-read_string m.content) (Parses-pure m)

    last : Parses (read_string (length m.content) >>= pure_content) m.content m
    last = rw append-nil at tail

-- What a successful read says of the five fixed fields.
check_lengths-eq-ok :
    (id client_id_length source_length content_length : ℕ) (input : Bytes) (from to : ℕ)
    {u : Unit {0}}
    → check_lengths id client_id_length source_length content_length input from ≡ ok (u, to)
    → (id ≢ 0)
      × (1 ≤ client_id_length)
      × (client_id_length ≤ max_client_id_length)
      × (source_length ≤ max_source_length)
      × (content_length ≤ max_content_length)
      × (to ≡ from)
unfolding check_lengths ◌>>=◌ lift
check_lengths-eq-ok id c s n input from to h = ground arith

abbrev joined : ℕ → ℕ → Bytes → Bytes → Bytes → LogMessage
joined id timestamp client_id source content = record {
  id = id;
  client_id = client_id;
  timestamp_ms = int64_of_bits timestamp;
  source = source;
  content = content;
}

module _ (input : Bytes) (bytes : IsBytes input)
    (o0 o1 o2 o3 o4 o5 o6 o7 o8 o9 id timestamp c s n : ℕ) (client_id source content : Bytes)
    (t1 : Takes input o0 (big_endian 8 id) o1 × (id < 2 ^ 64))
    (t2 : Takes input o1 (big_endian 8 timestamp) o2 × (timestamp < 2 ^ 64))
    (t3 : Takes input o2 (big_endian 4 c) o3) (t4 : Takes input o3 (big_endian 4 s) o4)
    (t5 : Takes input o4 (big_endian 4 n) o5)
    (checked : (id ≢ 0)
      × (1 ≤ c)
      × (c ≤ max_client_id_length)
      × (s ≤ max_source_length)
      × (n ≤ max_content_length)
      × (o6 ≡ o5))
    (t7 : Takes input o6 client_id o7 × (length client_id ≡ c))
    (t8 : Takes input o7 source o8 × (length source ≡ s))
    (t9 : Takes input o8 content o9 × (length content ≡ n)) where
  abbrev result : LogMessage
  result = joined id timestamp client_id source content

  same_bits :
      (bits_of_int64 (int64_of_bits timestamp) ≡ timestamp) × IsInt64 (int64_of_bits timestamp)
  same_bits = bits-IsInt64 timestamp t2.1

  result-IsTyped : IsTyped result
  result-IsTyped = record {
    id_fits = t1.1;
    timestamp_fits = same_bits.1;
    client_id_bytes = Takes-IsBytes client_id bytes t7.0;
    source_bytes = Takes-IsBytes source bytes t8.0;
    content_bytes = Takes-IsBytes content bytes t9.0;
  }

  result-IsEncodable : IsEncodable result
  result-IsEncodable = omega arith

  strings : Takes input o5 (client_id ++ (source ++ content)) o9
  strings =
      rw (← checked.5)
        (Takes-trans client_id (source ++ content) t7.0 (Takes-trans source content t8.0 t9.0))

  timestamp_word : Takes input o1 (big_endian 8 (bits_of_int64 (int64_of_bits timestamp))) o2
  timestamp_word = rw (same_bits.0) t2.0

  client_id_word : Takes input o2 (big_endian 4 (length client_id)) o3
  client_id_word = rw (t7.1) t3

  source_word : Takes input o3 (big_endian 4 (length source)) o4
  source_word = rw (t8.1) t4

  content_word : Takes input o4 (big_endian 4 (length content)) o5
  content_word = rw (t9.1) t5

  result-Takes : Takes input o0 (record_bytes result) o9
  result-Takes = Takes-trans _ _ t1.0 (
      Takes-trans _ _ timestamp_word (
        Takes-trans _ _ client_id_word
          (Takes-trans _ _ source_word (Takes-trans _ _ content_word strings))))

  assembled : IsTyped result × IsEncodable result × Takes input o0 (record_bytes result) o9
  assembled = (result-IsTyped, result-IsEncodable, result-Takes)

pub Takes-read_log_record :
    (input : Bytes) (from to : ℕ) {m : LogMessage}
    → IsBytes input
    → read_log_record input from ≡ ok (m, to)
    → IsTyped m × IsEncodable m × Takes input from (record_bytes m) to
unfolding read_log_record
Takes-read_log_record input from to {m} bytes h =
    Reader-bind-cases read_uint64 _ input from to h λ id o1 e1 h.
      Reader-bind-cases read_uint64 _ input o1 to h λ timestamp o2 e2 h.
        Reader-bind-cases read_uint32 _ input o2 to h λ client_id_length o3 e3 h.
          Reader-bind-cases read_uint32 _ input o3 to h λ source_length o4 e4 h.
            Reader-bind-cases read_uint32 _ input o4 to h λ content_length o5 e5 h.
              Reader-bind-cases (check_lengths id client_id_length source_length content_length) _
                input o5 to h
                λ _ o6 e6 h.
                  Reader-bind-cases (read_string client_id_length) _ input o6 to h
                    λ client_id o7 e7 h.
                      Reader-bind-cases (read_string source_length) _ input o7 to h
                        λ source o8 e8 h.
                          Reader-bind-cases (read_string content_length) _ input o8 to h
                            λ content o9 e9 h.
                              let (made, moved) =
                                pure-eq-ok (joined id timestamp client_id source content) input o9
                                  to h in
                              subst₂
                                (λ r o.
                                  IsTyped r × IsEncodable r × Takes input from (record_bytes r) o)
                                made moved
                                (assembled input bytes from o1 o2 o3 o4 o5 o6 o7 o8 o9 id timestamp
                                  client_id_length source_length content_length client_id source
                                  content (Takes-read_uint64 input from o1 bytes e1)
                                  (Takes-read_uint64 input o1 o2 bytes e2)
                                  (Takes-read_uint32 input o2 o3 bytes e3).0
                                  (Takes-read_uint32 input o3 o4 bytes e4).0
                                  (Takes-read_uint32 input o4 o5 bytes e5).0
                                  (check_lengths-eq-ok id client_id_length source_length
                                    content_length input o5 o6 e6)
                                  (Takes-read_string client_id_length input o6 o7 e7)
                                  (Takes-read_string source_length input o7 o8 e8)
                                  (Takes-read_string content_length input o8 o9 e9))

-- ===== src/Protocol/Batch.antt =====
-- What a batch may hold, and the two loops that check it.
use log_bridge.Base.{
  ℕ, zero, suc, ◌+◌, ◌≤◌, ◌<◌, ◌≡◌, refl, sym, ap, ◌∙◌, arith, List, [], ◌∷◌, ◌++◌, length, ok,
  Result-cases, inl, inr, All, bytes_eq→eq, bytes_eq_refl, append-nil, append_assoc, length-append,
}
use mathlib.Core.Path.{subst₂}
use log_bridge.Message.{Bytes, IsBytes, LogMessage, IsTyped}
use log_bridge.Protocol.Format.{max_frame_payload_length}
use log_bridge.Protocol.Write.{log_record_size, append_log_record}
use log_bridge.Protocol.Read.{read_log_record}
use log_bridge.Protocol.Reader.{Reader, pure, ◌>>=◌}
use log_bridge.Protocol.Codec.{batch_payload, append_records, read_records, check_neighbours}
use log_bridge.Protocol.Cursor.{
  Parses, Parses-bind, Parses-pure, Takes, Takes-trans, Takes-nil, Reader-bind-cases, pure-eq-ok,
}
use log_bridge.Protocol.Record.{
  IsEncodable, record_bytes, record_size, length-record_bytes, log_record_size-ok,
  log_record_size-eq-ok, append_log_record-eq, Parses-read_log_record, Takes-read_log_record,
}

-- Messages of one client, each within the limits, with ids that grow from above `previous_id`.
abbrev pub IsRun : Bytes → ℕ → List LogMessage → Type 0
IsRun client_id previous_id [] = Unit {0}
IsRun client_id previous_id (m ∷ rest) =
    (m.client_id ≡ client_id) × (previous_id < m.id) × IsEncodable m × IsRun client_id m.id rest

abbrev pub records_size : List LogMessage → ℕ
records_size [] = 0
records_size (m ∷ rest) = record_size m + records_size rest

abbrev pub records_bytes : List LogMessage → Bytes
records_bytes [] = []
records_bytes (m ∷ rest) = record_bytes m ++ records_bytes rest

pub length-records_bytes : (ms : List LogMessage) → length (records_bytes ms) ≡ records_size ms
length-records_bytes [] = refl
length-records_bytes (m ∷ rest) = omega (
  arith,
  length-append (record_bytes m) (records_bytes rest),
  length-record_bytes m,
  length-records_bytes rest,
)

-- The size loop accepts exactly the runs that fit, and adds up their sizes.
pub batch_payload-ok :
    (client_id : Bytes) (previous_id size : ℕ) (ms : List LogMessage)
    → IsRun client_id previous_id ms
    → size + records_size ms ≤ max_frame_payload_length
    → batch_payload client_id previous_id size ms ≡ ok (size + records_size ms)
unfolding batch_payload
batch_payload-ok client_id previous_id size [] run fits = ap ok (omega arith)
batch_payload-ok client_id previous_id size (m ∷ rest) run fits = ground (
  arith,
  bytes_eq_refl client_id,
  log_record_size-ok m run.2,
  batch_payload-ok client_id m.id (size + record_size m) rest run.3 (omega arith),
)

pub batch_payload-eq-ok :
    (client_id : Bytes) (previous_id size : ℕ) (ms : List LogMessage) {n : ℕ}
    → size ≤ max_frame_payload_length
    → batch_payload client_id previous_id size ms ≡ ok n
    → IsRun client_id previous_id ms × (n ≡ size + records_size ms) × (n ≤ max_frame_payload_length)
unfolding batch_payload
batch_payload-eq-ok client_id previous_id size [] fits h = ground arith
batch_payload-eq-ok client_id previous_id size (m ∷ rest) {n} fits h =
    elim (Result-cases (log_record_size m)) [
      | inl (r, e) ↦ ground (
        arith,
        bytes_eq→eq m.client_id client_id,
        log_record_size-eq-ok m e,
        batch_payload-eq-ok client_id m.id (size + r) rest {n = n},
      )
      | inr (x, e) ↦ absurd (ground arith)
    ]

pub append_records-eq :
    (client_id : Bytes) (previous_id : ℕ) (output : Bytes) (ms : List LogMessage)
    → IsRun client_id previous_id ms
    → append_records output ms ≡ output ++ records_bytes ms
unfolding append_records
append_records-eq client_id previous_id output [] run = sym (append-nil output)
append_records-eq client_id previous_id output (m ∷ rest) run =
    append_records-eq client_id m.id (append_log_record output m) rest run.3
    ∙ ap (λ t. t ++ records_bytes rest) (append_log_record-eq output m run.2)
    ∙ append_assoc output (record_bytes m) (records_bytes rest)

-- A run of records that stands behind the offset is read back.
pub Parses-read_records :
    (client_id : Bytes) (previous_id : ℕ) (ms : List LogMessage)
    → All IsTyped ms
    → IsRun client_id previous_id ms
    → Parses (read_records (length ms)) (records_bytes ms) ms
unfolding read_records
Parses-read_records client_id previous_id [] typed run = Parses-pure []
Parses-read_records client_id previous_id (m ∷ rest) typed run =
    Parses-bind _ (Parses-read_log_record m typed.0 run.2)
      (last (Parses-read_records client_id m.id rest typed.1 run.3))
  where
    more : List LogMessage → Reader (List LogMessage)
    more tail = pure (m ∷ tail)

    last :
        Parses (read_records (length rest)) (records_bytes rest) rest
        → Parses (read_records (length rest) >>= more) (records_bytes rest) (m ∷ rest)
    last tail =
        let joined : Parses (read_records (length rest) >>= more) (records_bytes rest ++ [])
            (m ∷ rest) =
          Parses-bind more tail (Parses-pure (m ∷ rest)) in
        rw append-nil at joined

pub Takes-read_records :
    (count : ℕ) (input : Bytes) (from to : ℕ) {ms : List LogMessage}
    → IsBytes input
    → from ≤ length input
    → read_records count input from ≡ ok (ms, to)
    → All IsTyped ms
      × All IsEncodable ms
      × Takes input from (records_bytes ms) to
      × (length ms ≡ count)
unfolding read_records
Takes-read_records zero input from to {ms} bytes within h =
    let (is_nil, stays) = pure-eq-ok [] input from to h in
    subst₂
      (λ l o.
        All IsTyped l × All IsEncodable l × Takes input from (records_bytes l) o × (length l ≡ 0))
      is_nil stays (tt, tt, Takes-nil input from within, refl)
Takes-read_records (suc count) input from to {ms} bytes within h =
    Reader-bind-cases read_log_record _ input from to h λ m o1 e1 h.
      Reader-bind-cases (read_records count) _ input o1 to h λ rest o2 e2 h.
        let (is_cons, stays) = pure-eq-ok (m ∷ rest) input o2 to h in
        let (typed, encodable, taken) = Takes-read_log_record input from o1 bytes e1 in
        let (longer-IsTyped, all_encodable, more, size) =
          Takes-read_records count input o1 o2 bytes taken.within e2 in
        subst₂
          (λ l o.
            All IsTyped l
            × All IsEncodable l
            × Takes input from (records_bytes l) o
            × (length l ≡ suc count))
          is_cons stays
          (
            (typed, longer-IsTyped),
            (encodable, all_encodable),
            Takes-trans (record_bytes m) (records_bytes rest) taken more,
            ap suc size,
          )

-- The loop over neighbours accepts exactly the runs, once each message is within the limits.
pub check_neighbours-ok :
    (client_id : Bytes) (previous_id : ℕ) (ms : List LogMessage)
    → IsRun client_id previous_id ms
    → check_neighbours client_id previous_id ms ≡ ok tt
unfolding check_neighbours
check_neighbours-ok client_id previous_id [] run = refl
check_neighbours-ok client_id previous_id (m ∷ rest) run =
    ground (arith, bytes_eq_refl client_id, check_neighbours-ok client_id m.id rest run.3)

pub check_neighbours-eq-ok :
    (client_id : Bytes) (previous_id : ℕ) (ms : List LogMessage) {u : Unit {0}}
    → All IsEncodable ms
    → check_neighbours client_id previous_id ms ≡ ok u
    → IsRun client_id previous_id ms
unfolding check_neighbours
check_neighbours-eq-ok client_id previous_id [] limits h = tt
check_neighbours-eq-ok client_id previous_id (m ∷ rest) limits h =
    ground (
      arith,
      bytes_eq→eq m.client_id client_id,
      check_neighbours-eq-ok client_id m.id rest limits.1,
    )

-- ===== src/WriteAheadLog/Load.antt =====
-- `load` on the bytes that appends leave behind: whole frames, and perhaps a cut one.
use log_bridge.Base.{
  ℕ, zero, suc, ◌+◌, ◌≤◌, ◌<◌, ◌≡◌, refl, sym, ap, ◌∙◌, arith, Bool, true, false, List, [], ◌∷◌,
  ◌++◌, append-nil, append_assoc, length, length-append, take, drop, take-append_length,
  length-drop, last_or, All, ok, bytes_eq_refl, ◌⊎◌, inl, inr,
}
use mathlib.Core.Path.{ap₂}
use mathlib.Core.List.{head-eq_of_cons-eq, tail-eq_of_cons-eq}
use log_bridge.Message.{Bytes, LogMessage, IsTyped}
use log_bridge.Protocol.Format.{log, frame_header_size, max_frame_payload_length}
use log_bridge.Protocol.Codec.{parse_frame_header}
use log_bridge.Protocol.Cursor.{length_behind, drop_behind}
use log_bridge.Protocol.Record.{IsEncodable, record_bytes, length-record_bytes}
use log_bridge.Protocol.Frame.{
  header_bytes, header_of, length-header_bytes, parse_frame_header-header_bytes, length-frame_bytes,
}
use log_bridge.Protocol.Single.{log_frame, record_size-le, deserialize_log_message-log_frame}
use log_bridge.Protocol.Batch.{IsRun}
use log_bridge.WriteAheadLog.{stop, next, check_order, load_frame, load_step, load_loop, load_bytes}

-- The frames of messages, one behind the other.
abbrev pub file_bytes : List LogMessage → Bytes
file_bytes [] = []
file_bytes (m ∷ rest) = log_frame m ++ file_bytes rest

-- Messages of one client with growing ids.
abbrev pub IsLog : List LogMessage → Type 0
IsLog [] = Unit {0}
IsLog (front ∷ rest) = IsRun front.client_id 0 (front ∷ rest)

abbrev pub last_id : ℕ → List LogMessage → ℕ
last_id previous_id [] = previous_id
last_id previous_id (m ∷ rest) = last_id m.id rest

pub last_id-last_or :
    (front : LogMessage) (rest : List LogMessage) → (last_or rest front).id ≡ last_id front.id rest
last_id-last_or front [] = refl
last_id-last_or front (m ∷ rest) = last_id-last_or m rest

-- What a run says of a message in it.
pub IsRun-middle :
    (client_id : Bytes) (previous_id : ℕ) (xs : List LogMessage) (m : LogMessage)
    (ys : List LogMessage)
    → IsRun client_id previous_id (xs ++ m ∷ ys)
    → (m.client_id ≡ client_id) × (last_id previous_id xs < m.id) × IsEncodable m
IsRun-middle client_id previous_id [] m ys run = (run.0, run.1, run.2)
IsRun-middle client_id previous_id (x ∷ xs) m ys run = IsRun-middle client_id x.id xs m ys run.3

pub IsLog-middle :
    (xs : List LogMessage) (m : LogMessage) (ys : List LogMessage)
    → IsLog (xs ++ m ∷ ys)
    → IsEncodable m
IsLog-middle [] m ys run = run.2
IsLog-middle (x ∷ xs) m ys run = (IsRun-middle x.client_id 0 (x ∷ xs) m ys run).2

check_order-ok :
    (xs : List LogMessage) (m : LogMessage) (ys : List LogMessage)
    → IsLog (xs ++ m ∷ ys)
    → check_order xs m ≡ ok tt
unfolding check_order
check_order-ok [] m ys run = refl
check_order-ok (x ∷ xs) m ys run = ground (
  arith,
  IsRun-middle x.client_id 0 (x ∷ xs) m ys run,
  last_id-last_or x xs,
  bytes_eq_refl x.client_id,
)

length-log_frame :
    (m : LogMessage) → length (log_frame m) ≡ frame_header_size + length (record_bytes m)
length-log_frame m = length-frame_bytes log (record_bytes m)

size_fits : (m : LogMessage) → IsEncodable m → length (record_bytes m) ≤ max_frame_payload_length
size_fits m h = omega (arith, length-record_bytes m, record_size-le m h)

-- The round on a whole frame.
load_frame-log_frame :
    (pending : List LogMessage) (m : LogMessage) (more : List LogMessage) (behind : Bytes)
    → IsTyped m
    → IsLog (pending ++ m ∷ more)
    → load_frame (log_frame m ++ behind) pending ≡ ok (next m (length (log_frame m)))
unfolding load_frame
load_frame-log_frame pending m more behind typed run = rw parsed (
    ground (
      arith,
      length-append (log_frame m) behind,
      length-log_frame m,
      whole,
      deserialize_log_message-log_frame m typed encodable,
      check_order-ok pending m more run,
    ))
  where
    encodable : IsEncodable m
    encodable = IsLog-middle pending m more run

    payload : ℕ
    payload = length (record_bytes m)

    parsed : parse_frame_header (log_frame m ++ behind) ≡ ok (header_of log payload)
    parsed =
        ap parse_frame_header (append_assoc (header_bytes log payload) (record_bytes m) behind)
        ∙ parse_frame_header-header_bytes log payload (record_bytes m ++ behind)
            (size_fits m encodable)

    whole : take (frame_header_size + payload) (log_frame m ++ behind) ≡ log_frame m
    whole =
        ap (λ k. take k (log_frame m ++ behind)) (sym (length-log_frame m))
        ∙ take-append_length (log_frame m) behind

-- The front of a log frame, without its end: what a process that dies in `append` leaves.
pub record IsCut (tail : Bytes) : Type 0 where
  pub message : LogMessage
  pub encodable : IsEncodable message
  pub missing : Bytes
  pub split : log_frame message ≡ tail ++ missing
  pub some_missing : 1 ≤ length missing

-- A list that shares a front with another that is not shorter.
front_of :
    (h xs r ys : Bytes) → h ++ r ≡ xs ++ ys → length h ≤ length xs → xs ≡ h ++ drop (length h) xs
front_of [] xs r ys e le = refl
front_of (a ∷ h) [] r ys e le = absurd (omega arith)
front_of (a ∷ h) (x ∷ xs) r ys e le =
    ap₂ (λ u v. u ∷ v) (sym (head-eq_of_cons-eq e))
      (front_of h xs r ys (tail-eq_of_cons-eq e) (omega arith))

-- The round on a cut frame with a whole header.
load_frame_cut :
    (tail : Bytes) (pending : List LogMessage)
    → IsCut tail
    → frame_header_size ≤ length tail
    → load_frame tail pending ≡ ok (stop true)
unfolding load_frame
load_frame_cut tail pending cut long = rw parsed (ground (arith, short))
  where
    m : LogMessage
    m = cut.message

    payload : ℕ
    payload = length (record_bytes m)

    parsed : parse_frame_header tail ≡ ok (header_of log payload)
    parsed =
        ap parse_frame_header (
          front_of (header_bytes log payload) tail (record_bytes m) cut.missing cut.split
            (omega (arith, length-header_bytes log payload)))
        ∙ parse_frame_header-header_bytes log payload _ (size_fits m cut.encodable)

    short : length tail < frame_header_size + payload
    short = omega (
      arith,
      ap length cut.split,
      length-append tail cut.missing,
      length-log_frame m,
      cut.some_missing,
    )

load_step-log_frame :
    (bytes : Bytes) (offset : ℕ) (pending : List LogMessage) (m : LogMessage)
    (more : List LogMessage) (behind : Bytes)
    → IsTyped m
    → IsLog (pending ++ m ∷ more)
    → offset ≤ length bytes
    → drop offset bytes ≡ log_frame m ++ behind
    → load_step bytes offset pending ≡ ok (next m (length (log_frame m)))
unfolding load_step
load_step-log_frame bytes offset pending m more behind typed run within e = ground (
  arith,
  length_behind bytes offset (log_frame m) behind e,
  length-log_frame m,
  ap (λ t. load_frame t pending) e,
  load_frame-log_frame pending m more behind typed run,
)

-- Whether something stands behind the last whole frame.
abbrev pub has_tail : Bytes → Bool
has_tail [] = false
has_tail (b ∷ rest) = true

load_step-tail :
    (bytes : Bytes) (offset : ℕ) (pending : List LogMessage) (tail : Bytes)
    → (tail ≡ []) ⊎ IsCut tail
    → offset ≤ length bytes
    → drop offset bytes ≡ tail
    → load_step bytes offset pending ≡ ok (stop (has_tail tail))
unfolding load_step
load_step-tail bytes offset pending [] end within e =
    ground (arith, length-drop offset bytes, ap length e)
load_step-tail bytes offset pending (b ∷ rest) (inl empty) within e = absurd (ground arith)
load_step-tail bytes offset pending (b ∷ rest) (inr cut) within e = ground (
  arith,
  length-drop offset bytes,
  ap length e,
  ap (λ t. load_frame t pending) e,
  load_frame_cut (b ∷ rest) pending cut,
)

load_loop-file_bytes :
    (fuel : ℕ) (bytes : Bytes) (offset : ℕ) (pending more : List LogMessage) (tail : Bytes)
    → All IsTyped more
    → IsLog (pending ++ more)
    → (tail ≡ []) ⊎ IsCut tail
    → offset ≤ length bytes
    → drop offset bytes ≡ file_bytes more ++ tail
    → length more < fuel
    → load_loop fuel bytes offset pending ≡ ok (pending ++ more, has_tail tail)
unfolding load_loop
load_loop-file_bytes zero bytes offset pending more tail typed run end within e enough =
    absurd (omega arith)
load_loop-file_bytes (suc fuel) bytes offset pending [] tail typed run end within e enough =
    rw (load_step-tail bytes offset pending tail end within e, load_loop) (rw append-nil)
load_loop-file_bytes (suc fuel) bytes offset pending (m ∷ more) tail typed run end within e enough =
    let frame : Bytes = log_frame m in
    let e' : drop offset bytes ≡ frame ++ (file_bytes more ++ tail) =
      e ∙ append_assoc frame (file_bytes more) tail in
    rw
      (
        load_step-log_frame bytes offset pending m more (file_bytes more ++ tail) typed.0 run within
            e',
        load_loop,
      )
      (load_loop-file_bytes fuel bytes (offset + length frame) (pending ++ m ∷ []) more tail typed.1
          (rw append_assoc run) end
          (omega (arith, length_behind bytes offset frame (file_bytes more ++ tail) e'))
          (drop_behind bytes offset frame (file_bytes more ++ tail) e') (omega arith)
        ∙ ap (λ l. ok (l, has_tail tail)) (append_assoc pending (m ∷ []) more))

length-file_bytes : (ms : List LogMessage) → length ms ≤ length (file_bytes ms)
length-file_bytes [] = omega arith
length-file_bytes (m ∷ rest) = omega (
  arith,
  length-append (log_frame m) (file_bytes rest),
  length-log_frame m,
  length-file_bytes rest,
)

-- On the frames of a log, with nothing or a cut frame behind them, the loop of load returns the
-- messages in order, and says that the tail is truncated exactly when something stands behind the
-- frames.
pub load_bytes-file_bytes :
    (ms : List LogMessage) (tail : Bytes)
    → All IsTyped ms
    → IsLog ms
    → (tail ≡ []) ⊎ IsCut tail
    → load_bytes (file_bytes ms ++ tail) ≡ ok (ms, has_tail tail)
unfolding load_bytes
load_bytes-file_bytes ms tail typed run end =
    load_loop-file_bytes (suc (length (file_bytes ms ++ tail))) (file_bytes ms ++ tail) 0 [] ms tail
      typed run end (omega arith) refl
      (omega (arith, length-append (file_bytes ms) tail, length-file_bytes ms))

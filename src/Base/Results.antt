-- ===== src/Base/Results.antt =====
-- C++ exceptions as values: one constructor for each exception that the code throws, and the monad
-- of functions that return or throw.
use Prim.Native.Nat.{ℕ}
use mathlib.Core.Path.{◌≡◌, refl}
use mathlib.Core.Logic.{◌⊎◌, inl, inr}
use mathlib.Core.Bool.{Bool, true, false}

-- The texts of `ProtocolError`.
pub data ProtocolError : Type 0 where
  unexpected_end unknown_message_type zero_message_id invalid_client_id_length : ProtocolError
  source_too_long content_too_long frame_length_mismatch : ProtocolError
  invalid_magic unsupported_version reserved_bits payload_too_large : ProtocolError
  not_log fields_do_not_fill : ProtocolError
  empty_batch too_many_messages multiple_client_ids ids_not_increasing batch_too_large :
      ProtocolError
  not_batch invalid_batch_count not_ack invalid_ack_length expected_log_or_batch : ProtocolError

-- What a call throws. `system` is `std::system_error` with its code.
pub data Exception : Type 0 where
  protocol : ProtocolError → Exception
  system : ℕ → Exception
  invalid_argument logic_error overflow_error out_of_range : Exception
  closed_in_frame closed_before_payload closed_before_ack ack_mismatch : Exception
  wal_non_log wal_not_increasing wal_multiple_clients : Exception
  invalid_state state_client_mismatch : Exception
  invalid_dedup_file invalid_dedup_record unparsed_dedup : Exception
  file_unreadable : Exception
  -- No C++ exception: a loop of the model ran out of rounds. It is proved not to happen.
  out_of_fuel : Exception

pub data Result {ℓ} (A : Type ℓ) : Type ℓ where
  ok : A → Result A
  err : Exception → Result A

pub Result-cases {ℓ} :
    {A : Type ℓ} (r : Result A) → ((a : A) × (r ≡ ok a)) ⊎ ((e : Exception) × (r ≡ err e))
Result-cases (ok a) = inl (a, refl)
Result-cases (err e) = inr (e, refl)

-- `if (test) throw e;`
abbrev pub throw_if : Bool → Exception → Result (Unit {0})
throw_if true e = err e
throw_if false e = ok tt

-- What is thrown passes through.
infixl 5 ◌>>=◌
abbrev pub ◌>>=◌ {κ ℓ} : {X : Type κ} {Y : Type ℓ} → Result X → (X → Result Y) → Result Y
err thrown >>= next = err thrown
ok value >>= next = next value

infixl 5 ◌>>◌
abbrev pub ◌>>◌ {ℓ} : {Y : Type ℓ} → Result (Unit {0}) → Result Y → Result Y
first >> second = first >>= λ _. second

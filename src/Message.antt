-- ===== src/Message.antt =====
-- include/LogMessage.h: the message that all the parts pass on. A `std::string` is its bytes, and
-- `std::int64_t` is a ℤ.
use log_bridge.Base.{ℕ, ◌<◌, ◌^◌, List, All, ℤ, IsInt64}

abbrev pub Bytes : Type 0
Bytes = List ℕ

abbrev pub IsByte : ℕ → Type 0
IsByte b = b < 256

abbrev pub IsBytes : Bytes → Type 0
IsBytes = All IsByte

pub record LogMessage : Type 0 where
  pub id : ℕ
  pub client_id : Bytes
  pub timestamp_ms : ℤ
  pub source : Bytes
  pub content : Bytes

-- The values that the fields' C++ types can hold.
pub record IsTyped (m : LogMessage) : Type 0 where
  pub id_fits : m.id < 2 ^ 64
  pub timestamp_fits : IsInt64 m.timestamp_ms
  pub client_id_bytes : IsBytes m.client_id
  pub source_bytes : IsBytes m.source
  pub content_bytes : IsBytes m.content

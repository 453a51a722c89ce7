-- ===== src/Wire.antt =====
-- The types of include/hotpath/protocol.hpp. A `double` is any type `D`, see `Double`.
use executor_hotpath_cpp.Base.{
  zero, suc, true, ◌&&◌, not, equal, ℕ, ◌*◌, List, [], ◌∷◌, Bool, false, Option, none, Bytes,
}
use executor_hotpath_cpp.Base.Int.{ℤ, pos, negsuc}

abbrev pub schema_version_current : ℤ
schema_version_current = pos 4

abbrev pub frame_length_bytes : ℕ
frame_length_bytes = 4

abbrev pub max_frame_bytes : ℕ
max_frame_bytes = 64 * 1024

pub data Direction : Type 0 where
  buy_yes buy_no : Direction

pub data WakeAckStatus : Type 0 where
  accepted rejected : WakeAckStatus

pub record PriceRange (D : Type 0) : Type 0 where
  pub start : D
  pub end : D
  pub step : D

pub record WakeMessage (D : Type 0) : Type 0 where
  pub schema_version : ℤ
  pub correlation_id : Bytes
  pub market_ticker : Bytes
  pub asset : Bytes
  pub direction : Direction
  pub kalshi_price : D
  pub model_probability : D
  pub fee : D
  pub edge : D
  pub decision_ts_ms : ℤ
  pub sent_at_ms : ℤ
  pub sent_at_ns : ℤ
  pub recv_ns : ℤ
  pub clock_domain : Bytes
  pub dry_run : Bool
  pub wire_price_yes_dollars : D
  pub exchange_index : ℤ
  pub available_size_contracts : D
  pub price_ranges : List (PriceRange D)
  pub correlation_group : Bytes

pub record WakeAck : Type 0 where
  pub schema_version : ℤ
  pub correlation_id : Bytes
  pub received_at_ms : ℤ
  pub status : WakeAckStatus
  pub reason : Option Bytes

-- `WakeAck` with its default member initialisers.
abbrev pub default_ack : WakeAck
default_ack = record {
  schema_version = schema_version_current;
  correlation_id = [];
  received_at_ms = pos 0;
  status = accepted;
  reason = none;
}

-- `WakeMessage` with its default member initialisers, over the values 0.0, 1.0 and 0.01.
abbrev pub default_message : {D : Type 0} → D → D → D → WakeMessage D
default_message zero_double one_double cent = record {
  schema_version = schema_version_current;
  correlation_id = [];
  market_ticker = [];
  asset = [];
  direction = buy_yes;
  kalshi_price = zero_double;
  model_probability = zero_double;
  fee = zero_double;
  edge = zero_double;
  decision_ts_ms = pos 0;
  sent_at_ms = pos 0;
  sent_at_ns = pos 0;
  recv_ns = pos 0;
  clock_domain = [];
  dry_run = false;
  wire_price_yes_dollars = zero_double;
  exchange_index = negsuc 0;
  available_size_contracts = zero_double;
  price_ranges = record { start = zero_double; end = one_double; step = cent } ∷ [];
  correlation_group = [];
}

pub data DecodeErrorCode : Type 0 where
  malformed_json unknown_field missing_field wrong_type out_of_range : DecodeErrorCode
  unknown_enum_value malformed_price_range malformed_frame frame_too_large : DecodeErrorCode

pub record DecodeError : Type 0 where
  pub code : DecodeErrorCode
  pub message : Bytes

-- `DecodeError{}`
abbrev pub default_error : DecodeError
default_error = record { code = malformed_json; message = [] }

-- `WakeMessage::is_clock_comparable_to`
unfoldable pub is_clock_comparable_to : {D : Type 0} → Bytes → WakeMessage D → Bool
is_clock_comparable_to local_clock_domain m =
    is_positive m.recv_ns
    && not (equal local_clock_domain [])
    && equal m.clock_domain local_clock_domain
  where
    is_positive : ℤ → Bool
    is_positive (pos zero) = false
    is_positive (pos (suc _)) = true
    is_positive (negsuc _) = false

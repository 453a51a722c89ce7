-- ===== src/Protocol/Decode/Fields.antt =====
-- One member of a body, by its key: `read_wake_field`, `read_ack_field` and what they call, of
-- src/protocol.cpp. `seen` is the mask of the fields seen, as the list of its fourteen bits, the
-- lowest first.
use executor_hotpath_cpp.Base.{
  ℕ, zero, suc, Bool, true, false, List, [], ◌∷◌, ◌++◌, Option, none, some, Bytes, codes, equal,
  if◌then◌else◌, set, length,
}
use executor_hotpath_cpp.Double.{Double}
use executor_hotpath_cpp.Json.Doubles.{read_double}
use executor_hotpath_cpp.Json.Numbers.{read_int}
use executor_hotpath_cpp.Json.Reader.{begin_array, next_element, at_null, read_null, read_bool}
use executor_hotpath_cpp.Json.Strings.{read_string}
use executor_hotpath_cpp.Protocol.Answer.{
  P, answer, refused, out_of_fuel, pure, ◌>>=◌, ◌>>◌, refuse, lift,
}
use executor_hotpath_cpp.Wire.{
  Direction, buy_yes, buy_no, WakeAckStatus, accepted, rejected, PriceRange, WakeMessage, WakeAck,
  unknown_field, unknown_enum_value, malformed_price_range,
}

abbrev pub Seen : Type 0
Seen = List Bool

abbrev pub none_seen : Seen
none_seen =
    false ∷ false ∷ false ∷ false ∷ false ∷ false ∷ false ∷ false ∷ false ∷ false ∷ false ∷ false
    ∷ false ∷ false ∷ []

-- `seen |= 1U << bit`
abbrev pub mark : ℕ → Seen → Seen
mark bit seen = set seen bit true

-- `A` with the mask, the two things that the decoder's loop updates.
pub record State (A : Type 0) : Type 0 where
  pub message : A
  pub seen : Seen

abbrev pub with_message : {A : Type 0} → State A → A → State A
with_message s m = record s { message = m }

-- The update of a field that is required, under its bit.
abbrev pub with_required : {A : Type 0} → ℕ → State A → A → State A
with_required bit s m = record { message = m; seen = mark bit s.seen }

unfoldable pub direction_of : Bytes → P Direction
direction_of text =
    if equal text (codes "yes")
    then pure buy_yes
    else if equal text (codes "no")
    then pure buy_no
    else refuse unknown_enum_value (codes "direction must be yes or no, got " ++ text)

unfoldable pub read_direction : P Direction
unfolding direction_of
read_direction = do text ← lift read_string; direction_of text

unfoldable pub status_of : Bytes → P WakeAckStatus
status_of text =
    if equal text (codes "accepted")
    then pure accepted
    else if equal text (codes "rejected")
    then pure rejected
    else refuse unknown_enum_value (codes "status must be accepted or rejected, got " ++ text)

unfoldable pub read_status : P WakeAckStatus
unfolding status_of
read_status = do text ← lift read_string; status_of text

unfoldable pub read_reason : P (Option Bytes)
read_reason = do
  is_null ← lift at_null
  (if is_null
      then (do lift read_null; pure none)
      else (do text ← lift read_string; pure (some text)))

unfoldable pub read_ack_field : Bytes → State WakeAck → P (State WakeAck)
unfolding read_status read_reason
read_ack_field key s =
    if equal key (codes "schema_version")
    then (do v ← lift read_int; pure (with_required 0 s (record s.message { schema_version = v })))
    else if equal key (codes "correlation_id")
    then (do
      v ← lift read_string
      pure (with_required 1 s (record s.message { correlation_id = v })))
    else if equal key (codes "received_at_ms")
    then (do v ← lift read_int; pure (with_required 12 s (record s.message { received_at_ms = v })))
    else if equal key (codes "status")
    then (do v ← read_status; pure (with_required 13 s (record s.message { status = v })))
    else if equal key (codes "reason")
    then (do v ← read_reason; pure (with_message s (record s.message { reason = v })))
    else refuse unknown_field (codes "unexpected field: " ++ key)

module _ {D : Type 0} ⦃d : Double D⦄ where
  -- The price_ranges entry that is opened has one more bound.
  unfoldable pub read_bound : P D
  read_bound = do
    present ← lift next_element
    (if present
        then lift read_double
        else refuse malformed_price_range (codes "price_ranges entry is not [start, end, step]"))

  -- The three bounds of an entry, and nothing behind them.
  unfoldable pub read_entry : P (Option (PriceRange D))
  unfolding read_bound
  read_entry = do
    lift begin_array
    start ← read_bound
    end ← read_bound
    step ← read_bound
    extra ← lift next_element
    (if extra
        then refuse malformed_price_range (codes "price_ranges entry is not [start, end, step]")
        else pure (some (record { start = start; end = end; step = step })))

  -- One round of the loop of `read_price_ranges`: `none` at the closing bracket.
  unfoldable pub read_range : P (Option (PriceRange D))
  unfolding read_entry
  read_range = do has_entry ← lift next_element; (if has_entry then read_entry else pure none)

  unfoldable pub read_ranges : ℕ → List (PriceRange D) → P (List (PriceRange D))
  read_ranges zero ranges r = out_of_fuel
  read_ranges (suc fuel) ranges r = elim (read_range r) [
    | answer entry r' ↦ elim entry [
      | none ↦ answer ranges r'
      | some range ↦ read_ranges fuel (ranges ++ range ∷ []) r'
    ]
    | refused e ↦ refused e
    | out_of_fuel ↦ out_of_fuel
  ]

  -- A round takes at least one byte.
  unfoldable pub read_price_ranges : P (List (PriceRange D))
  unfolding read_ranges
  read_price_ranges = do lift begin_array; (λ r. read_ranges (suc (length r.rest)) [] r)

  unfoldable pub read_wake_field : Bytes → State (WakeMessage D) → P (State (WakeMessage D))
  unfolding read_direction
  read_wake_field key s =
      let m = s.message in
      if equal key (codes "schema_version")
      then (do v ← lift read_int; pure (with_required 0 s (record m { schema_version = v })))
      else if equal key (codes "correlation_id")
      then (do v ← lift read_string; pure (with_required 1 s (record m { correlation_id = v })))
      else if equal key (codes "market_ticker")
      then (do v ← lift read_string; pure (with_required 2 s (record m { market_ticker = v })))
      else if equal key (codes "asset")
      then (do v ← lift read_string; pure (with_required 3 s (record m { asset = v })))
      else if equal key (codes "direction")
      then (do v ← read_direction; pure (with_required 4 s (record m { direction = v })))
      else if equal key (codes "kalshi_price")
      then (do v ← lift read_double; pure (with_required 5 s (record m { kalshi_price = v })))
      else if equal key (codes "model_probability")
      then (do v ← lift read_double; pure (with_required 6 s (record m { model_probability = v })))
      else if equal key (codes "fee")
      then (do v ← lift read_double; pure (with_required 7 s (record m { fee = v })))
      else if equal key (codes "edge")
      then (do v ← lift read_double; pure (with_required 8 s (record m { edge = v })))
      else if equal key (codes "decision_ts_ms")
      then (do v ← lift read_int; pure (with_required 9 s (record m { decision_ts_ms = v })))
      else if equal key (codes "sent_at_ms")
      then (do v ← lift read_int; pure (with_required 10 s (record m { sent_at_ms = v })))
      else if equal key (codes "sent_at_ns")
      then (do v ← lift read_int; pure (with_required 11 s (record m { sent_at_ns = v })))
      else if equal key (codes "recv_ns")
      then (do v ← lift read_int; pure (with_message s (record m { recv_ns = v })))
      else if equal key (codes "clock_domain")
      then (do v ← lift read_string; pure (with_message s (record m { clock_domain = v })))
      else if equal key (codes "dry_run")
      then (do v ← lift read_bool; pure (with_message s (record m { dry_run = v })))
      else if equal key (codes "wire_price_yes_dollars")
      then (do
        v ← lift read_double
        pure (with_message s (record m { wire_price_yes_dollars = v })))
      else if equal key (codes "exchange_index")
      then (do v ← lift read_int; pure (with_message s (record m { exchange_index = v })))
      else if equal key (codes "available_size_contracts")
      then (do
        v ← lift read_double
        pure (with_message s (record m { available_size_contracts = v })))
      else if equal key (codes "price_ranges")
      then (do v ← read_price_ranges; pure (with_message s (record m { price_ranges = v })))
      else if equal key (codes "correlation_group")
      then (do v ← lift read_string; pure (with_message s (record m { correlation_group = v })))
      else refuse unknown_field (codes "unexpected field: " ++ key)

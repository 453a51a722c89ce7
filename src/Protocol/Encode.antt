-- ===== src/Protocol/Encode.antt =====
-- The encoders of src/protocol.cpp: `encode_frame_into` of a message and of an ack. Each line
-- appends to the buffer of the line before; the four bytes of the prefix are written last.
use executor_hotpath_cpp.Base.{
  Bool, true, false, List, [], ◌∷◌, ◌++◌, Option, none, some, Bytes, codes, if◌then◌else◌,
}
use executor_hotpath_cpp.Double.{Double}
use executor_hotpath_cpp.Json.Doubles.{append_double}
use executor_hotpath_cpp.Json.Writer.{append, append_string, append_int}
use executor_hotpath_cpp.Protocol.Frame.{write_length_prefix}
use executor_hotpath_cpp.Wire.{
  Direction, buy_yes, buy_no, WakeAckStatus, accepted, rejected, PriceRange, WakeMessage, WakeAck,
}

abbrev pub name_of_direction : Direction → Bytes
name_of_direction buy_yes = codes "yes"
name_of_direction buy_no = codes "no"

abbrev pub name_of_status : WakeAckStatus → Bytes
name_of_status accepted = codes "accepted"
name_of_status rejected = codes "rejected"

unfoldable pub append_reason : Bytes → Option Bytes → Bytes
append_reason out none = append out (codes "null")
append_reason out (some text) = append_string out text

-- The body of the frame of an ack.
unfoldable pub encode_ack_body : WakeAck → Bytes
unfolding append_reason
encode_ack_body ack =
    let out = append [] (codes "{\"schema_version\":") in
    let out = append_int out ack.schema_version in
    let out = append out (codes ",\"correlation_id\":") in
    let out = append_string out ack.correlation_id in
    let out = append out (codes ",\"received_at_ms\":") in
    let out = append_int out ack.received_at_ms in
    let out = append out (codes ",\"status\":") in
    let out = append_string out (name_of_status ack.status) in
    let out = append out (codes ",\"reason\":") in
    let out = append_reason out ack.reason in out ++ b'}' ∷ []

unfoldable pub encode_ack_frame : WakeAck → Bytes
encode_ack_frame ack = write_length_prefix (encode_ack_body ack)

module _ {D : Type 0} ⦃d : Double D⦄ where
  unfoldable pub append_range : Bytes → PriceRange D → Bytes
  append_range out range =
      let out = append_double (out ++ b'[' ∷ []) range.start in
      let out = append_double (out ++ b',' ∷ []) range.end in
      append_double (out ++ b',' ∷ []) range.step ++ b']' ∷ []

  -- The loop over the ranges, with its flag `first`.
  unfoldable pub append_ranges : Bool → Bytes → List (PriceRange D) → Bytes
  unfolding append_range
  append_ranges first out [] = out
  append_ranges first out (range ∷ ranges) =
      append_ranges false (append_range (if first then out else out ++ b',' ∷ []) range) ranges

  -- The body of the frame of a message.
  unfoldable pub encode_message_body : WakeMessage D → Bytes
  unfolding append_ranges
  encode_message_body m =
      let out = append [] (codes "{\"schema_version\":") in
      let out = append_int out m.schema_version in
      let out = append out (codes ",\"correlation_id\":") in
      let out = append_string out m.correlation_id in
      let out = append out (codes ",\"market_ticker\":") in
      let out = append_string out m.market_ticker in
      let out = append out (codes ",\"asset\":") in
      let out = append_string out m.asset in
      let out = append out (codes ",\"direction\":") in
      let out = append_string out (name_of_direction m.direction) in
      let out = append out (codes ",\"kalshi_price\":") in
      let out = append_double out m.kalshi_price in
      let out = append out (codes ",\"model_probability\":") in
      let out = append_double out m.model_probability in
      let out = append out (codes ",\"fee\":") in
      let out = append_double out m.fee in
      let out = append out (codes ",\"edge\":") in
      let out = append_double out m.edge in
      let out = append out (codes ",\"decision_ts_ms\":") in
      let out = append_int out m.decision_ts_ms in
      let out = append out (codes ",\"sent_at_ms\":") in
      let out = append_int out m.sent_at_ms in
      let out = append out (codes ",\"sent_at_ns\":") in
      let out = append_int out m.sent_at_ns in
      let out = append out (codes ",\"recv_ns\":") in
      let out = append_int out m.recv_ns in
      let out = append out (codes ",\"clock_domain\":") in
      let out = append_string out m.clock_domain in
      let out = append out (codes ",\"dry_run\":") in
      let out = append out (if m.dry_run then codes "true" else codes "false") in
      let out = append out (codes ",\"wire_price_yes_dollars\":") in
      let out = append_double out m.wire_price_yes_dollars in
      let out = append out (codes ",\"exchange_index\":") in
      let out = append_int out m.exchange_index in
      let out = append out (codes ",\"available_size_contracts\":") in
      let out = append_double out m.available_size_contracts in
      let out = append out (codes ",\"price_ranges\":[") in
      let out = append_ranges true out m.price_ranges ++ b']' ∷ [] in
      let out = append out (codes ",\"correlation_group\":") in
      append_string out m.correlation_group ++ b'}' ∷ []

  unfoldable pub encode_message_frame : WakeMessage D → Bytes
  encode_message_frame m = write_length_prefix (encode_message_body m)

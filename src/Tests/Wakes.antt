-- ===== src/Tests/Wakes.antt =====
-- Two wakes: one that decodes, and one that does not.
use executor_hotpath_cpp.Base.{ℕ, ◌≡◌, refl, true, ◌++◌, Bytes, codes, leb, length}
use executor_hotpath_cpp.Base.Int.{pos}
use executor_hotpath_cpp.Protocol.Frame.{value, failure}
use executor_hotpath_cpp.Wire.{WakeMessage, malformed_json, default_message, max_frame_bytes}
use executor_hotpath_cpp.Tests.Doubles.{Double-hundredths}
use executor_hotpath_cpp.Json.Reader.{
  begin_object, peek, skip, separator, loop, at_document_end, begin_array, expect, expect_byte,
  fail, hex_byte, next_element, push_level, read_bool, starts_with,
}
use executor_hotpath_cpp.Json.Doubles.{
  append_double, format_double, format_text, format_magnitude, mantissa_digits, decimal_exponent,
  exponent_text, layout, fixed_large, fixed_small, scientific, padded,
}
use executor_hotpath_cpp.Json.Writer.{
  append, append_string, append_escaped, escaped, append_int, to_chars, digits,
}
use executor_hotpath_cpp.Protocol.Encode.{encode_message_body, append_range, append_ranges}
use executor_hotpath_cpp.Protocol.Answer.{members}
use executor_hotpath_cpp.Json.Strings.{
  next_member, scan_string, scan_body, scan_round, read_string, append_code_point, append_escape,
  escape_of, hex_digits, hex_value, low_surrogate, read_hex4, scan_from, simple_escape,
}
use executor_hotpath_cpp.Protocol.Decode.Fields.{
  read_wake_field, direction_of, read_bound, read_direction, read_entry, read_price_ranges,
  read_range, read_ranges,
}
use executor_hotpath_cpp.Base.{equal}
use executor_hotpath_cpp.Json.Numbers.{
  read_int, scan_number, digits_after, exponent_digits, exponent_part, fraction_part, from_chars,
  from_chars_digits, number_from, read_token, scan_exponent, scan_fraction, scan_whole, span_digits,
  spell, whole_part,
}
use executor_hotpath_cpp.Json.Doubles.{read_double, read_double_token}
use executor_hotpath_cpp.Json.Utf8.{
  append_utf8, continues, encode, lead_bounds, validate_from, validate_utf8_run,
}
use executor_hotpath_cpp.Protocol.Decode.{all_seen, decode, finish, missing, decode_wake_message}

abbrev pub wake : Bytes
wake =
    codes
      "{\"schema_version\":4,\"correlation_id\":\"w1\",\"market_ticker\":\"T\",\"asset\":\"BTC\","
    ++ codes "\"direction\":\"yes\",\"kalshi_price\":0.55,\"model_probability\":0.60,\"fee\":0.01,"
    ++ codes "\"edge\":0.04,\"decision_ts_ms\":1,\"sent_at_ms\":2,\"sent_at_ns\":3,"
    ++ codes "\"wire_price_yes_dollars\":0.55}"

abbrev pub wake_message : WakeMessage ℕ
wake_message = record (default_message 0 100 1) {
  correlation_id = codes "w1";
  market_ticker = codes "T";
  asset = codes "BTC";
  kalshi_price = 55;
  model_probability = 60;
  fee = 1;
  edge = 4;
  decision_ts_ms = pos 1;
  sent_at_ms = pos 2;
  sent_at_ns = pos 3;
  wire_price_yes_dollars = 55;
}

pub decode_wake : decode_wake_message {D = ℕ} wake ≡ value wake_message
unfolding begin_object peek skip separator loop at_document_end begin_array expect expect_byte fail
    hex_byte next_element push_level read_bool starts_with members next_member scan_string scan_body
    scan_round read_string append_code_point append_escape escape_of hex_digits hex_value
    low_surrogate read_hex4 scan_from simple_escape read_wake_field direction_of read_bound
    read_direction read_entry read_price_ranges read_range read_ranges equal read_int scan_number
    digits_after exponent_digits exponent_part fraction_part from_chars from_chars_digits
    number_from read_token scan_exponent scan_fraction scan_whole span_digits spell whole_part
    read_double read_double_token append_utf8 continues encode lead_bounds validate_from
    validate_utf8_run all_seen decode finish missing decode_wake_message
decode_wake = refl

-- What the encoder writes for the message, and what the decoder makes of it.
pub wake_size : leb (length (encode_message_body {D = ℕ} wake_message)) max_frame_bytes ≡ true
unfolding append append_string append_escaped escaped append_int to_chars digits append_double
    format_double format_text format_magnitude mantissa_digits decimal_exponent exponent_text layout
    fixed_large fixed_small scientific padded encode_message_body append_range append_ranges
    from_chars from_chars_digits spell
wake_size = refl

pub decode_encoded :
    decode_wake_message {D = ℕ} (encode_message_body wake_message) ≡ value wake_message
unfolding begin_object peek skip separator loop at_document_end begin_array expect expect_byte fail
    hex_byte next_element push_level read_bool starts_with members next_member scan_string scan_body
    scan_round read_string append_code_point append_escape escape_of hex_digits hex_value
    low_surrogate read_hex4 scan_from simple_escape read_wake_field direction_of read_bound
    read_direction read_entry read_price_ranges read_range read_ranges equal read_int scan_number
    digits_after exponent_digits exponent_part fraction_part from_chars from_chars_digits
    number_from read_token scan_exponent scan_fraction scan_whole span_digits spell whole_part
    read_double read_double_token append_utf8 continues encode lead_bounds validate_from
    validate_utf8_run all_seen decode finish missing decode_wake_message append append_string
    append_escaped escaped append_int to_chars digits append_double format_double format_text
    format_magnitude mantissa_digits decimal_exponent exponent_text layout fixed_large fixed_small
    scientific padded encode_message_body append_range append_ranges
decode_encoded = refl

abbrev pub noise : Bytes
noise = codes "x"

pub decode_noise :
    decode_wake_message {D = ℕ} noise
    ≡ failure (record { code = malformed_json; message = codes "expected '{', got byte 0x78" })
unfolding begin_object peek skip separator loop at_document_end begin_array expect expect_byte fail
    hex_byte next_element push_level read_bool starts_with members next_member scan_string scan_body
    scan_round read_string append_code_point append_escape escape_of hex_digits hex_value
    low_surrogate read_hex4 scan_from simple_escape read_wake_field direction_of read_bound
    read_direction read_entry read_price_ranges read_range read_ranges equal read_int scan_number
    digits_after exponent_digits exponent_part fraction_part from_chars from_chars_digits
    number_from read_token scan_exponent scan_fraction scan_whole span_digits spell whole_part
    read_double read_double_token append_utf8 continues encode lead_bounds validate_from
    validate_utf8_run all_seen decode finish missing decode_wake_message
decode_noise = refl

-- ===== src/Tests/Texts.antt =====
-- Strings, integers, frames and acks at concrete inputs.
use executor_hotpath_cpp.Base.{◌≡◌, refl, inl, [], ◌∷◌, ◌++◌, codes, arith, some}
use executor_hotpath_cpp.Base.Int.{pos, negsuc}
use executor_hotpath_cpp.Json.Reader.{Reader, ok, start, skip, loop}
use executor_hotpath_cpp.Json.Strings.{
  scan_string, read_string, scan_body, scan_round, append_escape, append_code_point,
}
use executor_hotpath_cpp.Json.Strings.Sound.{scan_string-IsUtf8}
use executor_hotpath_cpp.Json.Numbers.{read_int}
use executor_hotpath_cpp.Json.Utf8.{encode, validate_utf8_run, IsUtf8}
use executor_hotpath_cpp.Json.Utf8.Codec.{IsRun, validate_utf8_run-encode, validate_utf8_run-IsRun}
use executor_hotpath_cpp.Json.Utf8.Text.{IsAscii-IsUtf8}
use executor_hotpath_cpp.Json.Writer.{append_string, append_int}
use executor_hotpath_cpp.Json.Writer.Ints.{read_int-append_int}
use executor_hotpath_cpp.Json.Writer.RoundTrip.{read_string-append_string}
use executor_hotpath_cpp.Protocol.AckRoundTrip.{decode_wake_ack-encode}
use executor_hotpath_cpp.Protocol.Decode.{decode_wake_ack}
use executor_hotpath_cpp.Protocol.Encode.{encode_ack_body}
use executor_hotpath_cpp.Protocol.Frame.{
  value, length_prefix, decode_frame_length, decode_frame_length-length_prefix,
}
use executor_hotpath_cpp.Wire.{WakeAck, rejected}

abbrev blank_reader : Reader
blank_reader = start []

-- U+20AC
validate_utf8_run-encode_example :
    validate_utf8_run (record blank_reader { rest = encode 0x20AC ++ codes "x" })
    ≡ ok (encode 0x20AC) (record blank_reader { rest = codes "x" })
validate_utf8_run-encode_example =
    validate_utf8_run-encode blank_reader 0x20AC (codes "x") (inl (omega arith)) (omega arith)

abbrev euro : Reader
euro = record blank_reader { rest = 0xE2 ∷ 0x82 ∷ 0xAC ∷ codes "x" }

validate_utf8_run-IsRun_example :
    IsRun euro (0xE2 ∷ 0x82 ∷ 0xAC ∷ []) (record blank_reader { rest = codes "x" })
unfolding validate_utf8_run
validate_utf8_run-IsRun_example = validate_utf8_run-IsRun euro refl

scan_string-IsUtf8_example : IsUtf8 (codes "A\n")
unfolding scan_string skip scan_body loop scan_round append_escape append_code_point encode
scan_string-IsUtf8_example =
    scan_string-IsUtf8 (record blank_reader { rest = codes "\"\\u0041\\n\"" }) {r' = blank_reader}
      refl

read_string-append_string_example :
    read_string (record blank_reader { rest = append_string [] (codes "a\"b") ++ codes "," })
    ≡ ok (codes "a\"b") (record blank_reader { rest = codes "," })
read_string-append_string_example =
    read_string-append_string (codes ",") blank_reader
      (IsAscii-IsUtf8 (codes "a\"b") (omega arith, (omega arith, (omega arith, tt))))

read_int-append_int_example :
    read_int (record blank_reader { rest = append_int [] (negsuc 41) ++ codes "," })
    ≡ ok (negsuc 41) (record blank_reader { rest = codes "," })
read_int-append_int_example =
    read_int-append_int (negsuc 41) (codes ",") blank_reader (omega arith) refl

decode_frame_length-length_prefix_example : decode_frame_length (length_prefix 1000) ≡ value 1000
decode_frame_length-length_prefix_example = decode_frame_length-length_prefix 1000 (omega arith)

abbrev ack : WakeAck
ack = record {
  schema_version = pos 4;
  correlation_id = codes "w1";
  received_at_ms = pos 17;
  status = rejected;
  reason = some (codes "no");
}

decode_wake_ack-encode_example : decode_wake_ack (encode_ack_body ack) ≡ value ack
decode_wake_ack-encode_example = decode_wake_ack-encode ack (record {
  version = omega arith;
  id = IsAscii-IsUtf8 (codes "w1") (omega arith, (omega arith, tt));
  received = omega arith;
  reason = IsAscii-IsUtf8 (codes "no") (omega arith, (omega arith, tt));
})

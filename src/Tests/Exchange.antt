-- ===== src/Tests/Exchange.antt =====
-- A client and the executor at concrete inputs.
use executor_hotpath_cpp.Base.{
  ℕ, ◌≡◌, ◌≤◌, ◌<◌, refl, true, false, equal, [], ◌∷◌, ◌++◌, codes, Bytes, arith, none, length,
  leb→le,
}
use executor_hotpath_cpp.Bench.Poller.{Link, sent_wake, send_wake}
use executor_hotpath_cpp.Bench.Poller.Exchange.{send_wake-serve_round}
use executor_hotpath_cpp.Executor.{ExecutorServer}
use executor_hotpath_cpp.Executor.Serve.{Peer, running, serve_round}
use executor_hotpath_cpp.Executor.Serve.Oversized.{long_body, ack_of-oversized}
use executor_hotpath_cpp.Executor.Serve.Replies.{ack_of}
use executor_hotpath_cpp.Executor.Socket.{up_to, interrupted, wrote, send_interrupted}
use executor_hotpath_cpp.Json.Reader.{begin_object, skip, separator, loop}
use executor_hotpath_cpp.Json.Strings.{
  next_member, scan_string, scan_body, scan_round, append_escape, append_code_point,
}
use executor_hotpath_cpp.Json.Utf8.{IsUtf8, encode}
use executor_hotpath_cpp.Protocol.Clean.Decode.{CleanDecoded, decode_wake_message-CleanDecoded}
use executor_hotpath_cpp.Protocol.Decode.{decode_wake_message}
use executor_hotpath_cpp.Protocol.Decode.Unknown.{unexpected, decode_wake_message-IsUnknown}
use executor_hotpath_cpp.Protocol.Encode.{
  encode_message_body, encode_message_frame, encode_ack_body, encode_ack_frame, append_reason,
}
use executor_hotpath_cpp.Protocol.Frame.{failure}
use executor_hotpath_cpp.Protocol.Members.{inside}
use executor_hotpath_cpp.Json.Writer.{
  append, append_string, append_escaped, escaped, append_int, to_chars, digits,
}
use executor_hotpath_cpp.Tests.Doubles.{Double-hundredths}
use executor_hotpath_cpp.Tests.Serving.{round, server}
use executor_hotpath_cpp.Tests.Wakes.{wake_message, noise, wake_size, decode_encoded}
use executor_hotpath_cpp.Wire.{WakeAck, rejected, default_ack, max_frame_bytes}

decode_wake_message-CleanDecoded_example :
    CleanDecoded (λ m. IsUtf8 m.correlation_id) (decode_wake_message {D = ℕ} noise)
decode_wake_message-CleanDecoded_example = decode_wake_message-CleanDecoded ℕ noise

-- White space in front of the key, and an escape in it.
abbrev spaced : Bytes
spaced = codes "{ \"\\u0073ide\" :1}"

decode_wake_message-IsUnknown_example :
    decode_wake_message {D = ℕ} spaced ≡ failure (unexpected (codes "side"))
unfolding begin_object skip separator next_member scan_string scan_body scan_round loop
    append_escape append_code_point encode
decode_wake_message-IsUnknown_example =
    decode_wake_message-IsUnknown ℕ spaced (codes "side")
      (inside true (codes " \"\\u0073ide\" :1}")) (inside false (codes "1}")) refl refl
      (unfold equal in ground arith)

ack_of-oversized_example :
    (length (long_body 65510) ≤ max_frame_bytes)
    × ((ack_of round (decode_wake_message {D = ℕ} (long_body 65510))).status ≡ rejected)
    × (max_frame_bytes
        < length (encode_ack_body (ack_of round (decode_wake_message {D = ℕ} (long_body 65510)))))
ack_of-oversized_example = ack_of-oversized ℕ round 65510 (omega arith) (omega arith)

ack_size :
    let ack = ack_of round (decode_wake_message {D = ℕ} (encode_message_body wake_message)) in
    length (encode_ack_body ack) ≤ max_frame_bytes
unfolding ack_of encode_ack_body append append_string append_escaped escaped append_int to_chars
    digits append_reason
ack_size = rw decode_encoded (leb→le _ _ refl)

abbrev reply : WakeAck
reply = ack_of round (decode_wake_message {D = ℕ} (encode_message_body wake_message))

-- The wake arrives in pieces, and so does its ack.
abbrev peer : Peer
peer = record {
  incoming = encode_message_frame wake_message ++ codes "more";
  reads = up_to 2 ∷ interrupted false ∷ [];
  sends = wrote 3 ∷ [];
  sent = [];
}

abbrev link : Link
link = record {
  incoming = encode_ack_frame reply ++ [];
  reads = up_to 0 ∷ up_to 9 ∷ [];
  sends = send_interrupted false ∷ wrote 5 ∷ [];
  sent = [];
  errno = [];
}

send_wake-serve_round_example :
    ((after : Peer) × (t : ExecutorServer ℕ) × (serve_round round peer server ≡ (running, after, t))
      × (after.incoming ≡ codes "more")
      × (after.sent ≡ [] ++ encode_ack_frame reply))
    × ((after : Link) × (send_wake true wake_message default_ack link ≡ sent_wake none reply after)
        × (after.incoming ≡ [])
        × (after.sent ≡ [] ++ encode_message_frame wake_message))
send_wake-serve_round_example =
    send_wake-serve_round wake_message default_ack round peer server link (codes "more") []
      (refl, leb→le _ _ wake_size) (omega arith) refl (tt, (refl, tt)) (tt, tt) ack_size refl
      (tt, (tt, tt)) (tt, (tt, tt))

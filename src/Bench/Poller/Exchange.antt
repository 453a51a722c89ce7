-- ===== src/Bench/Poller/Exchange.antt =====
-- The client of bench/poller_client.cpp and the server of src/executor.cpp on one socket: a wake and
-- its ack.
use executor_hotpath_cpp.Base.{arith, ◌≡◌, ◌++◌, Bytes, true, none, length, All, ◌≤◌}
use executor_hotpath_cpp.Base.Int.{IsI64}
use executor_hotpath_cpp.Bench.Poller.{Link, sent_wake, send_wake}
use executor_hotpath_cpp.Bench.Poller.Acked.{Gives, Takes, send_wake-ack}
use executor_hotpath_cpp.Double.{Double}
use executor_hotpath_cpp.Executor.{ExecutorServer}
use executor_hotpath_cpp.Executor.Serve.{Round, Peer, running, serve_round}
use executor_hotpath_cpp.Executor.Serve.Replies.{IsFrame, ack_of, handled, serve_round_lem}
use executor_hotpath_cpp.Executor.Socket.Read.{IsPatient}
use executor_hotpath_cpp.Executor.Socket.Send.{IsPatientSend}
use executor_hotpath_cpp.Json.Utf8.{IsUtf8, nil}
use executor_hotpath_cpp.Protocol.AckRoundTrip.{IsAck}
use executor_hotpath_cpp.Protocol.Clean.Decode.{CleanDecoded, decode_wake_message-CleanDecoded}
use executor_hotpath_cpp.Protocol.Decode.{decode_wake_message}
use executor_hotpath_cpp.Protocol.Encode.{
  encode_message_body, encode_message_frame, encode_ack_body, encode_ack_frame,
}
use executor_hotpath_cpp.Protocol.Frame.{Decoded, value, failure, exhausted}
use executor_hotpath_cpp.Wire.{WakeMessage, WakeAck, max_frame_bytes}

module _ {D : Type 0} ⦃d : Double D⦄ where
  wake_reply-IsAck :
      (round : Round) (o : Decoded (WakeMessage D))
      → IsI64 round.started_at_ms
      → CleanDecoded (λ m. IsUtf8 m.correlation_id) o
      → IsAck (ack_of round o)
  unfolding ack_of
  wake_reply-IsAck round (value m) h u = record {
    version = omega arith;
    id = u;
    received = h;
    reason = tt;
  }
  wake_reply-IsAck round (failure e) h u = record {
    version = omega arith;
    id = nil;
    received = h;
    reason = u;
  }
  wake_reply-IsAck round exhausted h u = record {
    version = omega arith;
    id = nil;
    received = omega arith;
    reason = tt;
  }

-- Whatever body a peer sends, the ack of the executor has 64-bit integers and UTF-8 texts, so it is
-- one that an ack's round trip holds for.
pub ack_of-IsAck :
    (D : Type 0) ⦃d : Double D⦄ (round : Round) (body : Bytes)
    → IsI64 round.started_at_ms
    → IsAck (ack_of round (decode_wake_message {D = D} body))
ack_of-IsAck D round body h =
    wake_reply-IsAck round (decode_wake_message body) h (decode_wake_message-CleanDecoded D body)

module _ {D : Type 0} ⦃d : Double D⦄ where
  -- A wake that a client sends over a socket that does not fail: the round of the server answers with
  -- an ack, and the client returns just that ack, if the frame that it reads is the one the server
  -- sends, and the bodies of the wake and of the ack have at most 64 KiB.
  pub send_wake-serve_round :
      (m : WakeMessage D) (old : WakeAck) (round : Round) (peer : Peer) (s : ExecutorServer D)
      (link : Link) (rest more : Bytes)
      → IsFrame (round, encode_message_body m)
      → IsI64 round.started_at_ms
      → peer.incoming ≡ encode_message_frame m ++ rest
      → All IsPatient peer.reads
      → All IsPatientSend peer.sends
      → (let ack = ack_of round (decode_wake_message {D = D} (encode_message_body m)) in
          length (encode_ack_body ack) ≤ max_frame_bytes)
      → (let ack = ack_of round (decode_wake_message {D = D} (encode_message_body m)) in
          link.incoming ≡ encode_ack_frame ack ++ more)
      → All Gives link.reads
      → All Takes link.sends
      → (let ack = ack_of round (decode_wake_message {D = D} (encode_message_body m)) in
          ((after : Peer) × (t : ExecutorServer D) × (serve_round round peer s
              ≡ (running, after, t))
            × (after.incoming ≡ rest)
            × (after.sent ≡ peer.sent ++ encode_ack_frame ack))
          × ((after : Link) × (send_wake true m old link ≡ sent_wake none ack after)
              × (after.incoming ≡ more)
              × (after.sent ≡ link.sent ++ encode_message_frame m)))
  unfolding encode_message_frame
  send_wake-serve_round m old round peer s link rest more f h e p q l i g t =
      let body : Bytes = encode_message_body m in
      let (after, r, incoming, sent, _, _) = serve_round_lem D round body rest peer s f e p q in
      (
        (after, handled round (decode_wake_message body) s, r, incoming, sent),
        send_wake-ack m (ack_of round (decode_wake_message {D = D} body)) old more link
            (ack_of-IsAck D round body h) l g t i,
      )

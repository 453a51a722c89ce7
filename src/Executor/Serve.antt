-- ===== src/Executor/Serve.antt =====
-- `serve_connection` of src/executor.cpp: the loop that reads a frame, decodes it, answers with an
-- ack and hands the message to `handle_fire`. A round of the loop has its own clocks and flag; the
-- loop goes on for the rounds that it is given.
pub mod Counters
pub mod Replies
pub mod Oversized
use executor_hotpath_cpp.Base.{
  ℕ, ◌+◌, ◌-◌, Bool, List, [], ◌∷◌, Option, none, some, Bytes, if◌then◌else◌, leb,
}
use executor_hotpath_cpp.Base.Int.{ℤ, pos, negsuc}
use executor_hotpath_cpp.Double.{Double}
use executor_hotpath_cpp.Executor.{ExecutorServer, Look, handle_fire}
use executor_hotpath_cpp.Executor.Socket.{
  ReadResult, peer_closed, read_failed, read_ok, ReadAnswer, SendAnswer, read_exactly, send_frame,
}
use executor_hotpath_cpp.Protocol.Decode.{decode_wake_message}
use executor_hotpath_cpp.Protocol.Encode.{encode_ack_frame}
use executor_hotpath_cpp.Protocol.Frame.{Decoded, value, failure, exhausted, decode_frame_length}
use executor_hotpath_cpp.Wire.{
  WakeMessage, WakeAck, accepted, rejected, schema_version_current, frame_length_bytes,
}

-- What one round sees: `stopping_` at its top, the clocks where it reads them, and what the kill
-- switch sees.
pub record Round : Type 0 where
  pub stopping : Bool
  pub started_at_ms : ℤ
  pub started_ns : ℕ
  pub ended_ns : ℕ
  pub ended_at_ms : ℤ
  pub look : Look

-- The peer: what it has sent and nobody has read, the answers of the calls to come, and what it got.
pub record Peer : Type 0 where
  pub incoming : Bytes
  pub reads : List ReadAnswer
  pub sends : List SendAnswer
  pub sent : Bytes

-- How the loop ended; `running` is a loop that has used up its rounds, and `undecided` a decoder
-- that has run out of fuel.
pub data Ending : Type 0 where
  stopped returned running undecided : Ending

-- `a - b` on 64-bit integers, of clocks
abbrev pub difference : ℕ → ℕ → ℤ
difference a b = if leb b a then pos (a - b) else negsuc (b - a - 1)

abbrev pub rejection : Round → Bytes → WakeAck
rejection round message = record {
  schema_version = schema_version_current;
  correlation_id = [];
  received_at_ms = round.started_at_ms;
  status = rejected;
  reason = some message;
}

abbrev pub acceptance : {D : Type 0} → Round → WakeMessage D → WakeAck
acceptance round m = record {
  schema_version = schema_version_current;
  correlation_id = m.correlation_id;
  received_at_ms = round.started_at_ms;
  status = accepted;
  reason = none;
}

-- `send_frame` of the ack
abbrev pub send_ack : Peer → WakeAck → Bool × Peer
send_ack peer ack =
    let d = send_frame peer.sends peer.sent (encode_ack_frame ack) in
    (d.delivered, record peer { sends = d.answers; sent = d.sent })

abbrev pub unless_returned : ReadResult → Bytes → Peer → Option (Bytes × Peer)
unless_returned read_ok out peer = some (out, peer)
unless_returned peer_closed out peer = none
unless_returned read_failed out peer = none

-- `read_exactly` into a buffer of `count` bytes: the bytes, unless the loop returns.
unfoldable pub read_bytes : ℕ → Peer → Option (Bytes × Peer)
read_bytes count peer =
    let r = read_exactly peer.reads count peer.incoming in
    unless_returned r.result r.out (record peer { incoming = r.incoming; reads = r.answers })

abbrev pub read_body : Decoded ℕ → Peer → Option (Bytes × Peer)
read_body (value count) peer = read_bytes count peer
read_body (failure _) peer = none
read_body exhausted peer = none

abbrev pub after_prefix : Option (Bytes × Peer) → Option (Bytes × Peer)
after_prefix none = none
after_prefix (some (prefix, peer)) = read_body (decode_frame_length prefix) peer

-- The prefix, its length, and as many bytes: the body of the next frame, unless the loop returns.
unfoldable pub read_frame : Peer → Option (Bytes × Peer)
read_frame peer = after_prefix (read_bytes frame_length_bytes peer)

module _ {D : Type 0} where
  abbrev pub count_read : ExecutorServer D → ExecutorServer D
  count_read s = record s { stats = record s.stats { frames_read = s.stats.frames_read + 1 } }

  abbrev pub count_rejected : ExecutorServer D → ExecutorServer D
  count_rejected s = record s {
    stats = record s.stats { acks_rejected = s.stats.acks_rejected + 1 };
  }

  abbrev pub count_accepted : ExecutorServer D → ExecutorServer D
  count_accepted s = record s {
    stats = record s.stats { acks_accepted = s.stats.acks_accepted + 1 };
  }

module _ {D : Type 0} ⦃d : Double D⦄ where
  -- `record_wake_recv`, where it is set
  unfoldable pub record_wake_recv : Round → WakeMessage D → ExecutorServer D → ExecutorServer D
  record_wake_recv round m s =
      if s.has_recorder
      then record s {
        recorded =
            record {
              correlation_id = m.correlation_id;
              started_at_ms = round.started_at_ms;
              ended_at_ms = round.ended_at_ms;
              duration_ms =
                  d.div (d.of_int (difference round.ended_ns round.started_ns))
                    (d.of_int (pos 1000000));
              dry_run = m.dry_run;
            }
            ∷ s.recorded;
      }
      else s

  -- A round from `++stats_.frames_read` on, with what the decoder says of the body. The loop goes on
  -- where the result is `running`.
  unfoldable pub answer_frame :
      Round → Decoded (WakeMessage D) → Peer → ExecutorServer D → Ending × Peer × ExecutorServer D
  unfolding record_wake_recv
  answer_frame round (failure e) peer s =
      let (delivered, peer) = send_ack peer (rejection round e.message) in
      (if delivered then running else returned, peer, count_rejected (count_read s))
  answer_frame round (value m) peer s =
      let s = count_accepted (count_read s) in
      let (delivered, peer) = send_ack peer (acceptance round m) in
      if delivered
      then (running, peer, (handle_fire round.look m (record_wake_recv round m s)).0)
      else (returned, peer, s)
  answer_frame round exhausted peer s = (undecided, peer, s)

  unfoldable pub serve_round : Round → Peer → ExecutorServer D → Ending × Peer × ExecutorServer D
  unfolding answer_frame
  serve_round round peer s = if round.stopping then (stopped, peer, s) else elim (read_frame peer) [
    | none ↦ (returned, peer, s)
    | some (body, peer) ↦ answer_frame round (decode_wake_message body) peer s
  ]

  -- The next round, unless the loop has ended.
  abbrev pub go_on :
      Ending × Peer × ExecutorServer D
      → (Peer → ExecutorServer D → Ending × Peer × ExecutorServer D)
      → Ending × Peer × ExecutorServer D
  go_on (running, peer, s) next = next peer s
  go_on (stopped, peer, s) next = (stopped, peer, s)
  go_on (returned, peer, s) next = (returned, peer, s)
  go_on (undecided, peer, s) next = (undecided, peer, s)

  unfoldable pub serve_connection :
      List Round → Peer → ExecutorServer D → Ending × Peer × ExecutorServer D
  serve_connection [] peer s = (running, peer, s)
  serve_connection (round ∷ rounds) peer s =
      go_on (serve_round round peer s) (λ peer s. serve_connection rounds peer s)

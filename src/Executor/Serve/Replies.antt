-- ===== src/Executor/Serve/Replies.antt =====
-- A connection whose socket does not fail, frame by frame.
use executor_hotpath_cpp.Base.{
  ℕ, ◌≤◌, ◌≡◌, ◌≢◌, refl, sym, ap, ◌∙◌, false, List, [], ◌∷◌, ◌++◌, append_assoc, append-nil, Bytes,
  some, arith, length, length-append, All, inl, inr,
}
use executor_hotpath_cpp.Base.Cuts.{take-length-append, drop-length-append}
use executor_hotpath_cpp.Double.{Double}
use executor_hotpath_cpp.Executor.{ExecutorServer, handle_fire}
use executor_hotpath_cpp.Executor.Serve.{
  Round, Peer, Ending, running, record_wake_recv, answer_frame, count_accepted, count_read,
  count_rejected, acceptance, rejection, read_bytes, serve_round, serve_connection, read_frame,
}
use executor_hotpath_cpp.Executor.Socket.{ReadAnswer, SendAnswer, read_exactly, send_frame}
use executor_hotpath_cpp.Executor.Socket.Read.{IsPatient, read_exactly-IsExact}
use executor_hotpath_cpp.Executor.Socket.Send.{IsPatientSend, send_frame-IsSent}
use executor_hotpath_cpp.Protocol.Decode.{decode_wake_message}
use executor_hotpath_cpp.Protocol.Ends.Decode.{decode_wake_message-ends}
use executor_hotpath_cpp.Protocol.Encode.{encode_ack_frame}
use executor_hotpath_cpp.Protocol.Frame.{
  Decoded, value, failure, exhausted, length_prefix, write_length_prefix,
  decode_frame_length-length_prefix,
}
use executor_hotpath_cpp.Wire.{
  WakeMessage, WakeAck, frame_length_bytes, max_frame_bytes, default_ack,
}

read_bytes_lem :
    (count : ℕ) (bytes rest : Bytes) (peer : Peer)
    → count ≡ length bytes
    → All IsPatient peer.reads
    → peer.incoming ≡ bytes ++ rest
    → (reads : List ReadAnswer) × All IsPatient reads
      × (read_bytes count peer ≡ some (bytes, record peer { incoming = rest; reads = reads }))
unfolding read_bytes
read_bytes_lem count bytes rest peer c p e =
    elim (read_exactly-IsExact peer.reads count peer.incoming p) [
      | inl (_, (r, o, i, q)) ↦ (
        (read_exactly peer.reads count peer.incoming).answers,
        q,
        rw (r, o, i, e, c, take-length-append bytes rest, drop-length-append bytes rest) refl,
      )
      | inr (l, _) ↦ absurd (omega (arith, c, l, ap (λ t. length t) e, length-append bytes rest))
    ]

-- The peer after a frame was read.
read_frame_lem :
    (body rest : Bytes) (peer : Peer)
    → length body ≤ max_frame_bytes
    → All IsPatient peer.reads
    → peer.incoming ≡ write_length_prefix body ++ rest
    → (reads : List ReadAnswer) × All IsPatient reads
      × (read_frame peer ≡ some (body, record peer { incoming = rest; reads = reads }))
unfolding read_frame write_length_prefix length_prefix
read_frame_lem body rest peer h p e =
    let prefix : Bytes = length_prefix (length body) in
    let (reads, q, f) =
      read_bytes_lem frame_length_bytes prefix (body ++ rest) peer refl p
        (e ∙ append_assoc prefix body rest) in
    let after : Peer = record peer { incoming = body ++ rest; reads = reads } in
    let (reads', q', f') = read_bytes_lem (length body) body rest after refl q refl in
    (reads', q', rw (f, decode_frame_length-length_prefix (length body) h, f') refl)

-- A frame whose body is within bounds, in a round of a server that runs.
abbrev pub IsFrame : Round × Bytes → Type 0
IsFrame (round, body) = (round.stopping ≡ false) × (length body ≤ max_frame_bytes)

abbrev pub rounds_of : List (Round × Bytes) → List Round
rounds_of [] = []
rounds_of ((round, _) ∷ frames) = round ∷ rounds_of frames

-- The frames as the peer sends them.
abbrev pub stream : List (Round × Bytes) → Bytes
stream [] = []
stream ((_, body) ∷ frames) = write_length_prefix body ++ stream frames

-- The peer has sent nothing but these frames and what comes behind them, and its socket does not
-- fail.
abbrev pub IsWaiting : List (Round × Bytes) → Bytes → Peer → Type 0
IsWaiting frames rest peer =
    (peer.incoming ≡ stream frames ++ rest)
    × All IsPatient peer.reads
    × All IsPatientSend peer.sends

module _ {D : Type 0} ⦃d : Double D⦄ where
  -- The ack of a frame, and the server after it.
  unfoldable pub ack_of : Round → Decoded (WakeMessage D) → WakeAck
  ack_of round (failure e) = rejection round e.message
  ack_of round (value m) = acceptance round m
  ack_of round exhausted = default_ack

  pub handled : Round → Decoded (WakeMessage D) → ExecutorServer D → ExecutorServer D
  handled round (failure e) s = count_rejected (count_read s)
  handled round (value m) s =
      (handle_fire round.look m (record_wake_recv round m (count_accepted (count_read s)))).0
  handled round exhausted s = s

  answer_frame_lem :
      (round : Round) (o : Decoded (WakeMessage D)) (peer : Peer) (s : ExecutorServer D)
      → o ≢ exhausted
      → All IsPatientSend peer.sends
      → (sends : List SendAnswer) × All IsPatientSend sends
        × (answer_frame round o peer s ≡ (
          running,
          record peer { sends = sends; sent = peer.sent ++ encode_ack_frame (ack_of round o) },
          handled round o s,
        ))
  unfolding answer_frame ack_of handled
  answer_frame_lem round exhausted peer s n p = absurd (n refl)
  answer_frame_lem round (failure e) peer s n p =
      let frame : Bytes = encode_ack_frame (rejection round e.message) in
      let ((h, t), q) = send_frame-IsSent peer.sends peer.sent frame p in
      ((send_frame peer.sends peer.sent frame).answers, q, rw (h, t) refl)
  answer_frame_lem round (value m) peer s n p =
      let frame : Bytes = encode_ack_frame (acceptance round m) in
      let ((h, t), q) = send_frame-IsSent peer.sends peer.sent frame p in
      ((send_frame peer.sends peer.sent frame).answers, q, rw (h, t) refl)

module _ (D : Type 0) ⦃d : Double D⦄ where
  -- The acks of the frames, and the server behind the last.
  pub acks : List (Round × Bytes) → Bytes
  acks [] = []
  acks ((round, body) ∷ frames) =
      encode_ack_frame (ack_of round (decode_wake_message {D = D} body)) ++ acks frames

  pub handle_all : List (Round × Bytes) → ExecutorServer D → ExecutorServer D
  handle_all [] s = s
  handle_all ((round, body) ∷ frames) s =
      handle_all frames (handled round (decode_wake_message body) s)

  abbrev pub IsServed :
      List (Round × Bytes)
      → Bytes
      → Peer
      → ExecutorServer D
      → Ending × Peer × ExecutorServer D
      → Type 0
  IsServed frames rest peer s (ending, after, t) =
      (ending ≡ running)
      × (after.sent ≡ peer.sent ++ acks frames)
      × (after.incoming ≡ rest)
      × (t ≡ handle_all frames s)

  pub serve_round_lem :
      (round : Round) (body rest : Bytes) (peer : Peer) (s : ExecutorServer D)
      → IsFrame (round, body)
      → peer.incoming ≡ write_length_prefix body ++ rest
      → All IsPatient peer.reads
      → All IsPatientSend peer.sends
      → (after : Peer) × (serve_round round peer s
          ≡ (running, after, handled round (decode_wake_message body) s))
        × (after.incoming ≡ rest)
        × (after.sent
            ≡ peer.sent ++ encode_ack_frame (ack_of round (decode_wake_message {D = D} body)))
        × All IsPatient after.reads
        × All IsPatientSend after.sends
  unfolding serve_round
  serve_round_lem round body rest peer s (stop, l) e p q =
      let (reads, p', f) = read_frame_lem body rest peer l p e in
      let read : Peer = record peer { incoming = rest; reads = reads } in
      let (sends, q', g) =
        answer_frame_lem round (decode_wake_message body) read s (decode_wake_message-ends D body)
          q in
      (
        record read {
          sends = sends;
          sent = peer.sent ++ encode_ack_frame (ack_of round (decode_wake_message {D = D} body));
        },
        simp (stop, f) g,
        refl,
        refl,
        p',
        q',
      )

  -- On a socket that does not fail, and in rounds of a server that runs, each of the frames that a
  -- peer sends (each with a body of at most 64 KiB) gets its ack, the acks go out in the order of the
  -- frames, the messages are handled in that order too, and the loop then waits for what comes next,
  -- whatever pieces the bytes come and go in.
  pub serve_connection-IsServed :
      (frames : List (Round × Bytes)) (rest : Bytes) (peer : Peer) (s : ExecutorServer D)
      → All IsFrame frames
      → IsWaiting frames rest peer
      → IsServed frames rest peer s (serve_connection (rounds_of frames) peer s)
  unfolding serve_connection acks handle_all
  serve_connection-IsServed [] rest peer s _ (e, p, q) = (refl, sym (append-nil peer.sent), e, refl)
  serve_connection-IsServed ((round, body) ∷ frames) rest peer s (f, fs) (e, p, q) =
      let (after, g, i, o, p', q') =
        serve_round_lem round body (stream frames ++ rest) peer s f
          (e ∙ append_assoc (write_length_prefix body) (stream frames) rest) p q in
      let (r, t, j, u) =
        serve_connection-IsServed frames rest after (handled round (decode_wake_message body) s) fs
          (i, p', q') in
      rw g (
        r,
        t
            ∙ ap (λ t. t ++ acks frames) o
            ∙ append_assoc peer.sent
                (encode_ack_frame (ack_of round (decode_wake_message {D = D} body))) (acks frames),
        j,
        u,
      )

-- ===== src/Bench/Poller/Acked.antt =====
-- What `send_wake` of bench/poller_client.cpp returns for an ack of the executor.
use executor_hotpath_cpp.Base.{
  ℕ, zero, suc, ◌-◌, ◌≤◌, ◌≡◌, refl, sym, ap, ◌∙◌, true, List, [], ◌∷◌, ◌++◌, append-nil,
  append_assoc, none, Bytes, arith, length, length-append, All,
}
use executor_hotpath_cpp.Base.Cuts.{
  take, drop, take_split, drop_split, length-drop, append-take-drop, take-length-append,
  drop-length-append,
}
use executor_hotpath_cpp.Bench.Poller.{
  Link, Filled, fill, read_exactly, send_all, sent_wake, receive_ack, send_wake,
}
use executor_hotpath_cpp.Double.{Double}
use executor_hotpath_cpp.Executor.Socket.{
  ReadAnswer, up_to, interrupted, read_error, SendAnswer, wrote, send_interrupted, send_error,
  smaller,
}
use executor_hotpath_cpp.Executor.Socket.Read.{smaller_le}
use executor_hotpath_cpp.Protocol.AckRoundTrip.{IsAck, decode_wake_ack-encode}
use executor_hotpath_cpp.Protocol.Encode.{encode_message_frame, encode_ack_frame, encode_ack_body}
use executor_hotpath_cpp.Protocol.Frame.{
  length_prefix, write_length_prefix, decode_frame_length-length_prefix,
}
use executor_hotpath_cpp.Wire.{WakeMessage, WakeAck, frame_length_bytes, max_frame_bytes}

-- An answer of `read` that gives bytes, and one of `send` that is no failure.
abbrev pub Gives : ReadAnswer → Type 0
Gives (up_to _) = Unit
Gives (interrupted _) = ⊥
Gives read_error = ⊥

abbrev pub Takes : SendAnswer → Type 0
Takes (wrote _) = Unit
Takes (send_interrupted _) = Unit
Takes send_error = ⊥

-- The buffer is filled with what comes first, and the rest is left.
abbrev Fills : ℕ → Bytes → Bytes → Link → Filled → Type 0
Fills count out incoming link f =
    (reads : List ReadAnswer) × All Gives reads
    × (f ≡ (
      none,
      out ++ take count incoming,
      record link { incoming = drop count incoming; reads = reads },
    ))

Fills-chunk :
    (more left b : ℕ) (out incoming : Bytes) (link : Link) (f : Filled)
    → more ≤ left
    → Fills (left - more) (out ++ b ∷ take more incoming) (drop more incoming) link f
    → Fills (suc left) out (b ∷ incoming) link f
Fills-chunk more left b out incoming link f h (reads, g, e) = (
  reads,
  g,
  rw
      (
        take_split more left incoming h,
        drop_split more left incoming h,
        sym (append_assoc out (b ∷ take more incoming) (take (left - more) (drop more incoming))),
      )
      e,
)

fill-Fills :
    (answers : List ReadAnswer) (count : ℕ) (out incoming : Bytes) (link : Link)
    → All Gives answers
    → count ≤ length incoming
    → Fills count out incoming link (fill answers count out incoming link)
unfolding fill
fill-Fills answers zero out incoming link g h = (answers, g, rw (append-nil out) refl)
fill-Fills [] (suc left) out incoming link g h = ([], tt, ground arith)
fill-Fills (up_to n ∷ answers) (suc left) out [] link g h = absurd (omega arith)
fill-Fills (up_to n ∷ answers) (suc left) out (b ∷ incoming) link (_, g) h =
    let more : ℕ = smaller left (smaller n (length incoming)) in
    let l = smaller_le left (smaller n (length incoming)) in
    Fills-chunk more left b out incoming link _ l.0 (
      fill-Fills answers (left - more) (out ++ b ∷ take more incoming) (drop more incoming) link g
        (omega (arith, l.0, l.1, smaller_le n (length incoming), length-drop more incoming)))
fill-Fills (interrupted _ ∷ answers) (suc left) out incoming link (g, _) h = absurd g
fill-Fills (read_error ∷ answers) (suc left) out incoming link (g, _) h = absurd g

read_exactly-append :
    (count : ℕ) (bytes rest : Bytes) (link : Link)
    → count ≡ length bytes
    → All Gives link.reads
    → link.incoming ≡ bytes ++ rest
    → (reads : List ReadAnswer) × All Gives reads
      × (read_exactly count link ≡ (none, bytes, record link { incoming = rest; reads = reads }))
unfolding read_exactly
read_exactly-append count bytes rest link c g e =
    let l : count ≤ length link.incoming =
      omega (arith, c, ap (λ t. length t) e, length-append bytes rest) in
    let (reads, q, f) = fill-Fills link.reads count [] link.incoming link g l in
    (reads, q, f ∙ rw (e, c, take-length-append bytes rest, drop-length-append bytes rest) refl)

send_all-All :
    (answers : List SendAnswer) (frame : Bytes) (link : Link)
    → All Takes answers
    → (sends : List SendAnswer) × (send_all answers frame link
        ≡ (none, record link { sends = sends; sent = link.sent ++ frame }))
unfolding send_all
send_all-All answers [] link t = (answers, rw (append-nil link.sent) refl)
send_all-All [] (b ∷ frame) link t = ([], refl)
send_all-All (wrote n ∷ answers) (b ∷ frame) link (_, t) =
    let sent : Link = record link { sent = link.sent ++ take n (b ∷ frame) } in
    let (sends, e) = send_all-All answers (drop n (b ∷ frame)) sent t in
    (
      sends,
      e
          ∙ rw
              (
                append_assoc link.sent (take n (b ∷ frame)) (drop n (b ∷ frame)),
                append-take-drop n (b ∷ frame),
              )
              refl,
    )
send_all-All (send_interrupted _ ∷ answers) (b ∷ frame) link (_, t) =
    send_all-All answers (b ∷ frame) link t
send_all-All (send_error ∷ answers) (b ∷ frame) link (t, _) = absurd t

-- The frame of an ack at the front of the socket is what the client returns.
receive_ack-frame :
    (ack old : WakeAck) (rest : Bytes) (link : Link)
    → IsAck ack
    → length (encode_ack_body ack) ≤ max_frame_bytes
    → All Gives link.reads
    → link.incoming ≡ encode_ack_frame ack ++ rest
    → (reads : List ReadAnswer) × (receive_ack (none, link) old
        ≡ sent_wake none ack (record link { incoming = rest; reads = reads }))
unfolding receive_ack encode_ack_frame write_length_prefix length_prefix
receive_ack-frame ack old rest link ok h g e =
    let body : Bytes = encode_ack_body ack in
    let prefix : Bytes = length_prefix (length body) in
    let (reads, g', f) =
      read_exactly-append frame_length_bytes prefix (body ++ rest) link refl g
        (e ∙ append_assoc prefix body rest) in
    let after : Link = record link { incoming = body ++ rest; reads = reads } in
    let (reads', _, f') = read_exactly-append (length body) body rest after refl g' refl in
    (
      reads',
      rw (f, decode_frame_length-length_prefix (length body) h, f', decode_wake_ack-encode ack ok)
          refl,
    )

module _ {D : Type 0} ⦃d : Double D⦄ where
  -- The client sends the whole frame of its message, and returns the ack whose frame comes next, if
  -- that has 64-bit integers, UTF-8 texts and a body of at most 64 KiB and no call fails, whatever
  -- pieces the bytes come and go in; what comes behind the ack is left.
  pub send_wake-ack :
      (m : WakeMessage D) (ack old : WakeAck) (rest : Bytes) (link : Link)
      → IsAck ack
      → length (encode_ack_body ack) ≤ max_frame_bytes
      → All Gives link.reads
      → All Takes link.sends
      → link.incoming ≡ encode_ack_frame ack ++ rest
      → (after : Link) × (send_wake true m old link ≡ sent_wake none ack after)
        × (after.incoming ≡ rest)
        × (after.sent ≡ link.sent ++ encode_message_frame m)
  unfolding send_wake
  send_wake-ack m ack old rest link ok h g t e =
      let (sends, f) = send_all-All link.sends (encode_message_frame m) link t in
      let sent : Link = record link { sends = sends; sent = link.sent ++ encode_message_frame m } in
      let (reads, k) = receive_ack-frame ack old rest sent ok h g e in
      (record sent { incoming = rest; reads = reads }, rw f k, refl, refl)

-- ===== src/Bench/Poller.antt =====
-- `PollerClient` of bench/poller_client.cpp: `connect`, `send_wake` and `close`, over a scripted
-- socket as that of the executor. An `errno` is a text that is given.
pub mod Acked
pub mod Exchange
use executor_hotpath_cpp.Base.{
  ℕ, zero, suc, ◌-◌, Bool, true, false, List, [], ◌∷◌, ◌++◌, Option, none, some, Bytes, codes,
  if◌then◌else◌, length, leb,
}
use executor_hotpath_cpp.Base.Cuts.{take, drop}
use executor_hotpath_cpp.Base.Int.{pos}
use executor_hotpath_cpp.Double.{Double}
use executor_hotpath_cpp.Executor.Lifecycle.{Errno, syscall_error}
use executor_hotpath_cpp.Executor.Socket.{
  ReadAnswer, up_to, interrupted, read_error, SendAnswer, wrote, send_interrupted, send_error,
  smaller,
}
use executor_hotpath_cpp.Json.Writer.{to_chars}
use executor_hotpath_cpp.Protocol.Decode.{decode_wake_ack}
use executor_hotpath_cpp.Protocol.Encode.{encode_message_frame}
use executor_hotpath_cpp.Protocol.Frame.{Decoded, value, failure, exhausted, decode_frame_length}
use executor_hotpath_cpp.Wire.{WakeMessage, WakeAck, frame_length_bytes}

-- The socket: what the executor has sent and nobody has read, the answers of the calls to come, what
-- was sent, and the text of `errno`.
pub record Link : Type 0 where
  pub incoming : Bytes
  pub reads : List ReadAnswer
  pub sends : List SendAnswer
  pub sent : Bytes
  pub errno : Bytes

-- What `read_exactly` leaves: its failure, the buffer, and the socket.
abbrev pub Filled : Type 0
Filled = Option Bytes × Bytes × Link

abbrev pub closed_text : Bytes
closed_text = codes "executor closed the connection"

-- The loop of `read_exactly`, with `out` filled and `left` bytes to come. Here an interrupted `read`
-- is a failure like another. When the script has run out, `read` gives what is there.
unfoldable pub fill : List ReadAnswer → ℕ → Bytes → Bytes → Link → Filled
fill answers zero out incoming link =
    (none, out, record link { incoming = incoming; reads = answers })
fill [] (suc left) out incoming link =
    if leb (suc left) (length incoming)
    then (
      none,
      out ++ take (suc left) incoming,
      record link { incoming = drop (suc left) incoming; reads = [] },
    )
    else (some closed_text, out ++ incoming, record link { incoming = []; reads = [] })
fill (up_to n ∷ answers) (suc left) out [] link =
    (some closed_text, out, record link { incoming = []; reads = answers })
fill (up_to n ∷ answers) (suc left) out (b ∷ incoming) link =
    let more = smaller left (smaller n (length incoming)) in
    fill answers (left - more) (out ++ b ∷ take more incoming) (drop more incoming) link
fill (interrupted _ ∷ answers) (suc left) out incoming link = (
  syscall_error (codes "read") link.errno,
  out,
  record link { incoming = incoming; reads = answers },
)
fill (read_error ∷ answers) (suc left) out incoming link = (
  syscall_error (codes "read") link.errno,
  out,
  record link { incoming = incoming; reads = answers },
)

unfoldable pub read_exactly : ℕ → Link → Filled
unfolding fill
read_exactly count link = fill link.reads count [] link.incoming link

-- The loop over `send`: it goes on after an interruption.
unfoldable pub send_all : List SendAnswer → Bytes → Link → Option Bytes × Link
send_all answers [] link = (none, record link { sends = answers })
send_all [] (b ∷ frame) link = (none, record link { sends = []; sent = link.sent ++ b ∷ frame })
send_all (wrote n ∷ answers) (b ∷ frame) link =
    send_all answers (drop n (b ∷ frame)) (record link { sent = link.sent ++ take n (b ∷ frame) })
send_all (send_interrupted _ ∷ answers) (b ∷ frame) link = send_all answers (b ∷ frame) link
send_all (send_error ∷ answers) (b ∷ frame) link =
    (syscall_error (codes "send") link.errno, record link { sends = answers })

-- What `send_wake` leaves: its failure, the ack, and the socket. `diverged` is a decoder of the model
-- that has run out of fuel.
pub data Sent : Type 0 where
  sent_wake : Option Bytes → WakeAck → Link → Sent
  diverged : Sent

abbrev take_ack : Decoded WakeAck → WakeAck → Link → Sent
take_ack (failure e) ack link = sent_wake (some (codes "ack body: " ++ e.message)) ack link
take_ack (value a) ack link = sent_wake none a link
take_ack exhausted ack link = diverged

abbrev read_body : Filled → WakeAck → Sent
read_body (some e, _, link) ack = sent_wake (some e) ack link
read_body (none, body, link) ack = take_ack (decode_wake_ack body) ack link

abbrev read_length : Decoded ℕ → WakeAck → Link → Sent
read_length (failure e) ack link =
    sent_wake (some (codes "ack frame length: " ++ e.message)) ack link
read_length (value length) ack link = read_body (read_exactly length link) ack
read_length exhausted ack link = diverged

abbrev read_prefix : Filled → WakeAck → Sent
read_prefix (some e, _, link) ack = sent_wake (some e) ack link
read_prefix (none, prefix, link) ack = read_length (decode_frame_length prefix) ack link

-- From the first `read` on.
unfoldable pub receive_ack : Option Bytes × Link → WakeAck → Sent
unfolding read_exactly
receive_ack (some e, link) ack = sent_wake (some e) ack link
receive_ack (none, link) ack = read_prefix (read_exactly frame_length_bytes link) ack

module _ {D : Type 0} ⦃d : Double D⦄ where
  -- `send_wake`: `connected` is `fd_ >= 0`.
  unfoldable pub send_wake : Bool → WakeMessage D → WakeAck → Link → Sent
  unfolding send_all receive_ack
  send_wake false m ack link = sent_wake (some (codes "not connected")) ack link
  send_wake true m ack link = receive_ack (send_all link.sends (encode_message_frame m) link) ack

-- A try of `connect`: what `socket` and `connect` answer, and whether the deadline has come.
pub record Try : Type 0 where
  pub socket : Errno
  pub connect : Errno
  pub late : Bool

-- What `connect` comes to: a failure or none, and whether `fd_` is open; `trying` is a loop that has
-- used up its tries.
pub data Connected : Type 0 where
  connected : Option Bytes → Bool → Connected
  trying : Connected

abbrev configure : Errno → Connected
configure none = connected none true
configure (some e) = connected (syscall_error (codes "setsockopt SO_RCVTIMEO") e) true

-- One round, from what `connect` answers on.
abbrev retry : Errno → Bool → Errno → Connected → Connected
retry none late option next = configure option
retry (some e) true option next = connected (syscall_error (codes "connect") e) false
retry (some e) false option next = next

-- The loop; `option` is what `setsockopt` answers behind it.
unfoldable pub connect_loop : List Try → Errno → Connected
connect_loop [] option = trying
connect_loop (t ∷ tries) option =
    let next = connect_loop tries option in
    elim t.socket [
      | some e ↦ connected (syscall_error (codes "socket") e) false
      | none ↦ retry t.connect t.late option next
    ]

-- `connect`; `sun_path` is the size of the field of the address.
unfoldable pub connect : ℕ → Bytes → List Try → Errno → Connected
unfolding connect_loop
connect sun_path path tries option =
    if leb sun_path (length path)
    then connected
        (some (codes "socket path exceeds " ++ to_chars (pos (sun_path - 1)) ++ codes " bytes"))
        false
    else connect_loop tries option

-- ===== src/Executor/Socket.antt =====
-- The socket of src/executor.cpp: `read_exactly` and `send_frame`. What the calls of `read` and
-- `send` return is a script, one answer for a call; when it has run out, a call does all it is
-- asked for, or all there is.
pub mod Read
pub mod Send
use executor_hotpath_cpp.Base.{
  ℕ, zero, suc, ◌-◌, Bool, true, false, List, [], ◌∷◌, ◌++◌, Bytes, if◌then◌else◌, length, leb,
  ◌==◌,
}
use executor_hotpath_cpp.Base.Cuts.{take, drop}

pub data ReadResult : Type 0 where
  read_ok peer_closed read_failed : ReadResult

-- An answer of `read`: at most so many bytes and one more, as many of them as are asked for and
-- there; or `EINTR`, with the flag `stop` as it is then; or another error.
pub data ReadAnswer : Type 0 where
  up_to : ℕ → ReadAnswer
  interrupted : Bool → ReadAnswer
  read_error : ReadAnswer

-- An answer of `send`, in the same way.
pub data SendAnswer : Type 0 where
  wrote : ℕ → SendAnswer
  send_interrupted : Bool → SendAnswer
  send_error : SendAnswer

-- What `read_exactly` leaves: its result, the buffer, what the peer has sent and nobody has read,
-- and the answers that are left. A peer that has sent all it will has closed its end.
pub record ReadDone : Type 0 where
  pub result : ReadResult
  pub out : Bytes
  pub incoming : Bytes
  pub answers : List ReadAnswer

abbrev pub is_empty : Bytes → Bool
is_empty [] = true
is_empty (_ ∷ _) = false

abbrev pub smaller : ℕ → ℕ → ℕ
smaller m n = if leb m n then m else n

-- `got == 0`
abbrev pub end_of_file : List ReadAnswer → Bytes → Bytes → ReadDone
end_of_file answers out incoming = record {
  result = if is_empty out then peer_closed else read_failed;
  out = out;
  incoming = incoming;
  answers = answers;
}

-- The loop, with `out` filled so far and `left` bytes to come.
unfoldable pub read_loop : List ReadAnswer → ℕ → Bytes → Bytes → ReadDone
read_loop answers zero out incoming = record {
  result = read_ok;
  out = out;
  incoming = incoming;
  answers = answers;
}
read_loop [] (suc left) out incoming =
    if leb (suc left) (length incoming)
    then record {
      result = read_ok;
      out = out ++ take (suc left) incoming;
      incoming = drop (suc left) incoming;
      answers = [];
    }
    else end_of_file [] (out ++ incoming) []
read_loop (up_to n ∷ answers) (suc left) out [] = end_of_file answers out []
read_loop (up_to n ∷ answers) (suc left) out (b ∷ incoming) =
    let more = smaller left (smaller n (length incoming)) in
    read_loop answers (left - more) (out ++ b ∷ take more incoming) (drop more incoming)
read_loop (interrupted true ∷ answers) (suc left) out incoming = record {
  result = read_failed;
  out = out;
  incoming = incoming;
  answers = answers;
}
read_loop (interrupted false ∷ answers) (suc left) out incoming =
    read_loop answers (suc left) out incoming
read_loop (read_error ∷ answers) (suc left) out incoming = record {
  result = read_failed;
  out = out;
  incoming = incoming;
  answers = answers;
}

unfoldable pub read_exactly : List ReadAnswer → ℕ → Bytes → ReadDone
read_exactly answers count incoming = read_loop answers count [] incoming

-- What `send_frame` leaves: its result, what the peer gets after what it got before, and the
-- answers that are left.
pub record SendDone : Type 0 where
  pub delivered : Bool
  pub sent : Bytes
  pub answers : List SendAnswer

-- `sent` ends with what is sent of the frame, and `frame` is what is left of it.
unfoldable pub send_frame : List SendAnswer → Bytes → Bytes → SendDone
send_frame answers sent [] = record { delivered = true; sent = sent; answers = answers }
send_frame [] sent (b ∷ frame) = record { delivered = true; sent = sent ++ b ∷ frame; answers = [] }
send_frame (wrote n ∷ answers) sent (b ∷ frame) =
    send_frame answers (sent ++ take n (b ∷ frame)) (drop n (b ∷ frame))
send_frame (send_interrupted true ∷ answers) sent (b ∷ frame) = record {
  delivered = false;
  sent = sent;
  answers = answers;
}
send_frame (send_interrupted false ∷ answers) sent (b ∷ frame) = send_frame answers sent (b ∷ frame)
send_frame (send_error ∷ answers) sent (b ∷ frame) = record {
  delivered = false;
  sent = sent;
  answers = answers;
}

-- ===== src/Tests/Serving.antt =====
-- The executor at concrete inputs: two frames on one connection, fires and their refusals.
use executor_hotpath_cpp.Base.{
  ℕ, ◌≡◌, ◌≢◌, ◌≤◌, ◌<◌, ◌⊎◌, refl, true, false, List, [], ◌∷◌, ◌++◌, Bytes, codes, arith, some,
  if◌then◌else◌, ◌&&◌,
}
use executor_hotpath_cpp.Base.Int.{pos}
use executor_hotpath_cpp.Executor.{ExecutorServer, Look, handle_fire, ask_switch, untradeable}
use executor_hotpath_cpp.Executor.Fire.{
  handle_fire-verdict, fired-handle_fire, verdict, is_dispatched, request, asks, count_outcome,
}
use executor_hotpath_cpp.Executor.Serve.{Round, Peer, serve_connection}
use executor_hotpath_cpp.Executor.Serve.Counters.{IsBalanced, serve_connection-IsBalanced}
use executor_hotpath_cpp.Executor.Serve.Replies.{
  IsServed, stream, rounds_of, serve_connection-IsServed,
}
use executor_hotpath_cpp.Executor.Socket.{up_to, interrupted, wrote, read_exactly, send_frame}
use executor_hotpath_cpp.Executor.Socket.Read.{IsExact, cut, read_exactly-IsExact}
use executor_hotpath_cpp.Executor.Socket.Send.{IsSent, IsCutOff, send_frame_lem}
use executor_hotpath_cpp.Orders.{acquire}
use executor_hotpath_cpp.Orders.Cache.{IsCache, acquire_template}
use executor_hotpath_cpp.Protocol.Decode.{decode_wake_message}
use executor_hotpath_cpp.Protocol.Ends.Decode.{decode_wake_message-ends}
use executor_hotpath_cpp.Protocol.Frame.{exhausted}
use executor_hotpath_cpp.Wire.{buy_yes, buy_no}
use executor_hotpath_cpp.KillSwitch
use executor_hotpath_cpp.Tests.Doubles.{Double-hundredths}
use executor_hotpath_cpp.Tests.Wakes.{wake, wake_message, noise}

abbrev quiet : Look
quiet = record { now_ns = 10; on_disk = false }

abbrev pub round : Round
round = record {
  stopping = false;
  started_at_ms = pos 1000;
  started_ns = 5;
  ended_ns = 9;
  ended_at_ms = pos 1001;
  look = quiet;
}

abbrev frames : List (Round × Bytes)
frames = (round, wake) ∷ (round, noise) ∷ []

abbrev pub server : ExecutorServer ℕ
server = record {
  kill_switch = some (KillSwitch.make 1000);
  has_dispatch = true;
  templates = [];
  stats = record {
    frames_read = 0;
    acks_accepted = 0;
    acks_rejected = 0;
    fires_dispatched = 0;
    fires_refused_price = 0;
    fires_refused_kill_switch = 0;
  };
  fired = [];
  has_recorder = true;
  recorded = [];
}

-- A peer whose bytes arrive in pieces.
abbrev peer : Peer
peer = record {
  incoming = stream frames ++ codes "more";
  reads = up_to 0 ∷ interrupted false ∷ up_to 100 ∷ up_to 7 ∷ [];
  sends = wrote 3 ∷ [];
  sent = [];
}

decode_wake_message-ends_example : decode_wake_message {D = ℕ} noise ≢ exhausted
decode_wake_message-ends_example = decode_wake_message-ends ℕ noise

serve_connection-IsServed_example :
    IsServed ℕ frames (codes "more") peer server (serve_connection (rounds_of frames) peer server)
serve_connection-IsServed_example =
    serve_connection-IsServed ℕ frames (codes "more") peer server
      ((refl, omega arith), ((refl, omega arith), tt))
      (refl, (tt, (refl, (tt, (tt, tt)))), (tt, tt))

serve_connection-IsBalanced_example :
    IsBalanced (serve_connection (rounds_of frames) peer server).2.stats
serve_connection-IsBalanced_example =
    serve_connection-IsBalanced (rounds_of frames) peer server (refl, omega arith)

handle_fire-verdict_example :
    ((handle_fire quiet wake_message server).1
      ≡ verdict false (untradeable {D = ℕ} 55) (ask_switch quiet server.kill_switch).1)
    × ((handle_fire quiet wake_message server).0.kill_switch ≡ (
        if asks quiet wake_message server
        then (ask_switch quiet server.kill_switch).0
        else server.kill_switch))
    × ((handle_fire quiet wake_message server).0.stats
        ≡ count_outcome (handle_fire quiet wake_message server).1 server.stats)
    × ((handle_fire quiet wake_message server).0.recorded ≡ server.recorded)
handle_fire-verdict_example = handle_fire-verdict quiet wake_message server

fired-handle_fire_example :
    ((handle_fire quiet wake_message server).0.fired ≡ (
      if is_dispatched (handle_fire quiet wake_message server).1 && true
      then request quiet wake_message server ∷ []
      else []))
    × IsCache (handle_fire quiet wake_message server).0.templates
fired-handle_fire_example = fired-handle_fire quiet wake_message server tt

read_exactly-IsExact_example :
    (4 ≤ 6 × IsExact 4 [] (codes "abcdef") (read_exactly (up_to 1 ∷ []) 4 (codes "abcdef")))
    ⊎ (6 < 4 × ((read_exactly (up_to 1 ∷ []) 4 (codes "abcdef")).result ≡ cut (codes "abcdef")))
read_exactly-IsExact_example = read_exactly-IsExact (up_to 1 ∷ []) 4 (codes "abcdef") (tt, tt)

send_frame_lem_example :
    IsSent [] (codes "abcdef") (send_frame (wrote 2 ∷ []) [] (codes "abcdef"))
    ⊎ IsCutOff [] (codes "abcdef") (send_frame (wrote 2 ∷ []) [] (codes "abcdef"))
send_frame_lem_example = send_frame_lem (wrote 2 ∷ []) [] (codes "abcdef")

acquire_template_example :
    (acquire (codes "T") buy_no (acquire (codes "T") buy_yes []).0).1
    ≡ record { ticker = codes "T"; outcome_side = buy_no }
acquire_template_example =
    acquire_template (codes "T") buy_no (acquire (codes "T") buy_yes []).0
      (unfold acquire in (refl, refl, tt))

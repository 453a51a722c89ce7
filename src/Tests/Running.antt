-- ===== src/Tests/Running.antt =====
-- The program and the life of the server at concrete inputs.
use executor_hotpath_cpp.Base.{
  ◌≡◌, ◌↔◌, ◌⊎◌, refl, true, false, List, [], ◌∷◌, Bytes, codes, some, none, arith,
}
use executor_hotpath_cpp.Executor.Lifecycle.{
  Process, ListenAnswers, Visit, accepted, poll_ready, listen, serve_forever, destroy,
}
use executor_hotpath_cpp.Executor.Lifecycle.Leaks.{fresh, destroy-serve_forever}
use executor_hotpath_cpp.Executor.Lifecycle.Private.{listen-IsPrivate}
use executor_hotpath_cpp.Program.{Answers, Paths, paths, no_paths, parse_args, run}
use executor_hotpath_cpp.Program.Flags.{Spells, parse_args_iff}
use executor_hotpath_cpp.Program.Wiring.{IsExit, run-IsExit}

abbrev arguments : List Bytes
arguments = codes "--socket" ∷ codes "a" ∷ codes "--socket" ∷ codes "b" ∷ []

abbrev at_b : Paths
at_b = record no_paths { socket_path = codes "b" }

parse_args_iff_example :
    (parse_args arguments no_paths ≡ paths at_b) ↔ Spells arguments no_paths at_b
parse_args_iff_example = parse_args_iff arguments at_b

abbrev all_start : Answers
all_start = record { telemetry_open = none; listen = none }

run-IsExit_example : IsExit (run all_start (codes "--telemetry-db" ∷ codes "db" ∷ arguments))
run-IsExit_example = run-IsExit all_start (codes "--telemetry-db" ∷ codes "db" ∷ arguments)

abbrev process : Process
process = record {
  open_fds = 0 ∷ 1 ∷ 2 ∷ [];
  next_fd = 3;
  socket_file = none;
  listening = false;
  pipe_bytes = 0;
}

-- `listen` fails at `chmod` in the first case, and does not fail in the second.
abbrev no_chmod : ListenAnswers
no_chmod = record {
  bound_mode = 493;
  pipe = none;
  socket = none;
  bind = none;
  chmod = some (codes "denied");
  listen = none;
}

abbrev listens : ListenAnswers
listens = record no_chmod { chmod = none }

abbrev visits : List Visit
visits =
    record { polls = poll_ready true false false ∷ []; accept = accepted false }
    ∷ record { polls = poll_ready false true true ∷ []; accept = accepted false }
    ∷ []

destroy-serve_forever_example :
    let (_, s, q) = listen 108 (codes "/tmp/s") listens fresh process in
    let (s', q') = serve_forever visits s q in (destroy s' q').open_fds ≡ 0 ∷ 1 ∷ 2 ∷ []
destroy-serve_forever_example =
    destroy-serve_forever 108 (codes "/tmp/s") listens visits process
      (omega arith, (omega arith, (omega arith, tt)))

listen-IsPrivate_example :
    let r = listen 108 (codes "/tmp/s") no_chmod fresh process in
    (r.2.listening ≡ false) ⊎ (r.2.socket_file ≡ some 384)
listen-IsPrivate_example = listen-IsPrivate 108 (codes "/tmp/s") no_chmod fresh process refl

-- ===== src/Program.antt =====
-- The program of src/main.cpp: its arguments, and `run`, which wires the parts. What the parts answer
-- and what the signals do is given; a run is its exit code and what it did, in order.
pub mod Flags
pub mod Wiring
use executor_hotpath_cpp.Base.{
  Bool, true, false, not, List, [], ◌∷◌, ◌++◌, Option, none, some, Bytes, codes, equal,
  if◌then◌else◌, ℕ,
}
use executor_hotpath_cpp.Executor.{WakeRecvEvent}
use executor_hotpath_cpp.Telemetry.{LatencyEvent, wake_recv}

-- The paths of the command line; an empty one is not given.
pub record Paths : Type 0 where
  pub socket_path : Bytes
  pub kill_switch_path : Bytes
  pub telemetry_db_path : Bytes

abbrev pub no_paths : Paths
no_paths = record { socket_path = []; kill_switch_path = []; telemetry_db_path = [] }

-- What the loop over the arguments comes to: the paths, or one of its two returns.
pub data Command : Type 0 where
  paths : Paths → Command
  version : Command
  bad_usage : Command

-- A flag with a value behind it. `rest` is what the other arguments come to with a path set.
abbrev with_value : Bytes → (Paths → Command) → Paths → Bytes → Command → Command
with_value flag rest p v otherwise =
    if equal flag (codes "--socket")
    then rest (record p { socket_path = v })
    else if equal flag (codes "--kill-switch")
    then rest (record p { kill_switch_path = v })
    else if equal flag (codes "--telemetry-db")
    then rest (record p { telemetry_db_path = v })
    else otherwise

abbrev without_value : Bytes → Command
without_value flag = if equal flag (codes "--version") then version else bad_usage

-- The loop over the arguments behind the name of the program.
unfoldable pub parse_args : List Bytes → Paths → Command
parse_args [] p = paths p
parse_args (flag ∷ []) p = without_value flag
parse_args (flag ∷ v ∷ args) p = with_value flag (λ q. parse_args args q) p v (without_value flag)

-- What the parts answer: the failure of `TelemetrySink::open`, and that of `listen`.
pub record Answers : Type 0 where
  pub telemetry_open : Option Bytes
  pub listen : Option Bytes

-- What a run does, as far as the rest of the system sees it.
pub data Deed : Type 0 where
  print_usage print_version : Deed
  make_switch open_telemetry : Bytes → Deed
  print_telemetry_failure print_listen_failure : Bytes → Deed
  listen_at : Bytes → Deed
  set_server set_handlers serve_forever clear_server print_stats : Deed
  close_telemetry print_telemetry_stats : Deed

abbrev pub given : Bytes → Bool
given [] = false
given (_ ∷ _) = true

abbrev pub switch_deeds : Paths → List Deed
switch_deeds p = if given p.kill_switch_path then make_switch p.kill_switch_path ∷ [] else []

abbrev pub closing_deeds : Paths → List Deed
closing_deeds p =
    if given p.telemetry_db_path then close_telemetry ∷ print_telemetry_stats ∷ [] else []

-- From the construction of the server on.
abbrev pub serve : Option Bytes → Paths → List Deed → ℕ × List Deed
serve (some failure) p before =
    (1, before ++ listen_at p.socket_path ∷ print_listen_failure failure ∷ [])
serve none p before = (
  0,
  before
      ++ listen_at p.socket_path
        ∷ set_server
        ∷ set_handlers
        ∷ serve_forever
        ∷ clear_server
        ∷ print_stats
        ∷ closing_deeds p,
)

-- From the opening of the telemetry on.
abbrev pub open_sink : Option Bytes → Answers → Paths → List Deed → ℕ × List Deed
open_sink (some failure) w p before =
    (1, before ++ open_telemetry p.telemetry_db_path ∷ print_telemetry_failure failure ∷ [])
open_sink none w p before = serve w.listen p (before ++ open_telemetry p.telemetry_db_path ∷ [])

unfoldable pub execute : Answers → Command → ℕ × List Deed
execute w version = (0, print_version ∷ [])
execute w bad_usage = (2, print_usage ∷ [])
execute w (paths p) =
    if not (given p.socket_path)
    then (2, print_usage ∷ [])
    else if given p.telemetry_db_path
    then open_sink w.telemetry_open w p (switch_deeds p)
    else serve w.listen p (switch_deeds p)

-- `run`, with the arguments behind the name of the program.
unfoldable pub run : Answers → List Bytes → ℕ × List Deed
unfolding parse_args execute
run w args = execute w (parse_args args no_paths)

-- What `record_wake_recv` hands to the sink.
unfoldable pub latency_event : {D : Type 0} → WakeRecvEvent D → LatencyEvent D
latency_event event = record {
  correlation_id = event.correlation_id;
  stage = wake_recv;
  started_at_ms = event.started_at_ms;
  ended_at_ms = event.ended_at_ms;
  duration_ms = event.duration_ms;
  dry_run = event.dry_run;
}

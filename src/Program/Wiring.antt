-- ===== src/Program/Wiring.antt =====
-- How a run of src/main.cpp ends, and what it has then done, in which order.
use mathlib.Core.Path.{subst}
use executor_hotpath_cpp.Base.{
  ℕ, if◌then◌else◌, ◌≡◌, inl, inr, Bool-cases, Bool, true, false, List, [], ◌∷◌, ◌++◌, append_assoc,
  Option, none, some, Bytes,
}
use executor_hotpath_cpp.Program.{
  Paths, Command, paths, version, bad_usage, Answers, Deed, print_usage, print_version, make_switch,
  open_telemetry, print_telemetry_failure, print_listen_failure, listen_at, set_server,
  set_handlers, serve_forever, clear_server, print_stats, close_telemetry, print_telemetry_stats,
  given, switch_deeds, closing_deeds, serve, open_sink, execute, run, parse_args, no_paths,
}

-- Where the server is: not told to listen, listening, known to the handlers of the signals that are
-- not yet set, ready to serve, done serving, or taken from the handlers. `unstarted` is a run that a
-- part has stopped which could not be started.
pub data Phase : Type 0 where
  starting listening known ready served cleared unstarted : Phase

-- The order of the deeds, from a phase to a later one; the Boolean says whether the sink is open. The
-- sink is opened before the server listens, the server serves once, listening and with the handlers
-- set, and the sink is closed once it has served and no handler can reach it.
pub data Runs : Bool → Phase → List Deed → Bool → Phase → Type 0 where
  stop : {b : Bool} {p : Phase} → Runs b p [] b p
  switches :
      {b b' : Bool} {p : Phase} {ds : List Deed} (file : Bytes)
      → Runs b starting ds b' p
      → Runs b starting (make_switch file ∷ ds) b' p
  opens :
      {b : Bool} {p : Phase} {ds : List Deed} (file : Bytes)
      → Runs true starting ds b p
      → Runs false starting (open_telemetry file ∷ ds) b p
  not_opened :
      (file failure : Bytes)
      → Runs false starting
          (open_telemetry file ∷ print_telemetry_failure failure ∷ [])
          false
          unstarted
  listens :
      {b b' : Bool} {p : Phase} {ds : List Deed} (file : Bytes)
      → Runs b listening ds b' p
      → Runs b starting (listen_at file ∷ ds) b' p
  not_listening :
      {b : Bool} (file failure : Bytes)
      → Runs b starting (listen_at file ∷ print_listen_failure failure ∷ []) b unstarted
  tells :
      {b b' : Bool} {p : Phase} {ds : List Deed}
      → Runs b known ds b' p
      → Runs b listening (set_server ∷ ds) b' p
  handles :
      {b b' : Bool} {p : Phase} {ds : List Deed}
      → Runs b ready ds b' p
      → Runs b known (set_handlers ∷ ds) b' p
  serves :
      {b b' : Bool} {p : Phase} {ds : List Deed}
      → Runs b served ds b' p
      → Runs b ready (serve_forever ∷ ds) b' p
  clears :
      {b b' : Bool} {p : Phase} {ds : List Deed}
      → Runs b cleared ds b' p
      → Runs b served (clear_server ∷ ds) b' p
  prints :
      {b b' : Bool} {p : Phase} {ds : List Deed}
      → Runs b cleared ds b' p
      → Runs b cleared (print_stats ∷ ds) b' p
  closes :
      {b : Bool} {p : Phase} {ds : List Deed}
      → Runs false cleared ds b p
      → Runs true cleared (close_telemetry ∷ ds) b p
  prints_sink :
      {b : Bool} {p : Phase} {ds : List Deed}
      → Runs false cleared ds b p
      → Runs false cleared (print_telemetry_stats ∷ ds) b p

-- Exit code 2: the usage is all that is printed, and nothing is started. Code 1: a part could not be
-- started, and nothing is served. Code 0: the version is printed, or the server has served, has been
-- taken from the handlers, and no sink is open.
pub data IsExit : ℕ × List Deed → Type 0 where
  misused : IsExit (2, print_usage ∷ [])
  versioned : IsExit (0, print_version ∷ [])
  failed :
      (b : Bool) (deeds : List Deed) → Runs false starting deeds b unstarted → IsExit (1, deeds)
  ended : (deeds : List Deed) → Runs false starting deeds false cleared → IsExit (0, deeds)

closing : (p : Paths) → Runs (given p.telemetry_db_path) cleared (closing_deeds p) false cleared
closing p = close_if (given p.telemetry_db_path)
  where
    close_if :
        (b : Bool)
        → Runs b cleared
            (if b then close_telemetry ∷ print_telemetry_stats ∷ [] else [])
            false
            cleared
    close_if true = closes (prints_sink stop)
    close_if false = stop

module _ (p : Paths) where
  -- What is done before the server is told to listen.
  abbrev Prefix : List Deed → Type 0
  Prefix before =
      (b : Bool) (q : Phase) (ds : List Deed)
      → Runs (given p.telemetry_db_path) starting ds b q
      → Runs false starting (before ++ ds) b q

  serve-IsExit :
      (answer : Option Bytes) (before : List Deed) → Prefix before → IsExit (serve answer p before)
  serve-IsExit (some failure) before h =
      failed (given p.telemetry_db_path) _
        (h (given p.telemetry_db_path) unstarted _ (not_listening p.socket_path failure))
  serve-IsExit none before h = ended _ (
      h false cleared _
        (listens p.socket_path (tells (handles (serves (clears (prints (closing p))))))))

  -- A switch is made or not; then the sink is opened, or there is none.
  switch-Runs :
      (b b' : Bool) (q : Phase) (ds : List Deed)
      → Runs b starting ds b' q
      → Runs b starting (switch_deeds p ++ ds) b' q
  switch-Runs b b' q ds h = make_if (given p.kill_switch_path)
    where
      make_if :
          (c : Bool)
          → Runs b starting ((if c then make_switch p.kill_switch_path ∷ [] else []) ++ ds) b' q
      make_if true = switches p.kill_switch_path h
      make_if false = h

  open_sink-IsExit :
      (answer : Option Bytes) (w : Answers)
      → given p.telemetry_db_path ≡ true
      → IsExit (open_sink answer w p (switch_deeds p))
  open_sink-IsExit (some failure) w e =
      failed false _ (switch-Runs false false unstarted _ (not_opened p.telemetry_db_path failure))
  open_sink-IsExit none w e =
      serve-IsExit w.listen (switch_deeds p ++ open_telemetry p.telemetry_db_path ∷ []) (λ b q ds h.
        rw (append_assoc (switch_deeds p) (open_telemetry p.telemetry_db_path ∷ []) ds)
          (switch-Runs false b q _ (opens p.telemetry_db_path (rw⁻¹ e h))))

execute-IsExit : (w : Answers) (c : Command) → IsExit (execute w c)
unfolding execute
execute-IsExit w version = versioned
execute-IsExit w bad_usage = misused
execute-IsExit w (paths p) = elim (Bool-cases (given p.socket_path)) [
  | inr e ↦ rw e misused
  | inl e ↦ rw e (elim (Bool-cases (given p.telemetry_db_path)) [
    | inl f ↦ rw f (open_sink-IsExit p w.telemetry_open w f)
    | inr f ↦ rw f (
        serve-IsExit p w.listen (switch_deeds p)
          (λ b q ds h. switch-Runs p false b q ds (subst (λ c. Runs c starting ds b q) f h)))
  ])
]

-- Every run ends with one of three exit codes: 2 with the usage and nothing started; 1 with a part that
-- could not be started, and nothing served; 0 with the version printed, or with the deeds in this
-- order: the sink opened, if it is; the server listening, told to the handlers, the handlers set;
-- the server served; the server taken from the handlers; the sink closed, if it was opened.
pub run-IsExit : (w : Answers) (args : List Bytes) → IsExit (run w args)
unfolding run
run-IsExit w args = execute-IsExit w (parse_args args no_paths)

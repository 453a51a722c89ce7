-- ===== src/Executor/Lifecycle/Stopping.antt =====
-- What `stop` of src/executor.cpp reaches.
use executor_hotpath_cpp.Base.{ℕ, ◌+◌, ◌≡◌, refl, true, false, List, [], ◌∷◌, some}
use executor_hotpath_cpp.Executor.Lifecycle.{
  Process, Descriptors, stop, PollAnswer, poll_failed, poll_ready, no_connection, wait, Visit,
  serve_one_connection, serve_forever,
}

-- An answer of `poll` that comes when the flag is set.
abbrev pub SeesStop : PollAnswer → Type 0
SeesStop (poll_failed interrupted stopping) = stopping ≡ true
SeesStop (poll_ready at_socket at_pipe stopping) = stopping ≡ true

wait-SeesStop :
    (a : PollAnswer) (answers : List PollAnswer)
    → SeesStop a
    → wait (a ∷ answers) ≡ some (no_connection true)
unfolding wait
wait-SeesStop (poll_failed true stopping) answers h = rw h refl
wait-SeesStop (poll_failed false stopping) answers h = rw h refl
wait-SeesStop (poll_ready at_socket true stopping) answers h = rw h refl
wait-SeesStop (poll_ready at_socket false stopping) answers h = rw h refl

serve_forever_stopped :
    (visits : List Visit) (s : Descriptors) (p : Process)
    → s.stopping ≡ true
    → serve_forever visits s p ≡ (s, p)
unfolding serve_forever serve_one_connection
serve_forever_stopped [] s p h = refl
serve_forever_stopped (v ∷ visits) s p h = rw h refl

-- A stop reaches the server wherever it is: at the next `poll` it ends the loop, no later visit is
-- served, a connection that is being served is shut down, and the pipe is readable.
pub stop_lem :
    (visits : List Visit) (a : PollAnswer) (answers : List PollAnswer) (write fd : ℕ)
    (s : Descriptors) (p : Process)
    → SeesStop a
    → s.wake_write_fd ≡ some write
    → s.connection_fd ≡ some fd
    → (let (s', p') = stop s p in
        (wait (a ∷ answers) ≡ some (no_connection true))
        × (serve_forever visits s' p' ≡ (s', p'))
        × (s'.shut_down ≡ true)
        × (p'.pipe_bytes ≡ p.pipe_bytes + 1))
unfolding stop
stop_lem visits a answers write fd s p h w c = (
  wait-SeesStop a answers h,
  serve_forever_stopped visits (stop s p).0 (stop s p).1 refl,
  rw c refl,
  rw w refl,
)

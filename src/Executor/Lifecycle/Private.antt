-- ===== src/Executor/Lifecycle/Private.antt =====
-- The mode of the socket file in `listen` of src/executor.cpp.
use executor_hotpath_cpp.Base.{
  ℕ, ◌≡◌, refl, false, none, some, Bytes, Bool-cases, ◌⊎◌, inl, inr, leb, length,
}
use executor_hotpath_cpp.Executor.Lifecycle.{
  Process, Descriptors, Errno, ListenAnswers, open_pipe, listen,
}

-- By what the calls answer.
open_pipe-IsPrivate :
    (mode : ℕ) (pipe socket bind chmod start : Errno) (s : Descriptors) (p : Process)
    → p.listening ≡ false
    → (let a : ListenAnswers = record {
      bound_mode = mode;
      pipe = pipe;
      socket = socket;
      bind = bind;
      chmod = chmod;
      listen = start;
    } in
        let r = open_pipe a pipe s p in (r.2.listening ≡ false) ⊎ (r.2.socket_file ≡ some 384))
open_pipe-IsPrivate mode (some _) socket bind chmod start s p h = inl h
open_pipe-IsPrivate mode none (some _) bind chmod start s p h = inl h
open_pipe-IsPrivate mode none none (some _) chmod start s p h = inl h
open_pipe-IsPrivate mode none none none (some _) start s p h = inl h
open_pipe-IsPrivate mode none none none none (some _) s p h = inl h
open_pipe-IsPrivate mode none none none none none s p h = inr refl

-- The socket listens only once its file has the mode rw-------: whatever the calls answer, and
-- whatever mode the file had before, if the socket did not listen before.
pub listen-IsPrivate :
    (sun_path : ℕ) (path : Bytes) (a : ListenAnswers) (s : Descriptors) (p : Process)
    → p.listening ≡ false
    → (let r = listen sun_path path a s p in (r.2.listening ≡ false) ⊎ (r.2.socket_file ≡ some 384))
unfolding listen
listen-IsPrivate sun_path path a s p h = elim (Bool-cases (leb sun_path (length path))) [
  | inl e ↦ rw e (inl h)
  | inr e ↦ rw e (
      open_pipe-IsPrivate a.bound_mode a.pipe a.socket a.bind a.chmod a.listen s
        (record p { socket_file = none }) h)
]

-- ===== src/Executor/Lifecycle/Leaks.antt =====
-- The descriptors of `ExecutorServer` of src/executor.cpp beside those of the process.
use executor_hotpath_cpp.Base.{
  ℕ, suc, ◌≤◌, ◌<◌, ◌≡◌, refl, Bool, true, false, List, [], ◌∷◌, Option, none, some, Bytes,
  Bool-cases, inl, inr, arith, All, leb, length, ◌||◌,
}
use executor_hotpath_cpp.Executor.Lifecycle.{
  Process, Descriptors, Errno, ListenAnswers, remove, new_fd, open_pipe, listen, destroy, Visit,
  AcceptAnswer, accept_failed, accepted, Waited, a_connection, no_connection, wait, after_accept,
  after_wait, serve_one_connection, go_on, serve_forever, is_none, connected, disconnected,
}

abbrev pub IsBelow : ℕ → List ℕ → Type 0
IsBelow n = All (λ k. k < n)

remove_fresh : (n fd : ℕ) (fds : List ℕ) → n ≤ fd → IsBelow n fds → remove fd fds ≡ fds
remove_fresh n fd [] h b = refl
remove_fresh n fd (k ∷ fds) h (l, b) = ground (arith, remove_fresh n fd fds h b)

IsBelow-mono : (m n : ℕ) (fds : List ℕ) → m ≤ n → IsBelow m fds → IsBelow n fds
IsBelow-mono m n [] h b = tt
IsBelow-mono m n (k ∷ fds) h (l, b) = (omega arith, IsBelow-mono m n fds h b)

-- The server's destructor leaves the descriptors `fds`, those that are open are below the next one,
-- and there is no connection.
pub record IsTidy (fds : List ℕ) (s : Descriptors) (p : Process) : Type 0 where
  pub left : (destroy s p).open_fds ≡ fds
  pub below : IsBelow p.next_fd p.open_fds
  pub unconnected : s.connection_fd ≡ none

-- A server that has not been told to listen.
abbrev pub fresh : Descriptors
fresh = record {
  listen_fd = none;
  wake_read_fd = none;
  wake_write_fd = none;
  connection_fd = none;
  shut_down = false;
  stopping = false;
}

abbrev with_pipe : Process → Descriptors
with_pipe p = record fresh { wake_read_fd = some p.next_fd; wake_write_fd = some (suc p.next_fd) }

abbrev with_socket : Process → Descriptors
with_socket p = record (with_pipe p) { listen_fd = some (suc (suc p.next_fd)) }

module _ (p : Process) (b : IsBelow p.next_fd p.open_fds) (file : Option ℕ) (listening : Bool) where
  above : (n : ℕ) → p.next_fd ≤ n → IsBelow n p.open_fds
  above n h = IsBelow-mono p.next_fd n p.open_fds h b

  fresh_below : (fd : ℕ) → p.next_fd ≤ fd → remove fd p.open_fds ≡ p.open_fds
  fresh_below fd h = remove_fresh p.next_fd fd p.open_fds h b

  unpiped :
      remove (suc p.next_fd) (remove p.next_fd (suc p.next_fd ∷ p.next_fd ∷ p.open_fds))
      ≡ p.open_fds
  unpiped =
      ground (arith, fresh_below p.next_fd (omega arith), fresh_below (suc p.next_fd) (omega arith))

  unsocketed :
      remove (suc p.next_fd) (
        remove p.next_fd (
          remove
            (suc (suc p.next_fd))
            (suc (suc p.next_fd) ∷ suc p.next_fd ∷ p.next_fd ∷ p.open_fds)))
      ≡ p.open_fds
  unsocketed = ground (
    arith,
    fresh_below p.next_fd (omega arith),
    fresh_below (suc p.next_fd) (omega arith),
    fresh_below (suc (suc p.next_fd)) (omega arith),
  )

  fresh-IsTidy : IsTidy p.open_fds fresh (record p { socket_file = file; listening = listening })
  unfolding destroy
  fresh-IsTidy = record { left = refl; below = b; unconnected = refl }

  with_pipe-IsTidy :
      IsTidy p.open_fds
        (with_pipe p)
        (record (new_fd (new_fd p)) { socket_file = file; listening = listening })
  unfolding destroy
  with_pipe-IsTidy = record {
    left = unpiped;
    below = (omega arith, (omega arith, above (suc (suc p.next_fd)) (omega arith)));
    unconnected = refl;
  }

  with_socket-IsTidy :
      IsTidy p.open_fds
        (with_socket p)
        (record (new_fd (new_fd (new_fd p))) { socket_file = file; listening = listening })
  unfolding destroy
  with_socket-IsTidy = record {
    left = unsocketed;
    below = (
      omega arith,
      (omega arith, (omega arith, above (suc (suc (suc p.next_fd))) (omega arith))),
    );
    unconnected = refl;
  }

-- By what the calls answer.
open_pipe-IsTidy :
    (mode : ℕ) (pipe socket bind chmod start : Errno) (p : Process)
    → IsBelow p.next_fd p.open_fds
    → (let a : ListenAnswers = record {
      bound_mode = mode;
      pipe = pipe;
      socket = socket;
      bind = bind;
      chmod = chmod;
      listen = start;
    } in
        let r = open_pipe a pipe fresh p in IsTidy p.open_fds r.1 r.2)
open_pipe-IsTidy mode (some _) socket bind chmod start p b =
    fresh-IsTidy p b p.socket_file p.listening
open_pipe-IsTidy mode none (some _) bind chmod start p b =
    with_pipe-IsTidy p b p.socket_file p.listening
open_pipe-IsTidy mode none none (some _) chmod start p b =
    with_socket-IsTidy p b p.socket_file p.listening
open_pipe-IsTidy mode none none none (some _) start p b =
    with_socket-IsTidy p b (some mode) p.listening
open_pipe-IsTidy mode none none none none (some _) p b =
    with_socket-IsTidy p b (some 384) p.listening
open_pipe-IsTidy mode none none none none none p b = with_socket-IsTidy p b (some 384) true

listen-IsTidy :
    (sun_path : ℕ) (path : Bytes) (a : ListenAnswers) (p : Process)
    → IsBelow p.next_fd p.open_fds
    → (let r = listen sun_path path a fresh p in IsTidy p.open_fds r.1 r.2)
unfolding listen
listen-IsTidy sun_path path a p b = elim (Bool-cases (leb sun_path (length path))) [
  | inl e ↦ rw e (fresh-IsTidy p b p.socket_file p.listening)
  | inr e ↦ rw e (
      open_pipe-IsTidy a.bound_mode a.pipe a.socket a.bind a.chmod a.listen
        (record p { socket_file = none }) b)
]

remove_last : (fds : List ℕ) (n : ℕ) → IsBelow n fds → remove n (n ∷ fds) ≡ fds
remove_last fds n b = ground (arith, remove_fresh n n fds (omega arith) b)

abbrev IsTidyAfter : List ℕ → Option (Bool × Descriptors × Process) → Type 0
IsTidyAfter fds none = Unit
IsTidyAfter fds (some (_, s, p)) = IsTidy fds s p

accept-IsTidy :
    (a : AcceptAnswer) (fds : List ℕ) (s : Descriptors) (p : Process)
    → IsTidy fds s p
    → IsTidyAfter fds (some (after_accept a s p))
unfolding connected disconnected destroy
accept-IsTidy (accept_failed interrupted stopping) fds s p t = record {
  left = t.left;
  below = t.below;
  unconnected = t.unconnected;
}
accept-IsTidy (accepted stopped) fds s p t = rw (remove_last p.open_fds p.next_fd t.below) (record {
  left = t.left;
  below = IsBelow-mono p.next_fd (suc p.next_fd) p.open_fds (omega arith) t.below;
  unconnected = refl;
})

-- A visit: the descriptor of the connection is closed behind it.
visit_at :
    (w : Option Waited) (v : Visit) (fds : List ℕ) (s : Descriptors) (p : Process)
    → IsTidy fds s p
    → IsTidyAfter fds (after_wait w v s p)
unfolding destroy
visit_at none v fds s p t = tt
visit_at (some (no_connection _)) v fds s p t = record {
  left = t.left;
  below = t.below;
  unconnected = t.unconnected;
}
visit_at (some a_connection) v fds s p t = accept-IsTidy v.accept fds s p t

visit-IsTidy :
    (v : Visit) (fds : List ℕ) (s : Descriptors) (p : Process)
    → IsTidy fds s p
    → IsTidyAfter fds (serve_one_connection v s p)
unfolding serve_one_connection
visit-IsTidy v fds s p t = elim (Bool-cases (s.stopping || is_none s.listen_fd)) [
  | inl e ↦ rw e t
  | inr e ↦ rw e (visit_at (wait v.polls) v fds s p t)
]

go_on-IsTidy :
    (o : Option (Bool × Descriptors × Process))
    (next : Descriptors → Process → Descriptors × Process) (fds : List ℕ) (s : Descriptors)
    (p : Process)
    → IsTidy fds s p
    → IsTidyAfter fds o
    → ((t : Descriptors) (q : Process) → IsTidy fds t q → IsTidy fds (next t q).0 (next t q).1)
    → (let r = go_on o next s p in IsTidy fds r.0 r.1)
go_on-IsTidy none next fds s p t h rest = t
go_on-IsTidy (some (false, s', p')) next fds s p t h rest = h
go_on-IsTidy (some (true, s', p')) next fds s p t h rest = rest s' p' h

serve_forever-IsTidy :
    (visits : List Visit) (fds : List ℕ) (s : Descriptors) (p : Process)
    → IsTidy fds s p
    → (let r = serve_forever visits s p in IsTidy fds r.0 r.1)
unfolding serve_forever
serve_forever-IsTidy [] fds s p t = t
serve_forever-IsTidy (v ∷ visits) fds s p t =
    go_on-IsTidy (serve_one_connection v s p) (λ s' p'. serve_forever visits s' p') fds s p t
      (visit-IsTidy v fds s p t) (λ s' p' h. serve_forever-IsTidy visits fds s' p' h)

-- Whatever the calls answer and however the visits go, once the server has been told to listen, has
-- served and is destroyed, the descriptors of the process are those from before.
pub destroy-serve_forever :
    (sun_path : ℕ) (path : Bytes) (a : ListenAnswers) (visits : List Visit) (p : Process)
    → IsBelow p.next_fd p.open_fds
    → (let (_, s, q) = listen sun_path path a fresh p in
        let (s', q') = serve_forever visits s q in (destroy s' q').open_fds ≡ p.open_fds)
destroy-serve_forever sun_path path a visits p b =
    let r = listen sun_path path a fresh p in
    (serve_forever-IsTidy visits p.open_fds r.1 r.2 (listen-IsTidy sun_path path a p b)).left

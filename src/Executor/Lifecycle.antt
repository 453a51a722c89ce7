-- ===== src/Executor/Lifecycle.antt =====
-- The life of an `ExecutorServer` of src/executor.cpp: `listen`, `stop`, `serve_one_connection`,
-- `serve_forever` and the destructor, over the descriptors of the process. What the system calls
-- answer is given; a call that fails has its `errno` as a text.
pub mod Leaks
pub mod Private
pub mod Stopping
use executor_hotpath_cpp.Base.{
  ℕ, suc, ◌+◌, ◌-◌, Bool, true, false, not, ◌&&◌, ◌||◌, List, [], ◌∷◌, ◌++◌, Option, none, some,
  Bytes, codes, if◌then◌else◌, leb, length, ◌==◌, bit_or,
}
use executor_hotpath_cpp.Base.Int.{pos}
use executor_hotpath_cpp.Json.Writer.{to_chars}

-- The process: its open descriptors, the next one, the mode of the file of
-- the socket, if there is one, and whether the socket listens. `pipe_bytes` is what stands in the pipe that wakes `poll`.
pub record Process : Type 0 where
  pub open_fds : List ℕ
  pub next_fd : ℕ
  pub socket_file : Option ℕ
  pub listening : Bool
  pub pipe_bytes : ℕ

-- The descriptors of the server, `none` for -1, and its flag. `shut_down` says that the connection
-- was shut down.
pub record Descriptors : Type 0 where
  pub listen_fd : Option ℕ
  pub wake_read_fd : Option ℕ
  pub wake_write_fd : Option ℕ
  pub connection_fd : Option ℕ
  pub shut_down : Bool
  pub stopping : Bool

-- `none` where a call succeeds.
abbrev pub Errno : Type 0
Errno = Option Bytes

-- `bound_mode` is the mode that the umask leaves to a file that `bind` makes.
pub record ListenAnswers : Type 0 where
  pub bound_mode : ℕ
  pub pipe : Errno
  pub socket : Errno
  pub bind : Errno
  pub chmod : Errno
  pub listen : Errno

abbrev pub syscall_error : Bytes → Bytes → Option Bytes
syscall_error name errno = some (name ++ codes ": " ++ errno)

abbrev pub remove : ℕ → List ℕ → List ℕ
remove fd [] = []
remove fd (k ∷ ks) = let rest = remove fd ks in if fd == k then rest else k ∷ rest

abbrev pub without : Option ℕ → List ℕ → List ℕ
without none fds = fds
without (some fd) fds = remove fd fds

-- `close_fd`
abbrev pub close_fd : Option ℕ → Process → Process
close_fd fd p = record p { open_fds = without fd p.open_fds }

abbrev pub new_fd : Process → Process
new_fd p = record p { open_fds = p.next_fd ∷ p.open_fds; next_fd = suc p.next_fd }

-- A failure, if there is one, with what the server and the process are then.
abbrev pub Result : Type 0
Result = Option Bytes × Descriptors × Process

abbrev start_listening : Errno → Descriptors → Process → Result
start_listening (some e) s p = (syscall_error (codes "listen") e, s, p)
start_listening none s p = (none, s, record p { listening = true })

-- `S_IRUSR` and `S_IWUSR`
abbrev read_by_owner : ℕ
read_by_owner = 256

abbrev write_by_owner : ℕ
write_by_owner = 128

abbrev narrow : ListenAnswers → Errno → Descriptors → Process → Result
narrow a (some e) s p = (syscall_error (codes "chmod") e, s, p)
narrow a none s p =
    start_listening a.listen s
      (record p { socket_file = some (bit_or read_by_owner write_by_owner) })

abbrev bind_socket : ListenAnswers → Errno → Descriptors → Process → Result
bind_socket a (some e) s p = (syscall_error (codes "bind") e, s, p)
bind_socket a none s p = narrow a a.chmod s (record p { socket_file = some a.bound_mode })

abbrev open_socket : ListenAnswers → Errno → Descriptors → Process → Result
open_socket a (some e) s p = (syscall_error (codes "socket") e, s, p)
open_socket a none s p = bind_socket a a.bind (record s { listen_fd = some p.next_fd }) (new_fd p)

abbrev pub open_pipe : ListenAnswers → Errno → Descriptors → Process → Result
open_pipe a (some e) s p = (syscall_error (codes "pipe") e, s, p)
open_pipe a none s p =
    open_socket a a.socket
      (record s { wake_read_fd = some p.next_fd; wake_write_fd = some (suc p.next_fd) })
      (new_fd (new_fd p))

-- `listen`; `sun_path` is the size of the field of the address.
unfoldable pub listen : ℕ → Bytes → ListenAnswers → Descriptors → Process → Result
listen sun_path path a s p =
    if leb sun_path (length path)
    then (
      some (codes "socket path exceeds " ++ to_chars (pos (sun_path - 1)) ++ codes " bytes"),
      s,
      p,
    )
    else open_pipe a a.pipe s (record p { socket_file = none })

-- The destructor.
unfoldable pub destroy : Descriptors → Process → Process
destroy s p = record (close_fd s.wake_write_fd (close_fd s.wake_read_fd (close_fd s.listen_fd p))) {
  socket_file = none;
}

abbrev write_pipe : Option ℕ → Process → Process
write_pipe none p = p
write_pipe (some _) p = record p { pipe_bytes = p.pipe_bytes + 1 }

abbrev shut : Option ℕ → Bool → Bool
shut none b = b
shut (some _) b = true

-- `stop`
unfoldable pub stop : Descriptors → Process → Descriptors × Process
stop s p = (
  record s { stopping = true; shut_down = shut s.connection_fd s.shut_down },
  write_pipe s.wake_write_fd p,
)

-- An answer of `poll`, with the flag as it is then: it fails, interrupted or not, or there is input at
-- the listening socket, at the pipe, or at both.
pub data PollAnswer : Type 0 where
  poll_failed : (interrupted stopping : Bool) → PollAnswer
  poll_ready : (at_socket at_pipe stopping : Bool) → PollAnswer

-- How the loop over `poll` ends: with a connection, or with the flag as it is then.
pub data Waited : Type 0 where
  a_connection : Waited
  no_connection : (stopping : Bool) → Waited

-- `none` is a `poll` that does not return.
unfoldable pub wait : List PollAnswer → Option Waited
wait [] = none
wait (poll_failed interrupted stopping ∷ answers) =
    let again = wait answers in
    if interrupted && not stopping then again else some (no_connection stopping)
wait (poll_ready at_socket at_pipe stopping ∷ answers) =
    let again = wait answers in
    if at_pipe || stopping
    then some (no_connection stopping)
    else if at_socket
    then some a_connection
    else again

-- What `accept` answers, and the flag behind it; `stopped` is the flag once the connection is served.
pub data AcceptAnswer : Type 0 where
  accept_failed : (interrupted stopping : Bool) → AcceptAnswer
  accepted : (stopped : Bool) → AcceptAnswer

pub record Visit : Type 0 where
  pub polls : List PollAnswer
  pub accept : AcceptAnswer

abbrev pub is_none : Option ℕ → Bool
is_none none = true
is_none (some _) = false

-- Around `serve_connection`: the server and the process while it runs, and behind it.
unfoldable pub connected : Descriptors → Process → Descriptors × Process
connected s p = (record s { connection_fd = some p.next_fd }, new_fd p)

unfoldable pub disconnected : ℕ → Bool → Descriptors → Process → Bool × Descriptors × Process
disconnected fd stopped s p =
    (not stopped, record s { connection_fd = none; stopping = stopped }, close_fd (some fd) p)

abbrev after_accept : AcceptAnswer → Descriptors → Process → Bool × Descriptors × Process
after_accept (accept_failed interrupted stopping) s p =
    (not stopping && interrupted, record s { stopping = stopping }, p)
after_accept (accepted stopped) s p =
    let (s', p') = connected s p in disconnected p.next_fd stopped s' p'

abbrev after_wait :
    Option Waited → Visit → Descriptors → Process → Option (Bool × Descriptors × Process)
after_wait none v s p = none
after_wait (some (no_connection stopping)) v s p = some (false, record s { stopping = stopping }, p)
after_wait (some a_connection) v s p = some (after_accept v.accept s p)

-- `serve_one_connection`: `none` where it does not return.
unfoldable pub serve_one_connection :
    Visit → Descriptors → Process → Option (Bool × Descriptors × Process)
unfolding wait connected disconnected
serve_one_connection v s p =
    if s.stopping || is_none s.listen_fd
    then some (false, s, p)
    else after_wait (wait v.polls) v s p

abbrev go_on :
    Option (Bool × Descriptors × Process)
    → (Descriptors → Process → Descriptors × Process)
    → Descriptors
    → Process
    → Descriptors × Process
go_on none next s p = (s, p)
go_on (some (false, s, p)) next _ _ = (s, p)
go_on (some (true, s, p)) next _ _ = next s p

-- `serve_forever`, for as many visits as are given.
unfoldable pub serve_forever : List Visit → Descriptors → Process → Descriptors × Process
unfolding serve_one_connection
serve_forever [] s p = (s, p)
serve_forever (v ∷ visits) s p =
    go_on (serve_one_connection v s p) (λ s' p'. serve_forever visits s' p') s p

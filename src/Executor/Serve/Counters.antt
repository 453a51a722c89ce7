-- ===== src/Executor/Serve/Counters.antt =====
-- The counters of the executor, over any connection.
use executor_hotpath_cpp.Base.{
  sym, ◌∙◌, Bool, Bool-cases, Option-cases, inl, inr, if◌then◌else◌, ◌+◌, ◌≤◌, ◌≡◌, ap, true, false,
  List, [], ◌∷◌, arith,
}
use executor_hotpath_cpp.Double.{Double}
use executor_hotpath_cpp.Executor.{ExecutorServer, ExecutorStats, Look, handle_fire}
use executor_hotpath_cpp.Executor.Fire.{fires, fires-handle_fire}
use executor_hotpath_cpp.Executor.Serve.{
  Round, Peer, Ending, stopped, returned, running, undecided, record_wake_recv, answer_frame,
  count_accepted, count_read, send_ack, acceptance, go_on, serve_round, serve_connection,
  read_frame,
}
use executor_hotpath_cpp.Protocol.Decode.{decode_wake_message}
use executor_hotpath_cpp.Protocol.Frame.{Decoded, value, failure, exhausted}
use mathlib.Core.Path.{subst}
use executor_hotpath_cpp.Wire.{WakeMessage}

-- Every frame that was read is counted as one ack, and no more fires were handled than acks
-- accepted.
abbrev pub IsBalanced : ExecutorStats → Type 0
IsBalanced s = (s.frames_read ≡ s.acks_accepted + s.acks_rejected) × (fires s ≤ s.acks_accepted)

module _ {D : Type 0} ⦃d : Double D⦄ where
  stats-record_wake_recv :
      (round : Round) (m : WakeMessage D) (s : ExecutorServer D)
      → (record_wake_recv round m s).stats ≡ s.stats
  unfolding record_wake_recv
  stats-record_wake_recv round m s = ground arith

  -- A fire uses up one accepted ack that has not been fired.
  handle_fire-IsBalanced :
      (look : Look) (m : WakeMessage D) (s : ExecutorServer D)
      → s.stats.frames_read ≡ s.stats.acks_accepted + s.stats.acks_rejected
      → fires s.stats + 1 ≤ s.stats.acks_accepted
      → IsBalanced (handle_fire look m s).0.stats
  handle_fire-IsBalanced look m s e l =
      let (f, r, a, j) = fires-handle_fire look m s in
      (
        r
            ∙ e
            ∙ sym (
                ap (λ n. n + (handle_fire look m s).0.stats.acks_rejected) a
                ∙ ap (λ n. s.stats.acks_accepted + n) j),
        omega (arith, f, a, l),
      )

  if-IsBalanced :
      (b : Bool) (p q : Peer) (s t : ExecutorServer D)
      → IsBalanced s.stats
      → IsBalanced t.stats
      → (let r : Ending × Peer × ExecutorServer D =
            if b then (running, p, s) else (returned, q, t) in
          IsBalanced r.2.stats)
  if-IsBalanced true p q s t x y = x
  if-IsBalanced false p q s t x y = y

  go_on-IsBalanced :
      (o : Ending × Peer × ExecutorServer D)
      (next : Peer → ExecutorServer D → Ending × Peer × ExecutorServer D)
      → IsBalanced o.2.stats
      → ((p : Peer) (s : ExecutorServer D) → IsBalanced s.stats → IsBalanced (next p s).2.stats)
      → IsBalanced (go_on o next).2.stats
  go_on-IsBalanced (running, p, s) next b h = h p s b
  go_on-IsBalanced (stopped, p, s) next b h = b
  go_on-IsBalanced (returned, p, s) next b h = b
  go_on-IsBalanced (undecided, p, s) next b h = b

  answer_frame-IsBalanced :
      (round : Round) (o : Decoded (WakeMessage D)) (peer : Peer) (s : ExecutorServer D)
      → IsBalanced s.stats
      → IsBalanced (answer_frame round o peer s).2.stats
  unfolding answer_frame
  answer_frame-IsBalanced round (failure e) peer s b = ground arith
  answer_frame-IsBalanced round exhausted peer s b = b
  answer_frame-IsBalanced round (value m) peer s b =
      let t : ExecutorServer D = count_accepted (count_read s) in
      let e = sym (stats-record_wake_recv round m t) in
      let (_, after) = send_ack peer (acceptance round m) in
      if-IsBalanced _ after after _ t
        (handle_fire-IsBalanced round.look m (record_wake_recv round m t)
          (subst (λ u. u.frames_read ≡ u.acks_accepted + u.acks_rejected) e (omega (arith, b.0)))
          (subst (λ u. fires u + 1 ≤ u.acks_accepted) e (omega (arith, b.1))))
        (omega (arith, b.0), omega (arith, b.1))

  serve_round-IsBalanced :
      (round : Round) (peer : Peer) (s : ExecutorServer D)
      → IsBalanced s.stats
      → IsBalanced (serve_round round peer s).2.stats
  unfolding serve_round
  serve_round-IsBalanced round peer s b = elim (Bool-cases round.stopping) [
    | inl h ↦ rw h b
    | inr h ↦ elim (Option-cases (read_frame peer)) [
      | inl e ↦ rw (h, e) b
      | inr ((body, rest), e) ↦
          rw (h, e) (answer_frame-IsBalanced round (decode_wake_message body) rest s b)
    ]
  ]

  -- However a connection goes, every frame that was read is counted as one ack, accepted or
  -- rejected, and no more fires were handled than acks were accepted.
  pub serve_connection-IsBalanced :
      (rounds : List Round) (peer : Peer) (s : ExecutorServer D)
      → IsBalanced s.stats
      → IsBalanced (serve_connection rounds peer s).2.stats
  unfolding serve_connection
  serve_connection-IsBalanced [] peer s b = b
  serve_connection-IsBalanced (round ∷ rounds) peer s b =
      go_on-IsBalanced (serve_round round peer s) (λ peer s. serve_connection rounds peer s)
        (serve_round-IsBalanced round peer s b) (λ p t c. serve_connection-IsBalanced rounds p t c)

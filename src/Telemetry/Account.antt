-- ===== src/Telemetry/Account.antt =====
-- The rows of src/telemetry.cpp as they are counted.
use executor_hotpath_cpp.Base.{
  ℕ, ◌+◌, ◌≡◌, refl, Bool, Bool-cases, inl, inr, true, false, List, [], ◌∷◌, Option, none, some,
  ltb, length, length-append, arith,
}
use executor_hotpath_cpp.SpscRing.{SpscRing, try_push, try_pop, size}
use executor_hotpath_cpp.SpscRing.Refine.{IsCapacity, IsRing, try_push-IsRing, try_pop-IsRing}
use executor_hotpath_cpp.Telemetry.{
  LatencyEvent, Row, TelemetrySink, TelemetryStats, Sqlite, stats, row_of, record_event,
  max_batch_rows, write_batch, retry_rows, commit_batch, commit_row,
}
use executor_hotpath_cpp.Telemetry.Writer.{
  Writer, at_top, draining, drained, returned, World, Action, produce, close, write, after_pop,
  drain, finish_round, run_writer, act, act_all,
}

abbrev one_if : Bool → ℕ
one_if true = 1
one_if false = 0

abbrev pub total_of : TelemetryStats → ℕ
total_of s =
    s.rows_written + s.rows_dropped_ring_full + s.rows_dropped_oversized_id
    + s.rows_dropped_write_failed + s.queue_depth

abbrev pub one_if_some : {T : Type 0} → Option T → ℕ
one_if_some none = 0
one_if_some (some _) = 1

module _ {T : Type 0} {cap : ℕ} (c : IsCapacity cap) where
  size-try_push :
      (v : T) (r : SpscRing T)
      → IsRing cap r
      → size (try_push v r).1 ≡ size r + one_if (try_push v r).0
  unfolding size try_push
  size-try_push v r h = ground arith

  pub size-try_pop :
      (blank : T) (r : SpscRing T)
      → IsRing cap r
      → size (try_pop blank r).1 + one_if_some (try_pop blank r).0 ≡ size r
  unfolding size try_pop
  size-try_pop blank r h = ground arith

  -- Nothing is popped only if nothing is there.
  pub size-try_pop-none :
      (blank : T) (r : SpscRing T) → IsRing cap r → (try_pop blank r).0 ≡ none → size r ≡ 0
  unfolding size try_pop
  size-try_pop-none blank r h e = ground arith

module _ {D : Type 0} where
  -- The rows that are written or counted as dropped.
  abbrev pub settled : TelemetrySink D → ℕ
  settled s = s.rows_written + s.dropped_ring_full + s.dropped_oversized_id + s.dropped_write_failed

  -- The rows that the thread has taken out and not yet settled.
  abbrev pub in_hand : Writer D → ℕ
  in_hand at_top = 0
  in_hand (draining _ batch) = length batch
  in_hand (drained _ batch) = length batch
  in_hand returned = 0

  abbrev pub accounted : {S : Type 0} → World D S → ℕ
  accounted w = total_of (stats w.sink) + in_hand w.writer

  module _ {cap : ℕ} (c : IsCapacity cap) where
    record_event_lem :
        (event : LatencyEvent D) (s : TelemetrySink D)
        → IsRing cap s.ring
        → IsRing cap (record_event event s).1.ring
          × (settled (record_event event s).1 + size (record_event event s).1.ring
              ≡ settled s + size s.ring + 1)
    unfolding record_event
    record_event_lem event s h = (
      ground (arith, try_push-IsRing c (row_of event) s.ring h),
      ground (arith, size-try_push c (row_of event) s.ring h),
    )

  module _ {S : Type 0} (sqlite : Sqlite D S) where
    retry_rows_lem :
        (rows : List (Row D)) (s : TelemetrySink D) (db : S)
        → ((retry_rows sqlite rows s db).0.ring ≡ s.ring)
          × (settled (retry_rows sqlite rows s db).0 ≡ settled s + length rows)
    unfolding retry_rows
    retry_rows_lem [] s db = (refl, omega arith)
    retry_rows_lem (row ∷ rows) s db =
        let (committed, db') = commit_row sqlite row db in
        let (r, e) = retry_rows_lem rows (record s { rows_written = s.rows_written + 1 }) db' in
        let (r', e') =
          retry_rows_lem rows (record s { dropped_write_failed = s.dropped_write_failed + 1 })
            (sqlite.rollback db') in
        (ground (arith, r, r'), ground (arith, e, e'))

    pub write_batch_lem :
        (rows : List (Row D)) (s : TelemetrySink D) (db : S)
        → ((write_batch sqlite rows s db).0.ring ≡ s.ring)
          × (settled (write_batch sqlite rows s db).0 ≡ settled s + length rows)
    unfolding write_batch
    write_batch_lem rows s db =
        let (_, db') = commit_batch sqlite rows db in
        let (r, e) = retry_rows_lem rows s db' in (ground (arith, r), ground (arith, e))

  -- One for each call of `record`.
  abbrev pub produced : Action D → ℕ
  produced (produce _) = 1
  produced close = 0
  produced write = 0

  abbrev pub all_produced : List (Action D) → ℕ
  all_produced [] = 0
  all_produced (a ∷ actions) = produced a + all_produced actions

  module _ {S : Type 0} (blank : Row D) (sqlite : Sqlite D S) {cap : ℕ} (c : IsCapacity cap) where
    -- The ring is valid, and so many rows are accounted for.
    abbrev pub Accounts : ℕ → World D S → Type 0
    Accounts n w = IsRing cap w.sink.ring × (accounted w ≡ n)

    in_hand-after_pop :
        (flag : Bool) (batch : List (Row D)) (out : Option (Row D))
        → in_hand (after_pop blank sqlite flag batch out) ≡ length batch + one_if_some out
    in_hand-after_pop flag batch none = omega arith
    in_hand-after_pop flag batch (some row) = length-append batch (row ∷ [])

    drain-Accounts :
        (flag : Bool) (batch : List (Row D)) (w : World D S)
        → IsRing cap w.sink.ring
        → Accounts
            (settled w.sink + size w.sink.ring + length batch)
            (drain blank sqlite flag batch w)
    unfolding drain
    drain-Accounts flag batch w h =
        let out = (try_pop blank w.sink.ring).0 in
        elim (Bool-cases (ltb (length batch) max_batch_rows)) [
          | inl more ↦ rw more (
            try_pop-IsRing c blank w.sink.ring h,
            omega (arith, size-try_pop c blank w.sink.ring h, in_hand-after_pop flag batch out),
          )
          | inr full ↦ rw full (h, refl)
        ]

    written :
        (rows : List (Row D)) (w : World D S)
        → IsRing cap w.sink.ring
        → IsRing cap (write_batch sqlite rows w.sink w.database).0.ring
          × (settled (write_batch sqlite rows w.sink w.database).0
                + size (write_batch sqlite rows w.sink w.database).0.ring
                + 0
              ≡ settled w.sink + size w.sink.ring + length rows)
    written rows w h =
        let (r, s) = write_batch_lem sqlite rows w.sink w.database in
        (rw r h, rw r (omega (arith, s)))

    finish_round-Accounts :
        (flag : Bool) (batch : List (Row D)) (w : World D S)
        → IsRing cap w.sink.ring
        → Accounts
            (settled w.sink + size w.sink.ring + length batch)
            (finish_round blank sqlite flag batch w)
    unfolding finish_round
    finish_round-Accounts true [] w h = (h, refl)
    finish_round-Accounts false [] w h = (h, refl)
    finish_round-Accounts true (row ∷ rows) w h = written (row ∷ rows) w h
    finish_round-Accounts false (row ∷ rows) w h = written (row ∷ rows) w h

    run_writer-Accounts :
        (writer : Writer D) (w : World D S)
        → w.writer ≡ writer
        → IsRing cap w.sink.ring
        → Accounts
            (settled w.sink + size w.sink.ring + in_hand writer)
            (run_writer blank sqlite writer w)
    unfolding run_writer
    run_writer-Accounts at_top w e h = (h, refl)
    run_writer-Accounts (draining flag batch) w e h = drain-Accounts flag batch w h
    run_writer-Accounts (drained flag batch) w e h = finish_round-Accounts flag batch w h
    run_writer-Accounts returned w e h = (h, rw e refl)

    pub act-Accounts :
        (a : Action D) (w : World D S)
        → IsRing cap w.sink.ring
        → Accounts (accounted w + produced a) (act blank sqlite a w)
    unfolding act
    act-Accounts (produce event) w h =
        let (r, e) = record_event_lem c event w.sink h in (r, omega (arith, e))
    act-Accounts close w h = (h, omega arith)
    act-Accounts write w h =
        let (r, e) = run_writer-Accounts w.writer w refl h in (r, omega (arith, e))

    -- Whatever the calls of `record`, the steps of the thread and the close come to, and whatever
    -- SQLite does, every recorded row is accounted for: written, counted as dropped for one of the
    -- three reasons, queued in the ring, or in the batch of the thread. The ring stays valid.
    pub act_all-accounted :
        (actions : List (Action D)) (w : World D S)
        → IsRing cap w.sink.ring
        → IsRing cap (act_all blank sqlite actions w).sink.ring
          × (accounted (act_all blank sqlite actions w) ≡ accounted w + all_produced actions)
    unfolding act_all
    act_all-accounted [] w h = (h, omega arith)
    act_all-accounted (a ∷ actions) w h =
        let (r, e) = act-Accounts a w h in
        let (r', e') = act_all-accounted actions (act blank sqlite a w) r in
        (r', omega (arith, e, e'))

-- ===== src/Telemetry/Closing.antt =====
-- The writer thread after the close.
use executor_hotpath_cpp.Base.{
  ℕ, zero, suc, ◌+◌, ◌*◌, ◌≤◌, ◌≡◌, refl, ap, ◌∙◌, Bool, Bool-cases, inl, inr, true, false, List,
  [], ◌∷◌, Option, none, some, ltb, length, arith,
}
use executor_hotpath_cpp.SpscRing.{try_pop, size}
use executor_hotpath_cpp.SpscRing.Refine.{IsCapacity, IsRing}
use executor_hotpath_cpp.Telemetry.{
  Row, TelemetrySink, Sqlite, retry_rows, commit_row, commit_batch, write_batch, max_batch_rows,
}
use executor_hotpath_cpp.Telemetry.Account.{
  settled, accounted, size-try_pop, size-try_pop-none, one_if_some, write_batch_lem, act-Accounts,
}
use executor_hotpath_cpp.Telemetry.Writer.{
  Writer, at_top, draining, drained, returned, World, close, write, after_pop, drain, finish_round,
  run_writer, act,
}

module _ {D : Type 0} where
  -- The thread has not seen the flag set.
  abbrev pub IsOpen : Writer D → Type 0
  IsOpen at_top = Unit
  IsOpen (draining flag _) = flag ≡ false
  IsOpen (drained flag _) = flag ≡ false
  IsOpen returned = ⊥

  -- The steps that are left at most, with so many rows in the ring.
  left : Writer D → ℕ → ℕ
  left at_top n = 4 * n + 4
  left (draining false _) n = 4 * n + 8
  left (draining true []) n = 4 * n + 3
  left (draining true (_ ∷ _)) n = 4 * n + 6
  left (drained false _) n = 4 * n + 7
  left (drained true []) n = 1
  left (drained true (_ ∷ _)) n = 4 * n + 5
  left returned n = 0

  -- A thread that has seen the flag, or is about to see it, ends with an empty ring.
  IsEnding : Writer D → ℕ → Type 0
  IsEnding (drained true []) n = n ≡ 0
  IsEnding returned n = n ≡ 0
  IsEnding _ n = Unit

  -- The thread has returned and settled every row.
  abbrev pub IsClosed : {S : Type 0} → ℕ → World D S → Type 0
  IsClosed total w = (w.writer ≡ returned) × (size w.sink.ring ≡ 0) × (settled w.sink ≡ total)

  -- So many steps of the thread, and no calls of `record`.
  pub writes : {S : Type 0} → Row D → Sqlite D S → ℕ → World D S → World D S
  writes blank sqlite zero w = w
  writes blank sqlite (suc n) w = writes blank sqlite n (act blank sqlite write w)

  module _ {S : Type 0} (blank : Row D) (sqlite : Sqlite D S) {cap : ℕ} (c : IsCapacity cap) where
    -- The thread has gone one step on towards its end, or has ended.
    abbrev IsNearer : ℕ → World D S → Type 0
    IsNearer n w =
        (left w.writer (size w.sink.ring) ≤ n)
        × IsEnding w.writer (size w.sink.ring)
        × (w.sink.stopping ≡ true)

    after_pop_lem :
        (flag : Bool) (batch : List (Row D)) (n : ℕ) (out : Option (Row D))
        → (out ≡ none → n ≡ 0)
        → (left (after_pop blank sqlite flag batch out) n + 1
            ≤ left (draining flag batch) (n + one_if_some out))
          × IsEnding (after_pop blank sqlite flag batch out) n
    unfolding left IsEnding
    after_pop_lem false batch n none h = (omega arith, tt)
    after_pop_lem false batch n (some row) h = (omega arith, tt)
    after_pop_lem true [] n none h = (omega (arith, h refl), h refl)
    after_pop_lem true [] n (some row) h = (omega arith, tt)
    after_pop_lem true (first ∷ batch) n none h = (omega arith, tt)
    after_pop_lem true (first ∷ batch) n (some row) h = (omega arith, tt)

    drained_lem :
        (flag : Bool) (batch : List (Row D)) (n : ℕ)
        → max_batch_rows ≤ length batch
        → (left (drained flag batch) n + 1 ≤ left (draining flag batch) n)
          × IsEnding (drained flag batch) n
    unfolding left IsEnding
    drained_lem false batch n h = (omega arith, tt)
    drained_lem true [] n h = absurd (omega arith)
    drained_lem true (row ∷ batch) n h = (omega arith, tt)

    stopping-retry_rows :
        (rows : List (Row D)) (s : TelemetrySink D) (db : S)
        → (retry_rows sqlite rows s db).0.stopping ≡ s.stopping
    unfolding retry_rows
    stopping-retry_rows [] s db = refl
    stopping-retry_rows (row ∷ rows) s db =
        let (_, db') = commit_row sqlite row db in
        let ok = stopping-retry_rows rows (record s { rows_written = s.rows_written + 1 }) db' in
        let failed =
          stopping-retry_rows rows (record s { dropped_write_failed = s.dropped_write_failed + 1 })
            (sqlite.rollback db') in
        ground (arith, ok, failed)

    stopping-write_batch :
        (rows : List (Row D)) (s : TelemetrySink D) (db : S)
        → (write_batch sqlite rows s db).0.stopping ≡ s.stopping
    unfolding write_batch
    stopping-write_batch rows s db =
        ground (arith, stopping-retry_rows rows s (commit_batch sqlite rows db).1)

    written-IsNearer :
        (rows : List (Row D)) (w : World D S) (n : ℕ)
        → w.sink.stopping ≡ true
        → 4 * size w.sink.ring + 4 ≤ n
        → (4 * size (write_batch sqlite rows w.sink w.database).0.ring + 4 ≤ n)
          × Unit {0}
          × ((write_batch sqlite rows w.sink w.database).0.stopping ≡ true)
    written-IsNearer rows w n s l = (
      rw (write_batch_lem sqlite rows w.sink w.database).0 l,
      tt,
      stopping-write_batch rows w.sink w.database ∙ s,
    )

    drain-IsNearer :
        (flag : Bool) (batch : List (Row D)) (w : World D S) (n : ℕ)
        → IsRing cap w.sink.ring
        → w.sink.stopping ≡ true
        → left (draining flag batch) (size w.sink.ring) ≤ suc n
        → IsNearer n (drain blank sqlite flag batch w)
    unfolding drain
    drain-IsNearer flag batch w n h s l =
        let (out, ring) = try_pop blank w.sink.ring in
        elim (Bool-cases (ltb (length batch) max_batch_rows)) [
          | inl more ↦
              let popped = size-try_pop c blank w.sink.ring h in
              let (k, e) = after_pop_lem flag batch (size ring) out (λ none_out.
                omega (arith, popped, size-try_pop-none c blank w.sink.ring h none_out)) in
              rw more (omega (arith, k, l, ap (left (draining flag batch)) popped), e, s)
          | inr full ↦
              let (k, e) = drained_lem flag batch (size w.sink.ring) (ground arith) in
              rw full (omega (arith, k, l), e, s)
        ]

    finish_round-IsNearer :
        (flag : Bool) (batch : List (Row D)) (w : World D S) (n : ℕ)
        → w.sink.stopping ≡ true
        → IsEnding (drained flag batch) (size w.sink.ring)
        → left (drained flag batch) (size w.sink.ring) ≤ suc n
        → IsNearer n (finish_round blank sqlite flag batch w)
    unfolding finish_round left IsEnding
    finish_round-IsNearer true [] w n s e l = (omega arith, e, s)
    finish_round-IsNearer false [] w n s e l = (omega (arith, l), tt, s)
    finish_round-IsNearer true (row ∷ rows) w n s e l =
        written-IsNearer (row ∷ rows) w n s (omega (arith, l))
    finish_round-IsNearer false (row ∷ rows) w n s e l =
        written-IsNearer (row ∷ rows) w n s (omega (arith, l))

    run_writer-IsNearer :
        (writer : Writer D) (w : World D S) (n : ℕ)
        → w.writer ≡ writer
        → IsRing cap w.sink.ring
        → w.sink.stopping ≡ true
        → IsEnding writer (size w.sink.ring)
        → left writer (size w.sink.ring) ≤ suc n
        → IsNearer n (run_writer blank sqlite writer w)
    unfolding run_writer left IsEnding
    run_writer-IsNearer at_top w n e h s k l = rw s (omega (arith, l), tt, refl)
    run_writer-IsNearer (draining flag batch) w n e h s k l = drain-IsNearer flag batch w n h s l
    run_writer-IsNearer (drained flag batch) w n e h s k l =
        finish_round-IsNearer flag batch w n s k l
    run_writer-IsNearer returned w n e h s k l = rw e (omega arith, k, s)

    none_left :
        (writer : Writer D) (n : ℕ)
        → left writer n ≤ 0
        → IsEnding writer n
        → (writer ≡ returned) × (n ≡ 0)
    unfolding left IsEnding
    none_left returned n l k = (refl, k)
    none_left at_top n l k = absurd (omega (arith, l))
    none_left (draining false batch) n l k = absurd (omega (arith, l))
    none_left (draining true []) n l k = absurd (omega (arith, l))
    none_left (draining true (_ ∷ _)) n l k = absurd (omega (arith, l))
    none_left (drained false batch) n l k = absurd (omega (arith, l))
    none_left (drained true []) n l k = absurd (omega (arith, l))
    none_left (drained true (_ ∷ _)) n l k = absurd (omega (arith, l))

    writes-IsClosed :
        (n : ℕ) (w : World D S)
        → IsRing cap w.sink.ring
        → IsNearer n w
        → IsClosed (accounted w) (writes blank sqlite n w)
    unfolding writes
    writes-IsClosed zero w h (l, k, s) =
        let (e, z) = none_left w.writer (size w.sink.ring) l k in (e, z, rw (e, z) (omega arith))
    writes-IsClosed (suc n) w h (l, k, s) =
        let (r, e) = act-Accounts blank sqlite c write w h in
        let next : World D S = act blank sqlite write w in
        let (closed, empty, all) =
          writes-IsClosed n next r (unfold act in run_writer-IsNearer w.writer w n refl h s k l) in
        (closed, empty, all ∙ e ∙ omega arith)

    open-IsEnding :
        (writer : Writer D) (n : ℕ)
        → IsOpen writer
        → IsEnding writer n × (left writer n ≤ 4 * n + 8)
    unfolding left IsEnding
    open-IsEnding at_top n h = (tt, omega arith)
    open-IsEnding (draining false batch) n h = (tt, omega arith)
    open-IsEnding (draining true batch) n h = absurd (cc h)
    open-IsEnding (drained false batch) n h = (tt, omega arith)
    open-IsEnding (drained true batch) n h = absurd (cc h)
    open-IsEnding returned n h = absurd h

    -- After the close of a sink whose thread has not seen the flag set, if `record` is called no
    -- more, the thread returns within four steps for each queued row and eight more, whatever SQLite
    -- does. The ring is then empty, and every row that was accounted for at the close is written or
    -- counted as dropped.
    pub writes-act_close :
        (n : ℕ) (w : World D S)
        → IsRing cap w.sink.ring
        → IsOpen w.writer
        → 4 * size w.sink.ring + 8 ≤ n
        → IsClosed (accounted w) (writes blank sqlite n (act blank sqlite close w))
    unfolding act
    writes-act_close n w h o l =
        let (k, m) = open-IsEnding w.writer (size w.sink.ring) o in
        writes-IsClosed n (record w { sink = record w.sink { stopping = true } }) h
          (omega (arith, m, l), k, refl)

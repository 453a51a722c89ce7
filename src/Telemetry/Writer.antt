-- ===== src/Telemetry/Writer.antt =====
-- `run_writer` of src/telemetry.cpp, one step for each access to the ring, so that the calls of the
-- read loop come in between at any point.
use executor_hotpath_cpp.Base.{
  Bool, true, false, List, [], ◌∷◌, ◌++◌, Option, none, some, if◌then◌else◌, ltb, length,
}
use executor_hotpath_cpp.SpscRing.{try_pop}
use executor_hotpath_cpp.Telemetry.{
  LatencyEvent, Row, TelemetrySink, Sqlite, max_batch_rows, record_event, write_batch,
}

-- Where the thread is: at the top of its loop, in the drain with the flag it has read and the batch
-- so far, behind a drain that has ended, or returned.
pub data Writer (D : Type 0) : Type 0 where
  at_top : Writer D
  draining : Bool → List (Row D) → Writer D
  drained : Bool → List (Row D) → Writer D
  returned : Writer D

pub record World (D S : Type 0) : Type 0 where
  pub sink : TelemetrySink D
  pub writer : Writer D
  pub database : S

-- `produce` is a call of `record`, `close` the store of the flag in `close`, and `write` one step of
-- the thread.
pub data Action (D : Type 0) : Type 0 where
  produce : LatencyEvent D → Action D
  close write : Action D

module _ {D S : Type 0} (blank : Row D) (sqlite : Sqlite D S) where
  abbrev pub after_pop : Bool → List (Row D) → Option (Row D) → Writer D
  after_pop flag batch none = drained flag batch
  after_pop flag batch (some row) = draining flag (batch ++ row ∷ [])

  -- `while (batch.size() < kMaxBatchRows && ring_.try_pop(row))`
  unfoldable pub drain : Bool → List (Row D) → World D S → World D S
  drain flag batch w =
      if ltb (length batch) max_batch_rows
      then (let (out, ring) = try_pop blank w.sink.ring in
          record w { sink = record w.sink { ring = ring }; writer = after_pop flag batch out })
      else record w { writer = drained flag batch }

  -- Behind the drain; an idle writer sleeps, which is no step.
  unfoldable pub finish_round : Bool → List (Row D) → World D S → World D S
  finish_round true [] w = record w { writer = returned }
  finish_round false [] w = record w { writer = at_top }
  finish_round flag (row ∷ rows) w =
      let (sink, db) = write_batch sqlite (row ∷ rows) w.sink w.database in
      record { sink = sink; writer = at_top; database = db }

  unfoldable pub run_writer : Writer D → World D S → World D S
  unfolding drain finish_round
  run_writer at_top w = record w { writer = draining w.sink.stopping [] }
  run_writer (draining flag batch) w = drain flag batch w
  run_writer (drained flag batch) w = finish_round flag batch w
  run_writer returned w = w

  unfoldable pub act : Action D → World D S → World D S
  unfolding run_writer
  act (produce event) w = record w { sink = (record_event event w.sink).1 }
  act close w = record w { sink = record w.sink { stopping = true } }
  act write w = run_writer w.writer w

  unfoldable pub act_all : List (Action D) → World D S → World D S
  act_all [] w = w
  act_all (a ∷ actions) w = act_all actions (act a w)

-- ===== src/Telemetry.antt =====
-- The telemetry sink of src/telemetry.cpp: `record`, which the read loop calls, and the writer
-- thread. SQLite is a parameter. The 64-bit counters go up by at most a batch for a step.
pub mod Rows
pub mod Stored
pub mod Opening
pub mod Writer
pub mod Account
pub mod Closing
use executor_hotpath_cpp.Base.{
  ℕ, zero, suc, ◌+◌, ◌-◌, ◌%◌, ◌^◌, Bool, true, false, not, List, [], ◌∷◌, ◌++◌, Option, none, some,
  Bytes, codes, if◌then◌else◌, ltb, length,
}
use executor_hotpath_cpp.Base.Cuts.{take}
use executor_hotpath_cpp.Base.Int.{ℤ}
use executor_hotpath_cpp.SpscRing
use executor_hotpath_cpp.SpscRing.{SpscRing, replicate, try_push, try_pop, size}

pub data LatencyStage : Type 0 where
  detect_fire ingest_fetch decision wake_send wake_recv : LatencyStage
  order_build sign dispatch_send dispatch_ack telemetry_write : LatencyStage

abbrev pub stage_name : LatencyStage → Bytes
stage_name detect_fire = codes "detect_fire"
stage_name ingest_fetch = codes "ingest_fetch"
stage_name decision = codes "decision"
stage_name wake_send = codes "wake_send"
stage_name wake_recv = codes "wake_recv"
stage_name order_build = codes "order_build"
stage_name sign = codes "sign"
stage_name dispatch_send = codes "dispatch_send"
stage_name dispatch_ack = codes "dispatch_ack"
stage_name telemetry_write = codes "telemetry_write"

pub record LatencyEvent (D : Type 0) : Type 0 where
  pub correlation_id : Bytes
  pub stage : LatencyStage
  pub started_at_ms : ℤ
  pub ended_at_ms : ℤ
  pub duration_ms : D
  pub dry_run : Bool

abbrev pub max_correlation_id_bytes : ℕ
max_correlation_id_bytes = 128

abbrev pub max_batch_rows : ℕ
max_batch_rows = 500

-- `correlation_id` is the whole array, zeros behind the id.
pub record Row (D : Type 0) : Type 0 where
  pub started_at_ms : ℤ
  pub ended_at_ms : ℤ
  pub duration_ms : D
  pub correlation_id_len : ℕ
  pub stage : LatencyStage
  pub dry_run : Bool
  pub correlation_id : Bytes

-- The ring, the flag, and the four counters.
pub record TelemetrySink (D : Type 0) : Type 0 where
  pub ring : SpscRing (Row D)
  pub stopping : Bool
  pub rows_written : ℕ
  pub dropped_ring_full : ℕ
  pub dropped_oversized_id : ℕ
  pub dropped_write_failed : ℕ

pub record TelemetryStats : Type 0 where
  pub rows_written : ℕ
  pub rows_dropped_ring_full : ℕ
  pub rows_dropped_oversized_id : ℕ
  pub rows_dropped_write_failed : ℕ
  pub queue_depth : ℕ

-- What SQLite does with its database `S`: whether a call succeeds, and the database afterwards. A
-- parameter that cannot be bound and a step that is not done are the same failure; the clock that
-- `insert` reads for a new correlation is part of `S`.
pub record Sqlite (D S : Type 0) : Type 0 where
  pub begin : S → Bool × S
  pub commit : S → Bool × S
  pub rollback : S → S
  pub insert_correlation : Bytes → S → Bool × S
  pub insert_event : Bytes → Bytes → ℤ → ℤ → D → Bytes → S → Bool × S

abbrev pub dry_run_metadata : Bool → Bytes
dry_run_metadata false = codes "{\"dry_run\": false}"
dry_run_metadata true = codes "{\"dry_run\": true}"

module _ {D : Type 0} where
  unfoldable pub row_of : LatencyEvent D → Row D
  row_of event = record {
    started_at_ms = event.started_at_ms;
    ended_at_ms = event.ended_at_ms;
    duration_ms = event.duration_ms;
    correlation_id_len = length event.correlation_id % 2 ^ 8;
    stage = event.stage;
    dry_run = event.dry_run;
    correlation_id =
        event.correlation_id
        ++ replicate (max_correlation_id_bytes - length event.correlation_id) 0;
  }

  -- `TelemetrySink::record`
  unfoldable pub record_event : LatencyEvent D → TelemetrySink D → Bool × TelemetrySink D
  record_event event s =
      if ltb max_correlation_id_bytes (length event.correlation_id)
      then (false, record s { dropped_oversized_id = s.dropped_oversized_id + 1 })
      else (let (pushed, ring) = try_push (row_of event) s.ring in
          if pushed
          then (true, record s { ring = ring })
          else (false, record s { ring = ring; dropped_ring_full = s.dropped_ring_full + 1 }))

  abbrev pub stats : TelemetrySink D → TelemetryStats
  stats s = record {
    rows_written = s.rows_written;
    rows_dropped_ring_full = s.dropped_ring_full;
    rows_dropped_oversized_id = s.dropped_oversized_id;
    rows_dropped_write_failed = s.dropped_write_failed;
    queue_depth = size s.ring;
  }

  -- `std::string_view correlation_id(row.correlation_id.data(), row.correlation_id_len)`
  abbrev pub id_of : Row D → Bytes
  id_of row = take row.correlation_id_len row.correlation_id

  module _ {S : Type 0} (sqlite : Sqlite D S) where
    unfoldable pub insert : Row D → S → Bool × S
    insert row db =
        let (stored, db') = sqlite.insert_correlation (id_of row) db in
        if not stored
        then (false, db')
        else sqlite.insert_event (id_of row) (stage_name row.stage) row.started_at_ms
            row.ended_at_ms row.duration_ms (dry_run_metadata row.dry_run) db'

    -- The loop over the batch, up to the first row that is refused.
    unfoldable pub insert_all : List (Row D) → S → Bool × S
    unfolding insert
    insert_all [] db = (true, db)
    insert_all (row ∷ rows) db =
        let (inserted, db') = insert row db in
        let rest = insert_all rows db' in if inserted then rest else (false, db')

    abbrev pub commit_if : Bool → S → Bool × S
    commit_if false db = (false, db)
    commit_if true db = sqlite.commit db

    abbrev pub rollback_unless : Bool × S → Bool × S
    rollback_unless (true, db) = (true, db)
    rollback_unless (false, db) = (false, sqlite.rollback db)

    -- The first attempt: all rows in one transaction.
    unfoldable pub commit_batch : List (Row D) → S → Bool × S
    unfolding insert_all
    commit_batch rows db =
        let (begun, db') = sqlite.begin db in
        if not begun
        then (false, db')
        else (let (all_inserted, db'') = insert_all rows db' in
            rollback_unless (commit_if all_inserted db''))

    -- `exec("BEGIN") && insert(row) && exec("COMMIT")`
    unfoldable pub commit_row : Row D → S → Bool × S
    unfolding insert
    commit_row row db =
        let (begun, db') = sqlite.begin db in
        if not begun
        then (false, db')
        else (let (inserted, db'') = insert row db' in commit_if inserted db'')

    -- The second attempt: a transaction for each row.
    unfoldable pub retry_rows : List (Row D) → TelemetrySink D → S → TelemetrySink D × S
    unfolding commit_row
    retry_rows [] s db = (s, db)
    retry_rows (row ∷ rows) s db =
        let (committed, db') = commit_row row db in
        let written = retry_rows rows (record s { rows_written = s.rows_written + 1 }) db' in
        let failed =
          retry_rows rows (record s { dropped_write_failed = s.dropped_write_failed + 1 })
            (sqlite.rollback db') in
        if committed then written else failed

    unfoldable pub write_batch : List (Row D) → TelemetrySink D → S → TelemetrySink D × S
    unfolding commit_batch retry_rows
    write_batch rows s db =
        let (committed, db') = commit_batch rows db in
        if committed
        then (record s { rows_written = s.rows_written + length rows }, db')
        else retry_rows rows s db'

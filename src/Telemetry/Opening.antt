-- ===== src/Telemetry/Opening.antt =====
-- `open` of src/telemetry.cpp. The connection is a parameter: its calls answer whether they succeed
-- and leave another state. The directories of the path, which are made first, are not modelled:
-- whether that succeeds is not looked at.
pub mod Version
use executor_hotpath_cpp.Base.{ℕ, Bool, true, false, not, ◌++◌, Bytes, codes, if◌then◌else◌}
use executor_hotpath_cpp.Base.Int.{pos}
use executor_hotpath_cpp.Json.Writer.{to_chars}

-- `step` says whether `sqlite3_step` gives a row.
pub record Connection (S : Type 0) : Type 0 where
  pub open_database : Bytes → Bool × S
  pub exec : Bytes → S → Bool × S
  pub prepare : Bytes → S → Bool × S
  pub step : S → Bool × S
  pub busy_timeout : ℕ → S → Bool × S
  pub errmsg : S → Bytes

abbrev pub schema_sql : Bytes
schema_sql =
    codes "\nCREATE TABLE IF NOT EXISTS correlations (\n"
    ++ codes "    correlation_id  TEXT    PRIMARY KEY,\n"
    ++ codes "    created_at_ms   INTEGER NOT NULL\n);\n\n"
    ++ codes "CREATE TABLE IF NOT EXISTS latency_events (\n"
    ++ codes "    id              INTEGER PRIMARY KEY AUTOINCREMENT,\n"
    ++ codes "    correlation_id  TEXT    NOT NULL REFERENCES correlations (correlation_id),\n"
    ++ codes "    stage           TEXT    NOT NULL,\n"
    ++ codes "    started_at_ms   INTEGER NOT NULL,\n"
    ++ codes "    ended_at_ms     INTEGER NOT NULL,\n"
    ++ codes "    duration_ms     REAL    NOT NULL,\n"
    ++ codes "    metadata_json   TEXT,\n"
    ++ codes "    created_at_ms   INTEGER NOT NULL DEFAULT "
    ++ codes "(CAST(strftime('%s', 'now') AS INTEGER) * 1000)\n);\n\n"
    ++ codes "CREATE INDEX IF NOT EXISTS idx_latency_events_stage ON latency_events (stage);\n"
    ++ codes "CREATE INDEX IF NOT EXISTS idx_latency_events_correlation_id "
    ++ codes "ON latency_events (correlation_id);\n"
    ++ codes "CREATE INDEX IF NOT EXISTS idx_latency_events_started_at "
    ++ codes "ON latency_events (started_at_ms);\n"

abbrev pub telemetry_schema_version : ℕ
telemetry_schema_version = 6

abbrev pub busy_timeout_ms : ℕ
busy_timeout_ms = 5000

abbrev pub version_stamp : Bytes
version_stamp = codes "PRAGMA user_version = " ++ to_chars (pos telemetry_schema_version)

abbrev pub table_query : Bytes
table_query = codes "SELECT 1 FROM sqlite_master WHERE type = 'table' AND name = 'latency_events'"

abbrev pub correlation_insert : Bytes
correlation_insert =
    codes "INSERT OR IGNORE INTO correlations (correlation_id, created_at_ms) VALUES (?, ?)"

abbrev pub event_insert : Bytes
event_insert =
    codes "INSERT INTO latency_events (correlation_id, stage, started_at_ms, "
    ++ codes "ended_at_ms, duration_ms, metadata_json) VALUES (?, ?, ?, ?, ?, ?)"

-- What `open` comes to: the thread runs already; a failure, with the connection as it is closed; or
-- the connection that the thread, which is started now, works with.
pub data Opening (S : Type 0) : Type 0 where
  was_open : Opening S
  not_opened : Bytes → S → Opening S
  opened : S → Opening S

module _ {S : Type 0} (c : Connection S) where
  abbrev pub sqlite_failure : S → Bytes → Bytes
  sqlite_failure db what = what ++ codes ": " ++ c.errmsg db

  abbrev pub has_latency_events : S → Bool × S
  has_latency_events db =
      let (prepared, db') = c.prepare table_query db in
      if not prepared then (false, db') else c.step db'

  -- `if (call != SQLITE_OK) return sqlite_failure(handle, what);`
  abbrev pub require : Bytes → Bool × S → (S → Opening S) → Opening S
  require what (false, db) next = not_opened (sqlite_failure db what) db
  require what (true, db) next = next db

  abbrev pub prepare_event : S → Opening S
  prepare_event db =
      require (codes "prepare latency_events insert") (c.prepare event_insert db) (λ db. opened db)

  abbrev pub prepare_inserts : S → Opening S
  prepare_inserts db =
      require (codes "prepare correlations insert") (c.prepare correlation_insert db) prepare_event

  -- Behind the schema.
  unfoldable pub stamp : Bool → S → Opening S
  stamp preexisting db =
      let stamped =
        require (codes "PRAGMA user_version") (c.exec version_stamp db) prepare_inserts in
      if not preexisting then stamped else prepare_inserts db

  abbrev pub add_schema : Bool → S → Opening S
  add_schema preexisting db = require (codes "schema") (c.exec schema_sql db) (stamp preexisting)

  abbrev pub set_timeout : Bool → S → Opening S
  set_timeout preexisting db =
      require (codes "sqlite3_busy_timeout") (c.busy_timeout busy_timeout_ms db)
        (add_schema preexisting)

  abbrev pub set_synchronous : Bool → S → Opening S
  set_synchronous preexisting db =
      require (codes "PRAGMA synchronous") (c.exec (codes "PRAGMA synchronous = NORMAL") db)
        (set_timeout preexisting)

  abbrev pub set_foreign_keys : Bool → S → Opening S
  set_foreign_keys preexisting db =
      require (codes "PRAGMA foreign_keys") (c.exec (codes "PRAGMA foreign_keys = ON") db)
        (set_synchronous preexisting)

  -- Behind `has_latency_events`.
  unfoldable pub set_journal_mode : Bool → S → Opening S
  unfolding stamp
  set_journal_mode preexisting db =
      require (codes "PRAGMA journal_mode") (c.exec (codes "PRAGMA journal_mode = WAL") db)
        (set_foreign_keys preexisting)

  abbrev pub configure : S → Opening S
  configure db = let (preexisting, db') = has_latency_events db in set_journal_mode preexisting db'

  -- `open`; `joinable` is `writer_.joinable()`.
  unfoldable pub open_telemetry : Bool → Bytes → Opening S
  unfolding set_journal_mode
  open_telemetry true path = was_open
  open_telemetry false path = require (codes "sqlite3_open") (c.open_database path) configure

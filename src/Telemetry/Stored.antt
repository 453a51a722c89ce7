-- ===== src/Telemetry/Stored.antt =====
-- What the writer of src/telemetry.cpp leaves in the table `latency_events`, over a database that
-- keeps the promises of a transaction.
use executor_hotpath_cpp.Base.{
  ℕ, ◌+◌, ◌≡◌, ◌∙◌, sym, ap, append-nil, append_assoc, refl, Bool, Bool-cases, inl, inr, true,
  false, List, [], ◌∷◌, ◌++◌, Option, none, some, Bytes, length, arith,
}
use executor_hotpath_cpp.Base.Int.{ℤ}
pub mod Batches
pub mod Kept
pub mod Order
pub mod Waiting
use mathlib.Core.List.{map}
use executor_hotpath_cpp.Telemetry.{
  Row, TelemetrySink, Sqlite, id_of, stage_name, dry_run_metadata, insert, insert_all, commit_if,
  rollback_unless, commit_batch, commit_row, retry_rows, write_batch,
}

-- A row of the table, but for the columns that SQLite fills in.
pub record LatencyRow (D : Type 0) : Type 0 where
  pub correlation_id : Bytes
  pub stage : Bytes
  pub started_at_ms : ℤ
  pub ended_at_ms : ℤ
  pub duration_ms : D
  pub metadata_json : Bytes

-- What SQLite documents of a transaction, for the rows that are committed and for those of a
-- transaction that is open: nothing but a COMMIT that succeeds changes what is committed, and that
-- adds the rows that were inserted since BEGIN, in their order. A call that fails may end the
-- transaction or leave it open.
pub record IsTransactional {D S : Type 0} (sqlite : Sqlite D S) (stored : S → List (LatencyRow D))
    (pending : S → Option (List (LatencyRow D))) : Type 0 where
  pub begin_keeps : (db : S) → stored (sqlite.begin db).1 ≡ stored db
  pub begins : (db : S) → (sqlite.begin db).0 ≡ true → pending (sqlite.begin db).1 ≡ some []
  pub rollback_keeps : (db : S) → stored (sqlite.rollback db) ≡ stored db
  pub commit_keeps :
      (db : S) → (sqlite.commit db).0 ≡ false → stored (sqlite.commit db).1 ≡ stored db
  pub commits :
      (rows : List (LatencyRow D)) (db : S)
      → pending db ≡ some rows
      → (sqlite.commit db).0 ≡ true
      → stored (sqlite.commit db).1 ≡ stored db ++ rows
  pub correlation_keeps :
      (rows : List (LatencyRow D)) (id : Bytes) (db : S)
      → pending db ≡ some rows
      → stored (sqlite.insert_correlation id db).1 ≡ stored db
  pub correlates :
      (rows : List (LatencyRow D)) (id : Bytes) (db : S)
      → pending db ≡ some rows
      → (sqlite.insert_correlation id db).0 ≡ true
      → pending (sqlite.insert_correlation id db).1 ≡ some rows
  pub event_keeps :
      (rows : List (LatencyRow D)) (r : LatencyRow D) (db : S)
      → pending db ≡ some rows
      → stored
          (sqlite.insert_event r.correlation_id r.stage r.started_at_ms r.ended_at_ms r.duration_ms
            r.metadata_json db).1
        ≡ stored db
  pub inserts :
      (rows : List (LatencyRow D)) (r : LatencyRow D) (db : S)
      → pending db ≡ some rows
      → (sqlite.insert_event r.correlation_id r.stage r.started_at_ms r.ended_at_ms r.duration_ms
          r.metadata_json db).0
        ≡ true
      → pending
          (sqlite.insert_event r.correlation_id r.stage r.started_at_ms r.ended_at_ms r.duration_ms
            r.metadata_json db).1
        ≡ some (rows ++ r ∷ [])

module _ {D : Type 0} where
  abbrev pub latency_row : Row D → LatencyRow D
  latency_row row = record {
    correlation_id = id_of row;
    stage = stage_name row.stage;
    started_at_ms = row.started_at_ms;
    ended_at_ms = row.ended_at_ms;
    duration_ms = row.duration_ms;
    metadata_json = dry_run_metadata row.dry_run;
  }

module _ {D S : Type 0} (sqlite : Sqlite D S) {stored : S → List (LatencyRow D)}
    {pending : S → Option (List (LatencyRow D))}
    (laws : IsTransactional sqlite stored pending) where
  insert-stored :
      (row : Row D) (rows : List (LatencyRow D)) (db : S)
      → pending db ≡ some rows
      → (stored (insert sqlite row db).1 ≡ stored db)
        × ((insert sqlite row db).0 ≡ true
            → pending (insert sqlite row db).1 ≡ some (rows ++ latency_row row ∷ []))
  unfolding insert
  insert-stored row rows db p =
      let out = sqlite.insert_correlation (id_of row) db in
      let kept = laws.correlation_keeps rows (id_of row) db p in
      elim (Bool-cases out.0) [
        | inr refused ↦ rw refused (kept, λ no. ground arith)
        | inl done ↦ rw done (
          laws.event_keeps rows (latency_row row) out.1 (laws.correlates rows (id_of row) db p done)
              ∙ kept,
          λ ok.
              laws.inserts rows (latency_row row) out.1 (laws.correlates rows (id_of row) db p done)
                ok,
        )
      ]

  insert_all-stored :
      (rows : List (Row D)) (before : List (LatencyRow D)) (db : S)
      → pending db ≡ some before
      → (stored (insert_all sqlite rows db).1 ≡ stored db)
        × ((insert_all sqlite rows db).0 ≡ true
            → pending (insert_all sqlite rows db).1 ≡ some (before ++ map latency_row rows))
  unfolding insert_all
  insert_all-stored [] before db p = (refl, λ _. rw (append-nil before) p)
  insert_all-stored (row ∷ rows) before db p =
      let out = insert sqlite row db in
      let (kept, grown) = insert-stored row before db p in
      elim (Bool-cases out.0) [
        | inr refused ↦ rw refused (kept, λ no. ground arith)
        | inl done ↦
            let (kept', grown') =
              insert_all-stored rows (before ++ latency_row row ∷ []) out.1 (grown done) in
            rw done (
              kept' ∙ kept,
              λ ok.
                  grown' ok
                  ∙ ap some (append_assoc before (latency_row row ∷ []) (map latency_row rows)),
            )
      ]

  -- A transaction stores all of what was inserted in it, or nothing.
  abbrev pub IsAtomic : List (LatencyRow D) → List (LatencyRow D) → Bool × S → Type 0
  IsAtomic before rows out =
      (out.0 ≡ true → stored out.1 ≡ before ++ rows) × (out.0 ≡ false → stored out.1 ≡ before)

  commit_if-IsAtomic :
      (inserted : Bool) (rows before : List (LatencyRow D)) (db : S)
      → stored db ≡ before
      → (inserted ≡ true → pending db ≡ some rows)
      → IsAtomic before rows (commit_if sqlite inserted db)
  commit_if-IsAtomic false rows before db kept p = (λ no. ground arith, λ _. kept)
  commit_if-IsAtomic true rows before db kept p =
      (λ ok. rw (sym kept) (laws.commits rows db (p refl) ok), λ no. laws.commit_keeps db no ∙ kept)

  rollback_unless-IsAtomic :
      (before rows : List (LatencyRow D)) (out : Bool × S)
      → IsAtomic before rows out
      → IsAtomic before rows (rollback_unless sqlite out)
  rollback_unless-IsAtomic before rows (true, db) h = h
  rollback_unless-IsAtomic before rows (false, db) (_, keeps) =
      (λ no. ground arith, λ _. laws.rollback_keeps db ∙ keeps refl)

  pub commit_batch-IsAtomic :
      (rows : List (Row D)) (db : S)
      → IsAtomic (stored db) (map latency_row rows) (commit_batch sqlite rows db)
  unfolding commit_batch
  commit_batch-IsAtomic rows db =
      let begun = sqlite.begin db in
      let inserted = insert_all sqlite rows begun.1 in
      elim (Bool-cases begun.0) [
        | inr refused ↦ rw refused (λ no. ground arith, λ _. laws.begin_keeps db)
        | inl done ↦
            let (kept, grown) = insert_all-stored rows [] begun.1 (laws.begins db done) in
            rw done (
              rollback_unless-IsAtomic (stored db) (map latency_row rows)
                (commit_if sqlite inserted.0 inserted.1)
                (commit_if-IsAtomic inserted.0 (map latency_row rows) (stored db) inserted.1
                  (kept ∙ laws.begin_keeps db) grown))
      ]

  pub commit_row-IsAtomic :
      (row : Row D) (db : S)
      → IsAtomic (stored db) (latency_row row ∷ []) (commit_row sqlite row db)
  unfolding commit_row
  commit_row-IsAtomic row db =
      let begun = sqlite.begin db in
      let inserted = insert sqlite row begun.1 in
      elim (Bool-cases begun.0) [
        | inr refused ↦ rw refused (λ no. ground arith, λ _. laws.begin_keeps db)
        | inl done ↦
            let (kept, grown) = insert-stored row [] begun.1 (laws.begins db done) in
            rw done (
              commit_if-IsAtomic inserted.0 (latency_row row ∷ []) (stored db) inserted.1
                (kept ∙ laws.begin_keeps db) grown)
      ]

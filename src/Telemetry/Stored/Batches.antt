-- ===== src/Telemetry/Stored/Batches.antt =====
-- `write_batch` of src/telemetry.cpp: which rows of a batch reach the table.
use mathlib.Core.List.{map}
use mathlib.Core.List.Sublist
use executor_hotpath_cpp.Base.{
  suc, ap, ◌+◌, ◌≡◌, ◌∙◌, sym, refl, Bool-cases, inl, inr, List, [], ◌∷◌, append-nil, append_assoc,
  Option, length, arith,
}
use executor_hotpath_cpp.Telemetry.{
  Row, TelemetrySink, Sqlite, commit_batch, commit_row, retry_rows, write_batch,
}
use executor_hotpath_cpp.Telemetry.Stored.{
  LatencyRow, IsTransactional, latency_row, commit_batch-IsAtomic, commit_row-IsAtomic,
}
use executor_hotpath_cpp.Telemetry.Stored.Kept.{Stores}

length-map : {D : Type 0} (rows : List (Row D)) → length (map latency_row rows) ≡ length rows
length-map [] = refl
length-map (row ∷ rows) = ap suc (length-map rows)

module _ {D S : Type 0} (sqlite : Sqlite D S) {stored : S → List (LatencyRow D)}
    {pending : S → Option (List (LatencyRow D))}
    (laws : IsTransactional sqlite stored pending) where
  -- From a sink and a database to those of the second pair.
  abbrev pub StoresBatch : List (Row D) → TelemetrySink D × S → TelemetrySink D × S → Type 0
  StoresBatch rows (s, db) (s', db') =
      Stores (stored db) (stored db') (map latency_row rows) [] s.rows_written s'.rows_written

  retry_rows-Stores :
      (rows : List (Row D)) (s : TelemetrySink D) (db : S)
      → StoresBatch rows (s, db) (retry_rows sqlite rows s db)
  unfolding retry_rows
  retry_rows-Stores [] s db = record {
    kept = [];
    appended = sym (append-nil (stored db));
    in_order = Sublist.refl [];
    counts = omega arith;
  }
  retry_rows-Stores (row ∷ rows) s db =
      let out = commit_row sqlite row db in
      let (stores, keeps) = commit_row-IsAtomic sqlite laws row db in
      elim (Bool-cases out.0) [
        | inl done ↦
            let rest =
              retry_rows-Stores rows (record s { rows_written = s.rows_written + 1 }) out.1 in
            rw done record {
              kept = latency_row row ∷ rest.kept;
              appended =
                  rest.appended
                  ∙ rw (stores done) (append_assoc (stored db) (latency_row row ∷ []) rest.kept);
              in_order = Sublist.cons-cons (latency_row row) rest.in_order;
              counts = omega (arith, rest.counts);
            }
        | inr refused ↦
            let rest =
              retry_rows-Stores rows
                (record s { dropped_write_failed = s.dropped_write_failed + 1 })
                (sqlite.rollback out.1) in
            rw refused record {
              kept = rest.kept;
              appended = rest.appended ∙ rw (laws.rollback_keeps out.1, keeps refused) refl;
              in_order = Sublist.cons (latency_row row) rest.in_order;
              counts = rest.counts;
            }
      ]

  -- Whatever SQLite answers, if it keeps the promises of its transactions, a batch leaves in the
  -- table what was there and behind it some of its own rows, in their order and each at most once,
  -- and rows_written goes up by just their number.
  pub write_batch-Stores :
      (rows : List (Row D)) (s : TelemetrySink D) (db : S)
      → StoresBatch rows (s, db) (write_batch sqlite rows s db)
  unfolding write_batch
  write_batch-Stores rows s db =
      let out = commit_batch sqlite rows db in
      let (stores, keeps) = commit_batch-IsAtomic sqlite laws rows db in
      elim (Bool-cases out.0) [
        | inl done ↦ rw done record {
          kept = map latency_row rows;
          appended = stores done;
          in_order = rw (append-nil (map latency_row rows)) (Sublist.refl (map latency_row rows));
          counts = omega (arith, length-map rows);
        }
        | inr refused ↦
            let rest = retry_rows-Stores rows s out.1 in
            rw refused record {
              kept = rest.kept;
              appended = rest.appended ∙ rw (keeps refused) refl;
              in_order = rest.in_order;
              counts = rest.counts;
            }
      ]

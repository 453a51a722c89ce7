-- ===== src/Telemetry/Stored/Order.antt =====
-- The rows of src/telemetry.cpp from `record` to the table.
use mathlib.Core.List.{map, map-append}
use mathlib.Core.List.Sublist
use executor_hotpath_cpp.Base.{
  ℕ, ◌≡◌, ap, refl, Bool, Bool-cases, true, false, inl, inr, List, [], ◌∷◌, ◌++◌, append-nil,
  append_assoc, Option, ltb, length, arith,
}
use executor_hotpath_cpp.SpscRing.{try_pop}
use executor_hotpath_cpp.SpscRing.Refine.{IsCapacity, IsRing, contents, try_pop_refines}
use executor_hotpath_cpp.Telemetry.{Row, Sqlite, max_batch_rows, write_batch}
use executor_hotpath_cpp.Telemetry.Account.{act-Accounts, write_batch_lem}
use executor_hotpath_cpp.Telemetry.Stored.{LatencyRow, IsTransactional, latency_row}
use executor_hotpath_cpp.Telemetry.Stored.Batches.{write_batch-Stores}
use executor_hotpath_cpp.Telemetry.Stored.Kept.{Stores, Stores-none, Stores-behind, Stores-trans}
use executor_hotpath_cpp.Telemetry.Stored.Waiting.{
  recorded_by, recorded, hand, waiting, pop_queue-after_pop, record_event-waiting,
  record_event-written,
}
use executor_hotpath_cpp.Telemetry.Writer.{
  Writer, at_top, draining, drained, returned, World, Action, produce, close, write, drain,
  finish_round, run_writer, act, act_all,
}

module _ {D : Type 0} (blank : Row D) {cap : ℕ} (c : IsCapacity cap) where
  module _ {S : Type 0} (sqlite : Sqlite D S) {stored : S → List (LatencyRow D)}
      {pending : S → Option (List (LatencyRow D))}
      (laws : IsTransactional sqlite stored pending) where
    abbrev pub on_way : World D S → List (LatencyRow D)
    on_way w = waiting blank (hand w.writer) w.sink.ring

    -- From a world to a later one, with the rows that were recorded in between.
    abbrev pub StoresInOrder : World D S → List (LatencyRow D) → World D S → Type 0
    StoresInOrder w rows w' =
        Stores (stored w.database) (stored w'.database) (on_way w ++ rows) (on_way w')
          w.sink.rows_written w'.sink.rows_written

    drain-on_way :
        (flag : Bool) (batch : List (Row D)) (w : World D S)
        → IsRing cap w.sink.ring
        → on_way (drain blank sqlite flag batch w) ≡ waiting blank batch w.sink.ring
    unfolding drain
    drain-on_way flag batch w h =
        let out = try_pop blank w.sink.ring in
        elim (Bool-cases (ltb (length batch) max_batch_rows)) [
          | inl more ↦ rw more (
              ap (map latency_row) (
                pop_queue-after_pop blank sqlite flag batch (contents blank w.sink.ring)
                  (contents blank out.1) out.0 (try_pop_refines c blank w.sink.ring h)))
          | inr full ↦ rw full refl
        ]

    drain-database :
        (flag : Bool) (batch : List (Row D)) (w : World D S)
        → ((drain blank sqlite flag batch w).database ≡ w.database)
          × ((drain blank sqlite flag batch w).sink.rows_written ≡ w.sink.rows_written)
    unfolding drain
    drain-database flag batch w = ground arith

    written :
        (rows : List (Row D)) (w : World D S)
        → let (sink, db) = write_batch sqlite rows w.sink w.database in
          Stores
            (stored w.database)
            (stored db)
            (waiting blank rows w.sink.ring)
            (waiting blank [] sink.ring)
            w.sink.rows_written
            sink.rows_written
    written rows w =
        let (kept, _) = write_batch_lem sqlite rows w.sink w.database in
        rw (kept, map-append latency_row rows (contents blank w.sink.ring))
          (Stores-behind (map latency_row (contents blank w.sink.ring))
            (write_batch-Stores sqlite laws rows w.sink w.database))

    finish_round-Stores :
        (flag : Bool) (batch : List (Row D)) (w : World D S)
        → (let w' = finish_round blank sqlite flag batch w in
            Stores
              (stored w.database)
              (stored w'.database)
              (waiting blank batch w.sink.ring)
              (on_way w')
              w.sink.rows_written
              w'.sink.rows_written)
    unfolding finish_round
    finish_round-Stores true [] w = Stores-none (Sublist.refl (waiting blank [] w.sink.ring))
    finish_round-Stores false [] w = Stores-none (Sublist.refl (waiting blank [] w.sink.ring))
    finish_round-Stores true (row ∷ rows) w = written (row ∷ rows) w
    finish_round-Stores false (row ∷ rows) w = written (row ∷ rows) w

    run_writer-Stores :
        (writer : Writer D) (w : World D S)
        → IsRing cap w.sink.ring
        → w.writer ≡ writer
        → (let w' = run_writer blank sqlite writer w in
            Stores
              (stored w.database)
              (stored w'.database)
              (waiting blank (hand writer) w.sink.ring)
              (on_way w')
              w.sink.rows_written
              w'.sink.rows_written)
    unfolding run_writer
    run_writer-Stores at_top w h e = Stores-none (Sublist.refl (waiting blank [] w.sink.ring))
    run_writer-Stores (draining flag batch) w h e =
        let (database, counted) = drain-database flag batch w in
        rw (database, counted, drain-on_way flag batch w h)
          (Stores-none (Sublist.refl (waiting blank batch w.sink.ring)))
    run_writer-Stores (drained flag batch) w h e = finish_round-Stores flag batch w
    run_writer-Stores returned w h e =
        rw e (Stores-none (Sublist.refl (waiting blank [] w.sink.ring)))

    act-StoresInOrder :
        (a : Action D) (w : World D S)
        → IsRing cap w.sink.ring
        → StoresInOrder w (recorded_by a) (act blank sqlite a w)
    unfolding act
    act-StoresInOrder (produce event) w h =
        rw (record_event-written event w.sink)
          (Stores-none (record_event-waiting blank c event (hand w.writer) w.sink h))
    act-StoresInOrder close w h = rw (append-nil (on_way w)) (Stores-none (Sublist.refl (on_way w)))
    act-StoresInOrder write w h = rw (append-nil (on_way w)) (run_writer-Stores w.writer w h refl)

    -- However the calls of `record` come between the steps of the thread, and whatever SQLite
    -- answers, if it keeps the promises of its transactions: the table gets, behind what was there,
    -- rows of the recorded events, in the order of the calls and each at most once, before any that
    -- are still on their way; `rows_written` goes up by just their number. The ring is valid at
    -- first, and its capacity divides 2^64.
    pub act_all-StoresInOrder :
        (actions : List (Action D)) (w : World D S)
        → IsRing cap w.sink.ring
        → StoresInOrder w (recorded actions) (act_all blank sqlite actions w)
    unfolding act_all
    act_all-StoresInOrder [] w h =
        rw (append-nil (on_way w)) (Stores-none (Sublist.refl (on_way w)))
    act_all-StoresInOrder (a ∷ actions) w h =
        let w' = act blank sqlite a w in
        let rest = act_all-StoresInOrder actions w' (act-Accounts blank sqlite c a w h).0 in
        rw⁻¹ (append_assoc (on_way w) (recorded_by a) (recorded actions))
          (Stores-trans (recorded actions) (act-StoresInOrder a w h) rest)

-- ===== src/Telemetry/Stored/Waiting.antt =====
-- The rows of src/telemetry.cpp that are on their way: in the batch of the thread and in the ring.
use mathlib.Core.List.{map, map-append, Sublist, nil-sublist}
use mathlib.Core.List.Sublist
use mathlib.Core.Path.{subst}
use executor_hotpath_cpp.Base.{
  ℕ, ◌≡◌, ◌≤◌, ◌∙◌, sym, ap, refl, Bool, Bool-cases, true, false, inl, inr, List, [], ◌∷◌, ◌++◌,
  append-nil, append_assoc, Option, ltb, length, arith,
}
use executor_hotpath_cpp.SpscRing.{SpscRing, try_push}
use executor_hotpath_cpp.SpscRing.Refine.{
  IsCapacity, IsRing, contents, pop_queue, push_queue, try_push_refines,
}
use executor_hotpath_cpp.Telemetry.{
  LatencyEvent, Row, TelemetrySink, Sqlite, row_of, record_event, stage_name, dry_run_metadata,
  max_correlation_id_bytes,
}
use executor_hotpath_cpp.Telemetry.Rows.{id_of-row_of}
use executor_hotpath_cpp.Telemetry.Stored.{LatencyRow, latency_row}
use executor_hotpath_cpp.Telemetry.Writer.{
  Writer, at_top, draining, drained, returned, Action, produce, close, write, after_pop,
}

module _ {D : Type 0} where
  -- The row that an event asks for.
  abbrev pub event_row : LatencyEvent D → LatencyRow D
  event_row event = record {
    correlation_id = event.correlation_id;
    stage = stage_name event.stage;
    started_at_ms = event.started_at_ms;
    ended_at_ms = event.ended_at_ms;
    duration_ms = event.duration_ms;
    metadata_json = dry_run_metadata event.dry_run;
  }

  pub latency_row-row_of :
      (event : LatencyEvent D)
      → length event.correlation_id ≤ max_correlation_id_bytes
      → latency_row (row_of event) ≡ event_row event
  unfolding row_of
  latency_row-row_of event h = rw (id_of-row_of event h) refl

  abbrev pub recorded_by : Action D → List (LatencyRow D)
  recorded_by (produce event) = event_row event ∷ []
  recorded_by close = []
  recorded_by write = []

  abbrev pub recorded : List (Action D) → List (LatencyRow D)
  recorded [] = []
  recorded (a ∷ actions) = recorded_by a ++ recorded actions

  abbrev pub hand : Writer D → List (Row D)
  hand at_top = []
  hand (draining _ batch) = batch
  hand (drained _ batch) = batch
  hand returned = []

  -- The rows on their way, oldest first.
  abbrev pub waiting : Row D → List (Row D) → SpscRing (Row D) → List (LatencyRow D)
  waiting blank batch ring = map latency_row (batch ++ contents blank ring)

  pub pop_queue-after_pop :
      {S : Type 0} (blank : Row D) (sqlite : Sqlite D S) (flag : Bool) (batch q q' : List (Row D))
      (out : Option (Row D))
      → (out, q') ≡ pop_queue q
      → hand (after_pop blank sqlite flag batch out) ++ q' ≡ batch ++ q
  unfolding pop_queue
  pop_queue-after_pop blank sqlite flag batch [] q' out e =
      rw (ap (λ p. p.0) e, ap (λ p. p.1) e) refl
  pop_queue-after_pop blank sqlite flag batch (row ∷ q) q' out e =
      rw (ap (λ p. p.0) e, ap (λ p. p.1) e) (append_assoc batch (row ∷ []) q)

  snoc :
      (batch q : List (Row D)) (row : Row D)
      → map latency_row (batch ++ (q ++ row ∷ []))
        ≡ map latency_row (batch ++ q) ++ latency_row row ∷ []
  snoc batch q row =
      ap (map latency_row) (sym (append_assoc batch q (row ∷ [])))
      ∙ map-append latency_row (batch ++ q) (row ∷ [])

  push_queue-cases :
      (bound : ℕ) (row : Row D) (q q' : List (Row D)) (pushed : Bool)
      → (pushed, q') ≡ push_queue bound row q
      → (pushed ≡ true → q' ≡ q ++ row ∷ []) × (pushed ≡ false → q' ≡ q)
  unfolding push_queue
  push_queue-cases bound row q q' pushed e = ground (arith, ap (λ p. p.0) e, ap (λ p. p.1) e)

  pub record_event-written :
      (event : LatencyEvent D) (s : TelemetrySink D)
      → (record_event event s).1.rows_written ≡ s.rows_written
  unfolding record_event
  record_event-written event s = ground arith

  module _ (blank : Row D) {cap : ℕ} (c : IsCapacity cap) where
    -- A call of `record` puts the row of its event behind those on their way, or it drops it.
    pub record_event-waiting :
        (event : LatencyEvent D) (batch : List (Row D)) (s : TelemetrySink D)
        → IsRing cap s.ring
        → Sublist
            (waiting blank batch (record_event event s).1.ring)
            (waiting blank batch s.ring ++ event_row event ∷ [])
    unfolding record_event
    record_event-waiting event batch s h =
        let old = waiting blank batch s.ring in
        let out = try_push (row_of event) s.ring in
        let dropped : Sublist old (old ++ event_row event ∷ []) =
          subst (λ l. Sublist l (old ++ event_row event ∷ [])) (append-nil old)
            (Sublist.append (Sublist.refl old) (nil-sublist (event_row event ∷ []))) in
        let (pushed, full) =
          push_queue-cases cap (row_of event) (contents blank s.ring) (contents blank out.1) out.0
            (try_push_refines c blank (row_of event) s.ring h) in
        elim (Bool-cases (ltb max_correlation_id_bytes (length event.correlation_id))) [
          | inl oversized ↦ rw oversized dropped
          | inr fits ↦ rw fits (elim (Bool-cases out.0) [
            | inr refused ↦ rw (refused, full refused) dropped
            | inl ok ↦
                rw (ok, pushed ok)
                  (subst
                    (λ l.
                      Sublist
                        (map latency_row (batch ++ (contents blank s.ring ++ row_of event ∷ []))) l)
                    (snoc batch (contents blank s.ring) (row_of event)
                      ∙ ap (λ r. old ++ r ∷ []) (latency_row-row_of event (ground arith)))
                    (Sublist.refl _))
          ])
        ]

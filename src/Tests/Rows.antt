-- ===== src/Tests/Rows.antt =====
-- The telemetry at concrete inputs, over a database that counts its rows and refuses one id.
use executor_hotpath_cpp.Base.{
  ℕ, ◌+◌, ◌≡◌, refl, true, false, not, List, [], ◌∷◌, Bytes, codes, equal, arith,
}
use executor_hotpath_cpp.Base.Int.{pos}
use executor_hotpath_cpp.SpscRing.{capacity, make, size}
use executor_hotpath_cpp.SpscRing.Refine.{IsCapacity, IsRing}
use executor_hotpath_cpp.SpscRing.Make.{make-IsRing}
use executor_hotpath_cpp.Telemetry.{
  LatencyEvent, Row, TelemetrySink, Sqlite, wake_recv, row_of, id_of,
}
use executor_hotpath_cpp.Telemetry.Account.{accounted, all_produced, act_all-accounted}
use executor_hotpath_cpp.Telemetry.Closing.{IsClosed, writes, writes-act_close}
use executor_hotpath_cpp.Telemetry.Rows.{id_of-row_of}
use executor_hotpath_cpp.Telemetry.Writer.{
  World, Action, at_top, produce, close, write, act, act_all,
}

abbrev counting : Sqlite ℕ ℕ
counting = record {
  begin = λ db. (true, db);
  commit = λ db. (true, db);
  rollback = λ db. db;
  insert_correlation = λ id db. (not (equal id (codes "bad")), db);
  insert_event = λ id stage started ended duration metadata db. (true, db + 1);
}

abbrev event : Bytes → LatencyEvent ℕ
event id = record {
  correlation_id = id;
  stage = wake_recv;
  started_at_ms = pos 1;
  ended_at_ms = pos 2;
  duration_ms = 1;
  dry_run = false;
}

abbrev pub blank : Row ℕ
blank = row_of (event [])

abbrev pub fresh_sink : TelemetrySink ℕ
fresh_sink = record {
  ring = make blank 4;
  stopping = false;
  rows_written = 0;
  dropped_ring_full = 0;
  dropped_oversized_id = 0;
  dropped_write_failed = 0;
}

abbrev fresh : World ℕ ℕ
fresh = record { sink = fresh_sink; writer = at_top; database = 0 }

pub fresh-IsRing :
    IsCapacity (capacity (make blank 4)) × IsRing (capacity (make blank 4)) (make blank 4)
fresh-IsRing = let (c, r, _, _, _) = make-IsRing blank 4 (omega arith) in (c, r)

abbrev pub actions : List (Action ℕ)
actions =
    produce (event (codes "a"))
    ∷ write
    ∷ produce (event (codes "bad"))
    ∷ write
    ∷ produce (event (codes "b"))
    ∷ []

act_all-accounted_example :
    IsRing (capacity (make blank 4)) (act_all blank counting actions fresh).sink.ring
    × (accounted (act_all blank counting actions fresh) ≡ accounted fresh + all_produced actions)
act_all-accounted_example =
    act_all-accounted blank counting fresh-IsRing.0 actions fresh fresh-IsRing.1

fresh_size : size (make blank 4) ≡ 0
unfolding size make
fresh_size = refl

writes-act_close_example :
    IsClosed (accounted fresh) (writes blank counting 20 (act blank counting close fresh))
writes-act_close_example =
    writes-act_close blank counting fresh-IsRing.0 20 fresh fresh-IsRing.1 tt
      (omega (arith, fresh_size))

id_of-row_of_example : id_of (row_of (event (codes "w1"))) ≡ codes "w1"
id_of-row_of_example = id_of-row_of (event (codes "w1")) (omega arith)

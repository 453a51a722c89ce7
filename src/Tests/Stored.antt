-- ===== src/Tests/Stored.antt =====
-- The telemetry over a database with transactions, which refuses one id.
use executor_hotpath_cpp.Base.{
  ◌≡◌, refl, true, false, not, List, [], ◌∷◌, ◌++◌, Option, none, some, codes, equal, Bool, arith,
}
use executor_hotpath_cpp.Telemetry.{Sqlite}
use executor_hotpath_cpp.Telemetry.Stored.{LatencyRow, IsTransactional}
use executor_hotpath_cpp.Telemetry.Stored.Order.{StoresInOrder, act_all-StoresInOrder}
use executor_hotpath_cpp.Telemetry.Stored.Waiting.{recorded}
use executor_hotpath_cpp.Telemetry.Writer.{World, at_top, act_all}
use executor_hotpath_cpp.Tests.Rows.{blank, fresh_sink, actions, fresh-IsRing}
use executor_hotpath_cpp.Base.{ℕ}

-- What is committed, and the rows of the transaction that is open.
pub record Table : Type 0 where
  pub stored : List (LatencyRow ℕ)
  pub pending : Option (List (LatencyRow ℕ))

abbrev begin_table : Option (List (LatencyRow ℕ)) → Table → Bool × Table
begin_table none t = (true, record t { pending = some [] })
begin_table (some _) t = (false, t)

abbrev commit_table : Option (List (LatencyRow ℕ)) → Table → Bool × Table
commit_table none t = (false, t)
commit_table (some rows) t = (true, record { stored = t.stored ++ rows; pending = none })

abbrev insert_row : Option (List (LatencyRow ℕ)) → LatencyRow ℕ → Table → Bool × Table
insert_row none r t = (true, record t { stored = t.stored ++ r ∷ [] })
insert_row (some rows) r t = (true, record t { pending = some (rows ++ r ∷ []) })

abbrev table : Sqlite ℕ Table
table = record {
  begin = λ t. begin_table t.pending t;
  commit = λ t. commit_table t.pending t;
  rollback = λ t. record t { pending = none };
  insert_correlation = λ id t. (not (equal id (codes "bad")), t);
  insert_event = λ id stage started ended duration metadata t.
      insert_row t.pending
        record {
          correlation_id = id;
          stage = stage;
          started_at_ms = started;
          ended_at_ms = ended;
          duration_ms = duration;
          metadata_json = metadata;
        }
        t;
}

begin_table-keeps :
    (pending : Option (List (LatencyRow ℕ))) (t : Table)
    → (begin_table pending t).1.stored ≡ t.stored
begin_table-keeps none t = refl
begin_table-keeps (some _) t = refl

begin_table-begins :
    (pending : Option (List (LatencyRow ℕ))) (t : Table)
    → (begin_table pending t).0 ≡ true
    → (begin_table pending t).1.pending ≡ some []
begin_table-begins none t ok = refl
begin_table-begins (some _) t ok = ground arith

commit_table-keeps :
    (pending : Option (List (LatencyRow ℕ))) (t : Table)
    → (commit_table pending t).0 ≡ false
    → (commit_table pending t).1.stored ≡ t.stored
commit_table-keeps none t refused = refl
commit_table-keeps (some _) t refused = ground arith

table-IsTransactional : IsTransactional table (λ t. t.stored) (λ t. t.pending)
table-IsTransactional = record {
  begin_keeps = λ t. begin_table-keeps t.pending t;
  begins = λ t ok. begin_table-begins t.pending t ok;
  rollback_keeps = λ t. refl;
  commit_keeps = λ t refused. commit_table-keeps t.pending t refused;
  commits = λ rows t p ok. rw p refl;
  correlation_keeps = λ rows id t p. refl;
  correlates = λ rows id t p ok. p;
  event_keeps = λ rows r t p. rw p refl;
  inserts = λ rows r t p ok. rw p refl;
}

abbrev open_table : World ℕ Table
open_table = record {
  sink = fresh_sink;
  writer = at_top;
  database = record { stored = []; pending = none };
}

act_all-StoresInOrder_example :
    StoresInOrder blank fresh-IsRing.0 table table-IsTransactional open_table
      (recorded actions)
      (act_all blank table actions open_table)
act_all-StoresInOrder_example =
    act_all-StoresInOrder blank fresh-IsRing.0 table table-IsTransactional actions open_table
      fresh-IsRing.1

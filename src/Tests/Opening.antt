-- ===== src/Tests/Opening.antt =====
-- The opening of the telemetry over a connection that knows nothing but its schema version.
use executor_hotpath_cpp.Base.Cuts.{drop}
use executor_hotpath_cpp.Bench.Options.{parse_count}
use executor_hotpath_cpp.Base.{ℕ, Option, Bool, true, none, some, Bytes, codes, ltb, if◌then◌else◌}
use executor_hotpath_cpp.Telemetry.Opening.{Connection}
use executor_hotpath_cpp.Telemetry.Opening.Version.{touches_version}

-- The number behind `PRAGMA user_version = `.
abbrev number_or : Option ℕ → ℕ → ℕ
number_or none v = v
number_or (some n) v = n

abbrev set_if : Bool → Bytes → ℕ → ℕ
set_if touches sql v = if touches then number_or (parse_count (drop 22 sql)) v else v

-- The tables are there if the version is not zero.
abbrev versioned : Connection ℕ
versioned = record {
  open_database = λ path. (true, 0);
  exec = λ sql v. (true, set_if (touches_version sql) sql v);
  prepare = λ sql v. (true, v);
  step = λ v. (ltb 0 v, v);
  busy_timeout = λ ms v. (true, v);
  errmsg = λ v. codes "not an error";
}

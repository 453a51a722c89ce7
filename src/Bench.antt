-- ===== src/Bench.antt =====
-- The benchmarks of bench/: the estimator, the client of the poller, and the options of a run.
pub mod Percentile
pub mod Poller
pub mod Options
pub mod Runs

-- ===== src/Bench/Runs/Configured.antt =====
-- From the arguments of bench/bench_main.cpp to the figures that the benchmarks report.
use executor_hotpath_cpp.Base.{◌+◌, ◌^◌, ◌≤◌, ◌<◌, ◌≡◌, ℕ, List, Bytes, some}
use executor_hotpath_cpp.Base.Int.{ℤ}
use executor_hotpath_cpp.Bench.Options.{Options, configure}
use executor_hotpath_cpp.Bench.Options.Counts.{IsSelection, configure_lem}
use executor_hotpath_cpp.Bench.Runs.{Clock, bench_decode, bench_encode_ack, bench_sign}
use executor_hotpath_cpp.Bench.Runs.Sizes.{IsSized, IsSizedOutcome, benches-IsSized}
use executor_hotpath_cpp.Double.{Double}
use executor_hotpath_cpp.Signer.{Openssl, RequestSigner, SignAnswers}
use executor_hotpath_cpp.Wire.{WakeMessage}

module _ {D K : Type 0} ⦃d : Double D⦄ (ssl : Openssl K) where
  -- If the arguments are accepted, and the two counts together fit 64 bits: the run is of all four
  -- benchmarks, or of the one that is named; at least one iteration is asked for; and the decoder's,
  -- the encoder's and the signer's benchmarks, where they do not throw, report as many samples as
  -- iterations were asked for, and as many dropped as the warm-up has.
  pub configure-IsSized :
      (args : List Bytes) (o : Options) (names : List Bytes) (clock : Clock) (wake : WakeMessage D)
      (now : ℤ) (answers : ℕ → SignAnswers) (now_ms : ℕ → ℤ) (s : RequestSigner K)
      → configure args ≡ some (o, names)
      → o.warmup + o.iterations < 2 ^ 64
      → IsSelection o.only names
        × (1 ≤ o.iterations)
        × IsSizedOutcome o (bench_decode o clock wake)
        × IsSized {D = D} o (bench_encode_ack o clock now)
        × IsSizedOutcome {D = D} o (bench_sign ssl o clock answers now_ms s)
  configure-IsSized args o names clock wake now answers now_ms s h fits =
      let (enough, selection) = configure_lem args o names h in
      let (decode, encode, sign) = benches-IsSized ssl o clock wake now answers now_ms s fits in
      (selection, enough, decode, encode, sign)

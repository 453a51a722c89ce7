-- ===== src/Tests/Benching.antt =====
-- The benchmarks at concrete arguments.
use executor_hotpath_cpp.Base.{
  ℕ, ◌+◌, ◌≤◌, ◌≡◌, refl, List, [], ◌∷◌, Bytes, codes, some, equal, arith,
}
use executor_hotpath_cpp.Base.Int.{pos}
use executor_hotpath_cpp.Bench.Options.{
  Options, default_options, configure, parse_options, parse_count, selected, strtoull, skip_space,
  unsigned_from,
}
use executor_hotpath_cpp.Bench.Options.Counts.{IsSelection}
use executor_hotpath_cpp.Bench.Runs.{Clock, bench_decode, bench_encode_ack, bench_sign, total}
use executor_hotpath_cpp.Bench.Runs.Configured.{configure-IsSized}
use executor_hotpath_cpp.Bench.Runs.Sizes.{IsSized, IsSizedOutcome}
use executor_hotpath_cpp.Json.Numbers.{span_digits, spell}
use executor_hotpath_cpp.Tests.Doubles.{Double-hundredths}
use executor_hotpath_cpp.Tests.Signing.{stand_in, signer, all_well}
use executor_hotpath_cpp.Tests.Wakes.{wake_message}

abbrev one_bench : List Bytes
one_bench = codes "--iterations" ∷ codes "7" ∷ codes "--only" ∷ codes "sign" ∷ []

abbrev sign_only : Options
sign_only = record default_options { iterations = 7; only = codes "sign" }

abbrev ticks : Clock
ticks = λ i. (i, i + 1)

configure-IsSized_example :
    IsSelection sign_only.only (codes "sign" ∷ [])
    × (1 ≤ sign_only.iterations)
    × IsSizedOutcome sign_only (bench_decode sign_only ticks wake_message)
    × IsSized {D = ℕ} sign_only (bench_encode_ack sign_only ticks (pos 5))
    × IsSizedOutcome {D = ℕ} sign_only
        (bench_sign stand_in sign_only ticks (λ i. all_well) (λ i. pos i) signer)
unfolding configure parse_options parse_count strtoull skip_space unsigned_from span_digits spell
    selected equal
configure-IsSized_example =
    configure-IsSized stand_in one_bench sign_only (codes "sign" ∷ []) ticks wake_message (pos 5)
      (λ i. all_well) (λ i. pos i) signer refl (omega arith)

abbrev negative : List Bytes
negative =
    codes "--iterations"
    ∷ codes "1"
    ∷ codes "--warmup"
    ∷ codes "-1"
    ∷ codes "--only"
    ∷ codes "decode"
    ∷ []

abbrev wrapped : Options
wrapped = record { iterations = 1; warmup = 18446744073709551615; csv = []; only = codes "decode" }

-- A negative count is taken, and the loop then has no iteration.
taken_all_the_same : configure negative ≡ some (wrapped, codes "decode" ∷ [])
unfolding configure parse_options parse_count strtoull skip_space unsigned_from span_digits spell
    selected equal
taken_all_the_same = refl

no_iteration : total wrapped ≡ 0
no_iteration = refl

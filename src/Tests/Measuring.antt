-- ===== src/Tests/Measuring.antt =====
-- The estimator at concrete inputs.
use executor_hotpath_cpp.Base.{ℕ, ◌+◌, ◌≡◌, ◌⊎◌, List, [], ◌∷◌, length, arith}
use executor_hotpath_cpp.Bench.Percentile.{
  empty_sample, estimate, percentile, drop_samples, stats_of, from_samples, sort, insert,
}
use executor_hotpath_cpp.Bench.Percentile.Bounds.{IsFraction, percentile-InBounds}
use executor_hotpath_cpp.Bench.Percentile.Sorted.{IsOrder, sort-Pairwise, from_samples-stats_of}
use executor_hotpath_cpp.Tests.Doubles.{Double-hundredths}
use mathlib.Core.List.Perm

hundredths-IsOrder : IsOrder {D = ℕ} (λ _. Unit {0})
hundredths-IsOrder = record {
  le_of_lt = λ a b _ _ h. ground arith;
  le_of_not_lt = λ a b _ _ h. ground arith;
  le_trans = λ a b c _ _ _ h k. ground arith;
  le_antisymm = λ a b _ _ h k. ground arith;
}

from_samples-stats_of_example :
    (from_samples {D = ℕ} (9 ∷ 3 ∷ 5 ∷ []) 1 ≡ stats_of (3 ∷ 5 ∷ []) 1)
    × (length {A = ℕ} (3 ∷ 5 ∷ []) + 1 ≡ 3)
unfolding drop_samples sort insert
from_samples-stats_of_example =
    from_samples-stats_of hundredths-IsOrder (9 ∷ 3 ∷ 5 ∷ []) (3 ∷ 5 ∷ []) 1 (λ _ _. tt)
      (sort-Pairwise hundredths-IsOrder (3 ∷ 5 ∷ []) (λ _ _. tt)) Perm.rfl

half-IsFraction : IsFraction {D = ℕ} 50
half-IsFraction = record { floor_le_ceil = λ n h. omega arith; ceil_le = λ n h. omega arith }

abbrev sample : List ℕ
sample = 3 ∷ 5 ∷ []

percentile-InBounds_example :
    (sample ≡ [] × (percentile {D = ℕ} sample 50 ≡ empty_sample))
    ⊎ ((v : ℕ) × (percentile {D = ℕ} sample 50 ≡ estimate v))
percentile-InBounds_example = percentile-InBounds sample 50 half-IsFraction (omega arith)

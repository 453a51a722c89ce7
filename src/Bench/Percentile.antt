-- ===== src/Bench/Percentile.antt =====
-- `percentile` and `Stats::from_samples` of bench/percentile.cpp. A sample is a list of doubles.
-- `std::ranges::sort` is insertion by `<`: which sort it is does not show where `<` orders the samples.
pub mod Sorted
pub mod Bounds
use executor_hotpath_cpp.Base.{
  ℕ, zero, suc, ◌-◌, Bool, List, [], ◌∷◌, length, leb, ◌==◌, if◌then◌else◌,
}
use executor_hotpath_cpp.Base.Int.{pos}
use executor_hotpath_cpp.Double.{Double}

-- What `percentile` comes to: a value, the exception, or a read past the end of the sample.
pub data Estimate (D : Type 0) : Type 0 where
  estimate : D → Estimate D
  empty_sample : Estimate D
  past_the_end : Estimate D

-- `Stats`, with an estimate in the place of each double.
pub record Stats (D : Type 0) : Type 0 where
  pub p50_ms : Estimate D
  pub p90_ms : Estimate D
  pub p99_ms : Estimate D
  pub n : ℕ
  pub warmup : ℕ

module _ {D : Type 0} where
  -- `ordered[i]`
  unfoldable pub at : List D → ℕ → Estimate D
  at [] i = past_the_end
  at (x ∷ xs) zero = estimate x
  at (x ∷ xs) (suc i) = at xs i

  -- `std::min(warmup, samples_ms.size())`
  abbrev pub dropped : List D → ℕ → ℕ
  dropped samples warmup = if leb warmup (length samples) then warmup else length samples

  -- The samples behind the first `n`.
  unfoldable pub drop_samples : ℕ → List D → List D
  drop_samples zero samples = samples
  drop_samples (suc n) [] = []
  drop_samples (suc n) (_ ∷ samples) = drop_samples n samples

module _ {D : Type 0} ⦃d : Double D⦄ where
  -- `lower + ((upper - lower) * (rank - static_cast<double>(lo)))`
  abbrev pub between : D → ℕ → Estimate D → Estimate D → Estimate D
  between rank lo (estimate lower) (estimate upper) =
      estimate (d.add lower (d.mul (d.sub upper lower) (d.sub rank (d.of_int (pos lo)))))
  between rank lo _ _ = past_the_end

  -- From `rank` on.
  unfoldable pub at_rank : List D → D → Estimate D
  unfolding at
  at_rank ordered rank =
      if d.floor rank == d.ceil rank
      then at ordered (d.floor rank)
      else between rank (d.floor rank) (at ordered (d.floor rank)) (at ordered (d.ceil rank))

  unfoldable pub percentile : List D → D → Estimate D
  unfolding at_rank
  percentile [] p = empty_sample
  percentile (x ∷ []) p = estimate x
  percentile (x ∷ y ∷ ordered) p =
      at_rank (x ∷ y ∷ ordered) (d.mul (d.of_int (pos (length (x ∷ y ∷ ordered) - 1))) p)

  unfoldable pub insert : D → List D → List D
  insert x [] = x ∷ []
  insert x (y ∷ ys) = let rest = insert x ys in if d.lt y x then y ∷ rest else x ∷ y ∷ ys

  -- `std::ranges::sort`
  unfoldable pub sort : List D → List D
  unfolding insert
  sort [] = []
  sort (x ∷ xs) = insert x (sort xs)

  unfoldable pub stats_of : List D → ℕ → Stats D
  unfolding percentile
  stats_of kept dropped = record {
    p50_ms = percentile kept d.half;
    p90_ms = percentile kept d.nine_tenths;
    p99_ms = percentile kept d.ninety_nine_cents;
    n = length kept;
    warmup = dropped;
  }

  -- `Stats::from_samples`
  unfoldable pub from_samples : List D → ℕ → Stats D
  unfolding sort stats_of drop_samples
  from_samples samples warmup =
      stats_of (sort (drop_samples (dropped samples warmup) samples)) (dropped samples warmup)

-- ===== src/Bench/Percentile/Bounds.antt =====
-- `percentile` of bench/percentile.cpp reads inside its sample.
use executor_hotpath_cpp.Base.{
  ℕ, zero, suc, ◌-◌, ◌^◌, ◌≤◌, ◌<◌, ◌≡◌, refl, ◌⊎◌, inl, inr, List, [], ◌∷◌, Bool-cases, arith,
  length, ◌==◌,
}
use executor_hotpath_cpp.Base.Int.{pos}
use executor_hotpath_cpp.Bench.Percentile.{estimate, empty_sample, at, at_rank, percentile}
use executor_hotpath_cpp.Double.{Double}

module _ {D : Type 0} ⦃d : Double D⦄ where
  -- `static_cast<double>(n) * p`
  abbrev pub rank_of : ℕ → D → D
  rank_of n p = d.mul (d.of_int (pos n)) p

  -- What a `p` in [0, 1] makes of an `n` that a double holds exactly: the product is rounded, but no
  -- further than to `n`.
  pub record IsFraction (p : D) : Type 0 where
    pub floor_le_ceil : (n : ℕ) → n ≤ 2 ^ 53 → d.floor (rank_of n p) ≤ d.ceil (rank_of n p)
    pub ceil_le : (n : ℕ) → n ≤ 2 ^ 53 → d.ceil (rank_of n p) ≤ n

  at_lem : (xs : List D) (i : ℕ) → i < length xs → (v : D) × (at xs i ≡ estimate v)
  unfolding at
  at_lem [] i h = absurd (omega arith)
  at_lem (x ∷ xs) zero h = (x, refl)
  at_lem (x ∷ xs) (suc i) h = at_lem xs i (omega arith)

  at_rank_lem :
      (ordered : List D) (rank : D)
      → d.floor rank ≤ d.ceil rank
      → d.ceil rank < length ordered
      → (v : D) × (at_rank ordered rank ≡ estimate v)
  unfolding at_rank
  at_rank_lem ordered rank le lt =
      let (lower, e) = at_lem ordered (d.floor rank) (omega arith) in
      let (upper, f) = at_lem ordered (d.ceil rank) lt in
      elim (Bool-cases (d.floor rank == d.ceil rank)) [
        | inl same ↦ (lower, rw same e)
        | inr apart ↦ (
          d.add lower (d.mul (d.sub upper lower) (d.sub rank (d.of_int (pos (d.floor rank))))),
          rw (apart, e, f) refl,
        )
      ]

  -- For a `p` in [0, 1], the estimate of a sample (of at most 2^53 values) is a value, never a read
  -- past its end, unless the sample is empty; then it is the exception.
  pub percentile-InBounds :
      (ordered : List D) (p : D)
      → IsFraction p
      → length ordered ≤ 2 ^ 53
      → (ordered ≡ [] × (percentile ordered p ≡ empty_sample))
        ⊎ ((v : D) × (percentile ordered p ≡ estimate v))
  unfolding percentile
  percentile-InBounds [] p f h = inl (refl, refl)
  percentile-InBounds (x ∷ []) p f h = inr (x, refl)
  percentile-InBounds (x ∷ y ∷ ordered) p f h =
      let n : ℕ = length (x ∷ y ∷ ordered) - 1 in
      let small : n ≤ 2 ^ 53 = omega (arith, h) in
      inr (
        at_rank_lem (x ∷ y ∷ ordered) (rank_of n p) (f.floor_le_ceil n small)
          (omega (arith, f.ceil_le n small)))

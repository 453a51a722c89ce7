-- ===== src/Double.antt =====
-- A `double` and what the code does with one: any type with these operations. IEEE 754 and the two conversions of <charconv> are parameters; what a theorem needs of
-- them it names as a hypothesis.
use executor_hotpath_cpp.Base.{ℕ, Bool, Bytes}
use executor_hotpath_cpp.Base.Int.{ℤ}

-- What `std::from_chars` reports for a double.
pub data Parsed (D : Type 0) : Type 0 where
  parsed : D → Parsed D
  result_out_of_range invalid_argument : Parsed D

pub record Double (D : Type 0) : Type 0 where
  -- 0.0, 0.01, 0.5, 0.9, 0.99, 1.0 and 2.0
  pub zero_double : D
  pub cent : D
  pub half : D
  pub nine_tenths : D
  pub ninety_nine_cents : D
  pub one_double : D
  pub two : D
  -- `<`, `<=`, `==`
  pub lt : D → D → Bool
  pub le : D → D → Bool
  pub eq : D → D → Bool
  pub add : D → D → D
  pub sub : D → D → D
  pub mul : D → D → D
  pub div : D → D → D
  -- `std::round`, `std::fabs`, `std::isfinite`
  pub round : D → D
  pub fabs : D → D
  pub is_finite : D → Bool
  -- `static_cast<std::size_t>` of `std::floor` and of `std::ceil`
  pub floor : D → ℕ
  pub ceil : D → ℕ
  -- `static_cast<double>` of an integer
  pub of_int : ℤ → D
  -- `std::to_chars` in `chars_format::scientific`, and `std::from_chars`
  pub to_chars : D → Bytes
  pub from_chars : Bytes → Parsed D

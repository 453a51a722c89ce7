-- ===== src/Tests/Doubles.antt =====
-- A stand-in for `double` that a test can run: hundredths, as natural numbers.
use executor_hotpath_cpp.Base.{
  ℕ, ◌+◌, ◌-◌, ◌*◌, ◌/◌, ◌%◌, true, false, [], ◌∷◌, Bytes, codes, ltb, leb, ◌==◌, if◌then◌else◌,
}
use executor_hotpath_cpp.Base.Int.{ℤ, pos, negsuc}
use executor_hotpath_cpp.Double.{Double, parsed}

-- The digits of a text with two of them behind its point.
abbrev digits_of : ℕ → Bytes → ℕ
digits_of n [] = n
digits_of n (c ∷ cs) = elim (c == b'.') [
  | true ↦ digits_of n cs
  | false ↦ digits_of (n * 10 + (c - b'0')) cs
]

abbrev hundredths_of : ℤ → ℕ
hundredths_of (pos n) = n * 100
hundredths_of (negsuc n) = 0

instance abbrev pub Double-hundredths : Double ℕ
Double-hundredths = record {
  zero_double = 0;
  cent = 1;
  half = 50;
  nine_tenths = 90;
  ninety_nine_cents = 99;
  one_double = 100;
  two = 200;
  lt = ltb;
  le = leb;
  eq = λ a b. a == b;
  add = λ a b. a + b;
  sub = λ a b. a - b;
  mul = λ a b. a * b / 100;
  div = λ a b. a * 100 / b;
  round = λ a. (a + 50) / 100 * 100;
  fabs = λ a. a;
  is_finite = λ a. true;
  floor = λ a. a / 100;
  ceil = λ a. (a + 99) / 100;
  of_int = hundredths_of;
  to_chars = λ a.
      if ltb a 100
      then (a / 10 + b'0') ∷ b'.' ∷ (a % 10 + b'0') ∷ codes "e-01"
      else (a / 100 + b'0') ∷ b'.' ∷ (a / 10 % 10 + b'0') ∷ (a % 10 + b'0') ∷ codes "e+00";
  from_chars = λ text. parsed (digits_of 0 text);
}

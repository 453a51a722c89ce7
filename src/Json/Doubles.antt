-- ===== src/Json/Doubles.antt =====
-- Doubles in src/json.cpp: `format_double`, `append_double` and `Reader::read_double`.
use executor_hotpath_cpp.Base.{
  ℕ, zero, suc, ◌+◌, not, [], ◌∷◌, ◌++◌, Bytes, codes, ltb, ◌==◌, if◌then◌else◌, get_or, length,
}
use executor_hotpath_cpp.Base.Cuts.{drop}
use executor_hotpath_cpp.Base.Int.{ℤ, pos, negsuc}
use executor_hotpath_cpp.Double.{Double, parsed, result_out_of_range, invalid_argument}
use executor_hotpath_cpp.Wire.{malformed_json, out_of_range}
use executor_hotpath_cpp.Json.Numbers
use executor_hotpath_cpp.Json.Numbers.{Token, scan_number, from_chars}
use executor_hotpath_cpp.Json.Reader.{M, fail, pure, ◌>>=◌}
use executor_hotpath_cpp.Json.Writer.{append, to_chars}

-- The loop over `text` up to the `e`: every byte but the point.
unfoldable pub mantissa_digits : Bytes → Bytes
mantissa_digits [] = []
mantissa_digits (c ∷ cs) =
    let more = mantissa_digits cs in if c == b'e' then [] else if c == b'.' then more else c ∷ more

-- The text behind the `e`.
unfoldable pub exponent_text : Bytes → Bytes
exponent_text [] = []
exponent_text (c ∷ cs) = let more = exponent_text cs in if c == b'e' then cs else more

abbrev skip_plus : Bytes → Bytes
skip_plus [] = []
skip_plus (c ∷ cs) = if c == b'+' then cs else c ∷ cs

-- `exponent` keeps its 0 where `std::from_chars` fails.
abbrev exponent_or_zero : Numbers.FromChars → ℤ
exponent_or_zero (Numbers.parsed e) = e
exponent_or_zero _ = pos 0

unfoldable pub decimal_exponent : Bytes → ℤ
unfolding exponent_text from_chars
decimal_exponent text = exponent_or_zero (from_chars (skip_plus (exponent_text text)))

-- `for (i = from; i < from + n; ++i) put(i < digit_count ? digits[i] : '0')`
unfoldable pub padded : ℕ → Bytes → Bytes
padded zero ds = []
padded (suc n) [] = b'0' ∷ padded n []
padded (suc n) (d ∷ ds) = d ∷ padded n ds

abbrev pub zeros : ℕ → Bytes
zeros n = padded n []

-- Fixed notation at an exponent that is not negative.
unfoldable pub fixed_large : ℕ → Bytes → Bytes
unfolding padded
fixed_large exponent ds =
    let whole = exponent + 1 in
    padded whole ds ++ (b'.' ∷ (if ltb whole (length ds) then drop whole ds else b'0' ∷ []))

-- Fixed notation at the exponent `-(n + 1)`.
unfoldable pub fixed_small : ℕ → Bytes → Bytes
unfolding padded
fixed_small n ds = b'0' ∷ b'.' ∷ (zeros n ++ ds)

abbrev exponent_sign : ℤ → Bytes
exponent_sign (pos n) = b'+' ∷ to_chars (pos n)
exponent_sign (negsuc n) = b'-' ∷ to_chars (pos (suc n))

unfoldable pub scientific : ℤ → Bytes → Bytes
scientific exponent ds =
    get_or ds 0 0
    ∷ ((if ltb 1 (length ds) then b'.' ∷ drop 1 ds else []) ++ (b'e' ∷ exponent_sign exponent))

-- The layout of a digit string: fixed for an exponent from -5 up to 15, scientific outside.
unfoldable pub layout : ℤ → Bytes → Bytes
unfolding fixed_large fixed_small scientific
layout (pos n) ds = if ltb n 16 then fixed_large n ds else scientific (pos n) ds
layout (negsuc n) ds = if ltb n 5 then fixed_small n ds else scientific (negsuc n) ds

-- `format_double` behind the sign.
unfoldable pub format_magnitude : Bytes → Bytes
unfolding mantissa_digits decimal_exponent layout
format_magnitude text = layout (decimal_exponent text) (mantissa_digits text)

unfoldable pub format_text : Bytes → Bytes
unfolding format_magnitude
format_text [] = format_magnitude []
format_text (c ∷ cs) = if c == b'-' then c ∷ format_magnitude cs else format_magnitude (c ∷ cs)

module _ {D : Type 0} ⦃d : Double D⦄ where
  unfoldable pub format_double : D → Bytes
  unfolding format_text
  format_double value =
      if not (d.is_finite value) then codes "null" else format_text (d.to_chars value)

  unfoldable pub append_double : Bytes → D → Bytes
  append_double out value = append out (format_double value)

  unfoldable pub read_double_token : Token → M D
  read_double_token (token, _) = elim (d.from_chars token) [
    | parsed value ↦ pure value
    | result_out_of_range ↦ fail out_of_range (codes "number out of range: " ++ token)
    | invalid_argument ↦ fail malformed_json (codes "malformed number: " ++ token)
  ]

  unfoldable pub read_double : M D
  unfolding read_double_token
  read_double = do token ← scan_number; read_double_token token

-- ===== src/Json/Numbers/Ends.antt =====
-- How much text the scanner of numbers in src/json.cpp leaves.
use executor_hotpath_cpp.Base.{◌≤◌, ◌≡◌, refl, not, ◌&&◌, [], ◌∷◌, ◌++◌, Bytes, arith, length, ◌==◌}
use executor_hotpath_cpp.Double.{Double}
use executor_hotpath_cpp.Json.Doubles.{read_double, read_double_token}
use executor_hotpath_cpp.Json.Numbers.{
  Piece, taken, refused, Token, is_digit, span_digits, whole_part, digits_after, fraction_part,
  exponent_part, scan_exponent, scan_fraction, scan_whole, number_from, scan_number, read_token,
  read_int,
}
use executor_hotpath_cpp.Json.Reader.{Reader, fail, peek, skip, head}
use executor_hotpath_cpp.Json.Reader.Ends.{length-skip, Ends, Ends-bind, Ends-if}

-- What is left behind a piece is no longer than the text.
abbrev IsShorter : Bytes → Piece → Type 0
IsShorter text (taken _ rest) = length rest ≤ length text
IsShorter text (refused _) = Unit

length-span_digits : (cs : Bytes) → length (span_digits cs).1 ≤ length cs
unfolding span_digits
length-span_digits [] = omega arith
length-span_digits (c ∷ cs) = ground (arith, length-span_digits cs)

whole_part-IsShorter : (cs : Bytes) → IsShorter cs (whole_part cs)
unfolding whole_part
whole_part-IsShorter [] = tt
whole_part-IsShorter (c ∷ cs) = ground (arith, length-span_digits (c ∷ cs))

digits_after-IsShorter : (lead m cs : Bytes) → IsShorter cs (digits_after lead m cs)
unfolding digits_after
digits_after-IsShorter lead m cs = ground (arith, length-span_digits cs)

fraction_part-IsShorter : (cs : Bytes) → IsShorter cs (fraction_part cs)
unfolding fraction_part digits_after
fraction_part-IsShorter [] = omega arith
fraction_part-IsShorter (c ∷ cs) = ground (arith, length-span_digits cs)

exponent_part-IsShorter : (cs : Bytes) → IsShorter cs (exponent_part cs)
unfolding exponent_part digits_after
exponent_part-IsShorter [] = omega arith
exponent_part-IsShorter (c ∷ []) = ground arith
exponent_part-IsShorter (c ∷ s ∷ cs) =
    ground (arith, length-span_digits cs, length-span_digits (s ∷ cs))

-- From a piece on.
exponent_at :
    (p : Piece) (before fraction cs : Bytes) (r s : Reader)
    → IsShorter cs p
    → length cs ≤ length s.rest
    → exponent_part cs ≡ p
    → Ends 0 s (scan_exponent before fraction cs r)
unfolding scan_exponent fail
exponent_at (taken e rest) before fraction cs r s i l h =
    rw (h, scan_exponent) (omega (arith, i, l))
exponent_at (refused m) before fraction cs r s i l h = rw (h, scan_exponent) tt

fraction_at :
    (p : Piece) (before cs : Bytes) (r s : Reader)
    → IsShorter cs p
    → length cs ≤ length s.rest
    → fraction_part cs ≡ p
    → Ends 0 s (scan_fraction before cs r)
unfolding scan_fraction fail
fraction_at (taken f rest) before cs r s i l h =
    rw (h, scan_fraction)
      (exponent_at (exponent_part rest) before f rest r s (exponent_part-IsShorter rest)
        (omega (arith, i, l)) refl)
fraction_at (refused m) before cs r s i l h = rw (h, scan_fraction) tt

whole_at :
    (p : Piece) (sign cs : Bytes) (r s : Reader)
    → IsShorter cs p
    → length cs ≤ length s.rest
    → whole_part cs ≡ p
    → Ends 0 s (scan_whole sign cs r)
unfolding scan_whole fail
whole_at (taken w rest) sign cs r s i l h =
    rw (h, scan_whole)
      (fraction_at (fraction_part rest) (sign ++ w) rest r s (fraction_part-IsShorter rest)
        (omega (arith, i, l)) refl)
whole_at (refused m) sign cs r s i l h = rw (h, scan_whole) tt

Ends-scan_whole :
    (sign cs : Bytes) (r s : Reader) → length cs ≤ length s.rest → Ends 0 s (scan_whole sign cs r)
Ends-scan_whole sign cs r s l =
    whole_at (whole_part cs) sign cs r s (whole_part-IsShorter cs) l refl

number_at :
    (text : Bytes) (r s : Reader)
    → length text ≤ length s.rest
    → Ends 0 s (number_from (head text) (record r { rest = text }))
unfolding number_from fail
number_at [] r s l = tt
number_at (c ∷ cs) r s l =
    let here : Reader = record r { rest = c ∷ cs } in
    Ends-if (not (c == b'-') && not (is_digit c)) 0 s _ _ tt (
      Ends-if (c == b'-') 0 s (scan_whole (c ∷ []) cs here) (scan_whole [] (c ∷ cs) here)
        (Ends-scan_whole (c ∷ []) cs here s (omega (arith, l)))
        (Ends-scan_whole [] (c ∷ cs) here s l))

pub Ends-scan_number : (r : Reader) → Ends 0 r (scan_number r)
unfolding scan_number peek
Ends-scan_number r = number_at (skip r.rest) r r (length-skip r.rest)

Ends-read_token : (token : Token) (r : Reader) → Ends 0 r (read_token token r)
unfolding read_token fail
Ends-read_token (token, integral) r = ground arith

pub Ends-read_int : (r : Reader) → Ends 0 r (read_int r)
unfolding read_int
Ends-read_int r = Ends-bind 0 0 scan_number read_token r (Ends-scan_number r) Ends-read_token

module _ (D : Type 0) ⦃d : Double D⦄ where
  Ends-read_double_token :
      (token : Token) (r : Reader) → Ends {A = D} 0 r (read_double_token token r)
  unfolding read_double_token fail
  Ends-read_double_token (token, integral) r = ground arith

  pub Ends-read_double : (r : Reader) → Ends {A = D} 0 r (read_double r)
  unfolding read_double
  Ends-read_double r =
      Ends-bind 0 0 scan_number read_double_token r (Ends-scan_number r) Ends-read_double_token

-- ===== src/Json/Numbers.antt =====
-- Numbers in src/json.cpp: `Reader::scan_number` and `read_int`, with the part of
-- `std::from_chars` for `std::int64_t` that `read_int` uses.
pub mod Ends
pub mod Clean
use executor_hotpath_cpp.Base.{
  ℕ, ◌+◌, ◌-◌, ◌*◌, ◌&&◌, ◌||◌, Bool, true, false, not, [], ◌∷◌, ◌++◌, Option, none, some, Bytes,
  codes, leb, ◌==◌, if◌then◌else◌,
}
use executor_hotpath_cpp.Base.Int.{ℤ, pos, negsuc, max_i64}
use executor_hotpath_cpp.Wire.{malformed_json, wrong_type, out_of_range}
use executor_hotpath_cpp.Json.Reader.{M, ok, fail, pure, ◌>>=◌, peek, tail}
use executor_hotpath_cpp.Json.Utf8.{within}

abbrev pub is_digit : ℕ → Bool
is_digit c = within b'0' b'9' c

-- `while (pos_ < text_.size() && is_digit(text_[pos_]))`: the digits passed over, and the rest
unfoldable pub span_digits : Bytes → Bytes × Bytes
span_digits [] = ([], [])
span_digits (c ∷ cs) =
    let (ds, rest) = span_digits cs in if is_digit c then (c ∷ ds, rest) else ([], c ∷ cs)

-- A piece of the token and the text behind it, or the message of the failure.
pub data Piece : Type 0 where
  taken : Bytes → Bytes → Piece
  refused : Bytes → Piece

abbrev pub starts_digit : Bytes → Bool
starts_digit [] = false
starts_digit (c ∷ _) = is_digit c

-- The digits before a point or an exponent.
unfoldable pub whole_part : Bytes → Piece
unfolding span_digits
whole_part cs = if not (starts_digit cs) then refused (codes "no digit after sign") else elim cs [
  | [] ↦ refused []
  | c ∷ rest ↦
      if c == b'0'
      then if starts_digit rest
        then refused (codes "number with leading zero is not allowed")
        else taken (c ∷ []) rest
      else (let (ds, r) = span_digits (c ∷ rest) in taken ds r)
]

-- What must be digits, behind the bytes `lead`.
unfoldable pub digits_after : Bytes → Bytes → Bytes → Piece
unfolding span_digits
digits_after lead message cs =
    let (ds, rest) = span_digits cs in
    if not (starts_digit cs) then refused message else taken (lead ++ ds) rest

-- A point and its digits, if there is one; an empty piece if not.
unfoldable pub fraction_part : Bytes → Piece
unfolding digits_after
fraction_part [] = taken [] []
fraction_part (c ∷ cs) =
    if c == b'.'
    then digits_after (c ∷ []) (codes "no digit after decimal point") cs
    else taken [] (c ∷ cs)

abbrev is_sign : ℕ → Bool
is_sign c = c == b'+' || c == b'-'

unfoldable pub exponent_digits : ℕ → Bytes → Piece
unfolding digits_after
exponent_digits e [] = refused (codes "no digit after exponent")
exponent_digits e (s ∷ cs) =
    if is_sign s
    then digits_after (e ∷ s ∷ []) (codes "no digit after exponent") cs
    else digits_after (e ∷ []) (codes "no digit after exponent") (s ∷ cs)

unfoldable pub exponent_part : Bytes → Piece
unfolding exponent_digits
exponent_part [] = taken [] []
exponent_part (c ∷ cs) = if c == b'e' || c == b'E' then exponent_digits c cs else taken [] (c ∷ cs)

abbrev pub is_empty : Bytes → Bool
is_empty [] = true
is_empty (_ ∷ _) = false

-- The token, and `integral`.
abbrev pub Token : Type 0
Token = Bytes × Bool

-- Each piece in turn; `r` is the reader, which a failure leaves inside the number.
unfoldable pub scan_exponent : Bytes → Bytes → Bytes → M Token
unfolding exponent_part
scan_exponent before fraction cs r = elim (exponent_part cs) [
  | refused message ↦ fail malformed_json message r
  | taken exponent rest ↦
      ok (before ++ fraction ++ exponent, is_empty fraction && is_empty exponent)
        (record r { rest = rest })
]

unfoldable pub scan_fraction : Bytes → Bytes → M Token
unfolding fraction_part scan_exponent
scan_fraction before cs r = elim (fraction_part cs) [
  | refused message ↦ fail malformed_json message r
  | taken fraction rest ↦ scan_exponent before fraction rest r
]

unfoldable pub scan_whole : Bytes → Bytes → M Token
unfolding whole_part scan_fraction
scan_whole sign cs r = elim (whole_part cs) [
  | refused message ↦ fail malformed_json message r
  | taken whole rest ↦ scan_fraction (sign ++ whole) rest r
]

-- `scan_number` behind its `peek`.
unfoldable pub number_from : Option ℕ → M Token
unfolding scan_whole
number_from none r = fail wrong_type (codes "expected a number, got end of input") r
number_from (some c) r =
    if not (c == b'-') && not (is_digit c)
    then fail wrong_type (codes "expected a number") r
    else if c == b'-'
    then scan_whole (c ∷ []) (tail r.rest) r
    else scan_whole [] r.rest r

unfoldable pub scan_number : M Token
unfolding peek number_from
scan_number = do c ← peek; number_from c

-- The number that decimal digits spell behind `n`.
unfoldable pub spell : ℕ → Bytes → ℕ
spell n [] = n
spell n (c ∷ cs) = spell (n * 10 + (c - b'0')) cs

abbrev negated : ℕ → ℤ
negated n = if n == 0 then pos 0 else negsuc (n - 1)

-- `std::from_chars` on a token of an optional minus sign and digits: `none` is
-- `std::errc::result_out_of_range`. With no digit it is `std::errc::invalid_argument`, which no
-- token of `scan_number` gives.
pub data FromChars : Type 0 where
  parsed : ℤ → FromChars
  result_out_of_range invalid_argument : FromChars

unfoldable pub from_chars_digits : Bool → Bytes → FromChars
unfolding spell
from_chars_digits negative ds =
    if not (starts_digit ds)
    then invalid_argument
    else if negative
    then if leb (spell 0 ds) (max_i64 + 1)
      then parsed (negated (spell 0 ds))
      else result_out_of_range
    else if leb (spell 0 ds) max_i64
    then parsed (pos (spell 0 ds))
    else result_out_of_range

unfoldable pub from_chars : Bytes → FromChars
unfolding from_chars_digits
from_chars [] = invalid_argument
from_chars (c ∷ cs) =
    if c == b'-' then from_chars_digits true cs else from_chars_digits false (c ∷ cs)

unfoldable pub read_token : Token → M ℤ
unfolding from_chars
read_token (token, integral) =
    if not integral
    then fail wrong_type (codes "expected an integer, got " ++ token)
    else elim (from_chars token) [
      | parsed value ↦ pure value
      | result_out_of_range ↦ fail out_of_range (codes "integer out of range: " ++ token)
      | invalid_argument ↦ fail malformed_json (codes "malformed integer: " ++ token)
    ]

unfoldable pub read_int : M ℤ
unfolding read_token
read_int = do token ← scan_number; read_token token

-- ===== src/Json/Numbers/Clean.antt =====
-- The errors of the scanner of numbers in src/json.cpp are valid UTF-8: a token is ASCII.
use executor_hotpath_cpp.Base.{
  ℕ, ◌||◌, ◌<◌, ◌≡◌, refl, Bool-cases, inl, inr, Option, none, some, [], ◌∷◌, ◌++◌, Bytes, codes,
  arith, ◌==◌, All-append,
}
use executor_hotpath_cpp.Double.{Double}
use executor_hotpath_cpp.Json.Doubles.{read_double, read_double_token}
use executor_hotpath_cpp.Json.Numbers.{
  Piece, taken, refused, Token, is_digit, starts_digit, span_digits, whole_part, digits_after,
  fraction_part, exponent_part, exponent_digits, scan_exponent, scan_fraction, scan_whole,
  number_from, scan_number, read_token, read_int,
}
use executor_hotpath_cpp.Json.Reader.{Reader, fail, peek, tail}
use executor_hotpath_cpp.Json.Reader.Clean.{Clean, Any, Clean-fail_ascii, Clean-bind}
use executor_hotpath_cpp.Json.Reader.Clean.Calls.{Clean-peek}
use executor_hotpath_cpp.Json.Utf8.{IsUtf8}
use executor_hotpath_cpp.Json.Utf8.Text.{IsAscii, IsAscii-IsUtf8}
use executor_hotpath_cpp.Wire.{malformed_json, wrong_type}

-- A piece, or a message, in ASCII.
abbrev IsAsciiPiece : Piece → Type 0
IsAsciiPiece (taken piece _) = IsAscii piece
IsAsciiPiece (refused message) = IsAscii message

abbrev IsAsciiToken : Token → Type 0
IsAsciiToken (token, _) = IsAscii token

IsAscii-append : (a b : Bytes) → IsAscii a → IsAscii b → IsAscii (a ++ b)
IsAscii-append = All-append (λ c. c < 0x80)

span_digits-IsAscii : (cs : Bytes) → IsAscii (span_digits cs).0
unfolding span_digits
span_digits-IsAscii [] = tt
span_digits-IsAscii (c ∷ cs) = elim (Bool-cases (is_digit c)) [
  | inl e ↦ rw e (ground (arith, e), span_digits-IsAscii cs)
  | inr e ↦ rw e tt
]

whole_at : (c : ℕ) (rest : Bytes) → IsAsciiPiece (whole_part (c ∷ rest))
unfolding whole_part
whole_at c rest = elim (Bool-cases (is_digit c)) [
  | inr e ↦ rw e (omega arith)
  | inl e ↦ elim (Bool-cases (c == b'0')) [
    | inr f ↦ rw (e, f) (ground (arith, e), span_digits-IsAscii rest)
    | inl f ↦ elim (Bool-cases (starts_digit rest)) [
      | inl g ↦ rw (e, f, g) (omega arith)
      | inr g ↦ rw (e, f, g) (ground (arith, e), tt)
    ]
  ]
]

whole_part-IsAsciiPiece : (cs : Bytes) → IsAsciiPiece (whole_part cs)
whole_part-IsAsciiPiece [] = unfold whole_part in omega arith
whole_part-IsAsciiPiece (c ∷ rest) = whole_at c rest

digits_after-IsAsciiPiece :
    (lead message cs : Bytes)
    → IsAscii lead
    → IsAscii message
    → IsAsciiPiece (digits_after lead message cs)
unfolding digits_after
digits_after-IsAsciiPiece lead message cs l m = elim (Bool-cases (starts_digit cs)) [
  | inl e ↦ rw e (IsAscii-append lead (span_digits cs).0 l (span_digits-IsAscii cs))
  | inr e ↦ rw e m
]

fraction_part-IsAsciiPiece : (cs : Bytes) → IsAsciiPiece (fraction_part cs)
unfolding fraction_part
fraction_part-IsAsciiPiece [] = tt
fraction_part-IsAsciiPiece (c ∷ cs) = elim (Bool-cases (c == b'.')) [
  | inl e ↦ rw e (
      digits_after-IsAsciiPiece (c ∷ []) (codes "no digit after decimal point") cs
        (ground (arith, e), tt) (omega arith))
  | inr e ↦ rw e tt
]

exponent_digits-IsAsciiPiece : (e : ℕ) (cs : Bytes) → e < 0x80 → IsAsciiPiece (exponent_digits e cs)
unfolding exponent_digits
exponent_digits-IsAsciiPiece e [] h = omega arith
exponent_digits-IsAsciiPiece e (s ∷ cs) h = elim (Bool-cases (s == b'+' || s == b'-')) [
  | inl f ↦ rw f (
      digits_after-IsAsciiPiece (e ∷ s ∷ []) (codes "no digit after exponent") cs
        (h, (ground (arith, f), tt)) (omega arith))
  | inr f ↦ rw f (
      digits_after-IsAsciiPiece (e ∷ []) (codes "no digit after exponent") (s ∷ cs) (h, tt)
        (omega arith))
]

exponent_part-IsAsciiPiece : (cs : Bytes) → IsAsciiPiece (exponent_part cs)
unfolding exponent_part
exponent_part-IsAsciiPiece [] = tt
exponent_part-IsAsciiPiece (c ∷ cs) = elim (Bool-cases (c == b'e' || c == b'E')) [
  | inl f ↦ rw f (exponent_digits-IsAsciiPiece c cs (ground (arith, f)))
  | inr f ↦ rw f tt
]

exponent_at :
    (p : Piece) (before fraction cs : Bytes) (r : Reader)
    → IsAscii before
    → IsAscii fraction
    → IsAsciiPiece p
    → exponent_part cs ≡ p
    → r.error ≡ none
    → Clean IsAsciiToken (scan_exponent before fraction cs r)
unfolding scan_exponent
exponent_at (taken e rest) before fraction cs r b f a h n =
    rw (h, scan_exponent)
      (n, IsAscii-append (before ++ fraction) e (IsAscii-append before fraction b f) a)
exponent_at (refused m) before fraction cs r b f a h n =
    rw (h, scan_exponent) (Clean-fail_ascii Token IsAsciiToken malformed_json m r n a)

fraction_at :
    (p : Piece) (before cs : Bytes) (r : Reader)
    → IsAscii before
    → IsAsciiPiece p
    → fraction_part cs ≡ p
    → r.error ≡ none
    → Clean IsAsciiToken (scan_fraction before cs r)
unfolding scan_fraction
fraction_at (taken f rest) before cs r b a h n =
    rw (h, scan_fraction)
      (exponent_at (exponent_part rest) before f rest r b a (exponent_part-IsAsciiPiece rest) refl
        n)
fraction_at (refused m) before cs r b a h n =
    rw (h, scan_fraction) (Clean-fail_ascii Token IsAsciiToken malformed_json m r n a)

scan_whole_at :
    (p : Piece) (sign cs : Bytes) (r : Reader)
    → IsAscii sign
    → IsAsciiPiece p
    → whole_part cs ≡ p
    → r.error ≡ none
    → Clean IsAsciiToken (scan_whole sign cs r)
unfolding scan_whole
scan_whole_at (taken w rest) sign cs r s a h n =
    rw (h, scan_whole)
      (fraction_at (fraction_part rest) (sign ++ w) rest r (IsAscii-append sign w s a)
        (fraction_part-IsAsciiPiece rest) refl n)
scan_whole_at (refused m) sign cs r s a h n =
    rw (h, scan_whole) (Clean-fail_ascii Token IsAsciiToken malformed_json m r n a)

Clean-scan_whole :
    (sign cs : Bytes) (r : Reader)
    → IsAscii sign
    → r.error ≡ none
    → Clean IsAsciiToken (scan_whole sign cs r)
Clean-scan_whole sign cs r s n =
    scan_whole_at (whole_part cs) sign cs r s (whole_part-IsAsciiPiece cs) refl n

Clean-number_from :
    (c : Option ℕ) (r : Reader) → r.error ≡ none → Clean IsAsciiToken (number_from c r)
unfolding number_from
Clean-number_from none r n =
    Clean-fail_ascii Token IsAsciiToken wrong_type (codes "expected a number, got end of input") r n
      (omega arith)
Clean-number_from (some c) r n = elim (Bool-cases (c == b'-')) [
  | inl e ↦ rw e (Clean-scan_whole (c ∷ []) (tail r.rest) r (ground (arith, e), tt) n)
  | inr e ↦ elim (Bool-cases (is_digit c)) [
    | inl d ↦ rw (e, d) (Clean-scan_whole [] r.rest r tt n)
    | inr d ↦
        rw (e, d)
          (Clean-fail_ascii Token IsAsciiToken wrong_type (codes "expected a number") r n
            (omega arith))
  ]
]

Clean-scan_number : (r : Reader) → r.error ≡ none → Clean IsAsciiToken (scan_number r)
unfolding scan_number
Clean-scan_number r n =
    Clean-bind Any IsAsciiToken peek number_from r (Clean-peek r n)
      (λ c s n _. Clean-number_from c s n)

-- A message with the token behind it.
token_message : (m token : Bytes) → IsAscii m → IsAscii token → IsUtf8 (m ++ token)
token_message m token a t = IsAscii-IsUtf8 (m ++ token) (IsAscii-append m token a t)

Clean-read_token :
    (token : Token) (r : Reader)
    → r.error ≡ none
    → IsAsciiToken token
    → Clean Any (read_token token r)
unfolding read_token fail
Clean-read_token (token, integral) r n a = ground (
  arith,
  n,
  token_message (codes "expected an integer, got ") token (omega arith) a,
  token_message (codes "integer out of range: ") token (omega arith) a,
  token_message (codes "malformed integer: ") token (omega arith) a,
)

pub Clean-read_int : (r : Reader) → r.error ≡ none → Clean Any (read_int r)
unfolding read_int
Clean-read_int r n =
    Clean-bind IsAsciiToken Any scan_number read_token r (Clean-scan_number r n)
      (λ t s n a. Clean-read_token t s n a)

module _ (D : Type 0) ⦃d : Double D⦄ where
  Clean-read_double_token :
      (token : Token) (r : Reader)
      → r.error ≡ none
      → IsAsciiToken token
      → Clean (Any {A = D}) (read_double_token token r)
  unfolding read_double_token fail
  Clean-read_double_token (token, integral) r n a = ground (
    arith,
    n,
    token_message (codes "number out of range: ") token (omega arith) a,
    token_message (codes "malformed number: ") token (omega arith) a,
  )

  pub Clean-read_double : (r : Reader) → r.error ≡ none → Clean (Any {A = D}) (read_double r)
  unfolding read_double
  Clean-read_double r n =
      Clean-bind IsAsciiToken Any scan_number read_double_token r (Clean-scan_number r n)
        (λ t s n a. Clean-read_double_token t s n a)

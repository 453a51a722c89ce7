-- ===== src/Json/Writer.antt =====
-- The writer of src/json.cpp: what `append`, `append_string` and `append_int` put behind a buffer.
pub mod RoundTrip
pub mod Ints
use executor_hotpath_cpp.Base.{
  ℕ, suc, zero, ◌+◌, ◌/◌, ◌%◌, [], ◌∷◌, ◌++◌, Bytes, codes, ltb, ◌==◌, if◌then◌else◌,
}
use executor_hotpath_cpp.Base.Int.{ℤ, pos, negsuc}
use executor_hotpath_cpp.Json.Reader.{hex_digit}

unfoldable pub append : Bytes → Bytes → Bytes
append out text = out ++ text

-- What one round of `append_string` appends.
unfoldable pub escaped : ℕ → Bytes
escaped c =
    if c == b'"'
    then codes "\\\""
    else if c == b'\\'
    then codes "\\\\"
    else if c == 0x08
    then codes "\\b"
    else if c == 0x0C
    then codes "\\f"
    else if c == b'\n'
    then codes "\\n"
    else if c == b'\r'
    then codes "\\r"
    else if c == b'\t'
    then codes "\\t"
    else if ltb c 0x20
    then codes "\\u00" ++ (hex_digit (c / 16) ∷ hex_digit (c % 16) ∷ [])
    else c ∷ []

unfoldable pub append_escaped : Bytes → Bytes → Bytes
unfolding escaped append
append_escaped out [] = out
append_escaped out (c ∷ text) = append_escaped (append out (escaped c)) text

unfoldable pub append_string : Bytes → Bytes → Bytes
unfolding append_escaped
append_string out text = append_escaped (out ++ b'"' ∷ []) text ++ b'"' ∷ []

-- `std::to_chars` of an integer: the shortest decimal digits, the last ones first divided off.
-- Twenty digits are more than a 64-bit number has.
unfoldable pub digits : ℕ → ℕ → Bytes → Bytes
digits zero n out = out
digits (suc fuel) n out =
    let more = digits fuel (n / 10) ((b'0' + n % 10) ∷ out) in
    if ltb n 10 then (b'0' + n) ∷ out else more

unfoldable pub to_chars : ℤ → Bytes
to_chars (pos n) = digits 20 n []
to_chars (negsuc n) = b'-' ∷ digits 20 (suc n) []

unfoldable pub append_int : Bytes → ℤ → Bytes
append_int out value = append out (to_chars value)

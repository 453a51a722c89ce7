-- ===== src/Json/Strings.antt =====
-- Strings in src/json.cpp: `Reader::scan_string`, `append_escape` and `append_code_point`, and the
-- reader's methods that end in a string. A failure leaves the reader inside the string, not always
-- at the byte where the source leaves it: nothing reads on after a failure.
pub mod Sound
pub mod Ends
pub mod Clean
use executor_hotpath_cpp.Base.{
  ℕ, zero, suc, ◌+◌, ◌-◌, ◌*◌, ◌||◌, not, List, [], ◌∷◌, ◌++◌, Option, none, some, Bytes, codes,
  ltb, leb, ◌==◌, if◌then◌else◌, length,
}
use executor_hotpath_cpp.Base.Cuts.{take, drop}
use executor_hotpath_cpp.Wire.{malformed_json, wrong_type}
use executor_hotpath_cpp.Json.Reader.{
  Reader, M, ok, fail, pure, ◌>>=◌, ◌>>◌, Iter, next, done, loop, peek, head, advance, skip_bytes,
  expect, separator, close_level, hex_byte,
}
use executor_hotpath_cpp.Json.Utf8.{within, append_utf8, validate_utf8_run}

unfoldable pub hex_value : ℕ → Option ℕ
hex_value c =
    if within b'0' b'9' c
    then some (c - b'0')
    else if within b'a' b'f' c
    then some (c - b'a' + 10)
    else if within b'A' b'F' c
    then some (c - b'A' + 10)
    else none

-- The loop of `read_hex4` over the next `n` bytes. The low four bits of `value << 4` are clear, and
-- four digits fit 32 bits, so the shift and the or are a product and a sum.
unfoldable pub hex_digits : ℕ → ℕ → Bytes → Option ℕ
unfolding hex_value
hex_digits zero value cs = some value
hex_digits (suc n) value [] = none
hex_digits (suc n) value (c ∷ cs) = elim (hex_value c) [
  | none ↦ none
  | some digit ↦ hex_digits n (value * 16 + digit) cs
]

-- `none` where the lambda returns false: it moves the reader only if it returns true.
unfoldable pub read_hex4 : Bytes → Option ℕ
unfolding hex_digits
read_hex4 = hex_digits 4 0

-- The low surrogate that has to follow a high one.
unfoldable pub low_surrogate : Bytes → Option ℕ
unfolding read_hex4
low_surrogate (a ∷ b ∷ cs) =
    if not (a == b'\\') || not (b == b'u') then none else elim (read_hex4 cs) [
      | none ↦ none
      | some low ↦ if ltb low 0xDC00 || ltb 0xDFFF low then none else some low
    ]
low_surrogate _ = none

unfoldable pub append_code_point : Bytes → M Bytes
unfolding read_hex4 low_surrogate append_utf8
append_code_point out r = elim (read_hex4 r.rest) [
  | none ↦ fail malformed_json (codes "invalid \\u escape") r
  | some cp ↦
      if within 0xDC00 0xDFFF cp
      then fail malformed_json (codes "no high surrogate in string") (skip_bytes 4 r)
      else if within 0xD800 0xDBFF cp
      then elim (low_surrogate (drop 4 r.rest)) [
        | none ↦ fail malformed_json (codes "no low surrogate in string") (skip_bytes 4 r)
        | some low ↦
            ok (append_utf8 out (0x10000 + (cp - 0xD800) * 1024 + (low - 0xDC00))) (skip_bytes 10 r)
      ]
      else ok (append_utf8 out cp) (skip_bytes 4 r)
]

-- The byte that a one-letter escape stands for.
unfoldable pub simple_escape : ℕ → Option ℕ
simple_escape c =
    if c == b'"' || c == b'\\' || c == b'/'
    then some c
    else if c == b'b'
    then some 0x08
    else if c == b'f'
    then some 0x0C
    else if c == b'n'
    then some b'\n'
    else if c == b'r'
    then some b'\r'
    else if c == b't'
    then some b'\t'
    else none

-- The switch of `append_escape`, on the byte behind the backslash.
unfoldable pub escape_of : Bytes → ℕ → M Bytes
unfolding simple_escape
escape_of out c r = elim (simple_escape c) [
  | some d ↦ ok (out ++ d ∷ []) r
  | none ↦
      if c == b'u'
      then append_code_point out r
      else fail malformed_json (codes "invalid escape: byte 0x" ++ hex_byte c) r
]

unfoldable pub append_escape : Bytes → M Bytes
unfolding escape_of
append_escape out r = elim r.rest [
  | [] ↦ fail malformed_json (codes "unterminated escape sequence") r
  | c ∷ cs ↦ escape_of out c (record r { rest = cs })
]

-- One round of the loop. The source appends a run of plain bytes at once, when it ends.
unfoldable pub scan_round : Bytes → M (Iter Bytes Bytes)
scan_round out r = elim r.rest [
  | [] ↦ fail malformed_json (codes "unterminated string") r
  | c ∷ cs ↦
      if c == b'"'
      then ok (done out) (record r { rest = cs })
      else if c == b'\\'
      then (do out' ← append_escape out; pure (next out')) (record r { rest = cs })
      else if ltb c 0x20
      then fail malformed_json (codes "unexpected control character in string") r
      else if ltb c 0x80
      then ok (next (out ++ c ∷ [])) (record r { rest = cs })
      else (do run ← validate_utf8_run; pure (next (out ++ run))) r
]

-- A round takes at least one byte, so as many rounds as there are bytes, and one, are enough.
unfoldable pub scan_body : M Bytes
scan_body r = loop (suc (length r.rest)) scan_round [] r

-- `scan_string` behind its `peek`.
unfoldable pub scan_from : Option ℕ → M Bytes
unfolding fail
scan_from none = fail wrong_type (codes "expected a string, got end of input")
scan_from (some c) =
    if not (c == b'"') then fail wrong_type (codes "expected a string") else (do advance; scan_body)

unfoldable pub scan_string : M Bytes
unfolding peek scan_from
scan_string = do c ← peek; scan_from c

unfoldable pub read_string : M Bytes
unfolding scan_string
read_string = scan_string

-- `next_member` behind its `peek`.
unfoldable pub member_from : Option ℕ → M (Option Bytes)
unfolding fail
member_from none = fail malformed_json (codes "unterminated object")
member_from (some b) =
    if b == b'}'
    then (λ r. ok none (close_level r))
    else (do separator; key ← scan_string; expect b':'; pure (some key))

-- The result is the key, or `none` where `present` is false.
unfoldable pub next_member : M (Option Bytes)
unfolding peek member_from
next_member = do c ← peek; member_from c

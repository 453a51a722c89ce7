-- ===== src/Json/Strings/Clean.antt =====
-- The errors of the scanner of strings in src/json.cpp are valid UTF-8, like the strings.
use executor_hotpath_cpp.Base.{
  ℕ, suc, ◌≡◌, not, [], ◌∷◌, ◌++◌, Option, none, some, Bytes, codes, arith, length, ltb, ◌==◌,
  if◌then◌else◌,
}
use executor_hotpath_cpp.Json.Reader.{
  Reader, M, Outcome, ok, ◌>>=◌, ◌>>◌, fail, pure, peek, Iter, next, done, advance, expect,
  separator, close_level, hex_byte,
}
use executor_hotpath_cpp.Json.Reader.Clean.{
  Clean, Any, Clean-fail_ascii, Clean-with, Clean-bind, Clean-choose, Clean-if, Clean-loop,
}
use executor_hotpath_cpp.Json.Reader.Clean.Calls.{
  Clean-peek, Clean-expect, Clean-separator, hex_byte-IsAscii,
}
use executor_hotpath_cpp.Json.Reader.Loop.{After}
use executor_hotpath_cpp.Json.Strings.{
  append_code_point, append_escape, escape_of, scan_round, scan_body, scan_from, scan_string,
  read_string, member_from, next_member,
}
use executor_hotpath_cpp.Json.Strings.Sound.{scan_string-IsUtf8}
use executor_hotpath_cpp.Json.Utf8.{IsUtf8, validate_utf8_run}
use executor_hotpath_cpp.Json.Utf8.Text.{IsAscii-IsUtf8, IsUtf8-append}
use executor_hotpath_cpp.Wire.{malformed_json, wrong_type}

Clean-append_code_point :
    (out : Bytes) (r : Reader) → r.error ≡ none → Clean Any (append_code_point out r)
unfolding append_code_point fail
Clean-append_code_point out r e = ground (
  arith,
  e,
  IsAscii-IsUtf8 (codes "invalid \\u escape") (omega arith),
  IsAscii-IsUtf8 (codes "no high surrogate in string") (omega arith),
  IsAscii-IsUtf8 (codes "no low surrogate in string") (omega arith),
)

escape_message : (c : ℕ) → IsUtf8 (codes "invalid escape: byte 0x" ++ hex_byte c)
escape_message c =
    IsUtf8-append (hex_byte c) (IsAscii-IsUtf8 (codes "invalid escape: byte 0x") (omega arith))
      (IsAscii-IsUtf8 (hex_byte c) (hex_byte-IsAscii c))

Clean-escape_of :
    (out : Bytes) (c : ℕ) (r : Reader) → r.error ≡ none → Clean Any (escape_of out c r)
unfolding escape_of fail
Clean-escape_of out c r e = ground (arith, e, escape_message c, Clean-append_code_point out r e)

append_escape_at :
    (out text : Bytes) (r : Reader)
    → r.error ≡ none
    → Clean Any (append_escape out (record r { rest = text }))
unfolding append_escape
append_escape_at out [] r e =
    Clean-fail_ascii Bytes Any malformed_json (codes "unterminated escape sequence")
      (record r { rest = [] }) e (omega arith)
append_escape_at out (c ∷ cs) r e = Clean-escape_of out c (record r { rest = cs }) e

Clean-append_escape : (out : Bytes) (r : Reader) → r.error ≡ none → Clean Any (append_escape out r)
Clean-append_escape out r e = append_escape_at out r.rest r e

validate_at :
    (text : Bytes) (r : Reader)
    → r.error ≡ none
    → Clean Any (validate_utf8_run (record r { rest = text }))
unfolding validate_utf8_run fail
validate_at [] r e =
    ground (arith, e, IsAscii-IsUtf8 (codes "str is not valid UTF-8") (omega arith))
validate_at (lead ∷ cs) r e =
    ground (arith, e, IsAscii-IsUtf8 (codes "str is not valid UTF-8") (omega arith))

Clean-validate_utf8_run : (r : Reader) → r.error ≡ none → Clean Any (validate_utf8_run r)
Clean-validate_utf8_run r e = validate_at r.rest r e

abbrev Round : Iter Bytes Bytes → Type 0
Round = After Any Any

scan_round_at :
    (text out : Bytes) (r : Reader)
    → r.error ≡ none
    → Clean Round (scan_round out (record r { rest = text }))
unfolding scan_round
scan_round_at [] out r e =
    Clean-fail_ascii (Iter Bytes Bytes) Round malformed_json (codes "unterminated string")
      (record r { rest = [] }) e (omega arith)
scan_round_at (c ∷ cs) out r e =
    let behind : Reader = record r { rest = cs } in
    let here : Reader = record r { rest = c ∷ cs } in
    let escaped : Outcome (Iter Bytes Bytes) =
      (append_escape out >>= (λ out'. pure (next out'))) behind in
    let run : Outcome (Iter Bytes Bytes) =
      (validate_utf8_run >>= (λ run. pure (next (out ++ run)))) here in
    let control : Outcome (Iter Bytes Bytes) =
      fail malformed_json (codes "unexpected control character in string") here in
    let plain : Outcome (Iter Bytes Bytes) = ok (next (out ++ c ∷ [])) behind in
    let bytes : Outcome (Iter Bytes Bytes) = if ltb c 0x80 then plain else run in
    let not_control : Outcome (Iter Bytes Bytes) = if ltb c 0x20 then control else bytes in
    Clean-if Round (c == b'"') (ok (done out) behind) (if c == b'\\' then escaped else not_control)
      (e, tt)
      (Clean-if Round (c == b'\\') escaped not_control
        (Clean-bind Any Round (append_escape out) (λ out'. pure (next out')) behind
          (Clean-append_escape out behind e) (λ _ s e _. (e, tt)))
        (Clean-if Round (ltb c 0x20) control bytes
          (Clean-fail_ascii (Iter Bytes Bytes) Round malformed_json
            (codes "unexpected control character in string") here e (omega arith))
          (Clean-if Round (ltb c 0x80) plain run (e, tt)
            (Clean-bind Any Round validate_utf8_run (λ run. pure (next (out ++ run))) here
              (Clean-validate_utf8_run here e) (λ _ s e _. (e, tt))))))

Clean-scan_round : (out : Bytes) (r : Reader) → r.error ≡ none → Clean Round (scan_round out r)
Clean-scan_round out r e = scan_round_at r.rest out r e

Clean-scan_body : (r : Reader) → r.error ≡ none → Clean Any (scan_body r)
unfolding scan_body
Clean-scan_body r e = Clean-loop Any scan_round Clean-scan_round (suc (length r.rest)) [] r e

Clean-scan_from : (c : Option ℕ) (r : Reader) → r.error ≡ none → Clean Any (scan_from c r)
unfolding scan_from
Clean-scan_from none r e =
    Clean-fail_ascii Bytes Any wrong_type (codes "expected a string, got end of input") r e
      (omega arith)
Clean-scan_from (some c) r e =
    Clean-choose Any (not (c == b'"')) r (fail wrong_type (codes "expected a string"))
      (advance >> scan_body)
      (Clean-fail_ascii Bytes Any wrong_type (codes "expected a string") r e (omega arith))
      (Clean-bind Any Any advance (λ _. scan_body) r (e, tt) (λ _ s e _. Clean-scan_body s e))

scan_string_at : (r : Reader) → r.error ≡ none → Clean Any (scan_string r)
unfolding scan_string
scan_string_at r e =
    Clean-bind Any Any peek scan_from r (Clean-peek r e) (λ c s e _. Clean-scan_from c s e)

pub Clean-scan_string : (r : Reader) → r.error ≡ none → Clean IsUtf8 (scan_string r)
Clean-scan_string r e =
    Clean-with Any IsUtf8 (scan_string r) (scan_string_at r e) (λ s r' h. scan_string-IsUtf8 r h)

pub Clean-read_string : (r : Reader) → r.error ≡ none → Clean IsUtf8 (read_string r)
unfolding read_string
Clean-read_string = Clean-scan_string

-- The key is valid UTF-8, if there is one.
abbrev pub IsKey : Option Bytes → Type 0
IsKey none = Unit
IsKey (some key) = IsUtf8 key

abbrev read_key : M (Option Bytes)
read_key = do separator; key ← scan_string; expect b':'; pure (some key)

Clean-read_key : (r : Reader) → r.error ≡ none → Clean IsKey (read_key r)
Clean-read_key r e =
    Clean-bind Any IsKey separator (λ _. scan_string >>= (λ key. expect b':' >> pure (some key))) r
      (Clean-separator r e)
      (λ _ s e _.
        Clean-bind IsUtf8 IsKey scan_string (λ key. expect b':' >> pure (some key)) s
          (Clean-scan_string s e)
          (λ key u e k.
            Clean-bind Any IsKey (expect b':') (λ _. pure (some key)) u
              (Clean-expect b':' u (omega arith) e) (λ _ v e _. (e, k))))

Clean-member_from : (c : Option ℕ) (r : Reader) → r.error ≡ none → Clean IsKey (member_from c r)
unfolding member_from
Clean-member_from none r e =
    Clean-fail_ascii (Option Bytes) IsKey malformed_json (codes "unterminated object") r e
      (omega arith)
Clean-member_from (some c) r e =
    Clean-choose IsKey (c == b'}') r (λ r. ok none (close_level r)) read_key (e, tt)
      (Clean-read_key r e)

pub Clean-next_member : (r : Reader) → r.error ≡ none → Clean IsKey (next_member r)
unfolding next_member
Clean-next_member r e =
    Clean-bind Any IsKey peek member_from r (Clean-peek r e) (λ c s e _. Clean-member_from c s e)

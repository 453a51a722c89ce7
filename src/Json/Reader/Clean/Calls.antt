-- ===== src/Json/Reader/Clean/Calls.antt =====
-- What each method of the reader leaves in `error_`.
use executor_hotpath_cpp.Base.{
  ℕ, zero, suc, ◌+◌, ◌-◌, ◌/◌, ◌%◌, ◌<◌, ◌≡◌, Bool, true, false, [], ◌∷◌, ◌++◌, Option, none, some,
  Bytes, codes, arith, if◌then◌else◌, ◌==◌, get_or, set, All-append,
}
use executor_hotpath_cpp.Json.Reader.{
  Reader, M, Outcome, ok, ◌>>◌, pure, fail, skip, skip_whitespace, peek, head, hex_digit, hex_byte,
  expect_byte, expect, push_level, begin_object, begin_array, separator, close_level, element_from,
  next_element, at_document_end, at_null, read_null, read_bool, starts_with, skip_bytes, max_depth,
  advance,
}
use executor_hotpath_cpp.Json.Utf8.Text.{IsAscii}
use executor_hotpath_cpp.Wire.{malformed_json, wrong_type}
use executor_hotpath_cpp.Json.Reader.Clean.{
  Clean, Any, Clean-fail_ascii, Clean-bind, Clean-choose, Clean-if,
}

get_or-All : (xs : Bytes) (i d : ℕ) → IsAscii xs → d < 0x80 → get_or xs i d < 0x80
get_or-All [] i d h k = k
get_or-All (x ∷ xs) zero d (h, _) k = h
get_or-All (x ∷ xs) (suc i) d (_, h) k = get_or-All xs i d h k

hex_digit-lt : (v : ℕ) → hex_digit v < 0x80
hex_digit-lt v = get_or-All (codes "0123456789abcdef") v 0 (omega arith) (omega arith)

pub hex_byte-IsAscii : (c : ℕ) → IsAscii (hex_byte c)
unfolding hex_byte
hex_byte-IsAscii c = (hex_digit-lt (c / 16), (hex_digit-lt (c % 16), tt))

pub Clean-peek : (r : Reader) → r.error ≡ none → Clean Any (peek r)
unfolding peek
Clean-peek r e = (e, tt)

-- The message of a byte that is not the one expected.
abbrev mismatch : ℕ → ℕ → Bytes
mismatch c seen = codes "expected '" ++ (c ∷ (codes "', got byte 0x" ++ hex_byte seen))

mismatch-IsAscii : (c seen : ℕ) → c < 0x80 → IsAscii (mismatch c seen)
mismatch-IsAscii c seen h =
    All-append (λ c. c < 0x80) (codes "expected '") (c ∷ (codes "', got byte 0x" ++ hex_byte seen))
      (omega arith)
      (
        h,
        All-append (λ c. c < 0x80) (codes "', got byte 0x") (hex_byte seen) (omega arith)
            (hex_byte-IsAscii seen),
      )

expect_byte_at :
    (c : ℕ) (seen : Option ℕ) (r : Reader)
    → c < 0x80
    → r.error ≡ none
    → Clean Any (expect_byte c seen r)
unfolding expect_byte
expect_byte_at c none r h e =
    Clean-fail_ascii Unit Any malformed_json
      (codes "expected '" ++ (c ∷ codes "', got end of input")) r e (omega (arith, h))
expect_byte_at c (some seen) r h e =
    Clean-choose Any (seen == c) r advance (fail malformed_json (mismatch c seen)) (e, tt)
      (Clean-fail_ascii Unit Any malformed_json (mismatch c seen) r e (mismatch-IsAscii c seen h))

pub Clean-expect : (c : ℕ) (r : Reader) → c < 0x80 → r.error ≡ none → Clean Any (expect c r)
unfolding expect peek
Clean-expect c r h e = expect_byte_at c (head (skip r.rest)) (skip_whitespace r) h e

pub Clean-push_level : (r : Reader) → r.error ≡ none → Clean Any (push_level r)
unfolding push_level
Clean-push_level r e =
    Clean-if Any (r.depth == max_depth) (fail malformed_json (codes "nesting too deep") r)
      (ok tt (record r { first = set r.first r.depth true; depth = r.depth + 1 }))
      (Clean-fail_ascii Unit Any malformed_json (codes "nesting too deep") r e (omega arith))
      (e, tt)

pub Clean-begin_object : (r : Reader) → r.error ≡ none → Clean Any (begin_object r)
unfolding begin_object
Clean-begin_object r e =
    Clean-bind Any Any (expect b'{') (λ _. push_level) r (Clean-expect b'{' r (omega arith) e)
      (λ _ s e _. Clean-push_level s e)

pub Clean-begin_array : (r : Reader) → r.error ≡ none → Clean Any (begin_array r)
unfolding begin_array
Clean-begin_array r e =
    Clean-bind Any Any (expect b'[') (λ _. push_level) r (Clean-expect b'[' r (omega arith) e)
      (λ _ s e _. Clean-push_level s e)

pub Clean-separator : (r : Reader) → r.error ≡ none → Clean Any (separator r)
unfolding separator
Clean-separator r e =
    Clean-if Any (get_or r.first (r.depth - 1) false)
      (ok tt (record r { first = set r.first (r.depth - 1) false })) (expect b',' r) (e, tt)
      (Clean-expect b',' r (omega arith) e)

pub Clean-at_document_end : (r : Reader) → r.error ≡ none → Clean Any (at_document_end r)
unfolding at_document_end
Clean-at_document_end r e = at_end (skip r.rest) (skip_whitespace r) e
  where
    at_end :
        (text : Bytes) (r : Reader)
        → r.error ≡ none
        → Clean Any (elim text [
          | [] ↦ ok (tt {0}) r
          | _ ∷ _ ↦ fail malformed_json (codes "unexpected content after document") r
        ])
    at_end [] r e = (e, tt)
    at_end (_ ∷ _) r e =
        Clean-fail_ascii Unit Any malformed_json (codes "unexpected content after document") r e
          (omega arith)

pub Clean-at_null : (r : Reader) → r.error ≡ none → Clean Any (at_null r)
unfolding at_null
Clean-at_null r e = (e, tt)

pub Clean-read_null : (r : Reader) → r.error ≡ none → Clean Any (read_null r)
unfolding read_null
Clean-read_null r e =
    let absent : M (Unit {0}) = fail wrong_type (codes "expected null") in
    let take_null : M (Unit {0}) = λ r. ok tt (skip_bytes 4 r) in
    Clean-bind Any Any at_null (λ here. if here then take_null else absent) r (Clean-at_null r e)
      (λ here s e _.
        Clean-choose Any here s take_null absent (e, tt)
          (Clean-fail_ascii Unit Any wrong_type (codes "expected null") s e (omega arith)))

-- `read_bool` behind its `peek`.
abbrev bool_from : Option ℕ → M Bool
bool_from c = elim c [
  | none ↦ fail wrong_type (codes "expected a boolean, got end of input")
  | some _ ↦ λ r.
      if starts_with r.rest (codes "true")
      then ok true (skip_bytes 4 r)
      else if starts_with r.rest (codes "false")
      then ok false (skip_bytes 5 r)
      else fail wrong_type (codes "expected a boolean") r
]

bool_at : (c : Option ℕ) (s : Reader) → s.error ≡ none → Clean Any (bool_from c s)
bool_at none s e =
    Clean-fail_ascii Bool Any wrong_type (codes "expected a boolean, got end of input") s e
      (omega arith)
bool_at (some _) s e =
    let other : Outcome Bool = fail wrong_type (codes "expected a boolean") s in
    let no : Outcome Bool = ok false (skip_bytes 5 s) in
    Clean-if Any (starts_with s.rest (codes "true")) (ok true (skip_bytes 4 s))
      (if starts_with s.rest (codes "false") then no else other) (e, tt)
      (Clean-if Any (starts_with s.rest (codes "false")) no other (e, tt)
        (Clean-fail_ascii Bool Any wrong_type (codes "expected a boolean") s e (omega arith)))

pub Clean-read_bool : (r : Reader) → r.error ≡ none → Clean Any (read_bool r)
unfolding read_bool peek
Clean-read_bool r e =
    Clean-bind Any Any peek bool_from r (Clean-peek r e) (λ c s e _. bool_at c s e)

element_at : (c : Option ℕ) (r : Reader) → r.error ≡ none → Clean Any (element_from c r)
unfolding element_from
element_at none r e =
    Clean-fail_ascii Bool Any malformed_json (codes "unterminated array") r e (omega arith)
element_at (some b) r e =
    Clean-choose Any (b == b']') r (λ r. ok false (close_level r)) (separator >> pure true) (e, tt)
      (Clean-bind Any Any separator (λ _. pure true) r (Clean-separator r e) (λ _ s e _. (e, tt)))

pub Clean-next_element : (r : Reader) → r.error ≡ none → Clean Any (next_element r)
unfolding next_element
Clean-next_element r e =
    Clean-bind Any Any peek element_from r (Clean-peek r e) (λ c s e _. element_at c s e)

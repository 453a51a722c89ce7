-- ===== src/Json/Strings/Ends.antt =====
-- How much text the scanner of strings in src/json.cpp leaves.
use executor_hotpath_cpp.Base.{
  ℕ, suc, ◌≤◌, not, [], ◌∷◌, ◌++◌, Option, none, some, Bytes, codes, arith, length, ltb, ◌==◌,
}
use executor_hotpath_cpp.Base.Cuts.{length-drop}
use executor_hotpath_cpp.Json.Reader.{
  Reader, M, Outcome, ok, ◌>>=◌, ◌>>◌, fail, pure, skip, skip_whitespace, peek, head, Iter, next,
  advance, expect, separator, close_level,
}
use executor_hotpath_cpp.Json.Reader.Ends.{
  length-skip, Ends, Ends-mono, Ends-bind, Ends-if, Ends-choose, Ends-loop, Ends-expect,
  Ends-separator,
}
use executor_hotpath_cpp.Json.Strings.{
  append_code_point, append_escape, escape_of, scan_round, scan_body, scan_from, scan_string,
  read_string, member_from, next_member,
}
use executor_hotpath_cpp.Wire.{wrong_type}
use executor_hotpath_cpp.Json.Utf8.{validate_utf8_run}

Ends-append_code_point : (out : Bytes) (r : Reader) → Ends 0 r (append_code_point out r)
unfolding append_code_point fail
Ends-append_code_point out r = ground (arith, length-drop 4 r.rest, length-drop 10 r.rest)

Ends-escape_of : (out : Bytes) (c : ℕ) (r : Reader) → Ends 0 r (escape_of out c r)
unfolding escape_of fail
Ends-escape_of out c r = ground (arith, Ends-append_code_point out r)

append_escape_at :
    (out text : Bytes) (r : Reader)
    → Ends 0 (record r { rest = text }) (append_escape out (record r { rest = text }))
unfolding append_escape fail
append_escape_at out [] r = tt
append_escape_at out (c ∷ cs) r =
    Ends-mono 0 0 (record r { rest = cs }) (record r { rest = c ∷ cs })
      (escape_of out c (record r { rest = cs })) (omega arith)
      (Ends-escape_of out c (record r { rest = cs }))

Ends-append_escape : (out : Bytes) (r : Reader) → Ends 0 r (append_escape out r)
Ends-append_escape out r = append_escape_at out r.rest r

validate_at :
    (text : Bytes) (r : Reader)
    → Ends 1 (record r { rest = text }) (validate_utf8_run (record r { rest = text }))
unfolding validate_utf8_run fail
validate_at [] r = tt
validate_at (lead ∷ cs) r =
    ground (arith, length-drop 2 (lead ∷ cs), length-drop 3 (lead ∷ cs), length-drop 4 (lead ∷ cs))

Ends-validate_utf8_run : (r : Reader) → Ends 1 r (validate_utf8_run r)
Ends-validate_utf8_run r = validate_at r.rest r

scan_round_at :
    (text out : Bytes) (r : Reader)
    → Ends 1 (record r { rest = text }) (scan_round out (record r { rest = text }))
unfolding scan_round fail
scan_round_at [] out r = tt
scan_round_at (c ∷ cs) out r =
    let behind : Reader = record r { rest = cs } in
    let here : Reader = record r { rest = c ∷ cs } in
    let escaped : Outcome (Iter Bytes Bytes) =
      (append_escape out >>= (λ out'. pure (next out'))) behind in
    let run : Outcome (Iter Bytes Bytes) =
      (validate_utf8_run >>= (λ run. pure (next (out ++ run)))) here in
    Ends-if (c == b'"') 1 here _ _ (omega arith) (
      Ends-if (c == b'\\') 1 here escaped _
        (Ends-mono 0 1 behind here escaped (omega arith) (
          Ends-bind 0 0 (append_escape out) (λ out'. pure (next out')) behind
            (Ends-append_escape out behind) (λ _ s. omega arith)))
        (Ends-if (ltb c 0x20) 1 here _ _ tt (
          Ends-if (ltb c 0x80) 1 here _ run (omega arith) (
            Ends-bind 1 0 validate_utf8_run (λ run. pure (next (out ++ run))) here
              (Ends-validate_utf8_run here) (λ _ s. omega arith)))))

Ends-scan_round : (out : Bytes) (r : Reader) → Ends 1 r (scan_round out r)
Ends-scan_round out r = scan_round_at r.rest out r

Ends-scan_body : (r : Reader) → Ends 0 r (scan_body r)
unfolding scan_body
Ends-scan_body r = Ends-loop scan_round Ends-scan_round (suc (length r.rest)) [] r (omega arith)

scan_from_at :
    (text : Bytes) (r : Reader)
    → Ends 0 (record r { rest = text }) (scan_from (head text) (record r { rest = text }))
unfolding scan_from fail
scan_from_at [] r = tt
scan_from_at (c ∷ cs) r =
    let behind : Reader = record r { rest = cs } in
    let here : Reader = record r { rest = c ∷ cs } in
    Ends-choose (not (c == b'"')) 0 here here (fail wrong_type (codes "expected a string"))
      (advance >> scan_body) tt
      (Ends-mono 0 0 behind here (scan_body behind) (omega arith) (Ends-scan_body behind))

pub Ends-scan_string : (r : Reader) → Ends 0 r (scan_string r)
unfolding scan_string peek
Ends-scan_string r =
    let skipped : Reader = skip_whitespace r in
    Ends-mono 0 0 skipped r (scan_from (head skipped.rest) skipped)
      (omega (arith, length-skip r.rest)) (scan_from_at (skip r.rest) r)

pub Ends-read_string : (r : Reader) → Ends 0 r (read_string r)
unfolding read_string
Ends-read_string = Ends-scan_string

-- A member behind its separator.
read_key : M (Option Bytes)
read_key = do separator; key ← scan_string; expect b':'; pure (some key)

Ends-read_key : (r : Reader) → Ends 1 r (read_key r)
unfolding read_key
Ends-read_key r =
    Ends-bind 0 1 separator (λ _. scan_string >>= (λ key. expect b':' >> pure (some key))) r
      (Ends-separator r)
      (λ _ s.
        Ends-bind 0 1 scan_string (λ key. expect b':' >> pure (some key)) s (Ends-scan_string s)
          (λ key u.
            Ends-bind 1 0 (expect b':') (λ _. pure (some key)) u (Ends-expect b':' u)
              (λ _ v. omega arith)))

member_at :
    (text : Bytes) (r s : Reader)
    → length text ≤ length s.rest
    → Ends 1 s (member_from (head text) (record r { rest = text }))
unfolding member_from read_key
member_at [] r s l = tt
member_at (c ∷ cs) r s l =
    let here : Reader = record r { rest = c ∷ cs } in
    Ends-choose (c == b'}') 1 here s (λ r. ok none (close_level r)) read_key (omega (arith, l))
      (Ends-mono 1 1 here s (read_key here) (omega (arith, l)) (Ends-read_key here))

pub Ends-next_member : (r : Reader) → Ends 1 r (next_member r)
unfolding next_member peek
Ends-next_member r = member_at (skip r.rest) r r (length-skip r.rest)

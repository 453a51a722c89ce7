-- ===== src/Json/Strings/Sound.antt =====
-- What `scan_string` of src/json.cpp returns, round by round.
use native.Mathlib.Nat.{pow-suc}
use executor_hotpath_cpp.Base.{
  ℕ, zero, true, false, Bool-cases, suc, ◌+◌, ◌-◌, ◌*◌, ◌^◌, ◌<◌, ◌≤◌, inl, inr, [], ◌∷◌, ◌++◌, ◌≡◌,
  Option, none, some, Bytes, arith, length, Option-cases, ◌==◌, ltb,
}
use executor_hotpath_cpp.Base.Cuts.{drop}
use executor_hotpath_cpp.Json.Reader.{
  Reader, ok, pure, fail, peek, head, tail, skip, skip_whitespace, Iter, next,
}
use executor_hotpath_cpp.Json.Reader.Loop.{After, loop_inv, bind-eq-ok}
use executor_hotpath_cpp.Json.Utf8.{
  encode, append_utf8, validate_utf8_run, IsScalar, IsUtf8, nil, within,
}
use executor_hotpath_cpp.Json.Utf8.Codec.{validate_utf8_run-IsRun}
use executor_hotpath_cpp.Json.Utf8.Text.{IsUtf8-encode, IsUtf8-append, IsUtf8-ascii, IsRun-IsUtf8}
use executor_hotpath_cpp.Json.Strings.{
  hex_value, hex_digits, read_hex4, low_surrogate, append_code_point, simple_escape, escape_of,
  append_escape, scan_round, scan_body, scan_from, scan_string,
}

hex_value-lt : (c : ℕ) {v : ℕ} → hex_value c ≡ some v → v < 16
unfolding hex_value
hex_value-lt c h = ground arith

hex_digits-lt :
    (n value bound : ℕ) (cs : Bytes) {v : ℕ}
    → value < bound
    → hex_digits n value cs ≡ some v
    → v < bound * 16 ^ n
unfolding hex_digits
hex_digits-lt zero value bound cs b h = ground arith
hex_digits-lt (suc n) value bound [] b h = cc
hex_digits-lt (suc n) value bound (c ∷ cs) {v} b h = elim (Option-cases (hex_value c)) [
  | inl e ↦ absurd (ground arith)
  | inr (d, e) ↦
      let in_bound : value * 16 + d < bound * 16 = omega (arith, hex_value-lt c e) in
      let rest : hex_digits n (value * 16 + d) cs ≡ some v = rw (e, hex_digits) at h in
      let later : v < bound * 16 * 16 ^ n =
        hex_digits-lt n (value * 16 + d) (bound * 16) cs in_bound rest in
      rw pow-suc (omega arith)
]

read_hex4-lt : (cs : Bytes) {v : ℕ} → read_hex4 cs ≡ some v → v < 0x10000
unfolding read_hex4
read_hex4-lt cs h = hex_digits-lt 4 0 1 cs (omega arith) h

low_surrogate_bounds :
    (cs : Bytes) {v : ℕ} → low_surrogate cs ≡ some v → (0xDC00 ≤ v) × (v ≤ 0xDFFF)
unfolding low_surrogate
low_surrogate_bounds [] h = cc
low_surrogate_bounds (a ∷ []) h = cc
low_surrogate_bounds (a ∷ b ∷ cs) h = ground arith

IsUtf8-append_utf8 : {out : Bytes} (cp : ℕ) → IsUtf8 out → IsScalar cp → IsUtf8 (append_utf8 out cp)
unfolding append_utf8
IsUtf8-append_utf8 cp u s = IsUtf8-append (encode cp) u (IsUtf8-encode cp s)

unit-IsScalar :
    (cp : ℕ)
    → cp < 0x10000
    → within 0xDC00 0xDFFF cp ≡ false
    → within 0xD800 0xDBFF cp ≡ false
    → IsScalar cp
unit-IsScalar cp h l u = ground arith

pair-IsScalar :
    (cp low : ℕ)
    → within 0xD800 0xDBFF cp ≡ true
    → 0xDC00 ≤ low
    → low ≤ 0xDFFF
    → IsScalar (0x10000 + (cp - 0xD800) * 1024 + (low - 0xDC00))
pair-IsScalar cp low h l u = inr (ground arith, ground arith)

-- The two ways in which `append_code_point` succeeds.
appended :
    (out : Bytes) (r : Reader) {out' : Bytes} {r' : Reader}
    → append_code_point out r ≡ ok out' r'
    → (cp : ℕ) × IsScalar cp × (out' ≡ append_utf8 out cp)
appended out r h = elim (Option-cases (read_hex4 r.rest)) [
  | inl e ↦ absurd (unfold append_code_point fail in ground arith)
  | inr (cp, e) ↦ elim (Bool-cases (within 0xDC00 0xDFFF cp)) [
    | inl t ↦ absurd (unfold append_code_point fail in ground arith)
    | inr l ↦ elim (Bool-cases (within 0xD800 0xDBFF cp)) [
      | inl t ↦ elim (Option-cases (low_surrogate (drop 4 r.rest))) [
        | inl n ↦ absurd (unfold append_code_point fail in ground arith)
        | inr (low, s) ↦
            let b = low_surrogate_bounds (drop 4 r.rest) s in
            (
              0x10000 + (cp - 0xD800) * 1024 + (low - 0xDC00),
              pair-IsScalar cp low t b.0 b.1,
              unfold append_code_point in ground arith,
            )
      ]
      | inr u ↦ (
        cp,
        unit-IsScalar cp (read_hex4-lt r.rest e) l u,
        unfold append_code_point in ground arith,
      )
    ]
  ]
]

append_code_point-IsUtf8 :
    (out : Bytes) (r : Reader) {out' : Bytes} {r' : Reader}
    → IsUtf8 out
    → append_code_point out r ≡ ok out' r'
    → IsUtf8 out'
append_code_point-IsUtf8 out r u h =
    let (cp, s, e) = appended out r h in rw e (IsUtf8-append_utf8 cp u s)

simple_escape-lt : (c : ℕ) {d : ℕ} → simple_escape c ≡ some d → d < 0x80
unfolding simple_escape
simple_escape-lt c h = ground arith

escape_of-IsUtf8 :
    (out : Bytes) (c : ℕ) (r : Reader) {out' : Bytes} {r' : Reader}
    → IsUtf8 out
    → escape_of out c r ≡ ok out' r'
    → IsUtf8 out'
unfolding escape_of fail
escape_of-IsUtf8 out c r {out'} {r'} u h = elim (Option-cases (simple_escape c)) [
  | inl e ↦ ground (arith, append_code_point-IsUtf8 out r {out' = out'} {r' = r'} u)
  | inr (d, e) ↦
      let k = IsUtf8-append (d ∷ []) u (IsUtf8-ascii d (simple_escape-lt c e)) in ground arith
]

escape_at :
    (cs : Bytes) (out : Bytes) (r : Reader) {out' : Bytes} {r' : Reader}
    → IsUtf8 out
    → append_escape out (record r { rest = cs }) ≡ ok out' r'
    → IsUtf8 out'
unfolding append_escape fail
escape_at [] out r u h = cc
escape_at (c ∷ cs) out r u h = escape_of-IsUtf8 out c (record r { rest = cs }) u h

append_escape-IsUtf8 :
    (out : Bytes) (r : Reader) {out' : Bytes} {r' : Reader}
    → IsUtf8 out
    → append_escape out r ≡ ok out' r'
    → IsUtf8 out'
append_escape-IsUtf8 out r = escape_at r.rest out r

scan_round-After :
    (cs : Bytes) (out : Bytes) (r : Reader) (i : Iter Bytes Bytes) (r' : Reader)
    → IsUtf8 out
    → scan_round out (record r { rest = cs }) ≡ ok i r'
    → After IsUtf8 IsUtf8 i
unfolding scan_round fail
scan_round-After [] out r i r' u h = cc
scan_round-After (c ∷ cs) out r i r' u h = elim (Bool-cases (c == b'"')) [
  | inl t ↦ ground arith
  | inr q ↦ elim (Bool-cases (c == b'\\')) [
    | inl t ↦
        let (o, s, e, f) =
          bind-eq-ok (append_escape out) (λ o. pure (next o)) (record r { rest = cs })
            (rw (q, t) at h) in
        ground (arith, append_escape-IsUtf8 out (record r { rest = cs }) u e)
    | inr b ↦ elim (Bool-cases (ltb c 0x20)) [
      | inl t ↦ ground arith
      | inr k ↦ elim (Bool-cases (ltb c 0x80)) [
        | inl t ↦
            let plain = IsUtf8-append (c ∷ []) u (IsUtf8-ascii c (ground arith)) in ground arith
        | inr l ↦
            let (o, s, e, f) =
              bind-eq-ok validate_utf8_run (λ o. pure (next (out ++ o)))
                (record r { rest = c ∷ cs }) (rw (q, b, k, l) at h) in
            let run = IsUtf8-append o u (IsRun-IsUtf8 (validate_utf8_run-IsRun _ e)) in ground arith
      ]
    ]
  ]
]

scan_body-IsUtf8 : (r : Reader) {s : Bytes} {r' : Reader} → scan_body r ≡ ok s r' → IsUtf8 s
unfolding scan_body
scan_body-IsUtf8 r h =
    loop_inv IsUtf8 IsUtf8 scan_round (suc (length r.rest)) [] r
      (λ out q i q' u e. scan_round-After q.rest out q i q' u e) nil h

scan_at : (r : Reader) (c : Option ℕ) {s : Bytes} {r' : Reader} → scan_from c r ≡ ok s r' → IsUtf8 s
unfolding scan_from fail
scan_at r none h = cc
scan_at r (some c) {s} {r'} h =
    ground (arith, scan_body-IsUtf8 (record r { rest = tail r.rest }) {s = s} {r' = r'})

-- Every string that the reader returns is valid UTF-8, whatever bytes the document holds: raw
-- sequences and escapes alike, surrogate pairs included.
pub scan_string-IsUtf8 : (r : Reader) {s : Bytes} {r' : Reader} → scan_string r ≡ ok s r' → IsUtf8 s
unfolding scan_string peek
scan_string-IsUtf8 r h = scan_at (skip_whitespace r) (head (skip r.rest)) h

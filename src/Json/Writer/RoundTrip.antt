-- ===== src/Json/Writer/RoundTrip.antt =====
-- `read_string` on what `append_string` writes.
use executor_hotpath_cpp.Base.{
  ℕ, zero, suc, ◌/◌, ◌%◌, Bool, true, false, none, some, ◌==◌, all_below, all_below_sound, All,
  Bool-cases, inl, inr, ltb, ◌≤◌, ◌<◌, [], ◌∷◌, ◌++◌, ◌≡◌, refl, sym, ap, ◌∙◌, append-nil,
  append_assoc, Bytes, arith, length, length-append,
}
use executor_hotpath_cpp.Json.Reader.{Reader, ok, loop, hex_digit, skip}
use executor_hotpath_cpp.Json.Utf8.{encode, validate_utf8_run, IsScalar, IsUtf8, nil, cons}
use executor_hotpath_cpp.Json.Utf8.Codec.{
  encode_1, encode_2, encode_3, encode_4, validate_utf8_run-encode,
}
use executor_hotpath_cpp.Json.Strings.{
  hex_value, scan_round, append_escape, append_code_point, scan_body, read_string,
}
use executor_hotpath_cpp.Json.Writer.{append, escaped, append_escaped, append_string}

-- `append_string` with no accumulator.
abbrev pub escapes : Bytes → Bytes
escapes [] = []
escapes (c ∷ cs) = escaped c ++ escapes cs

append_escaped-escapes : (text out : Bytes) → append_escaped out text ≡ out ++ escapes text
unfolding append_escaped append
append_escaped-escapes [] out = sym (append-nil out)
append_escaped-escapes (c ∷ cs) out = simp (append_escaped-escapes cs, append_assoc)

pub append_string-escapes :
    (out text : Bytes) → append_string out text ≡ out ++ (b'"' ∷ escapes text ++ b'"' ∷ [])
unfolding append_string
append_string-escapes out text = simp (append_escaped-escapes, append_assoc)

-- The hexadecimal digits that are written are the ones that are read.
reads_back : ℕ → Bool
reads_back v = elim (hex_value (hex_digit v)) [ none ↦ false | some w ↦ w == v ]

hex_value-hex_digit : (v : ℕ) → v < 16 → hex_value (hex_digit v) ≡ some v
hex_value-hex_digit v h =
    let t : reads_back v ≡ true =
      all_below_sound 16 reads_back v h (unfold all_below reads_back hex_value in refl) in
    unfold reads_back in ground arith

round_control :
    (c fuel : ℕ) (out t : Bytes) (r : Reader)
    → c < 0x20
    → loop (suc fuel) scan_round out (record r {
      rest = b'\\' ∷ b'u' ∷ b'0' ∷ b'0' ∷ hex_digit (c / 16) ∷ hex_digit (c % 16) ∷ t;
    })
      ≡ loop fuel scan_round (out ++ c ∷ []) (record r { rest = t })
unfolding loop scan_round append_escape append_code_point
round_control c fuel out t r h =
    ground (arith, hex_value-hex_digit (c / 16), hex_value-hex_digit (c % 16), encode_1 c)

-- One round of the loop over what one byte below 0x80 is written as.
round_ascii :
    (c fuel : ℕ) (out t : Bytes) (r : Reader)
    → c < 0x80
    → loop (suc fuel) scan_round out (record r { rest = escaped c ++ t })
      ≡ loop fuel scan_round (out ++ c ∷ []) (record r { rest = t })
unfolding loop scan_round append_escape append_code_point escaped
round_ascii c fuel out t r h = ground (arith, round_control c fuel out t r)

escaped_high : (c : ℕ) → 0x80 ≤ c → escaped c ≡ c ∷ []
unfolding escaped
escaped_high c h = ground arith

escapes-append : (a b : Bytes) → escapes (a ++ b) ≡ escapes a ++ escapes b
escapes-append [] b = refl
escapes-append (c ∷ a) b =
    rw (escapes-append a b) (sym (append_assoc (escaped c) (escapes a) (escapes b)))

escapes_high : (s : Bytes) → All (λ c. 0x80 ≤ c) s → escapes s ≡ s
escapes_high [] h = refl
escapes_high (c ∷ s) (h, hs) = rw (escaped_high c h, escapes_high s hs)

encode_high : (cp : ℕ) → IsScalar cp → 0x80 ≤ cp → All (λ c. 0x80 ≤ c) (encode cp)
encode_high cp s h = elim (Bool-cases (ltb cp 0x800)) [
  | inl two ↦ rw (encode_2 cp h (ground arith)) (omega arith)
  | inr more ↦ elim (Bool-cases (ltb cp 0x10000)) [
    | inl three ↦ rw (encode_3 cp (ground arith) (ground arith)) (omega arith)
    | inr four ↦ rw (encode_4 cp (ground arith) (omega arith)) (omega arith)
  ]
]

length-encode : (cp : ℕ) → 0 < length (encode cp)
unfolding encode
length-encode cp = ground arith

high_round :
    (c : ℕ) (cs : Bytes) (fuel : ℕ) (out t run : Bytes) (r : Reader)
    → 0x80 ≤ c
    → validate_utf8_run (record r { rest = c ∷ cs }) ≡ ok run (record r { rest = t })
    → loop (suc fuel) scan_round out (record r { rest = c ∷ cs })
      ≡ loop fuel scan_round (out ++ run) (record r { rest = t })
unfolding loop scan_round
high_round c cs fuel out t run r h e = ground arith

high_at :
    (s : Bytes) (fuel : ℕ) (out t : Bytes) (r : Reader)
    → All (λ c. 0x80 ≤ c) s
    → 0 < length s
    → validate_utf8_run (record r { rest = s ++ t }) ≡ ok s (record r { rest = t })
    → loop (suc fuel) scan_round out (record r { rest = s ++ t })
      ≡ loop fuel scan_round (out ++ s) (record r { rest = t })
high_at [] fuel out t r h n e = absurd (omega arith)
high_at (c ∷ s) fuel out t r h n e = high_round c (s ++ t) fuel out t (c ∷ s) r h.0 e

-- One round of the loop over what one scalar value is written as.
round-encode :
    (cp fuel : ℕ) (out t : Bytes) (r : Reader)
    → IsScalar cp
    → loop (suc fuel) scan_round out (record r { rest = escapes (encode cp) ++ t })
      ≡ loop fuel scan_round (out ++ encode cp) (record r { rest = t })
round-encode cp fuel out t r s = elim (Bool-cases (ltb cp 0x80)) [
  | inl low ↦
      rw (encode_1 cp (ground arith), append-nil) (round_ascii cp fuel out t r (ground arith))
  | inr high ↦
      let lo : 0x80 ≤ cp = ground arith in
      let hs = encode_high cp s lo in
      rw (escapes_high (encode cp) hs) (
        high_at (encode cp) fuel out t r hs (length-encode cp)
          (validate_utf8_run-encode r cp t s lo))
]

scan-escapes :
    {s : Bytes} (fuel : ℕ) (out t : Bytes) (r : Reader)
    → IsUtf8 s
    → length s < fuel
    → loop fuel scan_round out (record r { rest = escapes s ++ b'"' ∷ t })
      ≡ ok (out ++ s) (record r { rest = t })
scan-escapes zero out t r u h = absurd (omega arith)
scan-escapes (suc fuel) out t r nil h = rw append-nil (unfold loop scan_round in refl)
scan-escapes (suc fuel) out t r (cons cp v s e u) h =
    let shorter : length v < fuel =
      omega (arith, ap length e, length-append (encode cp) v, length-encode cp) in
    rw (e, escapes-append, append_assoc)
      (round-encode cp fuel out (escapes v ++ b'"' ∷ t) r s
        ∙ scan-escapes fuel (out ++ encode cp) t r u shorter
        ∙ rw append_assoc)

length-escaped : (c : ℕ) → 0 < length (escaped c)
unfolding escaped
length-escaped c = ground arith

length-escapes : (s : Bytes) → length s ≤ length (escapes s)
length-escapes [] = omega arith
length-escapes (c ∷ s) =
    omega (arith, length-append (escaped c) (escapes s), length-escaped c, length-escapes s)

pub scan_body-escapes :
    {s : Bytes} (t : Bytes) (r : Reader)
    → IsUtf8 s
    → scan_body (record r { rest = escapes s ++ b'"' ∷ t }) ≡ ok s (record r { rest = t })
unfolding scan_body
scan_body-escapes {s} t r u =
    scan-escapes _ [] t r u (omega (arith, length-append (escapes s) (b'"' ∷ t), length-escapes s))

pub read_string-escapes :
    {s : Bytes} (t : Bytes) (r : Reader)
    → IsUtf8 s
    → read_string (record r { rest = b'"' ∷ escapes s ++ b'"' ∷ t }) ≡ ok s (record r { rest = t })
unfolding read_string skip
read_string-escapes = scan_body-escapes

-- A string that is valid UTF-8 is read back from what `append_string` writes for it, whatever
-- follows, and the reader stands behind the closing quote.
pub read_string-append_string :
    {s : Bytes} (t : Bytes) (r : Reader)
    → IsUtf8 s
    → read_string (record r { rest = append_string [] s ++ t }) ≡ ok s (record r { rest = t })
unfolding read_string skip
read_string-append_string {s} t r u =
    rw (append_string-escapes, append_assoc) (read_string-escapes t r u)

-- ===== src/Json/Writer/Ints.antt =====
-- `read_int` on what `append_int` writes.
use native.Mathlib.Nat.{pow-suc}
use executor_hotpath_cpp.Base.{
  ℕ, zero, suc, ◌+◌, ◌*◌, ◌/◌, ◌%◌, ◌^◌, ◌≤◌, ◌<◌, ◌≢◌, ◌||◌, inl, inr, true, false, not, Bool,
  Bool-cases, [], ◌∷◌, ◌++◌, ◌≡◌, refl, ap, ◌∙◌, append-nil, Bytes, arith, All, ltb, ◌==◌,
}
use executor_hotpath_cpp.Base.Int.{ℤ, pos, negsuc, IsI64, max_i64}
use executor_hotpath_cpp.Json.Reader.{Reader, ok, skip}
use executor_hotpath_cpp.Json.Numbers.{
  is_digit, starts_digit, span_digits, whole_part, taken, spell, from_chars, parsed, scan_whole,
  scan_number, read_int,
}
use executor_hotpath_cpp.Json.Writer.{digits, to_chars, append_int, append}

abbrev pub IsDigits : Bytes → Type 0
IsDigits = All (λ c. is_digit c ≡ true)

pub digits-IsDigits : (fuel n : ℕ) (out : Bytes) → IsDigits out → IsDigits (digits fuel n out)
unfolding digits
digits-IsDigits zero n out h = h
digits-IsDigits (suc fuel) n out h = elim (Bool-cases (ltb n 10)) [
  | inl t ↦ rw t (ground arith, h)
  | inr f ↦ rw f (digits-IsDigits fuel (n / 10) _ (ground arith, h))
]

pub spell-digits :
    (fuel n : ℕ) (out : Bytes) → n < 10 ^ fuel → spell 0 (digits fuel n out) ≡ spell n out
unfolding digits spell
spell-digits zero n out h = let e : n ≡ 0 = omega arith in rw e
spell-digits (suc fuel) n out h =
    let small : n < 10 ^ fuel * 10 = rw pow-suc at h in
    elim (Bool-cases (ltb n 10)) [
      | inl t ↦ rw t (ap (λ k. spell k out) (omega arith))
      | inr f ↦ rw f (
          spell-digits fuel (n / 10) ((b'0' + n % 10) ∷ out) (omega arith)
          ∙ ap (λ k. spell k out) (omega arith))
    ]

-- The first digit of a number that is not zero is not zero.
pub data Leads : Bytes → Type 0 where
  lead : (c : ℕ) (cs : Bytes) → is_digit c ≡ true → c ≢ b'0' → Leads (c ∷ cs)

pub digits-Leads : (fuel n : ℕ) (out : Bytes) → 0 < n → n < 10 ^ fuel → Leads (digits fuel n out)
unfolding digits
digits-Leads zero n out p h = absurd (omega arith)
digits-Leads (suc fuel) n out p h =
    let small : n < 10 ^ fuel * 10 = rw pow-suc at h in
    elim (Bool-cases (ltb n 10)) [
      | inl t ↦ rw t (lead (b'0' + n) out (ground arith) (omega arith))
      | inr f ↦
          rw f (digits-Leads fuel (n / 10) ((b'0' + n % 10) ∷ out) (ground arith) (omega arith))
    ]

pub span_digits-append :
    (ds t : Bytes) → IsDigits ds → starts_digit t ≡ false → span_digits (ds ++ t) ≡ (ds, t)
unfolding span_digits
span_digits-append [] [] h f = refl
span_digits-append [] (c ∷ t) h f = ground arith
span_digits-append (c ∷ ds) t h f = rw (span_digits-append ds t h.1 f, h.0)

-- A number ends where none of the bytes that could continue it follows.
abbrev pub ends_number : Bytes → Bool
ends_number [] = true
ends_number (c ∷ _) = not (is_digit c || c == b'.' || c == b'e' || c == b'E')

starts_digit-ends : (t : Bytes) → ends_number t ≡ true → starts_digit t ≡ false
starts_digit-ends [] h = refl
starts_digit-ends (c ∷ t) h = ground arith

whole_part-Leads :
    {ds : Bytes} (t : Bytes)
    → Leads ds
    → IsDigits ds
    → starts_digit t ≡ false
    → whole_part (ds ++ t) ≡ taken ds t
unfolding whole_part
whole_part-Leads t (lead c cs d z) h f = ground (arith, span_digits-append (c ∷ cs) t h f)

whole_part-zero : (t : Bytes) → starts_digit t ≡ false → whole_part (b'0' ∷ t) ≡ taken (b'0' ∷ []) t
unfolding whole_part
whole_part-zero t f = rw f

scan_whole-ends :
    (sign ds cs t : Bytes) (r : Reader)
    → whole_part cs ≡ taken ds t
    → ends_number t ≡ true
    → scan_whole sign cs r ≡ ok (sign ++ ds, true) (record r { rest = t })
unfolding scan_whole
scan_whole-ends sign ds cs [] r e h = ground (arith, append-nil (sign ++ ds), append-nil ds)
scan_whole-ends sign ds cs (c ∷ t) r e h = ground (arith, append-nil (sign ++ ds))

scan_number-Leads :
    {ds : Bytes} (t : Bytes) (r : Reader)
    → Leads ds
    → IsDigits ds
    → ends_number t ≡ true
    → scan_number (record r { rest = ds ++ t }) ≡ ok (ds, true) (record r { rest = t })
unfolding scan_number skip
scan_number-Leads t r (lead c cs d z) h f =
    let whole = whole_part-Leads t (lead c cs d z) h (starts_digit-ends t f) in
    let read =
      scan_whole-ends [] (c ∷ cs) (c ∷ cs ++ t) t (record r { rest = c ∷ cs ++ t }) whole f in
    ground arith

scan_number-zero :
    (t : Bytes) (r : Reader)
    → ends_number t ≡ true
    → scan_number (record r { rest = b'0' ∷ t }) ≡ ok (b'0' ∷ [], true) (record r { rest = t })
unfolding scan_number skip
scan_number-zero t r f =
    scan_whole-ends [] (b'0' ∷ []) (b'0' ∷ t) t (record r { rest = b'0' ∷ t })
      (whole_part-zero t (starts_digit-ends t f)) f

scan_number_negative :
    {ds : Bytes} (t : Bytes) (r : Reader)
    → Leads ds
    → IsDigits ds
    → ends_number t ≡ true
    → scan_number (record r { rest = b'-' ∷ ds ++ t })
      ≡ ok (b'-' ∷ ds, true) (record r { rest = t })
unfolding scan_number skip
scan_number_negative {ds} t r l h f =
    scan_whole-ends (b'-' ∷ []) ds (ds ++ t) t (record r { rest = b'-' ∷ ds ++ t })
      (whole_part-Leads t l h (starts_digit-ends t f)) f

from_chars-Leads :
    {ds : Bytes} {n : ℕ} → Leads ds → spell 0 ds ≡ n → n ≤ max_i64 → from_chars ds ≡ parsed (pos n)
unfolding from_chars
from_chars-Leads (lead c cs d z) e h = ground arith

from_chars_negative :
    {ds : Bytes} {n : ℕ}
    → Leads ds
    → spell 0 ds ≡ suc n
    → n ≤ max_i64
    → from_chars (b'-' ∷ ds) ≡ parsed (negsuc n)
unfolding from_chars
from_chars_negative (lead c cs d z) e h = ground arith

pub spell-nil : (n : ℕ) → spell n [] ≡ n
unfolding spell
spell-nil n = refl

below_20 : (n : ℕ) → n ≤ max_i64 + 1 → n < 10 ^ 20
below_20 n h = omega arith

read_int_of :
    {token : Bytes} {v : ℤ} (r r' : Reader)
    → scan_number r ≡ ok (token, true) r'
    → from_chars token ≡ parsed v
    → read_int r ≡ ok v r'
unfolding read_int
read_int_of r r' s f = ground arith

pub to_chars_zero : to_chars (pos 0) ≡ b'0' ∷ []
unfolding to_chars digits
to_chars_zero = refl

pub read_int-to_chars :
    (v : ℤ) (t : Bytes) (r : Reader)
    → IsI64 v
    → ends_number t ≡ true
    → read_int (record r { rest = to_chars v ++ t }) ≡ ok v (record r { rest = t })
read_int-to_chars (pos zero) t r h f =
    rw to_chars_zero (read_int_of _ _ (scan_number-zero t r f) (unfold from_chars in refl))
read_int-to_chars (pos (suc n)) t r h f =
    let small = below_20 (suc n) (omega arith) in
    let leads = digits-Leads 20 (suc n) [] (omega arith) small in
    unfold to_chars in
    read_int_of _ _ (scan_number-Leads t r leads (digits-IsDigits 20 (suc n) [] tt) f)
      (from_chars-Leads leads (spell-digits 20 (suc n) [] small ∙ spell-nil (suc n)) h)
read_int-to_chars (negsuc n) t r h f =
    let small = below_20 (suc n) (omega arith) in
    let leads = digits-Leads 20 (suc n) [] (omega arith) small in
    unfold to_chars in
    read_int_of _ _ (scan_number_negative t r leads (digits-IsDigits 20 (suc n) [] tt) f)
      (from_chars_negative leads (spell-digits 20 (suc n) [] small ∙ spell-nil (suc n)) h)

-- A 64-bit integer is read back from what `append_int` writes for it, if what follows does not
-- continue the number, and the reader stands behind it.
pub read_int-append_int :
    (v : ℤ) (t : Bytes) (r : Reader)
    → IsI64 v
    → ends_number t ≡ true
    → read_int (record r { rest = append_int [] v ++ t }) ≡ ok v (record r { rest = t })
unfolding append_int append
read_int-append_int = read_int-to_chars

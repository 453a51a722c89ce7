-- ===== src/Json/Reader/Ends.antt =====
-- How much text a method of the reader leaves. `k` is how many bytes it takes at least where it
-- succeeds; a method that has run out of fuel satisfies no `Ends`.
use executor_hotpath_cpp.Base.{
  ℕ, zero, suc, ◌+◌, ◌≤◌, ◌<◌, ◌-◌, ◌≡◌, refl, Bool, true, false, [], ◌∷◌, Bytes, codes, arith,
  length, if◌then◌else◌, ◌==◌, get_or,
}
use executor_hotpath_cpp.Base.Cuts.{length-drop}
use executor_hotpath_cpp.Json.Reader.{
  Reader, M, Outcome, ok, bad, out_of_fuel, ◌>>=◌, fail, skip, skip_whitespace, peek, head,
  expect_byte, expect, push_level, begin_object, begin_array, separator, close_level, pure, ◌>>◌,
  element_from, next_element, at_document_end, at_null, read_null, read_bool, loop, Iter, next,
  done,
}
use executor_hotpath_cpp.Wire.{DecodeErrorCode, malformed_json}

abbrev pub Ends : {A : Type 0} → ℕ → Reader → Outcome A → Type 0
Ends k r (ok a r') = length r'.rest + k ≤ length r.rest
Ends k r (bad r') = Unit
Ends k r out_of_fuel = ⊥

pub Ends-fail :
    (A : Type 0) (k : ℕ) (s : Reader) (c : DecodeErrorCode) (m : Bytes) (r : Reader)
    → Ends {A = A} k s (fail c m r)
unfolding fail
Ends-fail A k s c m r = tt

pub Ends-mono :
    {A : Type 0} (j k : ℕ) (r s : Reader) (o : Outcome A)
    → length r.rest + k ≤ length s.rest + j
    → Ends j r o
    → Ends k s o
Ends-mono j k r s (ok a r') h l = omega (arith, h, l)
Ends-mono j k r s (bad r') h l = tt
Ends-mono j k r s out_of_fuel h l = l

module _ {A B : Type 0} where
  bind_at :
      (j k : ℕ) (r : Reader) (o : Outcome A) (f : A → M B)
      → Ends j r o
      → ((a : A) (s : Reader) → Ends k s (f a s))
      → Ends (j + k) r (elim o [ ok a s ↦ f a s | bad s ↦ bad s | out_of_fuel ↦ out_of_fuel ])
  bind_at j k r (ok a s) f l rest = Ends-mono k (j + k) s r (f a s) (omega (arith, l)) (rest a s)
  bind_at j k r (bad s) f l rest = tt
  bind_at j k r out_of_fuel f l rest = l

  pub Ends-bind :
      (j k : ℕ) (m : M A) (f : A → M B) (r : Reader)
      → Ends j r (m r)
      → ((a : A) (s : Reader) → Ends k s (f a s))
      → Ends (j + k) r ((m >>= f) r)
  Ends-bind j k m f r = bind_at j k r (m r) f

pub Ends-if :
    {A : Type 0} (b : Bool) (k : ℕ) (r : Reader) (x y : Outcome A)
    → Ends k r x
    → Ends k r y
    → Ends k r (if b then x else y)
Ends-if true k r x y f g = f
Ends-if false k r x y f g = g

-- A choice between two methods.
pub Ends-choose :
    {A : Type 0} (b : Bool) (k : ℕ) (r s : Reader) (x y : M A)
    → Ends k s (x r)
    → Ends k s (y r)
    → Ends k s ((if b then x else y) r)
Ends-choose true k r s x y f g = f
Ends-choose false k r s x y f g = g

module _ {S A : Type 0} (body : S → M (Iter S A))
    (takes : (s : S) (r : Reader) → Ends 1 r (body s r)) where
  round_at :
      (fuel : ℕ) (r : Reader) (o : Outcome (Iter S A))
      → Ends 1 r o
      → length r.rest < suc fuel
      → ((t : S) (u : Reader) → length u.rest < fuel → Ends 0 u (loop fuel body t u))
      → Ends 0 r (elim o [
        | ok i r' ↦ elim i [ next s' ↦ loop fuel body s' r' | done a ↦ ok a r' ]
        | bad r' ↦ bad r'
        | out_of_fuel ↦ out_of_fuel
      ])
  round_at fuel r (ok (next t) u) l h rec =
      Ends-mono 0 0 u r (loop fuel body t u) (omega (arith, l)) (rec t u (omega (arith, l, h)))
  round_at fuel r (ok (done a) u) l h rec = omega (arith, l)
  round_at fuel r (bad u) l h rec = tt
  round_at fuel r out_of_fuel l h rec = l

  -- A loop each of whose rounds takes a byte ends on as much fuel as there are bytes, and one.
  pub Ends-loop :
      (fuel : ℕ) (s : S) (r : Reader) → length r.rest < fuel → Ends 0 r (loop fuel body s r)
  unfolding loop
  Ends-loop zero s r h = absurd (omega (arith, h))
  Ends-loop (suc fuel) s r h =
      round_at fuel r (body s r) (takes s r) h (λ t u l. Ends-loop fuel t u l)

pub length-skip : (cs : Bytes) → length (skip cs) ≤ length cs
unfolding skip
length-skip [] = omega arith
length-skip (c ∷ cs) = ground (arith, length-skip cs)

pub Ends-peek : (r : Reader) → Ends 0 r (peek r)
unfolding peek
Ends-peek r = omega (arith, length-skip r.rest)

expect_byte_at :
    (c : ℕ) (text : Bytes) (r : Reader) → r.rest ≡ text → Ends 1 r (expect_byte c (head text) r)
unfolding expect_byte fail
expect_byte_at c [] r e = tt
expect_byte_at c (seen ∷ text) r e = ground arith

pub Ends-expect : (c : ℕ) (r : Reader) → Ends 1 r (expect c r)
unfolding expect peek
Ends-expect c r =
    Ends-mono 1 1 (skip_whitespace r) r (expect_byte c (head (skip r.rest)) (skip_whitespace r))
      (omega (arith, length-skip r.rest)) (expect_byte_at c (skip r.rest) (skip_whitespace r) refl)

pub Ends-push_level : (r : Reader) → Ends 0 r (push_level r)
unfolding push_level fail
Ends-push_level r = ground arith

pub Ends-begin_object : (r : Reader) → Ends 1 r (begin_object r)
unfolding begin_object
Ends-begin_object r =
    Ends-bind 1 0 (expect b'{') (λ _. push_level) r (Ends-expect b'{' r) (λ _ s. Ends-push_level s)

pub Ends-begin_array : (r : Reader) → Ends 1 r (begin_array r)
unfolding begin_array
Ends-begin_array r =
    Ends-bind 1 0 (expect b'[') (λ _. push_level) r (Ends-expect b'[' r) (λ _ s. Ends-push_level s)

pub Ends-separator : (r : Reader) → Ends 0 r (separator r)
unfolding separator
Ends-separator r =
    Ends-if (get_or r.first (r.depth - 1) false) 0 r _ (expect b',' r) (omega arith)
      (Ends-mono 1 0 r r (expect b',' r) (omega arith) (Ends-expect b',' r))

document_end_at :
    (text : Bytes) (r s : Reader)
    → length r.rest ≤ length s.rest
    → Ends 0 s (elim text [
      | [] ↦ ok (tt {0}) r
      | _ ∷ _ ↦ fail malformed_json (codes "unexpected content after document") r
    ])
unfolding fail
document_end_at [] r s h = omega (arith, h)
document_end_at (_ ∷ _) r s h = tt

pub Ends-at_document_end : (r : Reader) → Ends 0 r (at_document_end r)
unfolding at_document_end
Ends-at_document_end r = document_end_at (skip r.rest) (skip_whitespace r) r (length-skip r.rest)

pub Ends-at_null : (r : Reader) → Ends 0 r (at_null r)
unfolding at_null
Ends-at_null r = omega (arith, length-skip r.rest)

pub Ends-read_null : (r : Reader) → Ends 0 r (read_null r)
unfolding read_null at_null fail
Ends-read_null r = ground (arith, length-skip r.rest, length-drop 4 (skip r.rest))

pub Ends-read_bool : (r : Reader) → Ends 0 r (read_bool r)
unfolding read_bool peek fail
Ends-read_bool r =
    ground (arith, length-skip r.rest, length-drop 4 (skip r.rest), length-drop 5 (skip r.rest))

element_at :
    (text : Bytes) (r s : Reader)
    → length text ≤ length s.rest
    → Ends 0 s (element_from (head text) (record r { rest = text }))
unfolding element_from
element_at [] r s l = tt
element_at (c ∷ cs) r s l =
    let here : Reader = record r { rest = c ∷ cs } in
    Ends-choose (c == b']') 0 here s (λ r. ok false (close_level r)) (separator >> pure true)
      (omega (arith, l))
      (Ends-mono 0 0 here s ((separator >> pure true) here) (omega (arith, l))
        (Ends-bind 0 0 separator (λ _. pure true) here (Ends-separator here) (λ _ u. omega arith)))

pub Ends-next_element : (r : Reader) → Ends 0 r (next_element r)
unfolding next_element peek
Ends-next_element r = element_at (skip r.rest) r r (length-skip r.rest)

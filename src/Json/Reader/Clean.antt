-- ===== src/Json/Reader/Clean.antt =====
-- What a method of the reader leaves in `error_`: nothing where it succeeds, and a message that is
-- valid UTF-8 where it fails.
pub mod Calls
use executor_hotpath_cpp.Base.{
  ℕ, zero, suc, ◌-◌, ◌≡◌, refl, Bool, true, false, none, Bytes, if◌then◌else◌,
}
use executor_hotpath_cpp.Json.Reader.{
  Reader, M, Outcome, ok, bad, out_of_fuel, ◌>>=◌, fail, error_of, loop, Iter, next, done,
}
use executor_hotpath_cpp.Json.Reader.Loop.{After}
use executor_hotpath_cpp.Json.Utf8.{IsUtf8}
use executor_hotpath_cpp.Json.Utf8.Text.{IsAscii, IsAscii-IsUtf8}
use executor_hotpath_cpp.Wire.{DecodeErrorCode}

-- `Q` holds of a result.
abbrev pub Clean : {A : Type 0} → (A → Type 0) → Outcome A → Type 0
Clean Q (ok a r) = (r.error ≡ none) × Q a
Clean Q (bad r) = IsUtf8 (error_of r).message
Clean Q out_of_fuel = Unit

abbrev pub Any : {A : Type 0} → A → Type 0
Any _ = Unit

pub Clean-fail :
    (A : Type 0) (Q : A → Type 0) (c : DecodeErrorCode) (m : Bytes) (r : Reader)
    → r.error ≡ none
    → IsUtf8 m
    → Clean Q (fail {A = A} c m r)
unfolding fail
Clean-fail A Q c m r e u = rw e u

-- A message in ASCII.
pub Clean-fail_ascii :
    (A : Type 0) (Q : A → Type 0) (c : DecodeErrorCode) (m : Bytes) (r : Reader)
    → r.error ≡ none
    → IsAscii m
    → Clean Q (fail {A = A} c m r)
Clean-fail_ascii A Q c m r e a = Clean-fail A Q c m r e (IsAscii-IsUtf8 m a)

pub Clean-with :
    {A : Type 0} (Q R : A → Type 0) (o : Outcome A)
    → Clean Q o
    → ((a : A) (r : Reader) → o ≡ ok a r → R a)
    → Clean R o
Clean-with Q R (ok a r) (e, _) h = (e, h a r refl)
Clean-with Q R (bad r) c h = c
Clean-with Q R out_of_fuel c h = c

module _ {A B : Type 0} where
  bind_at :
      (Q : A → Type 0) (R : B → Type 0) (o : Outcome A) (f : A → M B)
      → Clean Q o
      → ((a : A) (s : Reader) → s.error ≡ none → Q a → Clean R (f a s))
      → Clean R (elim o [ ok a s ↦ f a s | bad s ↦ bad s | out_of_fuel ↦ out_of_fuel ])
  bind_at Q R (ok a s) f (e, q) rest = rest a s e q
  bind_at Q R (bad s) f c rest = c
  bind_at Q R out_of_fuel f c rest = tt

  pub Clean-bind :
      (Q : A → Type 0) (R : B → Type 0) (m : M A) (f : A → M B) (r : Reader)
      → Clean Q (m r)
      → ((a : A) (s : Reader) → s.error ≡ none → Q a → Clean R (f a s))
      → Clean R ((m >>= f) r)
  Clean-bind Q R m f r = bind_at Q R (m r) f

pub Clean-choose :
    {A : Type 0} (Q : A → Type 0) (b : Bool) (r : Reader) (x y : M A)
    → Clean Q (x r)
    → Clean Q (y r)
    → Clean Q ((if b then x else y) r)
Clean-choose Q true r x y c e = c
Clean-choose Q false r x y c e = e

pub Clean-if :
    {A : Type 0} (Q : A → Type 0) (b : Bool) (x y : Outcome A)
    → Clean Q x
    → Clean Q y
    → Clean Q (if b then x else y)
Clean-if Q true x y c e = c
Clean-if Q false x y c e = e

module _ {S A : Type 0} (Q : A → Type 0) (body : S → M (Iter S A))
    (cleans : (s : S) (r : Reader) → r.error ≡ none → Clean (After Any Q) (body s r)) where
  round_at :
      (fuel : ℕ) (o : Outcome (Iter S A))
      → Clean (After Any Q) o
      → ((t : S) (u : Reader) → u.error ≡ none → Clean Q (loop fuel body t u))
      → Clean Q (elim o [
        | ok i r' ↦ elim i [ next s' ↦ loop fuel body s' r' | done a ↦ ok a r' ]
        | bad r' ↦ bad r'
        | out_of_fuel ↦ out_of_fuel
      ])
  round_at fuel (ok (next t) u) (e, _) rec = rec t u e
  round_at fuel (ok (done a) u) (e, q) rec = (e, q)
  round_at fuel (bad u) c rec = c
  round_at fuel out_of_fuel c rec = tt

  pub Clean-loop : (fuel : ℕ) (s : S) (r : Reader) → r.error ≡ none → Clean Q (loop fuel body s r)
  unfolding loop
  Clean-loop zero s r e = tt
  Clean-loop (suc fuel) s r e =
      round_at fuel (body s r) (cleans s r e) (λ t u f. Clean-loop fuel t u f)

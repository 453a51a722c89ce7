-- ===== src/Protocol/Answer.antt =====
-- How the decoders of src/protocol.cpp go on: a value and the reader behind it, or an error. An
-- error is the reader's, or one that the protocol raises itself; either way the decoder returns it.
use executor_hotpath_cpp.Base.{ℕ, zero, suc, ◌≡◌, ap, none, some, Bytes}
use executor_hotpath_cpp.Json.Reader
use executor_hotpath_cpp.Json.Reader.{Reader, M, Outcome, error_of}
use executor_hotpath_cpp.Json.Strings.{next_member}
use executor_hotpath_cpp.Protocol.Frame.{Decoded, failure, exhausted}
use executor_hotpath_cpp.Wire.{DecodeErrorCode, DecodeError}

pub data Answer (A : Type 0) : Type 0 where
  answer : A → Reader → Answer A
  refused : DecodeError → Answer A
  out_of_fuel : Answer A

abbrev pub P : Type 0 → Type 0
P A = Reader → Answer A

abbrev pub pure : {A : Type 0} → A → P A
pure a r = answer a r

infixl 5 ◌>>=◌ ◌>>◌
abbrev pub ◌>>=◌ : {A B : Type 0} → P A → (A → P B) → P B
◌>>=◌ m f r = elim (m r) [
  | answer a r' ↦ f a r'
  | refused e ↦ refused e
  | out_of_fuel ↦ out_of_fuel
]

abbrev pub ◌>>◌ : {A B : Type 0} → P A → P B → P B
m >> k = m >>= λ _. k

abbrev pub refuse : {A : Type 0} → DecodeErrorCode → Bytes → P A
refuse c m r = refused (record { code = c; message = m })

-- A method of the reader; where it returns false the decoder returns `reader.error()`.
abbrev pub of_outcome : {A : Type 0} → Outcome A → Answer A
of_outcome (Reader.ok a r) = answer a r
of_outcome (Reader.bad r) = refused (error_of r)
of_outcome Reader.out_of_fuel = out_of_fuel

abbrev pub lift : {A : Type 0} → M A → P A
lift m r = of_outcome (m r)

-- The equation of a method that succeeds, and what is done with its result.
pub lift-bind :
    {A B : Type 0} (m : M A) (f : A → P B) (r : Reader) {a : A} {r' : Reader}
    → m r ≡ Reader.ok a r'
    → (lift m >>= f) r ≡ f a r'
lift-bind m f r e =
    ap
      (λ o. elim (of_outcome o) [
        | answer a r' ↦ f a r'
        | refused e ↦ refused e
        | out_of_fuel ↦ out_of_fuel
      ])
      e

pub answer-bind :
    {A B : Type 0} (m : P A) (f : A → P B) (r : Reader) {a : A} {r' : Reader}
    → m r ≡ answer a r'
    → (m >>= f) r ≡ f a r'
answer-bind m f r e =
    ap (λ o. elim o [ answer a r' ↦ f a r' | refused e ↦ refused e | out_of_fuel ↦ out_of_fuel ]) e

-- The end of a decoder.
abbrev pub decoded : {A : Type 0} → Answer (Decoded A) → Decoded A
decoded (answer a r) = a
decoded (refused e) = failure e
decoded out_of_fuel = exhausted

-- The `while (true)` over the members of an object, with the function for one field.
unfoldable pub members : {S : Type 0} → ℕ → (Bytes → S → P S) → S → P S
members zero field s r = out_of_fuel
members (suc fuel) field s r = elim (lift next_member r) [
  | answer key r' ↦ elim key [
    | none ↦ answer s r'
    | some k ↦ elim (field k s r') [
      | answer s' r'' ↦ members fuel field s' r''
      | refused e ↦ refused e
      | out_of_fuel ↦ out_of_fuel
    ]
  ]
  | refused e ↦ refused e
  | out_of_fuel ↦ out_of_fuel
]

-- ===== src/Protocol/Ends.antt =====
-- How much text the functions of src/protocol.cpp leave, with an answer in place of an outcome, and
-- the field of an ack.
pub mod Wake
pub mod Decode
use executor_hotpath_cpp.Base.{
  ℕ, zero, suc, ◌+◌, ◌≤◌, ◌<◌, ◌≡◌, ◌≢◌, refl, Bool, true, false, List, [], ◌∷◌, ◌++◌, Option, none,
  some, Bytes, codes, equal, arith, length, if◌then◌else◌, inl, inr, Option-cases, Bool-cases,
}
use executor_hotpath_cpp.Base.Int.{ℤ}
use executor_hotpath_cpp.Double.{Double}
use executor_hotpath_cpp.Json.Doubles.{read_double}
use executor_hotpath_cpp.Json.Numbers.{read_int}
use executor_hotpath_cpp.Json.Numbers.Ends.{Ends-read_int, Ends-read_double}
use executor_hotpath_cpp.Json.Reader
use executor_hotpath_cpp.Json.Reader.{
  Reader, M, Outcome, begin_array, begin_object, next_element, at_null, read_null, read_bool,
  at_document_end, start,
}
use executor_hotpath_cpp.Json.Reader.Ends.{
  Ends, Ends-next_element, Ends-begin_array, Ends-begin_object, Ends-at_document_end, Ends-at_null,
  Ends-read_null, Ends-read_bool,
}
use executor_hotpath_cpp.Json.Strings.{read_string, next_member}
use executor_hotpath_cpp.Json.Strings.Ends.{Ends-read_string, Ends-next_member}
use executor_hotpath_cpp.Protocol.Answer.{
  P, Answer, answer, refused, out_of_fuel, pure, ◌>>=◌, ◌>>◌, refuse, lift, of_outcome, members,
  decoded,
}
use executor_hotpath_cpp.Protocol.Decode.{
  RequiredField, finish, missing, decode, decode_wake_ack, decode_wake_message,
}
use executor_hotpath_cpp.Protocol.Decode.Fields.{
  State, read_direction, direction_of, read_status, status_of, read_reason, read_ack_field,
  read_bound, read_entry, read_range, read_ranges, read_price_ranges, read_wake_field,
}
use executor_hotpath_cpp.Protocol.Frame.{Decoded, value, failure, exhausted}
use executor_hotpath_cpp.Wire.{WakeMessage, WakeAck, PriceRange}

abbrev pub AnswerEnds : {A : Type 0} → ℕ → Reader → Answer A → Type 0
AnswerEnds k r (answer a r') = length r'.rest + k ≤ length r.rest
AnswerEnds k r (refused e) = Unit
AnswerEnds k r out_of_fuel = ⊥

AnswerEnds-of_outcome :
    {A : Type 0} (k : ℕ) (r : Reader) (o : Outcome A) → Ends k r o → AnswerEnds k r (of_outcome o)
AnswerEnds-of_outcome k r (Reader.ok a r') l = l
AnswerEnds-of_outcome k r (Reader.bad r') l = tt
AnswerEnds-of_outcome k r Reader.out_of_fuel l = l

pub AnswerEnds-mono :
    {A : Type 0} (j k : ℕ) (r s : Reader) (o : Answer A)
    → length r.rest + k ≤ length s.rest + j
    → AnswerEnds j r o
    → AnswerEnds k s o
AnswerEnds-mono j k r s (answer a r') h l = omega (arith, h, l)
AnswerEnds-mono j k r s (refused e) h l = tt
AnswerEnds-mono j k r s out_of_fuel h l = l

module _ {A B : Type 0} where
  answer_at :
      (j k : ℕ) (r : Reader) (o : Answer A) (f : A → P B)
      → AnswerEnds j r o
      → ((a : A) (s : Reader) → AnswerEnds k s (f a s))
      → AnswerEnds
          (j + k)
          r
          (elim o [ answer a s ↦ f a s | refused e ↦ refused e | out_of_fuel ↦ out_of_fuel ])
  answer_at j k r (answer a s) f l rest =
      AnswerEnds-mono k (j + k) s r (f a s) (omega (arith, l)) (rest a s)
  answer_at j k r (refused e) f l rest = tt
  answer_at j k r out_of_fuel f l rest = l

  pub AnswerEnds-bind :
      (j k : ℕ) (m : P A) (f : A → P B) (r : Reader)
      → AnswerEnds j r (m r)
      → ((a : A) (s : Reader) → AnswerEnds k s (f a s))
      → AnswerEnds (j + k) r ((m >>= f) r)
  AnswerEnds-bind j k m f r = answer_at j k r (m r) f

pub AnswerEnds-read_direction : (r : Reader) → AnswerEnds 0 r (read_direction r)
unfolding read_direction direction_of
AnswerEnds-read_direction r = ground (arith, Ends-read_string r)

AnswerEnds-read_status : (r : Reader) → AnswerEnds 0 r (read_status r)
unfolding read_status status_of
AnswerEnds-read_status r = ground (arith, Ends-read_string r)

pub AnswerEnds-choose :
    {A : Type 0} (b : Bool) (k : ℕ) (r : Reader) (x y : P A)
    → AnswerEnds k r (x r)
    → AnswerEnds k r (y r)
    → AnswerEnds k r ((if b then x else y) r)
AnswerEnds-choose true k r x y f g = f
AnswerEnds-choose false k r x y f g = g

pub AnswerEnds-lift :
    {A : Type 0} (k : ℕ) (m : M A) (r : Reader) → Ends k r (m r) → AnswerEnds k r (lift m r)
AnswerEnds-lift k m r = AnswerEnds-of_outcome k r (m r)

-- A member that is read and stored.
pub AnswerEnds-store :
    {A B : Type 0} (m : P A) (f : A → B) (r : Reader)
    → AnswerEnds 0 r (m r)
    → AnswerEnds 0 r ((m >>= (λ v. pure (f v))) r)
AnswerEnds-store m f r h = AnswerEnds-bind 0 0 m (λ v. pure (f v)) r h (λ v s. omega arith)

AnswerEnds-read_reason : (r : Reader) → AnswerEnds 0 r (read_reason r)
unfolding read_reason
AnswerEnds-read_reason r =
    AnswerEnds-bind 0 0 (lift at_null)
      (λ is_null.
        if is_null
        then (lift read_null >> pure none)
        else (lift read_string >>= (λ text. pure (some text))))
      r (AnswerEnds-lift 0 at_null r (Ends-at_null r))
      (λ is_null s.
        AnswerEnds-choose is_null 0 s (lift read_null >> pure none)
          (lift read_string >>= (λ text. pure (some text)))
          (AnswerEnds-store (lift read_null) (λ _. none) s
            (AnswerEnds-lift 0 read_null s (Ends-read_null s)))
          (AnswerEnds-store (lift read_string) (λ text. some text) s
            (AnswerEnds-lift 0 read_string s (Ends-read_string s))))

pub AnswerEnds-read_ack_field :
    (key : Bytes) (s : State WakeAck) (r : Reader) → AnswerEnds 0 r (read_ack_field key s r)
unfolding read_ack_field
AnswerEnds-read_ack_field key s r =
    ground (
      arith,
      Ends-read_string r,
      Ends-read_int r,
      AnswerEnds-read_status r,
      AnswerEnds-read_reason r,
    )

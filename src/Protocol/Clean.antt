-- ===== src/Protocol/Clean.antt =====
-- The errors of the functions of src/protocol.cpp are valid UTF-8, so that they can be sent in an ack.
pub mod Wake
pub mod Decode
use executor_hotpath_cpp.Base.{
  ℕ, zero, suc, ◌≡◌, refl, Bool, true, false, List, [], ◌∷◌, ◌++◌, Option, none, some, Bytes, codes,
  equal, arith, if◌then◌else◌,
}
use executor_hotpath_cpp.Base.Int.{ℤ}
use executor_hotpath_cpp.Json.Numbers.{read_int}
use executor_hotpath_cpp.Json.Numbers.Clean.{Clean-read_int}
use executor_hotpath_cpp.Json.Reader
use executor_hotpath_cpp.Json.Reader.{Reader, M, Outcome, at_null, read_null}
use executor_hotpath_cpp.Json.Reader.Clean.{Clean, Any}
use executor_hotpath_cpp.Json.Reader.Clean.Calls.{Clean-at_null, Clean-read_null}
use executor_hotpath_cpp.Json.Strings.{read_string}
use executor_hotpath_cpp.Json.Strings.Clean.{Clean-read_string}
use executor_hotpath_cpp.Json.Utf8.{IsUtf8}
use executor_hotpath_cpp.Json.Utf8.Text.{IsAscii, IsAscii-IsUtf8, IsUtf8-append}
use executor_hotpath_cpp.Protocol.Answer.{
  P, Answer, answer, refused, out_of_fuel, pure, ◌>>=◌, ◌>>◌, refuse, lift, of_outcome,
}
use executor_hotpath_cpp.Protocol.Decode.Fields.{
  State, read_direction, direction_of, read_status, status_of, read_reason, read_ack_field,
}
use executor_hotpath_cpp.Wire.{WakeAck, Direction, WakeAckStatus, unknown_field, unknown_enum_value}

abbrev pub CleanAnswer : {A : Type 0} → (A → Type 0) → Answer A → Type 0
CleanAnswer Q (answer a r) = (r.error ≡ none) × Q a
CleanAnswer Q (refused e) = IsUtf8 e.message
CleanAnswer Q out_of_fuel = Unit

CleanAnswer-of_outcome :
    {A : Type 0} (Q : A → Type 0) (o : Outcome A) → Clean Q o → CleanAnswer Q (of_outcome o)
CleanAnswer-of_outcome Q (Reader.ok a r) c = c
CleanAnswer-of_outcome Q (Reader.bad r) c = c
CleanAnswer-of_outcome Q Reader.out_of_fuel c = c

pub CleanAnswer-lift :
    {A : Type 0} (Q : A → Type 0) (m : M A) (r : Reader) → Clean Q (m r) → CleanAnswer Q (lift m r)
CleanAnswer-lift Q m r = CleanAnswer-of_outcome Q (m r)

module _ {A B : Type 0} where
  answer_at :
      (Q : A → Type 0) (R : B → Type 0) (o : Answer A) (f : A → P B)
      → CleanAnswer Q o
      → ((a : A) (s : Reader) → s.error ≡ none → Q a → CleanAnswer R (f a s))
      → CleanAnswer R
          (elim o [ answer a s ↦ f a s | refused e ↦ refused e | out_of_fuel ↦ out_of_fuel ])
  answer_at Q R (answer a s) f (e, q) rest = rest a s e q
  answer_at Q R (refused e) f c rest = c
  answer_at Q R out_of_fuel f c rest = tt

  pub CleanAnswer-bind :
      (Q : A → Type 0) (R : B → Type 0) (m : P A) (f : A → P B) (r : Reader)
      → CleanAnswer Q (m r)
      → ((a : A) (s : Reader) → s.error ≡ none → Q a → CleanAnswer R (f a s))
      → CleanAnswer R ((m >>= f) r)
  CleanAnswer-bind Q R m f r = answer_at Q R (m r) f

pub CleanAnswer-choose :
    {A : Type 0} (Q : A → Type 0) (b : Bool) (r : Reader) (x y : P A)
    → CleanAnswer Q (x r)
    → CleanAnswer Q (y r)
    → CleanAnswer Q ((if b then x else y) r)
CleanAnswer-choose Q true r x y c e = c
CleanAnswer-choose Q false r x y c e = e

-- A message with a text of the document behind it.
pub with_text : (m text : Bytes) → IsAscii m → IsUtf8 text → IsUtf8 (m ++ text)
with_text m text a u = IsUtf8-append text (IsAscii-IsUtf8 m a) u

pub CleanAnswer-read_direction : (r : Reader) → r.error ≡ none → CleanAnswer Any (read_direction r)
unfolding read_direction direction_of
CleanAnswer-read_direction r e =
    CleanAnswer-bind IsUtf8 Any (lift read_string) direction_of r
      (CleanAnswer-lift IsUtf8 read_string r (Clean-read_string r e))
      (λ text s e u.
        ground
          (arith, e, with_text (codes "direction must be yes or no, got ") text (omega arith) u))

CleanAnswer-read_status : (r : Reader) → r.error ≡ none → CleanAnswer Any (read_status r)
unfolding read_status status_of
CleanAnswer-read_status r e =
    CleanAnswer-bind IsUtf8 Any (lift read_string) status_of r
      (CleanAnswer-lift IsUtf8 read_string r (Clean-read_string r e))
      (λ text s e u. ground (
        arith,
        e,
        with_text (codes "status must be accepted or rejected, got ") text (omega arith) u,
      ))

-- A member that is read and stored.
pub CleanAnswer-store :
    {A B : Type 0} (Q : A → Type 0) (R : B → Type 0) (m : P A) (f : A → B) (r : Reader)
    → CleanAnswer Q (m r)
    → ((a : A) → Q a → R (f a))
    → CleanAnswer R ((m >>= (λ v. pure (f v))) r)
CleanAnswer-store Q R m f r c h =
    CleanAnswer-bind Q R m (λ v. pure (f v)) r c (λ v s e q. (e, h v q))

CleanAnswer-read_reason : (r : Reader) → r.error ≡ none → CleanAnswer Any (read_reason r)
unfolding read_reason
CleanAnswer-read_reason r e =
    CleanAnswer-bind Any Any (lift at_null)
      (λ is_null.
        if is_null
        then (lift read_null >> pure none)
        else (lift read_string >>= (λ text. pure (some text))))
      r (CleanAnswer-lift Any at_null r (Clean-at_null r e))
      (λ is_null s e _.
        CleanAnswer-choose Any is_null s (lift read_null >> pure none)
          (lift read_string >>= (λ text. pure (some text)))
          (CleanAnswer-store Any Any (lift read_null) (λ _. none) s
            (CleanAnswer-lift Any read_null s (Clean-read_null s e)) (λ _ _. tt))
          (CleanAnswer-store IsUtf8 Any (lift read_string) (λ text. some text) s
            (CleanAnswer-lift IsUtf8 read_string s (Clean-read_string s e)) (λ _ _. tt)))

pub CleanAnswer-read_ack_field :
    (key : Bytes) (s : State WakeAck) (r : Reader)
    → r.error ≡ none
    → IsUtf8 key
    → CleanAnswer Any (read_ack_field key s r)
unfolding read_ack_field
CleanAnswer-read_ack_field key s r e u = ground (
  arith,
  e,
  CleanAnswer-lift IsUtf8 read_string r (Clean-read_string r e),
  CleanAnswer-lift Any read_int r (Clean-read_int r e),
  CleanAnswer-read_status r e,
  CleanAnswer-read_reason r e,
  with_text (codes "unexpected field: ") key (omega arith) u,
)

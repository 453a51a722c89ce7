-- ===== src/Protocol/Ends/Decode.antt =====
-- The decoders of src/protocol.cpp and the fuel of their loop over the members.
use executor_hotpath_cpp.Base.{
  ℕ, zero, suc, ◌+◌, ◌≤◌, ◌<◌, ◌≡◌, ◌≢◌, refl, List, [], ◌∷◌, Option, none, some, Bytes, arith,
  length,
}
use executor_hotpath_cpp.Double.{Double}
use executor_hotpath_cpp.Json.Reader.{Reader, begin_object, at_document_end, start}
use executor_hotpath_cpp.Json.Reader.Ends.{Ends-begin_object, Ends-at_document_end}
use executor_hotpath_cpp.Json.Strings.{next_member}
use executor_hotpath_cpp.Json.Strings.Ends.{Ends-next_member}
use executor_hotpath_cpp.Protocol.Answer.{
  P, Answer, answer, refused, out_of_fuel, lift, members, decoded,
}
use executor_hotpath_cpp.Protocol.Decode.{
  RequiredField, finish, missing, decode, decode_wake_ack, decode_wake_message, wake_ack_required,
  wake_message_required,
}
use executor_hotpath_cpp.Protocol.Decode.Fields.{
  Seen, State, none_seen, read_ack_field, read_wake_field,
}
use executor_hotpath_cpp.Protocol.Ends.{
  AnswerEnds, AnswerEnds-mono, AnswerEnds-lift, AnswerEnds-read_ack_field,
}
use executor_hotpath_cpp.Protocol.Ends.Wake.{AnswerEnds-read_wake_field}
use executor_hotpath_cpp.Protocol.Frame.{Decoded, exhausted}
use executor_hotpath_cpp.Wire.{default_ack, default_message}

module _ {A : Type 0} (field : Bytes → State A → P (State A))
    (ends : (key : Bytes) (s : State A) (r : Reader) → AnswerEnds 0 r (field key s r)) where
  after_field :
      (fuel : ℕ) (u r : Reader) (o : Answer (State A))
      → AnswerEnds 0 u o
      → length u.rest < fuel
      → length u.rest ≤ length r.rest
      → ((s : State A) (v : Reader)
          → length v.rest < fuel
          → AnswerEnds 0 v (members fuel field s v))
      → AnswerEnds 0 r (elim o [
        | answer s' r'' ↦ members fuel field s' r''
        | refused e ↦ refused e
        | out_of_fuel ↦ out_of_fuel
      ])
  after_field fuel u r (answer s v) l h k rec =
      AnswerEnds-mono 0 0 v r (members fuel field s v) (omega (arith, l, k))
        (rec s v (omega (arith, l, h)))
  after_field fuel u r (refused e) l h k rec = tt
  after_field fuel u r out_of_fuel l h k rec = l

  after_member :
      (fuel : ℕ) (s : State A) (r : Reader) (o : Answer (Option Bytes))
      → AnswerEnds 1 r o
      → length r.rest < suc fuel
      → ((s : State A) (v : Reader)
          → length v.rest < fuel
          → AnswerEnds 0 v (members fuel field s v))
      → lift next_member r ≡ o
      → AnswerEnds 0 r (members (suc fuel) field s r)
  unfolding members
  after_member fuel s r (answer none u) l h rec e = rw (e, members) (omega (arith, l))
  after_member fuel s r (answer (some key) u) l h rec e =
      rw (e, members)
        (after_field fuel u r (field key s u) (ends key s u) (omega (arith, l, h))
          (omega (arith, l)) rec)
  after_member fuel s r (refused x) l h rec e = rw (e, members) tt
  after_member fuel s r out_of_fuel l h rec e = absurd l

  AnswerEnds-members :
      (fuel : ℕ) (s : State A) (r : Reader)
      → length r.rest < fuel
      → AnswerEnds 0 r (members fuel field s r)
  AnswerEnds-members zero s r h = absurd (omega (arith, h))
  AnswerEnds-members (suc fuel) s r h =
      after_member fuel s r (lift next_member r)
        (AnswerEnds-lift 1 next_member r (Ends-next_member r)) h
        (λ t v l. AnswerEnds-members fuel t v l) refl

missing_lem :
    (A : Type 0) (seen : Seen) (fields : List RequiredField)
    → missing {A = A} seen fields ≢ exhausted
unfolding missing
missing_lem A seen [] e = cc e
missing_lem A seen ((bit, name) ∷ fields) e = ground (arith, e, missing_lem A seen fields)

finish_lem : (A : Type 0) (fields : List RequiredField) (s : State A) → finish fields s ≢ exhausted
unfolding finish
finish_lem A fields s e = ground (arith, e, missing_lem A s.seen fields)

-- A result that is a value or an error.
abbrev Decides : {A : Type 0} → Answer (Decoded A) → Type 0
Decides (answer d r) = d ≢ exhausted
Decides (refused e) = Unit
Decides out_of_fuel = ⊥

decided : {A : Type 0} (o : Answer (Decoded A)) → Decides o → decoded o ≢ exhausted
decided (answer d r) n e = n e
decided (refused x) n e = cc e
decided out_of_fuel n e = n

Decides-bind :
    {A B : Type 0} (j : ℕ) (r : Reader) (o : Answer B) (f : B → P (Decoded A))
    → AnswerEnds j r o
    → ((b : B) (s : Reader) → length s.rest + j ≤ length r.rest → Decides (f b s))
    → Decides (elim o [ answer b s ↦ f b s | refused e ↦ refused e | out_of_fuel ↦ out_of_fuel ])
Decides-bind j r (answer b s) f l rest = rest b s l
Decides-bind j r (refused e) f l rest = tt
Decides-bind j r out_of_fuel f l rest = l

-- Whatever the body is, a decoder returns a value or an error: no loop runs out of fuel.
pub decode_ends :
    {A : Type 0} (field : Bytes → State A → P (State A)) (required : List RequiredField)
    (default : A) (body : Bytes)
    → ((key : Bytes) (s : State A) (r : Reader) → AnswerEnds 0 r (field key s r))
    → decode field required default body ≢ exhausted
unfolding decode
decode_ends {A} field required default body ends = decided _ (
    Decides-bind 1 (start body) (lift begin_object (start body)) _
      (AnswerEnds-lift 1 begin_object (start body) (Ends-begin_object (start body)))
      (λ _ r l.
        Decides-bind 0 r
          (members (suc (length body)) field (record { message = default; seen = none_seen }) r) _
          (AnswerEnds-members field ends (suc (length body))
            (record { message = default; seen = none_seen }) r (omega (arith, l)))
          (λ s u _.
            Decides-bind 0 u (lift at_document_end u) _
              (AnswerEnds-lift 0 at_document_end u (Ends-at_document_end u))
              (λ _ v _. finish_lem A required s))))

-- Every body decodes to an ack or is refused with an error.
pub decode_wake_ack-ends : (body : Bytes) → decode_wake_ack body ≢ exhausted
unfolding decode_wake_ack
decode_wake_ack-ends body =
    decode_ends read_ack_field wake_ack_required default_ack body AnswerEnds-read_ack_field

-- Every body decodes to a wake message or is refused with an error, whatever a double is and however
-- its text is read: the loops over the members and the price ranges end within their fuel.
pub decode_wake_message-ends :
    (D : Type 0) ⦃d : Double D⦄ (body : Bytes) → decode_wake_message {D = D} body ≢ exhausted
unfolding decode_wake_message
decode_wake_message-ends D ⦃d⦄ body =
    decode_ends read_wake_field wake_message_required
      (default_message d.zero_double d.one_double d.cent) body
      (λ key s r. AnswerEnds-read_wake_field D r key s)

-- ===== src/Protocol/Clean/Decode.antt =====
-- What the decoders of src/protocol.cpp return is valid UTF-8 where an ack needs it.
use executor_hotpath_cpp.Base.{
  ℕ, zero, suc, ◌≡◌, refl, Bool-cases, inl, inr, List, [], ◌∷◌, Option, none, some, Bytes, codes,
  arith, length, All,
}
use executor_hotpath_cpp.Double.{Double}
use executor_hotpath_cpp.Json.Reader.{Reader, begin_object, at_document_end, start}
use executor_hotpath_cpp.Json.Reader.Clean.{Any}
use executor_hotpath_cpp.Json.Reader.Clean.Calls.{Clean-begin_object, Clean-at_document_end}
use executor_hotpath_cpp.Json.Strings.{next_member}
use executor_hotpath_cpp.Json.Strings.Clean.{IsKey, Clean-next_member}
use executor_hotpath_cpp.Json.Utf8.{IsUtf8, nil}
use executor_hotpath_cpp.Json.Utf8.Text.{IsAscii, IsAscii-IsUtf8}
use executor_hotpath_cpp.Protocol.Answer.{
  P, Answer, answer, refused, out_of_fuel, lift, members, decoded,
}
use executor_hotpath_cpp.Protocol.Clean.{
  CleanAnswer, CleanAnswer-lift, CleanAnswer-bind, CleanAnswer-read_ack_field, with_text,
}
use executor_hotpath_cpp.Protocol.Clean.Wake.{CleanAnswer-read_wake_field}
use executor_hotpath_cpp.Protocol.Decode.{
  RequiredField, all_seen, has, missing, finish, decode, decode_wake_message, decode_wake_ack,
  wake_message_required, wake_ack_required,
}
use executor_hotpath_cpp.Protocol.Decode.Fields.{
  Seen, State, none_seen, read_wake_field, read_ack_field,
}
use executor_hotpath_cpp.Protocol.Frame.{Decoded, value, failure, exhausted}
use executor_hotpath_cpp.Wire.{default_message, default_ack}

-- The message of a refusal is valid UTF-8, and `Q` holds of a value.
abbrev pub CleanDecoded : {A : Type 0} → (A → Type 0) → Decoded A → Type 0
CleanDecoded Q (value a) = Q a
CleanDecoded Q (failure e) = IsUtf8 e.message
CleanDecoded Q exhausted = Unit

module _ {A : Type 0} (Q : State A → Type 0) (field : Bytes → State A → P (State A))
    (cleans : (key : Bytes) (s : State A) (r : Reader)
      → r.error ≡ none
      → IsUtf8 key
      → Q s
      → CleanAnswer Q (field key s r)) where
  after_field :
      (fuel : ℕ) (o : Answer (State A))
      → CleanAnswer Q o
      → ((s : State A) (v : Reader) → v.error ≡ none → Q s → CleanAnswer Q (members fuel field s v))
      → CleanAnswer Q (elim o [
        | answer s' r'' ↦ members fuel field s' r''
        | refused e ↦ refused e
        | out_of_fuel ↦ out_of_fuel
      ])
  after_field fuel (answer s v) (e, q) rec = rec s v e q
  after_field fuel (refused x) c rec = c
  after_field fuel out_of_fuel c rec = tt

  after_member :
      (fuel : ℕ) (s : State A) (r : Reader) (o : Answer (Option Bytes))
      → CleanAnswer IsKey o
      → Q s
      → ((s : State A) (v : Reader) → v.error ≡ none → Q s → CleanAnswer Q (members fuel field s v))
      → lift next_member r ≡ o
      → CleanAnswer Q (members (suc fuel) field s r)
  unfolding members
  after_member fuel s r (answer none u) (c, _) q rec e = rw (e, members) (c, q)
  after_member fuel s r (answer (some key) u) (c, k) q rec e =
      rw (e, members) (after_field fuel (field key s u) (cleans key s u c k q) rec)
  after_member fuel s r (refused x) c q rec e = rw (e, members) c
  after_member fuel s r out_of_fuel c q rec e = rw (e, members) tt

  CleanAnswer-members :
      (fuel : ℕ) (s : State A) (r : Reader)
      → r.error ≡ none
      → Q s
      → CleanAnswer Q (members fuel field s r)
  unfolding members
  CleanAnswer-members zero s r e q = tt
  CleanAnswer-members (suc fuel) s r e q =
      after_member fuel s r (lift next_member r)
        (CleanAnswer-lift IsKey next_member r (Clean-next_member r e)) q
        (λ t v e q. CleanAnswer-members fuel t v e q) refl

-- The names of the required fields are ASCII.
abbrev IsNamed : RequiredField → Type 0
IsNamed (_, name) = IsAscii name

missing-CleanDecoded :
    {A : Type 0} (R : A → Type 0) (seen : Seen) (fields : List RequiredField)
    → All IsNamed fields
    → CleanDecoded R (missing seen fields)
unfolding missing
missing-CleanDecoded R seen [] a = IsAscii-IsUtf8 (codes "missing required field") (omega arith)
missing-CleanDecoded R seen ((bit, name) ∷ fields) (n, a) = elim (Bool-cases (has seen bit)) [
  | inl e ↦ rw e (missing-CleanDecoded R seen fields a)
  | inr e ↦
      rw e (with_text (codes "missing required field: ") name (omega arith) (IsAscii-IsUtf8 name n))
]

module _ {A : Type 0} (R : A → Type 0) where
  finish-CleanDecoded :
      (fields : List RequiredField) (s : State A)
      → All IsNamed fields
      → R s.message
      → CleanDecoded R (finish fields s)
  unfolding finish
  finish-CleanDecoded fields s a q = elim (Bool-cases (all_seen s.seen fields)) [
    | inl e ↦ rw e q
    | inr e ↦ rw e (missing-CleanDecoded R s.seen fields a)
  ]

  decoded-CleanDecoded :
      (o : Answer (Decoded A)) → CleanAnswer (CleanDecoded R) o → CleanDecoded R (decoded o)
  decoded-CleanDecoded (answer d r) (_, c) = c
  decoded-CleanDecoded (refused e) c = c
  decoded-CleanDecoded out_of_fuel c = tt

  decode-CleanDecoded :
      (field : Bytes → State A → P (State A)) (required : List RequiredField) (default : A)
      (body : Bytes)
      → ((key : Bytes) (s : State A) (r : Reader)
          → r.error ≡ none
          → IsUtf8 key
          → R s.message
          → CleanAnswer (λ s. R s.message) (field key s r))
      → All IsNamed required
      → R default
      → CleanDecoded R (decode field required default body)
  unfolding decode
  decode-CleanDecoded field required default body cleans a q =
      let Q : State A → Type 0 = λ s. R s.message in
      let first : State A = record { message = default; seen = none_seen } in
      decoded-CleanDecoded _ (
        CleanAnswer-bind Any (CleanDecoded R) (lift begin_object) _ (start body)
          (CleanAnswer-lift Any begin_object (start body) (Clean-begin_object (start body) refl))
          (λ _ r e _.
            CleanAnswer-bind Q (CleanDecoded R) (members (suc (length body)) field first) _ r
              (CleanAnswer-members Q field cleans (suc (length body)) first r e q)
              (λ s u e q.
                CleanAnswer-bind Any (CleanDecoded R) (lift at_document_end) _ u
                  (CleanAnswer-lift Any at_document_end u (Clean-at_document_end u e))
                  (λ _ v e _. (e, finish-CleanDecoded required s a q)))))

-- Whatever the body is, the message of a refusal is valid UTF-8, and so is the correlation id of a
-- message that is decoded: every byte of the document that gets into either has passed the validation
-- of a string, is ASCII, or is spelled in hex.
pub decode_wake_message-CleanDecoded :
    (D : Type 0) ⦃d : Double D⦄ (body : Bytes)
    → CleanDecoded (λ m. IsUtf8 m.correlation_id) (decode_wake_message {D = D} body)
unfolding decode_wake_message
decode_wake_message-CleanDecoded D ⦃d⦄ body =
    decode-CleanDecoded (λ m. IsUtf8 m.correlation_id) read_wake_field wake_message_required
      (default_message d.zero_double d.one_double d.cent) body
      (λ key s r e u i. CleanAnswer-read_wake_field D r e key s u i) (omega arith) nil

-- The same of an ack, whose values are not looked at.
decode_wake_ack-CleanDecoded : (body : Bytes) → CleanDecoded Any (decode_wake_ack body)
unfolding decode_wake_ack
decode_wake_ack-CleanDecoded body =
    decode-CleanDecoded Any read_ack_field wake_ack_required default_ack body
      (λ key s r e u _. CleanAnswer-read_ack_field key s r e u) (omega arith) tt

-- ===== src/Protocol/AckRoundTrip.antt =====
-- `decode_wake_ack` on the body that `encode_frame_into` writes for an ack.
use executor_hotpath_cpp.Base.{
  ℕ, suc, true, false, [], ◌∷◌, ◌++◌, ◌≡◌, refl, ◌∙◌, append_assoc, Option, none, some, Bytes,
  codes, arith, equal,
}
use executor_hotpath_cpp.Base.Int.{ℤ, IsI64}
use executor_hotpath_cpp.Json.Reader
use executor_hotpath_cpp.Json.Reader.{
  Reader, start, begin_object, at_null, read_null, skip, peek, tail,
}
use executor_hotpath_cpp.Json.Numbers.{read_int}
use executor_hotpath_cpp.Json.Strings.{read_string}
use executor_hotpath_cpp.Json.Utf8.{IsUtf8}
use executor_hotpath_cpp.Json.Utf8.Text.{IsAscii-IsUtf8}
use executor_hotpath_cpp.Json.Writer.{append, to_chars, append_int, escaped}
use executor_hotpath_cpp.Json.Writer.Ints.{read_int-to_chars}
use executor_hotpath_cpp.Json.Writer.RoundTrip.{escapes, append_string-escapes, read_string-escapes}
use executor_hotpath_cpp.Protocol.Answer.{answer, pure, answer-bind, lift-bind, members}
use executor_hotpath_cpp.Protocol.Decode.{decode_wake_ack, all_seen, wake_ack_required}
use executor_hotpath_cpp.Protocol.Decode.Run.{decode_of}
use executor_hotpath_cpp.Protocol.Decode.Fields.{
  State, mark, none_seen, status_of, read_status, read_reason, read_ack_field, with_required,
  with_message,
}
use executor_hotpath_cpp.Protocol.Encode.{encode_ack_body, name_of_status, append_reason}
use executor_hotpath_cpp.Protocol.Frame.{value}
use executor_hotpath_cpp.Protocol.Members.{
  key_text, inside, first_member, later_member, last_member, plain,
}
use executor_hotpath_cpp.Wire.{WakeAckStatus, accepted, rejected, WakeAck, default_ack}

-- The pieces of a body, each in front of what follows it.
abbrev string_text : Bytes → Bytes → Bytes
string_text s t = b'"' ∷ escapes s ++ b'"' ∷ t

abbrev reason_text : Option Bytes → Bytes → Bytes
reason_text none t = codes "null" ++ t
reason_text (some s) t = string_text s t

module _ (ack : WakeAck) where
  abbrev pub reason_part : Bytes
  reason_part = key_text (codes "reason") (reason_text ack.reason (b'}' ∷ []))

  abbrev pub status_part : Bytes
  status_part =
      key_text (codes "status") (string_text (name_of_status ack.status) (b',' ∷ reason_part))

  abbrev pub received_part : Bytes
  received_part =
      key_text (codes "received_at_ms") (to_chars ack.received_at_ms ++ b',' ∷ status_part)

  abbrev pub id_part : Bytes
  id_part =
      key_text (codes "correlation_id") (string_text ack.correlation_id (b',' ∷ received_part))

  abbrev pub body_text : Bytes
  body_text =
      b'{' ∷ key_text (codes "schema_version") (to_chars ack.schema_version ++ b',' ∷ id_part)

append_reason-text :
    (out t : Bytes) (reason : Option Bytes)
    → append_reason out reason ++ t ≡ out ++ reason_text reason t
unfolding append_reason append
append_reason-text out t none = append_assoc out (codes "null") t
append_reason-text out t (some s) =
    rw (append_string-escapes) (append_assoc out _ t ∙ rw append_assoc)

pub encode_ack_body-text : (ack : WakeAck) → encode_ack_body ack ≡ body_text ack
unfolding encode_ack_body append append_int
encode_ack_body-text ack = simp (append_reason-text, append_string-escapes, append_assoc) refl

-- Each field, where the text of its value is read.
module _ (s : State WakeAck) (r : Reader) {r' : Reader} where
  field_version :
      {v : ℤ}
      → read_int r ≡ Reader.ok v r'
      → read_ack_field (codes "schema_version") s r
        ≡ answer (with_required 0 s (record s.message { schema_version = v })) r'
  unfolding read_ack_field equal
  field_version e = lift-bind read_int _ r e

  field_id :
      {v : Bytes}
      → read_string r ≡ Reader.ok v r'
      → read_ack_field (codes "correlation_id") s r
        ≡ answer (with_required 1 s (record s.message { correlation_id = v })) r'
  unfolding read_ack_field equal
  field_id e = lift-bind read_string _ r e

  field_received :
      {v : ℤ}
      → read_int r ≡ Reader.ok v r'
      → read_ack_field (codes "received_at_ms") s r
        ≡ answer (with_required 12 s (record s.message { received_at_ms = v })) r'
  unfolding read_ack_field equal
  field_received e = lift-bind read_int _ r e

read_status-name :
    (v : WakeAckStatus) (t : Bytes) (r : Reader)
    → read_status (record r { rest = string_text (name_of_status v) t })
      ≡ answer v (record r { rest = t })
unfolding read_status equal
read_status-name accepted t r =
    lift-bind read_string status_of _
      (read_string-escapes t r (IsAscii-IsUtf8 (codes "accepted") (omega arith)))
read_status-name rejected t r =
    lift-bind read_string status_of _
      (read_string-escapes t r (IsAscii-IsUtf8 (codes "rejected") (omega arith)))

abbrev pub IsReason : Option Bytes → Type 0
IsReason none = Unit
IsReason (some s) = IsUtf8 s

read_reason-text :
    (v : Option Bytes) (t : Bytes) (r : Reader)
    → IsReason v
    → read_reason (record r { rest = reason_text v t }) ≡ answer v (record r { rest = t })
unfolding read_reason at_null read_null skip
read_reason-text none t r u = refl
read_reason-text (some x) t r u =
    lift-bind read_string (λ text. pure (some text)) _ (read_string-escapes t r u)

module _ (s : State WakeAck) (t : Bytes) (r : Reader) where
  field_status :
      (v : WakeAckStatus)
      → read_ack_field (codes "status") s (record r { rest = string_text (name_of_status v) t })
        ≡ answer (with_required 13 s (record s.message { status = v })) (record r { rest = t })
  unfolding read_ack_field equal
  field_status v = answer-bind read_status _ _ (read_status-name v t r)

  field_reason :
      (v : Option Bytes)
      → IsReason v
      → read_ack_field (codes "reason") s (record r { rest = reason_text v t })
        ≡ answer (with_message s (record s.message { reason = v })) (record r { rest = t })
  unfolding read_ack_field equal
  field_reason v u = answer-bind read_reason _ _ (read_reason-text v t r u)

-- What a field of the ack has to be, to be an `std::int64_t` or UTF-8.
pub record IsAck (ack : WakeAck) : Type 0 where
  pub version : IsI64 ack.schema_version
  pub id : IsUtf8 ack.correlation_id
  pub received : IsI64 ack.received_at_ms
  pub reason : IsReason ack.reason

-- The loop over the five members and the closing brace: six rounds.
members-body :
    (ack : WakeAck) (fuel : ℕ)
    → IsAck ack
    → members
        (suc (suc (suc (suc (suc (suc fuel))))))
        read_ack_field
        (record { message = default_ack; seen = none_seen })
        (inside true (tail (body_text ack)))
      ≡ answer
          (record { message = ack; seen = mark 13 (mark 12 (mark 1 (mark 0 none_seen))) })
          (record (inside false []) { depth = 0 })
unfolding escaped
members-body ack fuel ok =
    first_member read_ack_field _ _ (plain (codes "schema_version") (omega arith) refl) (
      field_version _ _ (
        read_int-to_chars ack.schema_version (b',' ∷ id_part ack) (inside false []) ok.version
          refl))
    ∙ later_member read_ack_field _ _ (plain (codes "correlation_id") (omega arith) refl)
        (field_id _ _ (read_string-escapes (b',' ∷ received_part ack) (inside false []) ok.id))
    ∙ later_member read_ack_field _ _ (plain (codes "received_at_ms") (omega arith) refl) (
        field_received _ _ (
          read_int-to_chars ack.received_at_ms (b',' ∷ status_part ack) (inside false [])
            ok.received refl))
    ∙ later_member read_ack_field _ _ (plain (codes "status") (omega arith) refl)
        (field_status _ (b',' ∷ reason_part ack) (inside false []) ack.status)
    ∙ later_member read_ack_field _ _ (plain (codes "reason") (omega arith) refl)
        (field_reason _ (b'}' ∷ []) (inside false []) ack.reason ok.reason)
    ∙ last_member read_ack_field fuel _

decode-body_text : (ack : WakeAck) → IsAck ack → decode_wake_ack (body_text ack) ≡ value ack
unfolding decode_wake_ack begin_object skip peek all_seen
decode-body_text ack ok =
    decode_of read_ack_field wake_ack_required default_ack (body_text ack) _ refl
      (members-body ack _ ok) refl refl

-- An ack with 64-bit integers and UTF-8 texts is read back from the body that is encoded for it.
pub decode_wake_ack-encode :
    (ack : WakeAck) → IsAck ack → decode_wake_ack (encode_ack_body ack) ≡ value ack
decode_wake_ack-encode ack ok = rw (encode_ack_body-text ack) (decode-body_text ack ok)

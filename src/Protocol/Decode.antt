-- ===== src/Protocol/Decode.antt =====
-- The decoders of src/protocol.cpp: `decode_wake_message` and `decode_wake_ack`. The two masks of
-- required fields are the lists of their bit numbers, beside the names.
pub mod Fields
pub mod Run
pub mod Unknown
use executor_hotpath_cpp.Base.{
  ℕ, suc, Bool, true, false, ◌&&◌, not, List, [], ◌∷◌, ◌++◌, Bytes, codes, if◌then◌else◌, get_or,
  length,
}
use executor_hotpath_cpp.Double.{Double}
use executor_hotpath_cpp.Json.Reader.{start, begin_object, at_document_end}
use executor_hotpath_cpp.Protocol.Answer.{P, pure, ◌>>=◌, ◌>>◌, lift, decoded, members}
use executor_hotpath_cpp.Protocol.Frame.{Decoded, value, decode_fail}
use executor_hotpath_cpp.Wire.{WakeMessage, WakeAck, default_ack, default_message, missing_field}
use Fields.{Seen, State, none_seen, read_wake_field, read_ack_field}

abbrev pub RequiredField : Type 0
RequiredField = ℕ × Bytes

abbrev pub wake_message_required : List RequiredField
wake_message_required =
    (0, codes "schema_version")
    ∷ (1, codes "correlation_id")
    ∷ (2, codes "market_ticker")
    ∷ (3, codes "asset")
    ∷ (4, codes "direction")
    ∷ (5, codes "kalshi_price")
    ∷ (6, codes "model_probability")
    ∷ (7, codes "fee")
    ∷ (8, codes "edge")
    ∷ (9, codes "decision_ts_ms")
    ∷ (10, codes "sent_at_ms")
    ∷ (11, codes "sent_at_ns")
    ∷ []

abbrev pub wake_ack_required : List RequiredField
wake_ack_required =
    (0, codes "schema_version")
    ∷ (1, codes "correlation_id")
    ∷ (12, codes "received_at_ms")
    ∷ (13, codes "status")
    ∷ []

-- The field whose bit is looked at is in the mask.
abbrev pub has : Seen → ℕ → Bool
has seen bit = get_or seen bit false

-- `(seen & mask) == mask`, for the mask of these fields
unfoldable pub all_seen : Seen → List RequiredField → Bool
all_seen seen [] = true
all_seen seen ((bit, _) ∷ fields) = has seen bit && all_seen seen fields

-- The first required field that is missing.
unfoldable pub missing : {A : Type 0} → Seen → List RequiredField → Decoded A
missing seen [] = decode_fail missing_field (codes "missing required field")
missing seen ((bit, name) ∷ fields) =
    if not (has seen bit)
    then decode_fail missing_field (codes "missing required field: " ++ name)
    else missing seen fields

unfoldable pub finish : {A : Type 0} → List RequiredField → State A → Decoded A
unfolding missing
finish required s =
    if not (all_seen s.seen required) then missing s.seen required else value s.message

-- Each round takes at least the bytes of a key, so as many rounds as there are bytes are enough.
unfoldable pub decode :
    {A : Type 0} → (Bytes → State A → P (State A)) → List RequiredField → A → Bytes → Decoded A
decode field required default body = decoded (
    (do
      lift begin_object
      s ← members (suc (length body)) field (record { message = default; seen = none_seen })
      lift at_document_end
      pure (finish required s))
      (start body))

unfoldable pub decode_wake_ack : Bytes → Decoded WakeAck
unfolding decode
decode_wake_ack = decode read_ack_field wake_ack_required default_ack

module _ {D : Type 0} ⦃d : Double D⦄ where
  unfoldable pub decode_wake_message : Bytes → Decoded (WakeMessage D)
  unfolding decode
  decode_wake_message =
      decode read_wake_field wake_message_required
        (default_message d.zero_double d.one_double d.cent)

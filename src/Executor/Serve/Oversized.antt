-- ===== src/Executor/Serve/Oversized.antt =====
-- A rejection in src/executor.cpp that no frame can carry: `encode_frame_into` does not look at the
-- size of its body, and the message of an unknown key holds the key.
use executor_hotpath_cpp.Base.{
  ℕ, zero, suc, ◌+◌, ◌≤◌, ◌<◌, ◌≡◌, refl, ap, ◌∙◌, [], ◌∷◌, ◌++◌, Bytes, codes, equal, arith,
  length, length-append,
}
use executor_hotpath_cpp.Double.{Double}
use executor_hotpath_cpp.Executor.Serve.{Round, rejection}
use executor_hotpath_cpp.Executor.Serve.Replies.{ack_of}
use executor_hotpath_cpp.Json.Utf8.Text.{IsAscii, IsAscii-IsUtf8}
use executor_hotpath_cpp.Json.Writer.{escaped, to_chars}
use executor_hotpath_cpp.Json.Writer.RoundTrip.{escapes}
use executor_hotpath_cpp.Protocol.AckRoundTrip.{encode_ack_body-text, id_part, status_part}
use executor_hotpath_cpp.Protocol.Decode.{decode_wake_message}
use executor_hotpath_cpp.Protocol.Decode.Unknown.{IsUnknown, decode_wake_message-IsPlain}
use executor_hotpath_cpp.Protocol.Encode.{encode_ack_body}
use executor_hotpath_cpp.Protocol.Members.{IsPlain, key_text}
use executor_hotpath_cpp.SpscRing.{replicate}
use executor_hotpath_cpp.Wire.{max_frame_bytes, rejected}

-- A key of `n + 2` letters.
abbrev pub long_key : ℕ → Bytes
long_key n = b'a' ∷ b'a' ∷ replicate n b'a'

replicate-IsAscii : (n : ℕ) → IsAscii (replicate n b'a')
replicate-IsAscii zero = tt
replicate-IsAscii (suc n) = (omega arith, replicate-IsAscii n)

replicate-escapes : (n : ℕ) → escapes (replicate n b'a') ≡ replicate n b'a'
unfolding escaped
replicate-escapes zero = refl
replicate-escapes (suc n) = ap (λ t. b'a' ∷ t) (replicate-escapes n)

long_key-IsPlain : (n : ℕ) → IsPlain (long_key n)
long_key-IsPlain n = record {
  utf8 = IsAscii-IsUtf8 (long_key n) (replicate-IsAscii (suc (suc n)));
  unescaped = replicate-escapes (suc (suc n));
}

long_key-IsUnknown : (n : ℕ) → IsUnknown (long_key n)
unfolding equal
long_key-IsUnknown n = ground arith

length-replicate : (n : ℕ) → length {A = ℕ} (replicate n b'a') ≡ n
length-replicate zero = refl
length-replicate (suc n) = ap suc (length-replicate n)

-- The body of a rejection is longer than its message.
length-rejection :
    (round : Round) (message : Bytes)
    → length (escapes message) + 40 ≤ length (encode_ack_body (rejection round message))
unfolding escaped
length-rejection round message =
    let ack = rejection round message in
    rw (encode_ack_body-text ack) (
      omega (
        arith,
        length-append (to_chars ack.schema_version) (b',' ∷ id_part ack),
        length-append (to_chars ack.received_at_ms) (b',' ∷ status_part ack),
        length-append (escapes message) (b'"' ∷ b'}' ∷ []),
      ))

length-message : (n : ℕ) → length (escapes (codes "unexpected field: " ++ long_key n)) ≡ n + 20
unfolding escaped
length-message n =
    ap (λ t. length (codes "unexpected field: " ++ t)) (replicate-escapes (suc (suc n)))
    ∙ omega (arith, length-replicate n)

-- A JSON object `{"aaa...a":0}`.
abbrev pub long_body : ℕ → Bytes
long_body n = b'{' ∷ key_text (long_key n) (codes "0}")

-- A complete JSON object of at most 64 KiB, with one member whose key has from 65502 to 65530 letters
-- a, is rejected, and the body of the ack that says so is longer than 64 KiB, the most that a reader
-- of frames accepts.
pub ack_of-oversized :
    (D : Type 0) ⦃d : Double D⦄ (round : Round) (n : ℕ)
    → 65500 ≤ n
    → n ≤ 65528
    → (length (long_body n) ≤ max_frame_bytes)
      × ((ack_of round (decode_wake_message {D = D} (long_body n))).status ≡ rejected)
      × (max_frame_bytes
          < length (encode_ack_body (ack_of round (decode_wake_message {D = D} (long_body n)))))
unfolding ack_of
ack_of-oversized D round n l h =
    let refusal =
      decode_wake_message-IsPlain D (long_key n) (codes "0}") (long_key-IsPlain n)
        (long_key-IsUnknown n) in
    (
      omega (arith, length-append (long_key n) (b'"' ∷ b':' ∷ codes "0}"), length-replicate n),
      rw refusal refl,
      rw refusal (
          omega (
            arith,
            length-rejection round (codes "unexpected field: " ++ long_key n),
            length-message n,
            l,
          )),
    )

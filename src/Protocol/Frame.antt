-- ===== src/Protocol/Frame.antt =====
-- The four-byte big-endian length prefix: `write_length_prefix` and `decode_frame_length`.
use executor_hotpath_cpp.Base.{
  ℕ, ◌+◌, ◌*◌, ◌/◌, ◌%◌, ◌^◌, ◌≤◌, ◌≡◌, not, [], ◌∷◌, ◌++◌, Bytes, codes, arith, ltb, ◌==◌,
  if◌then◌else◌, length,
}
use executor_hotpath_cpp.Base.Int.{pos}
use executor_hotpath_cpp.Json.Writer.{to_chars}
use executor_hotpath_cpp.Wire.{
  DecodeErrorCode, malformed_frame, frame_too_large, DecodeError, frame_length_bytes,
  max_frame_bytes,
}

-- `Decoded<T>`; `exhausted` is a model that has run out of fuel.
pub data Decoded (A : Type 0) : Type 0 where
  value : A → Decoded A
  failure : DecodeError → Decoded A
  exhausted : Decoded A

abbrev pub decode_fail : {A : Type 0} → DecodeErrorCode → Bytes → Decoded A
decode_fail c m = failure (record { code = c; message = m })

-- `std::uint32_t` from a size
abbrev pub u32 : ℕ → ℕ
u32 n = n % 2 ^ 32

-- The prefix that is written over the four bytes which a frame begins with.
unfoldable pub length_prefix : ℕ → Bytes
length_prefix size =
    let n = u32 size in (n / 2 ^ 24 % 256) ∷ (n / 2 ^ 16 % 256) ∷ (n / 2 ^ 8 % 256) ∷ (n % 256) ∷ []

-- `write_length_prefix` on a buffer of a prefix of zeros and a body.
unfoldable pub write_length_prefix : Bytes → Bytes
unfolding length_prefix
write_length_prefix body = length_prefix (length body) ++ body

-- The loop of `decode_frame_length`: the low eight bits of `length << 8` are clear, and a shift
-- drops what passes 32 bits.
unfoldable pub big_endian : ℕ → Bytes → ℕ
big_endian n [] = n
big_endian n (b ∷ bs) = big_endian (u32 (n * 256) + b) bs

unfoldable pub decode_frame_length : Bytes → Decoded ℕ
unfolding big_endian
decode_frame_length prefix =
    if not (length prefix == frame_length_bytes)
    then decode_fail malformed_frame (codes "length prefix must be 4 bytes")
    else if ltb max_frame_bytes (big_endian 0 prefix)
    then decode_fail frame_too_large (
        codes "frame length "
        ++ to_chars (pos (big_endian 0 prefix))
        ++ codes " exceeds max "
        ++ to_chars (pos max_frame_bytes))
    else value (big_endian 0 prefix)

-- The prefix of a body of at most 64 KiB decodes to the length of the body.
pub decode_frame_length-length_prefix :
    (n : ℕ) → n ≤ max_frame_bytes → decode_frame_length (length_prefix n) ≡ value n
unfolding decode_frame_length length_prefix
decode_frame_length-length_prefix n h = ground arith

-- ===== src/Json/Utf8/Text.antt =====
-- Byte strings that are valid UTF-8, and how they are put together.
use mathlib.Core.List.{append_assoc}
use executor_hotpath_cpp.Base.{
  ℕ, ◌<◌, inl, [], ◌∷◌, ◌++◌, sym, ap, ◌∙◌, append-nil, Bytes, arith, All,
}
use executor_hotpath_cpp.Json.Utf8.{encode, IsScalar, IsUtf8, nil, cons}
use executor_hotpath_cpp.Json.Utf8.Codec.{encode_1, IsRun}
use executor_hotpath_cpp.Json.Reader.{Reader}

pub IsUtf8-encode : (cp : ℕ) → IsScalar cp → IsUtf8 (encode cp)
IsUtf8-encode cp s = cons cp [] s (sym (append-nil (encode cp))) nil

pub IsUtf8-append : {a : Bytes} (b : Bytes) → IsUtf8 a → IsUtf8 b → IsUtf8 (a ++ b)
IsUtf8-append b nil h = h
IsUtf8-append b (cons cp t s e u) h =
    cons cp (t ++ b) s (ap (λ x. x ++ b) e ∙ append_assoc (encode cp) t b) (IsUtf8-append b u h)

pub IsUtf8-ascii : (c : ℕ) → c < 0x80 → IsUtf8 (c ∷ [])
IsUtf8-ascii c h = rw (encode_1 c h) at (IsUtf8-encode c (inl (omega arith)))

abbrev pub IsAscii : Bytes → Type 0
IsAscii = All (λ c. c < 0x80)

pub IsAscii-IsUtf8 : (s : Bytes) → IsAscii s → IsUtf8 s
IsAscii-IsUtf8 [] h = nil
IsAscii-IsUtf8 (c ∷ s) (h, hs) = IsUtf8-append s (IsUtf8-ascii c h) (IsAscii-IsUtf8 s hs)

pub IsRun-IsUtf8 : {r : Reader} {run : Bytes} {r' : Reader} → IsRun r run r' → IsUtf8 run
IsRun-IsUtf8 h = rw h.encodes (IsUtf8-encode _ h.scalar)

-- ===== src/Json/Utf8.antt =====
-- UTF-8 in src/json.cpp: `append_utf8` encodes a code point, `validate_utf8_run` passes over the
-- bytes of one. A shift by k is `/ 2 ^ k` and a mask of k low bits is `% 2 ^ k`.
pub mod Codec
pub mod Text
use executor_hotpath_cpp.Base.{
  ℕ, zero, suc, ◌-◌, ◌/◌, ◌%◌, ◌<◌, ◌≤◌, ◌⊎◌, bit_or, Bool, true, false, ◌&&◌, not, List, [], ◌∷◌,
  ◌++◌, ◌≡◌, Option, none, some, Bytes, codes, ltb, leb, ◌==◌, if◌then◌else◌, get_or, length,
}
use executor_hotpath_cpp.Base.Cuts.{take, drop}
use executor_hotpath_cpp.Wire.{malformed_json}
use executor_hotpath_cpp.Json.Reader.{Reader, M, ok, fail, skip_bytes}

-- What `append_utf8` appends.
unfoldable pub encode : ℕ → Bytes
encode cp =
    if ltb cp 0x80
    then cp ∷ []
    else if ltb cp 0x800
    then bit_or 0xC0 (cp / 64) ∷ bit_or 0x80 (cp % 64) ∷ []
    else if ltb cp 0x10000
    then bit_or 0xE0 (cp / 4096) ∷ bit_or 0x80 (cp / 64 % 64) ∷ bit_or 0x80 (cp % 64) ∷ []
    else bit_or 0xF0 (cp / 262144)
      ∷ bit_or 0x80 (cp / 4096 % 64)
      ∷ bit_or 0x80 (cp / 64 % 64)
      ∷ bit_or 0x80 (cp % 64)
      ∷ []

unfoldable pub append_utf8 : Bytes → ℕ → Bytes
append_utf8 out cp = out ++ encode cp

abbrev pub within : ℕ → ℕ → ℕ → Bool
within low high b = leb low b && leb b high

-- The length of the run and the bounds of its second byte, from the first byte.
unfoldable pub lead_bounds : ℕ → Option (ℕ × ℕ × ℕ)
lead_bounds lead =
    if within 0xC2 0xDF lead
    then some (2, 0x80, 0xBF)
    else if within 0xE0 0xEF lead
    then some (3, (if lead == 0xE0 then 0xA0 else 0x80), (if lead == 0xED then 0x9F else 0xBF))
    else if within 0xF0 0xF4 lead
    then some (4, (if lead == 0xF0 then 0x90 else 0x80), (if lead == 0xF4 then 0x8F else 0xBF))
    else none

-- `for (i = 2; i < length; ++i)`, on the bytes from index 2 on and the rounds that are left
unfoldable pub continues : ℕ → Bytes → Bool
continues zero cs = true
continues (suc n) [] = false
continues (suc n) (c ∷ cs) = within 0x80 0xBF c && continues n cs

abbrev invalid : M Bytes
invalid = fail malformed_json (codes "str is not valid UTF-8")

-- `bounds` are those of the first byte.
unfoldable pub validate_from : Option (ℕ × ℕ × ℕ) → ℕ → Bytes → M Bytes
unfolding continues
validate_from none lead cs r = invalid r
validate_from (some (n, second_low, second_high)) lead cs r =
    if ltb (suc (length cs)) n
    then invalid r
    else if not (within second_low second_high (get_or cs 0 0))
    then invalid r
    else if continues (n - 2) (tail cs)
    then ok (take n (lead ∷ cs)) (skip_bytes n r)
    else invalid r
  where
    tail : Bytes → Bytes
    tail [] = []
    tail (_ ∷ xs) = xs

-- The result is the run that `index` is moved over. It is only called at a byte.
unfoldable pub validate_utf8_run : M Bytes
unfolding lead_bounds validate_from
validate_utf8_run r = elim r.rest [
  | [] ↦ invalid r
  | lead ∷ cs ↦ validate_from (lead_bounds lead) lead cs r
]

-- The Unicode scalar values, and the byte strings that are sequences of their encodings.
abbrev pub IsScalar : ℕ → Type 0
IsScalar cp = (cp < 0xD800) ⊎ ((0xE000 ≤ cp) × (cp < 0x110000))

pub data IsUtf8 : Bytes → Type 0 where
  nil : IsUtf8 []
  cons : {s : Bytes} (cp : ℕ) (t : Bytes) → IsScalar cp → s ≡ encode cp ++ t → IsUtf8 t → IsUtf8 s

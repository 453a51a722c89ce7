-- ===== src/Json/Utf8/Codec.antt =====
-- `append_utf8` and `validate_utf8_run` of src/json.cpp beside each other.
use executor_hotpath_cpp.Base.{
  ℕ, ◌+◌, ◌-◌, ◌*◌, ◌/◌, ◌%◌, ◌<◌, ◌≤◌, inl, inr, bit_or, true, [], ◌∷◌, ◌++◌, ◌≡◌, refl, Bytes,
  arith, ◌==◌, ==_iff, Bool-cases, all_below, all_below_sound, ltb,
}
use executor_hotpath_cpp.Json.Reader.{Reader, ok, fail}
use executor_hotpath_cpp.Json.Utf8.{encode, validate_utf8_run, IsScalar}

-- Or is addition where the bits are disjoint: by evaluation at each value.
module _ (base bound : ℕ) (table : all_below bound (λ x. bit_or base x == base + x) ≡ true) where
  bit_or-eq-add : (x : ℕ) → x < bound → bit_or base x ≡ base + x
  bit_or-eq-add x h =
      (==_iff _ _).0 (all_below_sound bound (λ x. bit_or base x == base + x) x h table)

or_2 : (x : ℕ) → x < 32 → bit_or 0xC0 x ≡ 0xC0 + x
unfolding all_below
or_2 = bit_or-eq-add 0xC0 32 refl

or_3 : (x : ℕ) → x < 16 → bit_or 0xE0 x ≡ 0xE0 + x
unfolding all_below
or_3 = bit_or-eq-add 0xE0 16 refl

or_4 : (x : ℕ) → x < 8 → bit_or 0xF0 x ≡ 0xF0 + x
unfolding all_below
or_4 = bit_or-eq-add 0xF0 8 refl

or_low : (x : ℕ) → bit_or 0x80 (x % 64) ≡ 0x80 + x % 64
unfolding all_below
or_low x = bit_or-eq-add 0x80 64 refl (x % 64) (omega arith)

-- `encode` with its bits added up.
pub encode_1 : (cp : ℕ) → cp < 0x80 → encode cp ≡ cp ∷ []
unfolding encode
encode_1 cp h = ground arith

pub encode_2 :
    (cp : ℕ) → 0x80 ≤ cp → cp < 0x800 → encode cp ≡ (0xC0 + cp / 64) ∷ (0x80 + cp % 64) ∷ []
unfolding encode
encode_2 cp lo hi = ground (arith, or_2 (cp / 64), or_low cp)

pub encode_3 :
    (cp : ℕ)
    → 0x800 ≤ cp
    → cp < 0x10000
    → encode cp ≡ (0xE0 + cp / 4096) ∷ (0x80 + cp / 64 % 64) ∷ (0x80 + cp % 64) ∷ []
unfolding encode
encode_3 cp lo hi = ground (arith, or_3 (cp / 4096), or_low (cp / 64), or_low cp)

pub encode_4 :
    (cp : ℕ)
    → 0x10000 ≤ cp
    → cp < 0x110000
    → encode cp
      ≡ (0xF0 + cp / 262144)
        ∷ (0x80 + cp / 4096 % 64)
        ∷ (0x80 + cp / 64 % 64)
        ∷ (0x80 + cp % 64)
        ∷ []
unfolding encode
encode_4 cp lo hi =
    ground (arith, or_4 (cp / 262144), or_low (cp / 4096), or_low (cp / 64), or_low cp)

-- Each length of run in turn: what the table says of the first byte, and the bytes behind it.
validate_2 :
    (r : Reader) (cp : ℕ) (t : Bytes)
    → 0x80 ≤ cp
    → cp < 0x800
    → validate_utf8_run (record r { rest = (0xC0 + cp / 64) ∷ (0x80 + cp % 64) ∷ t })
      ≡ ok ((0xC0 + cp / 64) ∷ (0x80 + cp % 64) ∷ []) (record r { rest = t })
unfolding validate_utf8_run
validate_2 r cp t lo hi = ground arith

validate_3 :
    (r : Reader) (cp : ℕ) (t : Bytes)
    → 0x800 ≤ cp
    → cp < 0x10000
    → IsScalar cp
    → validate_utf8_run
        (record r { rest = (0xE0 + cp / 4096) ∷ (0x80 + cp / 64 % 64) ∷ (0x80 + cp % 64) ∷ t })
      ≡ ok
          ((0xE0 + cp / 4096) ∷ (0x80 + cp / 64 % 64) ∷ (0x80 + cp % 64) ∷ [])
          (record r { rest = t })
unfolding validate_utf8_run
validate_3 r cp t lo hi s = ground arith

validate_4 :
    (r : Reader) (cp : ℕ) (t : Bytes)
    → 0x10000 ≤ cp
    → cp < 0x110000
    → validate_utf8_run (record r {
      rest =
          (0xF0 + cp / 262144)
          ∷ (0x80 + cp / 4096 % 64)
          ∷ (0x80 + cp / 64 % 64)
          ∷ (0x80 + cp % 64)
          ∷ t;
    })
      ≡ ok
          ((0xF0 + cp / 262144)
            ∷ (0x80 + cp / 4096 % 64)
            ∷ (0x80 + cp / 64 % 64)
            ∷ (0x80 + cp % 64)
            ∷ [])
          (record r { rest = t })
unfolding validate_utf8_run
validate_4 r cp t lo hi = ground arith

-- The encoding of a scalar value from 0x80 on passes, whatever follows it, and exactly its bytes
-- are passed over.
pub validate_utf8_run-encode :
    (r : Reader) (cp : ℕ) (t : Bytes)
    → IsScalar cp
    → 0x80 ≤ cp
    → validate_utf8_run (record r { rest = encode cp ++ t })
      ≡ ok (encode cp) (record r { rest = t })
validate_utf8_run-encode r cp t s lo = elim (Bool-cases (ltb cp 0x800)) [
  | inl two ↦ rw (encode_2 cp lo (ground arith)) (validate_2 r cp t lo (ground arith))
  | inr more ↦ elim (Bool-cases (ltb cp 0x10000)) [
    | inl three ↦
        rw (encode_3 cp (ground arith) (ground arith))
          (validate_3 r cp t (ground arith) (ground arith) s)
    | inr four ↦
        rw (encode_4 cp (ground arith) (omega arith))
          (validate_4 r cp t (ground arith) (omega arith))
  ]
]

-- The code point that a run of two to four bytes stands for.
pub code_point : Bytes → ℕ
code_point (a ∷ b ∷ []) = (a - 0xC0) * 64 + (b - 0x80)
code_point (a ∷ b ∷ c ∷ []) = (a - 0xE0) * 4096 + (b - 0x80) * 64 + (c - 0x80)
code_point (a ∷ b ∷ c ∷ d ∷ []) =
    (a - 0xF0) * 262144 + (b - 0x80) * 4096 + (c - 0x80) * 64 + (d - 0x80)
code_point _ = 0

-- `run` encodes a scalar value, and was taken from the front of the reader.
pub record IsRun (r : Reader) (run : Bytes) (r' : Reader) : Type 0 where
  pub scalar : IsScalar (code_point run)
  pub encodes : run ≡ encode (code_point run)
  pub consumed : r.rest ≡ run ++ r'.rest
  pub moved : r' ≡ record r { rest = r'.rest }

IsRun-2 :
    (r : Reader) (a b : ℕ) (t : Bytes)
    → 0xC2 ≤ a
    → a ≤ 0xDF
    → 0x80 ≤ b
    → b ≤ 0xBF
    → IsRun (record r { rest = a ∷ b ∷ t }) (a ∷ b ∷ []) (record r { rest = t })
unfolding code_point
IsRun-2 r a b t h1 h2 h3 h4 = record {
  scalar = inl (omega arith);
  encodes = ground (arith, encode_2 ((a - 0xC0) * 64 + (b - 0x80)));
  consumed = refl;
  moved = refl;
}

IsRun-3 :
    (r : Reader) (a b c : ℕ) (t : Bytes)
    → 0xE0 ≤ a
    → a ≤ 0xEF
    → 0x80 ≤ b
    → b ≤ 0xBF
    → (a ≡ 0xE0 → 0xA0 ≤ b)
    → (a ≡ 0xED → b ≤ 0x9F)
    → 0x80 ≤ c
    → c ≤ 0xBF
    → IsRun (record r { rest = a ∷ b ∷ c ∷ t }) (a ∷ b ∷ c ∷ []) (record r { rest = t })
unfolding code_point
IsRun-3 r a b c t h1 h2 h3 h4 h5 h6 h7 h8 = record {
  scalar = ground arith;
  encodes = ground (arith, encode_3 ((a - 0xE0) * 4096 + (b - 0x80) * 64 + (c - 0x80)));
  consumed = refl;
  moved = refl;
}

IsRun-4 :
    (r : Reader) (a b c d : ℕ) (t : Bytes)
    → 0xF0 ≤ a
    → a ≤ 0xF4
    → 0x80 ≤ b
    → b ≤ 0xBF
    → (a ≡ 0xF0 → 0x90 ≤ b)
    → (a ≡ 0xF4 → b ≤ 0x8F)
    → 0x80 ≤ c
    → c ≤ 0xBF
    → 0x80 ≤ d
    → d ≤ 0xBF
    → IsRun (record r { rest = a ∷ b ∷ c ∷ d ∷ t }) (a ∷ b ∷ c ∷ d ∷ []) (record r { rest = t })
unfolding code_point
IsRun-4 r a b c d t h1 h2 h3 h4 h5 h6 h7 h8 h9 h10 = record {
  scalar = inr (ground arith, ground arith);
  encodes =
      ground
        (arith, encode_4 ((a - 0xF0) * 262144 + (b - 0x80) * 4096 + (c - 0x80) * 64 + (d - 0x80)));
  consumed = refl;
  moved = refl;
}

sound_at :
    (cs : Bytes) (r : Reader) {run : Bytes} {r' : Reader}
    → validate_utf8_run (record r { rest = cs }) ≡ ok run r'
    → IsRun (record r { rest = cs }) run r'
unfolding validate_utf8_run fail
sound_at [] r h = cc
sound_at (a ∷ []) r h = ground arith
sound_at (a ∷ b ∷ []) r h = ground (arith, IsRun-2 r a b [])
sound_at (a ∷ b ∷ c ∷ []) r h = ground (arith, IsRun-2 r a b (c ∷ []), IsRun-3 r a b c [])
sound_at (a ∷ b ∷ c ∷ d ∷ t) r h =
    ground (arith, IsRun-2 r a b (c ∷ d ∷ t), IsRun-3 r a b c (d ∷ t), IsRun-4 r a b c d t)

-- Whatever passes is the encoding of a scalar value from the front of the reader, so no overlong
-- form, surrogate or value past U+10FFFF does; nothing else of the reader changes.
pub validate_utf8_run-IsRun :
    (r : Reader) {run : Bytes} {r' : Reader} → validate_utf8_run r ≡ ok run r' → IsRun r run r'
validate_utf8_run-IsRun r = sound_at r.rest r

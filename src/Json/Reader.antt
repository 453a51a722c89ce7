-- ===== src/Json/Reader.antt =====
-- The pull parser `json::Reader` of src/json.cpp: its state, its failures, and the methods that
-- move through the structure of a document. `rest` is `text_` from `pos_` on: to advance `pos_` is
-- to drop a byte. A method that returns false is `bad`; its out-parameters are part of the result.
pub mod Loop
pub mod Ends
pub mod Clean
use executor_hotpath_cpp.Base.Cuts.{drop}
use executor_hotpath_cpp.Base.{
  ℕ, zero, suc, ◌+◌, ◌-◌, ◌/◌, ◌%◌, Bool, true, false, ◌||◌, List, [], ◌∷◌, ◌++◌, Option, none,
  some, Bytes, codes, ◌==◌, if◌then◌else◌, get_or, set,
}
use executor_hotpath_cpp.Wire.{
  DecodeErrorCode, malformed_json, wrong_type, DecodeError, default_error,
}

-- `error` is `error_`, and `none` as long as `failed_` is false.
pub record Reader : Type 0 where
  pub rest : Bytes
  pub depth : ℕ
  pub first : List Bool
  pub error : Option DecodeError

pub data Outcome (A : Type 0) : Type 0 where
  ok : A → Reader → Outcome A
  bad : Reader → Outcome A
  out_of_fuel : Outcome A

abbrev pub M : Type 0 → Type 0
M A = Reader → Outcome A

abbrev pub pure : {A : Type 0} → A → M A
pure a r = ok a r

infixl 5 ◌>>=◌ ◌>>◌
abbrev pub ◌>>=◌ : {A B : Type 0} → M A → (A → M B) → M B
◌>>=◌ m f r = elim (m r) [ ok a r' ↦ f a r' | bad r' ↦ bad r' | out_of_fuel ↦ out_of_fuel ]

abbrev pub ◌>>◌ : {A B : Type 0} → M A → M B → M B
m >> k = m >>= λ _. k

-- One round of a `while (true)`: go round again, or leave with a result.
pub data Iter (S A : Type 0) : Type 0 where
  next : S → Iter S A
  done : A → Iter S A

unfoldable pub loop : {S A : Type 0} → ℕ → (S → M (Iter S A)) → S → M A
loop zero body s r = out_of_fuel
loop (suc fuel) body s r = elim (body s r) [
  | ok i r' ↦ elim i [ next s' ↦ loop fuel body s' r' | done a ↦ ok a r' ]
  | bad r' ↦ bad r'
  | out_of_fuel ↦ out_of_fuel
]

abbrev pub max_depth : ℕ
max_depth = 8

abbrev falses : List Bool
falses = false ∷ false ∷ false ∷ false ∷ false ∷ false ∷ false ∷ false ∷ []

-- `Reader::Reader`
abbrev pub start : Bytes → Reader
start text = record { rest = text; depth = 0; first = falses; error = none }

-- `Reader::error`
abbrev pub error_of : Reader → DecodeError
error_of r = elim r.error [ none ↦ default_error | some e ↦ e ]

-- Only the first failure is kept.
abbrev keep_first : Option DecodeError → DecodeError → Option DecodeError
keep_first none e = some e
keep_first (some old) e = some old

unfoldable pub fail : {A : Type 0} → DecodeErrorCode → Bytes → M A
fail code message r =
    bad (record r { error = keep_first r.error (record { code = code; message = message }) })

abbrev pub is_whitespace : ℕ → Bool
is_whitespace c = c == b' ' || c == b'\t' || c == b'\n' || c == b'\r'

unfoldable pub skip : Bytes → Bytes
skip [] = []
skip (c ∷ cs) = if is_whitespace c then skip cs else c ∷ cs

abbrev pub skip_whitespace : Reader → Reader
skip_whitespace r = record r { rest = skip r.rest }

abbrev pub head : Bytes → Option ℕ
head [] = none
head (c ∷ _) = some c

abbrev pub tail : Bytes → Bytes
tail [] = []
tail (_ ∷ cs) = cs

-- `++pos_`
abbrev pub advance : M (Unit {0})
advance r = ok tt (record r { rest = tail r.rest })

-- `none` where `peek` returns false, which is no failure of the reader.
unfoldable pub peek : M (Option ℕ)
peek r = let r' = skip_whitespace r in ok (head r'.rest) r'

abbrev pub hex_digit : ℕ → ℕ
hex_digit v = get_or (codes "0123456789abcdef") v 0

unfoldable pub hex_byte : ℕ → Bytes
hex_byte c = hex_digit (c / 16) ∷ hex_digit (c % 16) ∷ []

unfoldable pub expect_byte : ℕ → Option ℕ → M (Unit {0})
expect_byte c none = fail malformed_json (codes "expected '" ++ (c ∷ codes "', got end of input"))
expect_byte c (some seen) =
    if seen == c
    then advance
    else fail malformed_json (codes "expected '" ++ (c ∷ (codes "', got byte 0x" ++ hex_byte seen)))

unfoldable pub expect : ℕ → M (Unit {0})
unfolding expect_byte
expect c = do seen ← peek; expect_byte c seen

unfoldable pub push_level : M (Unit {0})
push_level r =
    if r.depth == max_depth
    then fail malformed_json (codes "nesting too deep") r
    else ok tt (record r { first = set r.first r.depth true; depth = r.depth + 1 })

unfoldable pub begin_object : M (Unit {0})
unfolding expect push_level
begin_object = do expect b'{'; push_level

unfoldable pub begin_array : M (Unit {0})
unfolding expect push_level
begin_array = do expect b'['; push_level

-- `++pos_; --depth_`
abbrev pub close_level : Reader → Reader
close_level r = record r { rest = tail r.rest; depth = r.depth - 1 }

-- The comma before a member or an element, unless it is the first of its level.
unfoldable pub separator : M (Unit {0})
unfolding expect
separator r =
    if get_or r.first (r.depth - 1) false
    then ok tt (record r { first = set r.first (r.depth - 1) false })
    else expect b',' r

-- `next_element` behind its `peek`.
unfoldable pub element_from : Option ℕ → M Bool
unfolding fail
element_from none = fail malformed_json (codes "unterminated array")
element_from (some b) =
    if b == b']' then (λ r. ok false (close_level r)) else (do separator; pure true)

-- The result is `present`.
unfoldable pub next_element : M Bool
unfolding peek element_from
next_element = do c ← peek; element_from c

unfoldable pub at_document_end : M (Unit {0})
at_document_end r =
    let r' = skip_whitespace r in
    elim r'.rest [
      | [] ↦ ok tt r'
      | _ ∷ _ ↦ fail malformed_json (codes "unexpected content after document") r'
    ]

-- `starts_with`, at the reader's position
unfoldable pub starts_with : Bytes → Bytes → Bool
starts_with text [] = true
starts_with [] (_ ∷ _) = false
starts_with (c ∷ text) (k ∷ token) = if c == k then starts_with text token else false

abbrev pub skip_bytes : ℕ → Reader → Reader
skip_bytes n r = record r { rest = drop n r.rest }

unfoldable pub at_null : M Bool
unfolding starts_with
at_null r = let r' = skip_whitespace r in ok (starts_with r'.rest (codes "null")) r'

unfoldable pub read_null : M (Unit {0})
unfolding at_null
read_null = do
  here ← at_null
  if here then (λ r. ok tt (skip_bytes 4 r)) else fail wrong_type (codes "expected null")

unfoldable pub read_bool : M Bool
unfolding peek starts_with
read_bool = do
  c ← peek
  elim c [
    | none ↦ fail wrong_type (codes "expected a boolean, got end of input")
    | some _ ↦ λ r.
        if starts_with r.rest (codes "true")
        then ok true (skip_bytes 4 r)
        else if starts_with r.rest (codes "false")
        then ok false (skip_bytes 5 r)
        else fail wrong_type (codes "expected a boolean") r
  ]

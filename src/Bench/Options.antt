-- ===== src/Bench/Options.antt =====
-- The options of bench/bench_main.cpp: `parse_count`, the loop of `run` over the arguments, and the
-- benchmarks that are selected.
pub mod Counts
use executor_hotpath_cpp.Base.{
  ℕ, zero, suc, ◌+◌, ◌-◌, ◌*◌, ◌%◌, ◌^◌, ◌&&◌, ◌||◌, Bool, true, false, not, List, [], ◌∷◌, ◌++◌,
  Option, none, some, Bytes, codes, equal, ltb, leb, ◌==◌, if◌then◌else◌,
}
use executor_hotpath_cpp.Json.Numbers.{is_digit, starts_digit, span_digits, spell}

abbrev pub default_iterations : ℕ
default_iterations = 2000

abbrev pub default_warmup : ℕ
default_warmup = 200

-- `Options`; an empty path or name is not given.
pub record Options : Type 0 where
  pub iterations : ℕ
  pub warmup : ℕ
  pub csv : Bytes
  pub only : Bytes

abbrev pub default_options : Options
default_options = record {
  iterations = default_iterations;
  warmup = default_warmup;
  csv = [];
  only = [];
}

-- `std::isspace` in the C locale
abbrev is_space : ℕ → Bool
is_space c = c == b' ' || (leb 9 c && leb c 13)

unfoldable pub skip_space : Bytes → Bytes
skip_space [] = []
skip_space (c ∷ cs) = let rest = skip_space cs in if is_space c then rest else c ∷ cs

-- A number that `unsigned long long` does not hold is its greatest value; a minus sign negates what
-- it does hold.
abbrev saturated : Bool → ℕ → ℕ
saturated negative n =
    if leb (2 ^ 64) n then 2 ^ 64 - 1 else if negative then (2 ^ 64 - n) % 2 ^ 64 else n

-- Digits behind the sign, up to the first other byte: `none` where there is none.
unfoldable pub unsigned_from : Bool → Bytes → Option (ℕ × Bytes)
unfolding span_digits spell
unsigned_from negative cs =
    if starts_digit cs
    then some (saturated negative (spell 0 (span_digits cs).0), (span_digits cs).1)
    else none

abbrev from_sign : Bytes → Option (ℕ × Bytes)
from_sign [] = none
from_sign (c ∷ cs) =
    if c == b'-'
    then unsigned_from true cs
    else if c == b'+'
    then unsigned_from false cs
    else unsigned_from false (c ∷ cs)

-- `std::strtoull` in base ten: the value and the text behind it, or `none` where nothing is converted.
unfoldable pub strtoull : Bytes → Option (ℕ × Bytes)
unfolding skip_space unsigned_from
strtoull text = from_sign (skip_space text)

abbrev whole_text : Option (ℕ × Bytes) → Option ℕ
whole_text none = none
whole_text (some (n, [])) = some n
whole_text (some (n, _ ∷ _)) = none

unfoldable pub parse_count : Bytes → Option ℕ
unfolding strtoull
parse_count text = whole_text (strtoull text)

-- `none` is the usage and exit code 2. `rest` is what the other arguments come to.
abbrev set_iterations : Option ℕ → (Options → Option Options) → Options → Option Options
set_iterations none rest o = none
set_iterations (some n) rest o = if n == 0 then none else rest (record o { iterations = n })

abbrev set_warmup : Option ℕ → (Options → Option Options) → Options → Option Options
set_warmup none rest o = none
set_warmup (some n) rest o = rest (record o { warmup = n })

-- The loop over the arguments behind the name of the program. A flag without a value is refused.
unfoldable pub parse_options : List Bytes → Options → Option Options
unfolding parse_count
parse_options [] o = some o
parse_options (flag ∷ []) o = none
parse_options (flag ∷ v ∷ args) o =
    let rest : Options → Option Options = λ q. parse_options args q in
    if equal flag (codes "--iterations")
    then set_iterations (parse_count v) rest o
    else if equal flag (codes "--warmup")
    then set_warmup (parse_count v) rest o
    else if equal flag (codes "--csv")
    then rest (record o { csv = v })
    else if equal flag (codes "--only")
    then rest (record o { only = v })
    else none

abbrev pub is_selected : Bytes → Bytes → Bool
is_selected name only = equal only [] || equal only name

abbrev named : Bytes → Bytes → List Bytes
named name only = if is_selected name only then name ∷ [] else []

-- The benchmarks that run, in order.
unfoldable pub selected : Bytes → List Bytes
selected only =
    named (codes "decode") only
    ++ named (codes "encode_ack") only
    ++ named (codes "sign") only
    ++ named (codes "roundtrip") only

abbrev pub unless_empty : Options → List Bytes → Option (Options × List Bytes)
unless_empty o [] = none
unless_empty o (name ∷ names) = some (o, name ∷ names)

abbrev select_for : Option Options → Option (Options × List Bytes)
select_for none = none
select_for (some o) = unless_empty o (selected o.only)

-- `run` up to the first benchmark: the options and the benchmarks, or exit code 2.
unfoldable pub configure : List Bytes → Option (Options × List Bytes)
unfolding parse_options selected
configure args = select_for (parse_options args default_options)

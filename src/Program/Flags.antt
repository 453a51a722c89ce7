-- ===== src/Program/Flags.antt =====
-- Which command lines of src/main.cpp are accepted, and what they set.
use executor_hotpath_cpp.Base.{
  ◌≡◌, ◌≢◌, ◌↔◌, refl, append-nil, inl, inr, Bool-cases, true, List, [], ◌∷◌, ◌++◌, Bytes, codes,
  equal, equal_iff, arith,
}
use executor_hotpath_cpp.Program.{Paths, no_paths, paths, parse_args}

pub data Flag : Type 0 where
  socket kill_switch telemetry_db : Flag

abbrev pub spelling : Flag → Bytes
spelling socket = codes "--socket"
spelling kill_switch = codes "--kill-switch"
spelling telemetry_db = codes "--telemetry-db"

abbrev pub assign : Flag → Bytes → Paths → Paths
assign socket v p = record p { socket_path = v }
assign kill_switch v p = record p { kill_switch_path = v }
assign telemetry_db v p = record p { telemetry_db_path = v }

-- The last value of a flag is the one that counts.
abbrev pub assign_all : List (Flag × Bytes) → Paths → Paths
assign_all [] p = p
assign_all ((f, v) ∷ pairs) p = assign_all pairs (assign f v p)

abbrev pub arguments : List (Flag × Bytes) → List Bytes
arguments [] = []
arguments ((f, v) ∷ pairs) = spelling f ∷ v ∷ arguments pairs

parse_args-arguments :
    (pairs : List (Flag × Bytes)) (args : List Bytes) (p : Paths)
    → parse_args (arguments pairs ++ args) p ≡ parse_args args (assign_all pairs p)
unfolding parse_args equal
parse_args-arguments [] args p = refl
parse_args-arguments ((socket, v) ∷ pairs) args p =
    parse_args-arguments pairs args (record p { socket_path = v })
parse_args-arguments ((kill_switch, v) ∷ pairs) args p =
    parse_args-arguments pairs args (record p { kill_switch_path = v })
parse_args-arguments ((telemetry_db, v) ∷ pairs) args p =
    parse_args-arguments pairs args (record p { telemetry_db_path = v })

-- The arguments are flags with values, that set the paths from `p` on.
pub record Spells (args : List Bytes) (p q : Paths) : Type 0 where
  pub pairs : List (Flag × Bytes)
  pub spelled : args ≡ arguments pairs
  pub assigned : q ≡ assign_all pairs p

cons-Spells :
    (f : Flag) (flag v : Bytes) (args : List Bytes) {p q : Paths}
    → equal flag (spelling f) ≡ true
    → Spells args (assign f v p) q
    → Spells (flag ∷ v ∷ args) p q
cons-Spells f flag v args e s = record {
  pairs = (f, v) ∷ s.pairs;
  spelled = rw ((equal_iff flag (spelling f)).0 e, s.spelled) refl;
  assigned = s.assigned;
}

-- How an argument that is no flag with a value ends the loop.
refused_flag : (flag : Bytes) {q : Paths} → parse_args (flag ∷ []) no_paths ≢ paths q
unfolding parse_args
refused_flag flag h = elim (Bool-cases (equal flag (codes "--version"))) [
  | inl e ↦ ground arith
  | inr e ↦ ground arith
]

parse_args-Spells :
    (args : List Bytes) (p q : Paths) → parse_args args p ≡ paths q → Spells args p q
unfolding parse_args
parse_args-Spells [] p q h = record { pairs = []; spelled = refl; assigned = ground arith }
parse_args-Spells (flag ∷ []) p q h = absurd (refused_flag flag h)
parse_args-Spells (flag ∷ v ∷ args) p q h = elim (Bool-cases (equal flag (codes "--socket"))) [
  | inl e ↦
      cons-Spells socket flag v args e
        (parse_args-Spells args (record p { socket_path = v }) q (rw (e, parse_args) at h))
  | inr e ↦ elim (Bool-cases (equal flag (codes "--kill-switch"))) [
    | inl f ↦
        cons-Spells kill_switch flag v args f (
          parse_args-Spells args (record p { kill_switch_path = v }) q (rw (e, f, parse_args) at h))
    | inr f ↦ elim (Bool-cases (equal flag (codes "--telemetry-db"))) [
      | inl g ↦ cons-Spells telemetry_db flag v args g (
          parse_args-Spells args (record p { telemetry_db_path = v }) q
            (rw (e, f, g, parse_args) at h))
      | inr g ↦ absurd (refused_flag flag (rw (e, f, g, parse_args) at h))
    ]
  ]
]

-- A command line is taken for paths exactly if it is a sequence of the three flags, each with its
-- value, and the paths are then the last value of each flag.
pub parse_args_iff :
    (args : List Bytes) (q : Paths) → (parse_args args no_paths ≡ paths q) ↔ Spells args no_paths q
unfolding parse_args
parse_args_iff args q = (
  parse_args-Spells args no_paths q,
  λ s.
      rw (s.spelled, s.assigned)
        (rw (append-nil (arguments s.pairs)) at (parse_args-arguments s.pairs [] no_paths)),
)

-- ===== src/Bench/Options/Counts.antt =====
-- The counts of bench/bench_main.cpp, and what its options come to.
use executor_hotpath_cpp.Base.{
  ℕ, zero, suc, ◌^◌, ◌≤◌, ◌<◌, ◌≡◌, refl, sym, ◌∙◌, ap, ◌⊎◌, inl, inr, Bool-cases, Option-cases,
  List, [], ◌∷◌, append-nil, some, Bytes, codes, arith, equal, equal_iff, ◌==◌,
}
use executor_hotpath_cpp.Base.Int.{pos}
use mathlib.Core.Option.{some-injective}
use mathlib.Core.Path.{subst}
use executor_hotpath_cpp.Bench.Options.{
  Options, default_options, skip_space, unsigned_from, strtoull, parse_count, parse_options,
  unless_empty, selected, configure,
}
use executor_hotpath_cpp.Json.Numbers.{span_digits, spell}
use executor_hotpath_cpp.Json.Writer.{to_chars, digits}
use executor_hotpath_cpp.Json.Writer.Ints.{
  IsDigits, digits-IsDigits, spell-digits, spell-nil, span_digits-append, Leads, lead, digits-Leads,
}

span_digits-all : (ds : Bytes) → IsDigits ds → span_digits ds ≡ (ds, [])
span_digits-all ds h = ap span_digits (sym (append-nil ds)) ∙ span_digits-append ds [] h refl

-- Digits that spell a number of 64 bits.
parse_count-Leads :
    {ds : Bytes} (n : ℕ)
    → Leads ds
    → IsDigits ds
    → spell 0 ds ≡ n
    → n < 2 ^ 64
    → parse_count ds ≡ some n
unfolding parse_count strtoull skip_space unsigned_from
parse_count-Leads n (lead c cs d z) h e b = ground (arith, span_digits-all (c ∷ cs) h)

-- A count that fits 64 bits is read back from its decimal digits.
pub parse_count-to_chars : (n : ℕ) → n < 2 ^ 64 → parse_count (to_chars (pos n)) ≡ some n
unfolding to_chars
parse_count-to_chars zero h = unfold parse_count in unfold digits in refl
parse_count-to_chars (suc n) h =
    let small : suc n < 10 ^ 20 = omega (arith, h) in
    parse_count-Leads (suc n) (digits-Leads 20 (suc n) [] (omega arith) small)
      (digits-IsDigits 20 (suc n) [] tt) (spell-digits 20 (suc n) [] small ∙ spell-nil (suc n)) h

-- The options of the arguments keep a number of iterations.
parse_options-iterations :
    (args : List Bytes) (o q : Options)
    → 1 ≤ o.iterations
    → parse_options args o ≡ some q
    → 1 ≤ q.iterations
unfolding parse_options
parse_options-iterations [] o q l h = ground arith
parse_options-iterations (flag ∷ []) o q l h = absurd (ground arith)
parse_options-iterations (flag ∷ v ∷ args) o q l h =
    elim (Bool-cases (equal flag (codes "--iterations"))) [
      | inl e ↦ elim (Option-cases (parse_count v)) [
        | inl f ↦ absurd (ground (arith, rw (e, f, parse_options) at h))
        | inr (n, f) ↦ elim (Bool-cases (n == 0)) [
          | inl z ↦ absurd (ground (arith, rw (e, f, z, parse_options) at h))
          | inr z ↦
              parse_options-iterations args (record o { iterations = n }) q (ground arith)
                (rw (e, f, z, parse_options) at h)
        ]
      ]
      | inr e ↦ elim (Bool-cases (equal flag (codes "--warmup"))) [
        | inl g ↦ elim (Option-cases (parse_count v)) [
          | inl f ↦ absurd (ground (arith, rw (e, g, f, parse_options) at h))
          | inr (n, f) ↦
              parse_options-iterations args (record o { warmup = n }) q l
                (rw (e, g, f, parse_options) at h)
        ]
        | inr g ↦ elim (Bool-cases (equal flag (codes "--csv"))) [
          | inl k ↦
              parse_options-iterations args (record o { csv = v }) q l
                (rw (e, g, k, parse_options) at h)
          | inr k ↦ elim (Bool-cases (equal flag (codes "--only"))) [
            | inl m ↦
                parse_options-iterations args (record o { only = v }) q l
                  (rw (e, g, k, m, parse_options) at h)
            | inr m ↦ absurd (ground (arith, rw (e, g, k, m, parse_options) at h))
          ]
        ]
      ]
    ]

abbrev pub all_names : List Bytes
all_names = codes "decode" ∷ codes "encode_ack" ∷ codes "sign" ∷ codes "roundtrip" ∷ []

-- The benchmarks of a run: all of them, in their order, or the one that is named.
abbrev pub IsSelection : Bytes → List Bytes → Type 0
IsSelection only names =
    (only ≡ [] × (names ≡ all_names))
    ⊎ ((names ≡ only ∷ [])
        × ((only ≡ codes "decode")
            ⊎ (only ≡ codes "encode_ack")
            ⊎ (only ≡ codes "sign")
            ⊎ (only ≡ codes "roundtrip")))

selected-IsSelection : (only : Bytes) → (selected only ≡ []) ⊎ IsSelection only (selected only)
unfolding selected equal
selected-IsSelection only = elim (Bool-cases (equal only [])) [
  | inl e ↦ rw ((equal_iff only []).0 e) (inr (inl (refl, refl)))
  | inr e ↦ elim (Bool-cases (equal only (codes "decode"))) [
    | inl f ↦ rw ((equal_iff only (codes "decode")).0 f) (inr (inr (refl, inl refl)))
    | inr f ↦ elim (Bool-cases (equal only (codes "encode_ack"))) [
      | inl g ↦ rw ((equal_iff only (codes "encode_ack")).0 g) (inr (inr (refl, inr (inl refl))))
      | inr g ↦ elim (Bool-cases (equal only (codes "sign"))) [
        | inl k ↦ rw ((equal_iff only (codes "sign")).0 k) (inr (inr (refl, inr (inr (inl refl)))))
        | inr k ↦ elim (Bool-cases (equal only (codes "roundtrip"))) [
          | inl m ↦
              rw ((equal_iff only (codes "roundtrip")).0 m) (inr (inr (refl, inr (inr (inr refl)))))
          | inr m ↦ inl (rw (e, f, g, k, m) refl)
        ]
      ]
    ]
  ]
]

unless_empty-IsSelection :
    (p o : Options) (names all : List Bytes)
    → 1 ≤ p.iterations
    → (all ≡ []) ⊎ IsSelection p.only all
    → unless_empty p all ≡ some (o, names)
    → (1 ≤ o.iterations) × IsSelection o.only names
unless_empty-IsSelection p o names [] l s h = absurd (ground arith)
unless_empty-IsSelection p o names (n ∷ all) l (inl e) h = absurd (ground arith)
unless_empty-IsSelection p o names (n ∷ all) l (inr s) h =
    let e : (p, n ∷ all) ≡ (o, names) = some-injective (p, n ∷ all) (o, names) h in
    subst (λ (q : Options × List Bytes). (1 ≤ q.0.iterations) × IsSelection q.0.only q.1) e (l, s)

-- Arguments that are accepted ask for at least one iteration, and for all four benchmarks or the one that
-- is named. The sum of the two counts may still wrap around.
pub configure_lem :
    (args : List Bytes) (o : Options) (names : List Bytes)
    → configure args ≡ some (o, names)
    → (1 ≤ o.iterations) × IsSelection o.only names
unfolding configure
configure_lem args o names h = elim (Option-cases (parse_options args default_options)) [
  | inl e ↦ absurd (ground (arith, rw (e, configure) at h))
  | inr (p, e) ↦
      unless_empty-IsSelection p o names (selected p.only)
        (parse_options-iterations args default_options p (omega arith) e)
        (selected-IsSelection p.only) (rw (e, configure) at h)
]

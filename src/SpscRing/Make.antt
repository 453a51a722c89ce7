-- ===== src/SpscRing/Make.antt =====
-- The constructor of the ring, and `std::bit_ceil`.
use native.Mathlib.Nat.{pow-suc}
use Prim.Native.Nat.{◌∣◌}
use executor_hotpath_cpp.Base.{
  ℕ, zero, suc, ◌*◌, ◌^◌, ◌≤◌, ◌<◌, ◌≡◌, refl, sym, ap, inl, inr, [], arith, ltb, if◌then◌else◌,
  length, Bool-cases,
}
use executor_hotpath_cpp.SpscRing.{word, capacity, ceil_from, bit_ceil, replicate, make}
use executor_hotpath_cpp.SpscRing.Refine.{IsCapacity, IsRing, contents}

-- What `ceil_from` returns, started at a power `p` that `fuel` doublings take to 2^63.
record IsCeil (p n c : ℕ) : Type 0 where
  factor : ℕ
  divides : c * factor ≡ word
  wide : 2 ≤ factor
  at_least : p ≤ c
  enough : n ≤ c

doubles : (p x : ℕ) → p * (x * 2) ≡ word → 2 * p * x ≡ word
doubles p x e = omega arith

pow_pos : (n : ℕ) → 1 ≤ 2 ^ n
pow_pos zero = omega arith
pow_pos (suc n) = rw pow-suc (omega (arith, pow_pos n))

factor_lt : (c factor : ℕ) → c * factor ≡ word → 2 ≤ factor → c < word
factor_lt c zero e h = absurd (omega arith)
factor_lt c (suc zero) e h = absurd (omega arith)
factor_lt c (suc (suc f)) e h = omega arith

ceil_from-IsCeil :
    (fuel p n : ℕ) → p * 2 ^ suc fuel ≡ word → n ≤ 2 ^ 63 → IsCeil p n (ceil_from fuel p n)
unfolding ceil_from
ceil_from-IsCeil zero p n e h = record {
  factor = 2;
  divides = e;
  wide = omega arith;
  at_least = omega arith;
  enough = omega (arith, e);
}
ceil_from-IsCeil (suc fuel) p n e h =
    let doubled : 2 * p * 2 ^ suc fuel ≡ word = doubles p (2 ^ suc fuel) (rw pow-suc at e) in
    let later : IsCeil (2 * p) n (ceil_from fuel (2 * p) n) =
      ceil_from-IsCeil fuel (2 * p) n doubled h in
    let halves : 2 ^ suc (suc fuel) ≡ 2 ^ fuel * 2 * 2 = rw (pow-suc, pow-suc) in
    elim (Bool-cases (ltb p n)) [
      | inl t ↦ rw t (record {
        factor = later.factor;
        divides = later.divides;
        wide = later.wide;
        at_least = omega (arith, later.at_least);
        enough = later.enough;
      })
      | inr f ↦ rw f (record {
        factor = 2 ^ suc (suc fuel);
        divides = e;
        wide = omega (arith, halves, pow_pos fuel);
        at_least = omega arith;
        enough = ground arith;
      })
    ]

length-replicate : {T : Type 0} (n : ℕ) (a : T) → length (replicate n a) ≡ n
length-replicate zero a = refl
length-replicate (suc n) a = ap suc (length-replicate n a)

bit_ceil-IsCeil : (n : ℕ) → n ≤ 2 ^ 63 → IsCeil 1 n (bit_ceil n)
unfolding bit_ceil
bit_ceil-IsCeil n h = ceil_from-IsCeil 63 1 n (omega arith) h

IsCeil-IsCapacity : {n c : ℕ} → IsCeil 1 n c → IsCapacity c
IsCeil-IsCapacity {n} {c} h = record {
  divides = ∣ (h.factor, sym h.divides) ∣₁;
  positive = h.at_least;
  below_word = factor_lt c h.factor h.divides h.wide;
}

-- A new ring is empty and valid, whatever capacity up to 2^63 was asked for: its own divides 2^64
-- and is at least that, and at least two.
pub make-IsRing :
    {T : Type 0} (blank : T) (requested : ℕ)
    → requested ≤ 2 ^ 63
    → IsCapacity (capacity (make blank requested))
      × IsRing (capacity (make blank requested)) (make blank requested)
      × (2 ≤ capacity (make blank requested))
      × (requested ≤ capacity (make blank requested))
      × (contents blank (make blank requested) ≡ [])
unfolding make
make-IsRing blank requested h =
    let wanted : ℕ = if ltb requested 2 then 2 else requested in
    let ceil = bit_ceil-IsCeil wanted (ground arith) in
    rw (length-replicate (bit_ceil wanted) blank) (
      IsCeil-IsCapacity ceil,
      record {
        capacity_is = length-replicate (bit_ceil wanted) blank;
        head_lt = omega arith;
        tail_lt = omega arith;
        tail_cache_lt = omega arith;
        head_cache_lt = omega arith;
        size_le = omega arith;
        tail_cache_le = omega arith;
        head_cache_le = omega arith;
      },
      ground (arith, ceil.enough),
      ground (arith, ceil.enough),
      refl,
    )

-- ===== src/Tests/State.antt =====
-- The ring and the kill switch at concrete inputs.
use executor_hotpath_cpp.Base.{ℕ, ◌≡◌, ◌≤◌, ◌^◌, ◌-◌, zero, refl, true, Bool, [], ◌∷◌, arith, leb}
use executor_hotpath_cpp.KillSwitch.{is_engaged, engage, release, reason, trim_end, exists}
use executor_hotpath_cpp.KillSwitch
use executor_hotpath_cpp.KillSwitch.Fresh.{IsFresh, after, is_engaged-IsFresh, is_engaged_by_ttl}
use executor_hotpath_cpp.SpscRing.{SpscRing, capacity, try_push, try_pop, make}
use executor_hotpath_cpp.SpscRing.Refine.{
  IsCapacity, IsRing, contents, push_queue, pop_queue, try_push-IsRing, try_pop-IsRing,
  try_push_refines, try_pop_refines,
}
use executor_hotpath_cpp.SpscRing.Make.{make-IsRing}

make-IsRing_example :
    IsCapacity (capacity (make zero 3))
    × IsRing (capacity (make zero 3)) (make zero 3)
    × (2 ≤ capacity (make zero 3))
    × (3 ≤ capacity (make zero 3))
    × (contents zero (make zero 3) ≡ [])
make-IsRing_example = make-IsRing zero 3 (omega arith)

-- A ring that has wrapped, with one value and stale caches.
abbrev ring : SpscRing ℕ
ring = record {
  slots = 7 ∷ 8 ∷ [];
  head = 0;
  tail_cache = 2 ^ 64 - 2;
  tail = 2 ^ 64 - 1;
  head_cache = 2 ^ 64 - 1;
}

ring-IsCapacity : IsCapacity 2
ring-IsCapacity = record {
  divides = ∣ (2 ^ 63, refl) ∣₁;
  positive = omega arith;
  below_word = omega arith;
}

ring-IsRing : IsRing 2 ring
ring-IsRing = record {
  capacity_is = refl;
  head_lt = omega arith;
  tail_lt = omega arith;
  tail_cache_lt = omega arith;
  head_cache_lt = omega arith;
  size_le = omega arith;
  tail_cache_le = omega arith;
  head_cache_le = omega arith;
}

try_push-IsRing_example : IsRing 2 (try_push 9 ring).1
try_push-IsRing_example = try_push-IsRing ring-IsCapacity 9 ring ring-IsRing

try_pop-IsRing_example : IsRing 2 (try_pop 0 ring).1
try_pop-IsRing_example = try_pop-IsRing ring-IsCapacity 0 ring ring-IsRing

try_push_refines_example :
    let (pushed, r') = try_push 9 ring in (pushed, contents 0 r') ≡ push_queue 2 9 (contents 0 ring)
try_push_refines_example = try_push_refines ring-IsCapacity 0 9 ring ring-IsRing

try_pop_refines_example :
    let (out, r') = try_pop 0 ring in (out, contents 0 r') ≡ pop_queue (contents 0 ring)
try_pop_refines_example = try_pop_refines ring-IsCapacity 0 ring ring-IsRing

-- A file that appears at time 5.
abbrev disk : ℕ → Bool
disk = leb 5

is_engaged-IsFresh_example :
    IsFresh disk 10 20 (is_engaged 20 (disk 20) (after disk (KillSwitch.make 10) (1 ∷ 7 ∷ []))).1
is_engaged-IsFresh_example =
    is_engaged-IsFresh disk 10 (1 ∷ 7 ∷ []) 20 (omega arith, (omega arith, omega arith))

is_engaged_by_ttl_example :
    (is_engaged 20 (disk 20) (after disk (KillSwitch.make 10) (1 ∷ 7 ∷ []))).1 ≡ true
is_engaged_by_ttl_example =
    is_engaged_by_ttl disk 10 (1 ∷ 7 ∷ []) 5 20 (omega arith, (omega arith, omega arith))
      (λ t h. ground arith) (omega arith)

-- ===== src/SpscRing.antt =====
-- The bounded ring of include/hotpath/spsc_ring.hpp, with one producer and one consumer. Each call
-- is one step here: what the two sides may see of each other is all in the state.
pub mod Refine
pub mod Make
use executor_hotpath_cpp.Base.{
  ℕ, zero, suc, ◌+◌, ◌-◌, ◌*◌, ◌%◌, ◌^◌, Bool, true, false, List, [], ◌∷◌, Option, none, some, ltb,
  leb, ◌==◌, if◌then◌else◌, get_or, set, length,
}

-- `std::size_t` arithmetic.
abbrev pub word : ℕ
word = 2 ^ 64

abbrev pub add_size : ℕ → ℕ → ℕ
add_size a b = (a + b) % word

abbrev pub sub_size : ℕ → ℕ → ℕ
sub_size a b = (a + word - b) % word

-- `head` and `tail` count all pushes and pops, and wrap.
pub record SpscRing {ℓ} (T : Type ℓ) : Type ℓ where
  pub slots : List T
  pub head : ℕ
  pub tail_cache : ℕ
  pub tail : ℕ
  pub head_cache : ℕ

-- `std::bit_ceil`: doubling from 1, at most 63 times, up to the first power that is not below `n`.
unfoldable pub ceil_from : ℕ → ℕ → ℕ → ℕ
ceil_from zero p n = p
ceil_from (suc fuel) p n = let bigger = ceil_from fuel (2 * p) n in if ltb p n then bigger else p

unfoldable pub bit_ceil : ℕ → ℕ
unfolding ceil_from
bit_ceil n = ceil_from 63 1 n

module _ {ℓ} {T : Type ℓ} where
  abbrev pub replicate : ℕ → T → List T
  replicate zero a = []
  replicate (suc n) a = a ∷ replicate n a

  abbrev pub capacity : SpscRing T → ℕ
  capacity r = length r.slots

  -- `SpscRing::SpscRing`; `blank` is `T{}`, with which the vector of slots is filled.
  unfoldable pub make : T → ℕ → SpscRing T
  make blank requested = record {
    slots = replicate (bit_ceil (if ltb requested 2 then 2 else requested)) blank;
    head = 0;
    tail_cache = 0;
    tail = 0;
    head_cache = 0;
  }

  -- `index & mask_`: the mask is one less than the capacity, a power of two.
  abbrev pub slot : SpscRing T → ℕ → ℕ
  slot r index = index % capacity r

  abbrev pub store : T → SpscRing T → Bool × SpscRing T
  store v r = (true, record r { slots = set r.slots (slot r r.head) v; head = add_size r.head 1 })

  unfoldable pub try_push : T → SpscRing T → Bool × SpscRing T
  try_push v r =
      if leb (capacity r) (sub_size r.head r.tail_cache)
      then (let r' = record r { tail_cache = r.tail } in
          if leb (capacity r') (sub_size r'.head r'.tail_cache) then (false, r') else store v r')
      else store v r

  abbrev pub take_out : T → SpscRing T → Option T × SpscRing T
  take_out blank r =
      (some (get_or r.slots (slot r r.tail) blank), record r { tail = add_size r.tail 1 })

  -- `none` where `try_pop` returns false. A read is never out of range, where `blank` would show.
  unfoldable pub try_pop : T → SpscRing T → Option T × SpscRing T
  try_pop blank r =
      if r.tail == r.head_cache
      then (let r' = record r { head_cache = r.head } in
          if r'.tail == r'.head_cache then (none, r') else take_out blank r')
      else take_out blank r

  unfoldable pub size : SpscRing T → ℕ
  size r = sub_size r.head r.tail

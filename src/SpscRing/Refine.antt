-- ===== src/SpscRing/Refine.antt =====
-- The ring of include/hotpath/spsc_ring.hpp beside a bounded queue.
use native.Mathlib.Nat.{mod-mod_of_dvd, mod-add-mod, mod-eq_of_lt, mod-eq-sub-mod, mod-lt}
use executor_hotpath_cpp.Base.Cuts.{le_or_lt}
use executor_hotpath_cpp.Base.{
  ℕ, zero, suc, ◌+◌, ◌-◌, ◌%◌, ◌≤◌, ◌<◌, inl, inr, ◌≢◌, ◌≡◌, refl, sym, ap, ◌∙◌, Bool, true, false,
  List, [], ◌∷◌, ◌++◌, Option, none, some, arith, ltb, if◌then◌else◌, get_or, set, length,
  length-set, get_or-set_self, get_or-set_ne,
}
use executor_hotpath_cpp.SpscRing.{
  word, add_size, sub_size, SpscRing, capacity, slot, store, try_push, try_pop,
}
use Prim.Native.Nat.{◌∣◌}
use mathlib.Core.Path.{ap₂}

-- The capacity divides 2^64, so the slot of a wrapped counter is the slot of the count.
pub record IsCapacity (cap : ℕ) : Type 0 where
  pub divides : cap ∣ word
  pub positive : 0 < cap
  pub below_word : cap < word

-- A bounded queue, oldest first: what the ring promises.
module _ {T : Type 0} where
  unfoldable pub push_queue : ℕ → T → List T → Bool × List T
  push_queue bound v q = if ltb (length q) bound then (true, q ++ v ∷ []) else (false, q)

  unfoldable pub pop_queue : List T → Option T × List T
  pop_queue [] = (none, [])
  pop_queue (v ∷ q) = (some v, q)

  -- A cache is an earlier value of the other side's counter: it can only make a side look fuller,
  -- or emptier, than it is.
  pub record IsRing (cap : ℕ) (r : SpscRing T) : Type 0 where
    pub capacity_is : capacity r ≡ cap
    pub head_lt : r.head < word
    pub tail_lt : r.tail < word
    pub tail_cache_lt : r.tail_cache < word
    pub head_cache_lt : r.head_cache < word
    pub size_le : sub_size r.head r.tail ≤ sub_size r.head r.tail_cache
    pub tail_cache_le : sub_size r.head r.tail_cache ≤ cap
    pub head_cache_le : sub_size r.head_cache r.tail ≤ sub_size r.head r.tail

  module _ (blank : T) (slots : List T) (cap : ℕ) where
    -- The `n` values from the counter `i` on.
    abbrev pub window : ℕ → ℕ → List T
    window i zero = []
    window i (suc n) = get_or slots (i % cap) blank ∷ window (add_size i 1) n

    pub length-window : (i n : ℕ) → length (window i n) ≡ n
    length-window i zero = refl
    length-window i (suc n) = ap suc (length-window (add_size i 1) n)

  abbrev pub contents : T → SpscRing T → List T
  contents blank r = window blank r.slots (capacity r) r.tail (sub_size r.head r.tail)

-- Fewer steps than there are slots do not come back to the same slot.
add-mod-ne : (cap h k : ℕ) → h < cap → suc k < cap → (h + suc k) % cap ≢ h
add-mod-ne cap h k hh hk =
    let sum : ℕ = h + suc k in
    elim (le_or_lt cap sum) [
      | inr below ↦ omega (arith, mod-eq_of_lt below)
      | inl wraps ↦
          let small : sum - cap < cap = omega arith in
          omega (arith, mod-eq-sub-mod wraps, mod-eq_of_lt small)
    ]

module _ (cap : ℕ) (divides : cap ∣ word) (cap_pos : 0 < cap) where
  -- The slot of a wrapped counter.
  slot-add_size : (i n : ℕ) → add_size i n % cap ≡ (i % cap + n) % cap
  slot-add_size i n = mod-mod_of_dvd cap (i + n) divides ∙ sym (mod-add-mod i cap n)

  slots_differ : (i k : ℕ) → suc k < cap → add_size i (suc k) % cap ≢ i % cap
  slots_differ i k h =
      rw (slot-add_size i (suc k)) (add-mod-ne cap (i % cap) k (mod-lt i cap_pos) h)

  add_size-add_size : (i n : ℕ) → add_size (add_size i 1) n ≡ add_size i (suc n)
  add_size-add_size i n = omega arith

  module _ {T : Type 0} (blank v : T) where
    -- Writing the slot just behind a window extends it by that value.
    window-set :
        (slots : List T) (n i j : ℕ)
        → length slots ≡ cap
        → n < cap
        → i < word
        → j ≡ add_size i n
        → window blank (set slots (j % cap) v) cap i (suc n) ≡ window blank slots cap i n ++ v ∷ []
    window-set slots zero i j l h w e =
        let here : j ≡ i = omega arith in
        rw (here, get_or-set_self slots (i % cap) v blank (omega (arith, mod-lt i cap_pos)))
    window-set slots (suc n) i j l h w e =
        let ne : j % cap ≢ i % cap = rw e (slots_differ i n h) in
        ap₂ ◌∷◌ (get_or-set_ne slots (j % cap) (i % cap) v blank ne) (
          window-set slots n (add_size i 1) j l (omega arith) (omega arith)
            (e ∙ sym (add_size-add_size i n)))

module _ {T : Type 0} {cap : ℕ} (c : IsCapacity cap) where
  -- A push keeps the invariant.
  pub try_push-IsRing : (v : T) (r : SpscRing T) → IsRing cap r → IsRing cap (try_push v r).1
  unfolding try_push
  try_push-IsRing v r h = ground (arith, length-set r.slots (slot r r.head) v)

  -- A pop keeps the invariant.
  pub try_pop-IsRing : (blank : T) (r : SpscRing T) → IsRing cap r → IsRing cap (try_pop blank r).1
  unfolding try_pop
  try_pop-IsRing blank r h = ground arith

  store_refines :
      (blank v : T) (r : SpscRing T)
      → IsRing cap r
      → sub_size r.head r.tail < cap
      → contents blank (store v r).1 ≡ contents blank r ++ v ∷ []
  store_refines blank v r h room =
      let grown : sub_size (add_size r.head 1) r.tail ≡ suc (sub_size r.head r.tail) =
        omega (arith, h, c) in
      let wide : length r.slots ≡ cap = h.capacity_is in
      rw (length-set, wide, grown)
        (window-set cap c.divides c.positive blank v r.slots (sub_size r.head r.tail) r.tail r.head
          wide room h.tail_lt (omega (arith, h)))

  -- A push succeeds exactly if the bounded queue of the contents has room, and leaves the ring with
  -- the contents that the queue then has.
  pub try_push_refines :
      (blank v : T) (r : SpscRing T)
      → IsRing cap r
      → let (pushed, r') = try_push v r in
        (pushed, contents blank r') ≡ push_queue cap v (contents blank r)
  unfolding try_push push_queue
  try_push_refines blank v r h = ground (
    arith,
    store_refines blank v r h,
    length-window blank r.slots (capacity r) r.tail (sub_size r.head r.tail),
  )

  window-suc :
      (blank : T) (slots : List T) (i n : ℕ)
      → 0 < n
      → window blank slots cap i n
        ≡ get_or slots (i % cap) blank ∷ window blank slots cap (add_size i 1) (n - 1)
  window-suc blank slots i zero h = absurd (omega arith)
  window-suc blank slots i (suc n) h =
      ap (λ k. get_or slots (i % cap) blank ∷ window blank slots cap (add_size i 1) k) (omega arith)

  taken :
      (r : SpscRing T)
      → IsRing cap r
      → r.tail ≢ r.head
      → (0 < sub_size r.head r.tail)
        × (sub_size r.head (add_size r.tail 1) ≡ sub_size r.head r.tail - 1)
  taken r h ne = (omega (arith, h), omega (arith, h))

  -- A pop gives the front of the queue of the contents, or nothing exactly if that is empty, and
  -- leaves the ring with the rest.
  pub try_pop_refines :
      (blank : T) (r : SpscRing T)
      → IsRing cap r
      → let (out, r') = try_pop blank r in (out, contents blank r') ≡ pop_queue (contents blank r)
  unfolding try_pop pop_queue
  try_pop_refines blank r h =
      ground (arith, taken r h, window-suc blank r.slots r.tail (sub_size r.head r.tail))

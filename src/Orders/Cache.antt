-- ===== src/Orders/Cache.antt =====
-- The map of order templates as a cache of `both_sides`.
use executor_hotpath_cpp.Base.{
  [], ◌∷◌, none, some, ◌≡◌, refl, inl, inr, Option-cases, Bytes, equal_iff, arith,
}
use executor_hotpath_cpp.Wire.{Direction, buy_yes, buy_no}
use executor_hotpath_cpp.Orders.{BothSides, side_of, both_sides, OrderTemplates, find, acquire}

-- Each entry holds the two sides of its key, and no key stands twice.
abbrev pub IsCache : OrderTemplates → Type 0
IsCache [] = Unit
IsCache ((key, sides) ∷ rest) = (sides ≡ both_sides key) × (find key rest ≡ none) × IsCache rest

find_sides :
    (ticker : Bytes) (templates : OrderTemplates) {sides : BothSides}
    → IsCache templates
    → find ticker templates ≡ some sides
    → sides ≡ both_sides ticker
unfolding find
find_sides ticker [] c h = cc
find_sides ticker ((key, s) ∷ rest) {sides} c h =
    ground (arith, equal_iff key ticker, find_sides ticker rest {sides = sides} c.2)

pub acquire-IsCache :
    (ticker : Bytes) (side : Direction) (templates : OrderTemplates)
    → IsCache templates
    → IsCache (acquire ticker side templates).0
unfolding acquire
acquire-IsCache ticker side templates c = elim (Option-cases (find ticker templates)) [
  | inl e ↦ rw (e, acquire) (refl, e, c)
  | inr (s, e) ↦ rw (e, acquire) c
]

side_of-both_sides :
    (ticker : Bytes) (side : Direction)
    → side_of (both_sides ticker) side ≡ record { ticker = ticker; outcome_side = side }
unfolding both_sides
side_of-both_sides ticker buy_yes = refl
side_of-both_sides ticker buy_no = refl

-- From a cache, and so from the empty one by any sequence of calls, `acquire` returns the template
-- of the ticker and side that it is asked for, whether or not it had to be built.
pub acquire_template :
    (ticker : Bytes) (side : Direction) (templates : OrderTemplates)
    → IsCache templates
    → (acquire ticker side templates).1 ≡ record { ticker = ticker; outcome_side = side }
unfolding acquire
acquire_template ticker side templates c = elim (Option-cases (find ticker templates)) [
  | inl e ↦ rw (e, acquire) (side_of-both_sides ticker side)
  | inr (s, e) ↦ rw (e, acquire, find_sides ticker templates c e) (side_of-both_sides ticker side)
]

find_self :
    (ticker : Bytes) (sides : BothSides) (rest : OrderTemplates)
    → find ticker ((ticker, sides) ∷ rest) ≡ some sides
unfolding find
find_self ticker sides rest = rw ((equal_iff ticker ticker).1 refl)

find-acquire :
    (ticker : Bytes) (side : Direction) (templates : OrderTemplates)
    → (sides : BothSides) × (find ticker (acquire ticker side templates).0 ≡ some sides)
unfolding acquire
find-acquire ticker side templates = elim (Option-cases (find ticker templates)) [
  | inl e ↦ (both_sides ticker, rw (e, acquire) (find_self ticker (both_sides ticker) templates))
  | inr (s, e) ↦ (s, rw (e, acquire) e)
]

acquire_found :
    (ticker : Bytes) (side : Direction) (templates : OrderTemplates) {s : BothSides}
    → find ticker templates ≡ some s
    → (acquire ticker side templates).0 ≡ templates
unfolding acquire
acquire_found ticker side templates e = rw (e, acquire)

-- After a ticker's first use no call for it, on either side, adds an entry.
acquire-acquire :
    (ticker : Bytes) (first then_side : Direction) (templates : OrderTemplates)
    → let once = (acquire ticker first templates).0 in (acquire ticker then_side once).0 ≡ once
acquire-acquire ticker first then_side templates =
    let (s, e) = find-acquire ticker first templates in acquire_found ticker then_side _ e

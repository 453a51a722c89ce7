-- ===== src/Pricing.antt =====
-- Price snapping of src/pricing.cpp, over any type of doubles.
use executor_hotpath_cpp.Base.{Bool, ◌&&◌, List, [], ◌∷◌, if◌then◌else◌}
use executor_hotpath_cpp.Double.{Double}
use executor_hotpath_cpp.Wire.{PriceRange}

module _ {D : Type 0} ⦃d : Double D⦄ where
  unfoldable pub round_half_even : D → D
  round_half_even value =
      let rounded = d.round value in
      if d.eq (d.fabs (d.sub value rounded)) d.half
      then d.mul d.two (d.round (d.div value d.two))
      else rounded

  -- The test of the loop over the ranges.
  abbrev pub covers : D → PriceRange D → Bool
  covers price range =
      d.lt d.zero_double range.step && d.le range.start price && d.le price range.end

  -- `round_half_even(price / step) * step`
  abbrev pub snap : D → D → D
  snap price step = d.mul (round_half_even (d.div price step)) step

  unfoldable pub snap_to_grid : D → List (PriceRange D) → D
  snap_to_grid price [] = snap price d.cent
  snap_to_grid price (range ∷ ranges) =
      if covers price range then snap price range.step else snap_to_grid price ranges

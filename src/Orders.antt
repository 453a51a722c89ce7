-- ===== src/Orders.antt =====
-- The order templates of src/orders.cpp: both sides of a ticker, built on its first use.
pub mod Cache
use executor_hotpath_cpp.Base.{
  Bool, true, false, List, [], ◌∷◌, Option, none, some, Bytes, equal, if◌then◌else◌,
}
use executor_hotpath_cpp.Wire.{Direction, buy_yes, buy_no}

pub record OrderTemplate : Type 0 where
  pub ticker : Bytes
  pub outcome_side : Direction

-- The array of the two templates, at the indices 0 and 1.
pub record BothSides : Type 0 where
  pub at_yes : OrderTemplate
  pub at_no : OrderTemplate

-- `array[side_index(side)]`
abbrev pub side_of : BothSides → Direction → OrderTemplate
side_of b buy_yes = b.at_yes
side_of b buy_no = b.at_no

unfoldable pub both_sides : Bytes → BothSides
both_sides ticker = record {
  at_yes = record { ticker = ticker; outcome_side = buy_yes };
  at_no = record { ticker = ticker; outcome_side = buy_no };
}

-- `by_ticker_`: one entry for a key.
abbrev pub OrderTemplates : Type 0
OrderTemplates = List (Bytes × BothSides)

unfoldable pub find : Bytes → OrderTemplates → Option BothSides
find ticker [] = none
find ticker ((key, sides) ∷ rest) = if equal key ticker then some sides else find ticker rest

-- The templates afterwards, and the template that the returned reference names.
unfoldable pub acquire : Bytes → Direction → OrderTemplates → OrderTemplates × OrderTemplate
unfolding find both_sides
acquire ticker side templates = elim (find ticker templates) [
  | some sides ↦ (templates, side_of sides side)
  | none ↦ ((ticker, both_sides ticker) ∷ templates, side_of (both_sides ticker) side)
]

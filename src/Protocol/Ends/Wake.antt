-- ===== src/Protocol/Ends/Wake.antt =====
-- The field of a wake message and the fuel of the loop over the price ranges.
use executor_hotpath_cpp.Base.{
  ℕ, zero, suc, ◌+◌, ◌≤◌, ◌<◌, ◌≡◌, refl, Bool, true, false, List, [], ◌∷◌, ◌++◌, Option, none,
  some, Bytes, codes, equal, arith, length, if◌then◌else◌,
}
use executor_hotpath_cpp.Base.Int.{ℤ}
use executor_hotpath_cpp.Double.{Double}
use executor_hotpath_cpp.Json.Doubles.{read_double}
use executor_hotpath_cpp.Json.Numbers.{read_int}
use executor_hotpath_cpp.Json.Numbers.Ends.{Ends-read_int, Ends-read_double}
use executor_hotpath_cpp.Json.Reader.{Reader, begin_array, next_element, read_bool}
use executor_hotpath_cpp.Json.Reader.Ends.{Ends-next_element, Ends-begin_array, Ends-read_bool}
use executor_hotpath_cpp.Json.Strings.{read_string}
use executor_hotpath_cpp.Json.Strings.Ends.{Ends-read_string}
use executor_hotpath_cpp.Protocol.Answer.{Answer, answer, refused, out_of_fuel, pure, ◌>>=◌, lift}
use executor_hotpath_cpp.Protocol.Decode.Fields.{
  State, read_direction, read_bound, read_entry, read_range, read_ranges, read_price_ranges,
  read_wake_field,
}
use executor_hotpath_cpp.Wire.{WakeMessage, PriceRange}
use executor_hotpath_cpp.Protocol.Ends.{
  AnswerEnds, AnswerEnds-mono, AnswerEnds-bind, AnswerEnds-lift, AnswerEnds-choose,
  AnswerEnds-store, AnswerEnds-read_direction,
}

module _ (D : Type 0) ⦃d : Double D⦄ where
  AnswerEnds-read_bound : (r : Reader) → AnswerEnds {A = D} 0 r (read_bound r)
  unfolding read_bound
  AnswerEnds-read_bound r =
      AnswerEnds-bind 0 0 (lift next_element) _ r
        (AnswerEnds-lift 0 next_element r (Ends-next_element r))
        (λ present s.
          AnswerEnds-choose present 0 s (lift read_double) _
            (AnswerEnds-lift 0 read_double s (Ends-read_double D s)) tt)

  AnswerEnds-read_entry : (r : Reader) → AnswerEnds {A = Option (PriceRange D)} 1 r (read_entry r)
  unfolding read_entry
  AnswerEnds-read_entry r =
      AnswerEnds-bind 1 0 (lift begin_array) _ r
        (AnswerEnds-lift 1 begin_array r (Ends-begin_array r))
        (λ _ a. AnswerEnds-bind 0 0 read_bound _ a (AnswerEnds-read_bound a) (λ low b.
          AnswerEnds-bind 0 0 read_bound _ b (AnswerEnds-read_bound b) (λ high c.
            AnswerEnds-bind 0 0 read_bound _ c (AnswerEnds-read_bound c) (λ step e.
              AnswerEnds-bind 0 0 (lift next_element) _ e
                (AnswerEnds-lift 0 next_element e (Ends-next_element e))
                (λ extra f. AnswerEnds-choose extra 0 f _ _ tt (omega arith))))))

  -- A range takes a byte at least; the closing bracket may take none.
  abbrev RangeEnds : Reader → Answer (Option (PriceRange D)) → Type 0
  RangeEnds r (answer none r') = length r'.rest ≤ length r.rest
  RangeEnds r (answer (some _) r') = length r'.rest + 1 ≤ length r.rest
  RangeEnds r (refused e) = Unit
  RangeEnds r out_of_fuel = ⊥

  RangeEnds-AnswerEnds :
      (r s : Reader) (o : Answer (Option (PriceRange D)))
      → length r.rest ≤ length s.rest
      → AnswerEnds 1 r o
      → RangeEnds s o
  RangeEnds-AnswerEnds r s (answer none r') h l = omega (arith, h, l)
  RangeEnds-AnswerEnds r s (answer (some _) r') h l = omega (arith, h, l)
  RangeEnds-AnswerEnds r s (refused e) h l = tt
  RangeEnds-AnswerEnds r s out_of_fuel h l = l

  range_at :
      (r : Reader) (o : Answer Bool)
      → AnswerEnds 0 r o
      → RangeEnds r (elim o [
        | answer has s ↦ (if has then read_entry else pure none) s
        | refused e ↦ refused e
        | out_of_fuel ↦ out_of_fuel
      ])
  range_at r (answer true s) l =
      RangeEnds-AnswerEnds s r (read_entry s) (omega (arith, l)) (AnswerEnds-read_entry s)
  range_at r (answer false s) l = omega (arith, l)
  range_at r (refused e) l = tt
  range_at r out_of_fuel l = l

  RangeEnds-read_range : (r : Reader) → RangeEnds r (read_range r)
  unfolding read_range
  RangeEnds-read_range r =
      range_at r (lift next_element r) (AnswerEnds-lift 0 next_element r (Ends-next_element r))

  ranges_at :
      (fuel : ℕ) (ranges : List (PriceRange D)) (r : Reader) (o : Answer (Option (PriceRange D)))
      → RangeEnds r o
      → length r.rest < suc fuel
      → ((more : List (PriceRange D)) (u : Reader)
          → length u.rest < fuel
          → AnswerEnds 0 u (read_ranges fuel more u))
      → read_range r ≡ o
      → AnswerEnds 0 r (read_ranges (suc fuel) ranges r)
  unfolding read_ranges
  ranges_at fuel ranges r (answer none u) l h rec e = rw (e, read_ranges) (omega (arith, l))
  ranges_at fuel ranges r (answer (some range) u) l h rec e =
      rw (e, read_ranges)
        (AnswerEnds-mono 0 0 u r (read_ranges fuel (ranges ++ range ∷ []) u) (omega (arith, l))
          (rec (ranges ++ range ∷ []) u (omega (arith, l, h))))
  ranges_at fuel ranges r (refused x) l h rec e = rw (e, read_ranges) tt
  ranges_at fuel ranges r out_of_fuel l h rec e = absurd l

  AnswerEnds-read_ranges :
      (fuel : ℕ) (ranges : List (PriceRange D)) (r : Reader)
      → length r.rest < fuel
      → AnswerEnds 0 r (read_ranges fuel ranges r)
  AnswerEnds-read_ranges zero ranges r h = absurd (omega (arith, h))
  AnswerEnds-read_ranges (suc fuel) ranges r h =
      ranges_at fuel ranges r (read_range r) (RangeEnds-read_range r) h
        (λ more u l. AnswerEnds-read_ranges fuel more u l) refl

  AnswerEnds-read_price_ranges :
      (r : Reader) → AnswerEnds {A = List (PriceRange D)} 0 r (read_price_ranges r)
  unfolding read_price_ranges
  AnswerEnds-read_price_ranges r = AnswerEnds-mono 1 0 r r (read_price_ranges r) (omega arith) (
      AnswerEnds-bind 1 0 (lift begin_array) _ r
        (AnswerEnds-lift 1 begin_array r (Ends-begin_array r))
        (λ _ s. AnswerEnds-read_ranges (suc (length s.rest)) [] s (omega arith)))

  -- What the fields are read with.
  module _ (r : Reader) where
    text :
        {B : Type 0} (f : Bytes → B) → AnswerEnds 0 r ((lift read_string >>= (λ v. pure (f v))) r)
    text f =
        AnswerEnds-store (lift read_string) f r
          (AnswerEnds-lift 0 read_string r (Ends-read_string r))

    int : {B : Type 0} (f : ℤ → B) → AnswerEnds 0 r ((lift read_int >>= (λ v. pure (f v))) r)
    int f = AnswerEnds-store (lift read_int) f r (AnswerEnds-lift 0 read_int r (Ends-read_int r))

    flag : {B : Type 0} (f : Bool → B) → AnswerEnds 0 r ((lift read_bool >>= (λ v. pure (f v))) r)
    flag f =
        AnswerEnds-store (lift read_bool) f r (AnswerEnds-lift 0 read_bool r (Ends-read_bool r))

    number : {B : Type 0} (f : D → B) → AnswerEnds 0 r ((lift read_double >>= (λ v. pure (f v))) r)
    number f =
        AnswerEnds-store (lift read_double) f r
          (AnswerEnds-lift 0 read_double r (Ends-read_double D r))

    pub AnswerEnds-read_wake_field :
        (key : Bytes) (s : State (WakeMessage D)) → AnswerEnds 0 r (read_wake_field key s r)
    unfolding read_wake_field
    AnswerEnds-read_wake_field key s =
        (AnswerEnds-choose (equal key (codes "schema_version")) 0 r _ _ (int _) (
          AnswerEnds-choose (equal key (codes "correlation_id")) 0 r _ _ (text _) (
            AnswerEnds-choose (equal key (codes "market_ticker")) 0 r _ _ (text _) (
              AnswerEnds-choose (equal key (codes "asset")) 0 r _ _ (text _) (
                AnswerEnds-choose (equal key (codes "direction")) 0 r _ _
                  (AnswerEnds-store read_direction _ r (AnswerEnds-read_direction r))
                  (AnswerEnds-choose (equal key (codes "kalshi_price")) 0 r _ _ (number _) (
                    AnswerEnds-choose (equal key (codes "model_probability")) 0 r _ _ (number _) (
                      AnswerEnds-choose (equal key (codes "fee")) 0 r _ _ (number _) (
                        AnswerEnds-choose (equal key (codes "edge")) 0 r _ _ (number _) (
                          AnswerEnds-choose (equal key (codes "decision_ts_ms")) 0 r _ _ (int _) (
                            AnswerEnds-choose (equal key (codes "sent_at_ms")) 0 r _ _ (int _) (
                              AnswerEnds-choose (equal key (codes "sent_at_ns")) 0 r _ _ (int _) (
                                AnswerEnds-choose (equal key (codes "recv_ns")) 0 r _ _ (int _) (
                                  AnswerEnds-choose (equal key (codes "clock_domain")) 0 r _ _
                                    (text _)
                                    (AnswerEnds-choose (equal key (codes "dry_run")) 0 r _ _
                                      (flag _)
                                      (AnswerEnds-choose
                                        (equal key (codes "wire_price_yes_dollars")) 0 r _ _
                                        (number _)
                                        (AnswerEnds-choose (equal key (codes "exchange_index")) 0 r
                                          _ _ (int _)
                                          (AnswerEnds-choose
                                            (equal key (codes "available_size_contracts")) 0 r _ _
                                            (number _)
                                            (AnswerEnds-choose (equal key (codes "price_ranges")) 0
                                              r _ _
                                              (AnswerEnds-store read_price_ranges _ r
                                                (AnswerEnds-read_price_ranges r))
                                              (AnswerEnds-choose
                                                (equal key (codes "correlation_group")) 0 r _ _
                                                (text _) tt))))))))))))))))))))

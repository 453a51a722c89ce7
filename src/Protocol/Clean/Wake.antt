-- ===== src/Protocol/Clean/Wake.antt =====
-- The errors of the fields of a wake message, in src/protocol.cpp, are valid UTF-8, and so is the
-- correlation id.
use executor_hotpath_cpp.Base.{
  ℕ, zero, suc, ◌≡◌, refl, Bool, List, [], ◌∷◌, ◌++◌, Option, none, some, Bytes, codes, equal,
  arith, length,
}
use executor_hotpath_cpp.Base.Int.{ℤ}
use executor_hotpath_cpp.Double.{Double}
use executor_hotpath_cpp.Json.Doubles.{read_double}
use executor_hotpath_cpp.Json.Numbers.{read_int}
use executor_hotpath_cpp.Json.Numbers.Clean.{Clean-read_int, Clean-read_double}
use executor_hotpath_cpp.Json.Reader.{Reader, begin_array, next_element, read_bool}
use executor_hotpath_cpp.Json.Reader.Clean.{Any}
use executor_hotpath_cpp.Json.Reader.Clean.Calls.{
  Clean-begin_array, Clean-next_element, Clean-read_bool,
}
use executor_hotpath_cpp.Json.Strings.{read_string}
use executor_hotpath_cpp.Json.Strings.Clean.{Clean-read_string}
use executor_hotpath_cpp.Json.Utf8.{IsUtf8}
use executor_hotpath_cpp.Json.Utf8.Text.{IsAscii-IsUtf8}
use executor_hotpath_cpp.Protocol.Answer.{Answer, answer, refused, out_of_fuel, pure, ◌>>=◌, lift}
use executor_hotpath_cpp.Protocol.Clean.{
  CleanAnswer, CleanAnswer-lift, CleanAnswer-bind, CleanAnswer-choose, CleanAnswer-store,
  CleanAnswer-read_direction, with_text,
}
use executor_hotpath_cpp.Protocol.Decode.Fields.{
  State, read_direction, read_bound, read_entry, read_range, read_ranges, read_price_ranges,
  read_wake_field,
}
use executor_hotpath_cpp.Wire.{WakeMessage, PriceRange, Direction}

-- The state of the decoder's loop.
abbrev pub HasId : {D : Type 0} → State (WakeMessage D) → Type 0
HasId s = IsUtf8 s.message.correlation_id

not_a_triple : IsUtf8 (codes "price_ranges entry is not [start, end, step]")
not_a_triple = IsAscii-IsUtf8 (codes "price_ranges entry is not [start, end, step]") (omega arith)

module _ (D : Type 0) ⦃d : Double D⦄ where
  CleanAnswer-read_bound : (r : Reader) → r.error ≡ none → CleanAnswer (Any {A = D}) (read_bound r)
  unfolding read_bound
  CleanAnswer-read_bound r e =
      CleanAnswer-bind Any Any (lift next_element) _ r
        (CleanAnswer-lift Any next_element r (Clean-next_element r e))
        (λ present s e _.
          CleanAnswer-choose Any present s (lift read_double) _
            (CleanAnswer-lift Any read_double s (Clean-read_double D s e)) not_a_triple)

  CleanAnswer-read_entry :
      (r : Reader) → r.error ≡ none → CleanAnswer {A = Option (PriceRange D)} Any (read_entry r)
  unfolding read_entry
  CleanAnswer-read_entry r e =
      CleanAnswer-bind Any Any (lift begin_array) _ r
        (CleanAnswer-lift Any begin_array r (Clean-begin_array r e))
        (λ _ a e _.
          CleanAnswer-bind Any Any read_bound _ a (CleanAnswer-read_bound a e) (λ low b e _.
            CleanAnswer-bind Any Any read_bound _ b (CleanAnswer-read_bound b e) (λ high c e _.
              CleanAnswer-bind Any Any read_bound _ c (CleanAnswer-read_bound c e) (λ step f e _.
                CleanAnswer-bind Any Any (lift next_element) _ f
                  (CleanAnswer-lift Any next_element f (Clean-next_element f e))
                  (λ extra g e _. CleanAnswer-choose Any extra g _ _ not_a_triple (e, tt))))))

  CleanAnswer-read_range :
      (r : Reader) → r.error ≡ none → CleanAnswer {A = Option (PriceRange D)} Any (read_range r)
  unfolding read_range
  CleanAnswer-read_range r e =
      CleanAnswer-bind Any Any (lift next_element) _ r
        (CleanAnswer-lift Any next_element r (Clean-next_element r e))
        (λ has s e _.
          CleanAnswer-choose Any has s read_entry (pure none) (CleanAnswer-read_entry s e) (e, tt))

  ranges_at :
      (fuel : ℕ) (ranges : List (PriceRange D)) (r : Reader) (o : Answer (Option (PriceRange D)))
      → CleanAnswer Any o
      → ((more : List (PriceRange D)) (u : Reader)
          → u.error ≡ none
          → CleanAnswer Any (read_ranges fuel more u))
      → read_range r ≡ o
      → CleanAnswer Any (read_ranges (suc fuel) ranges r)
  unfolding read_ranges
  ranges_at fuel ranges r (answer none u) (c, _) rec e = rw (e, read_ranges) (c, tt)
  ranges_at fuel ranges r (answer (some range) u) (c, _) rec e =
      rw (e, read_ranges) (rec (ranges ++ range ∷ []) u c)
  ranges_at fuel ranges r (refused x) c rec e = rw (e, read_ranges) c
  ranges_at fuel ranges r out_of_fuel c rec e = rw (e, read_ranges) tt

  CleanAnswer-read_ranges :
      (fuel : ℕ) (ranges : List (PriceRange D)) (r : Reader)
      → r.error ≡ none
      → CleanAnswer Any (read_ranges fuel ranges r)
  unfolding read_ranges
  CleanAnswer-read_ranges zero ranges r e = tt
  CleanAnswer-read_ranges (suc fuel) ranges r e =
      ranges_at fuel ranges r (read_range r) (CleanAnswer-read_range r e)
        (λ more u e. CleanAnswer-read_ranges fuel more u e) refl

  CleanAnswer-read_price_ranges :
      (r : Reader)
      → r.error ≡ none
      → CleanAnswer {A = List (PriceRange D)} Any (read_price_ranges r)
  unfolding read_price_ranges
  CleanAnswer-read_price_ranges r e =
      CleanAnswer-bind Any Any (lift begin_array) _ r
        (CleanAnswer-lift Any begin_array r (Clean-begin_array r e))
        (λ _ s e _. CleanAnswer-read_ranges (suc (length s.rest)) [] s e)

  -- What the fields are read with, from a reader without an error.
  module _ (r : Reader) (e : r.error ≡ none) where
    abbrev S : Type 0
    S = State (WakeMessage D)

    id :
        (f : Bytes → S)
        → ((v : Bytes) → IsUtf8 v → HasId (f v))
        → CleanAnswer HasId ((lift read_string >>= (λ v. pure (f v))) r)
    id f h =
        CleanAnswer-store IsUtf8 HasId (lift read_string) f r
          (CleanAnswer-lift IsUtf8 read_string r (Clean-read_string r e)) h

    text :
        (f : Bytes → S)
        → ((v : Bytes) → HasId (f v))
        → CleanAnswer HasId ((lift read_string >>= (λ v. pure (f v))) r)
    text f h = id f (λ v _. h v)

    int :
        (f : ℤ → S)
        → ((v : ℤ) → HasId (f v))
        → CleanAnswer HasId ((lift read_int >>= (λ v. pure (f v))) r)
    int f h =
        CleanAnswer-store Any HasId (lift read_int) f r
          (CleanAnswer-lift Any read_int r (Clean-read_int r e)) (λ v _. h v)

    flag :
        (f : Bool → S)
        → ((v : Bool) → HasId (f v))
        → CleanAnswer HasId ((lift read_bool >>= (λ v. pure (f v))) r)
    flag f h =
        CleanAnswer-store Any HasId (lift read_bool) f r
          (CleanAnswer-lift Any read_bool r (Clean-read_bool r e)) (λ v _. h v)

    number :
        (f : D → S)
        → ((v : D) → HasId (f v))
        → CleanAnswer HasId ((lift read_double >>= (λ v. pure (f v))) r)
    number f h =
        CleanAnswer-store Any HasId (lift read_double) f r
          (CleanAnswer-lift Any read_double r (Clean-read_double D r e)) (λ v _. h v)

    side :
        (f : Direction → S)
        → ((v : Direction) → HasId (f v))
        → CleanAnswer HasId ((read_direction >>= (λ v. pure (f v))) r)
    side f h =
        CleanAnswer-store Any HasId read_direction f r (CleanAnswer-read_direction r e) (λ v _. h v)

    ranges :
        (f : List (PriceRange D) → S)
        → ((v : List (PriceRange D)) → HasId (f v))
        → CleanAnswer HasId ((read_price_ranges >>= (λ v. pure (f v))) r)
    ranges f h =
        CleanAnswer-store Any HasId read_price_ranges f r (CleanAnswer-read_price_ranges r e)
          (λ v _. h v)

    pub CleanAnswer-read_wake_field :
        (key : Bytes) (s : S) → IsUtf8 key → HasId s → CleanAnswer HasId (read_wake_field key s r)
    unfolding read_wake_field
    CleanAnswer-read_wake_field key s u i =
        CleanAnswer-choose HasId (equal key (codes "schema_version")) r _ _ (int _ (λ _. i)) (
          CleanAnswer-choose HasId (equal key (codes "correlation_id")) r _ _ (id _ (λ v h. h)) (
            CleanAnswer-choose HasId (equal key (codes "market_ticker")) r _ _ (text _ (λ _. i)) (
              CleanAnswer-choose HasId (equal key (codes "asset")) r _ _ (text _ (λ _. i)) (
                CleanAnswer-choose HasId (equal key (codes "direction")) r _ _ (side _ (λ _. i)) (
                  CleanAnswer-choose HasId (equal key (codes "kalshi_price")) r _ _
                    (number _ (λ _. i))
                    (CleanAnswer-choose HasId (equal key (codes "model_probability")) r _ _
                      (number _ (λ _. i))
                      (CleanAnswer-choose HasId (equal key (codes "fee")) r _ _ (number _ (λ _. i))
                        (CleanAnswer-choose HasId (equal key (codes "edge")) r _ _
                          (number _ (λ _. i))
                          (CleanAnswer-choose HasId (equal key (codes "decision_ts_ms")) r _ _
                            (int _ (λ _. i))
                            (CleanAnswer-choose HasId (equal key (codes "sent_at_ms")) r _ _
                              (int _ (λ _. i))
                              (CleanAnswer-choose HasId (equal key (codes "sent_at_ns")) r _ _
                                (int _ (λ _. i))
                                (CleanAnswer-choose HasId (equal key (codes "recv_ns")) r _ _
                                  (int _ (λ _. i))
                                  (CleanAnswer-choose HasId (equal key (codes "clock_domain")) r _ _
                                    (text _ (λ _. i))
                                    (CleanAnswer-choose HasId (equal key (codes "dry_run")) r _ _
                                      (flag _ (λ _. i))
                                      (CleanAnswer-choose HasId
                                        (equal key (codes "wire_price_yes_dollars")) r _ _
                                        (number _ (λ _. i))
                                        (CleanAnswer-choose HasId
                                          (equal key (codes "exchange_index")) r _ _
                                          (int _ (λ _. i))
                                          (CleanAnswer-choose HasId
                                            (equal key (codes "available_size_contracts")) r _ _
                                            (number _ (λ _. i))
                                            (CleanAnswer-choose HasId
                                              (equal key (codes "price_ranges")) r _ _
                                              (ranges _ (λ _. i))
                                              (CleanAnswer-choose HasId
                                                (equal key (codes "correlation_group")) r _ _
                                                (text _ (λ _. i))
                                                (with_text (codes "unexpected field: ") key
                                                  (omega arith) u))))))))))))))))))))

-- ===== src/Bench/Runs/Sizes.antt =====
-- How many samples a benchmark of bench/bench_main.cpp reports.
use executor_hotpath_cpp.Base.{
  ℕ, zero, suc, ◌+◌, ◌^◌, ◌<◌, ◌≡◌, ◌∙◌, List, [], ◌∷◌, ◌++◌, Bytes, arith, length, length-append,
}
use executor_hotpath_cpp.Base.Int.{ℤ}
use executor_hotpath_cpp.Bench.Options.{Options}
use executor_hotpath_cpp.Bench.Percentile.{Stats, from_samples}
use executor_hotpath_cpp.Bench.Percentile.Sorted.{from_samples_sizes}
use executor_hotpath_cpp.Bench.Runs.{
  Outcome, measured, threw, unknown, Clock, total, elapsed_ms, decode_loop, bench_decode,
  encode_loop, bench_encode_ack, sign_loop, sign_order, bench_sign, decode_round, sign_round,
  measure,
}
use executor_hotpath_cpp.Double.{Double}
use executor_hotpath_cpp.Protocol.Decode.{decode_wake_message}
use executor_hotpath_cpp.Protocol.Encode.{encode_message_body}
use executor_hotpath_cpp.Protocol.Frame.{Decoded, value, failure, exhausted}
use executor_hotpath_cpp.Signer.{
  Openssl, RequestSigner, SignAnswers, Signing, signed, logic_error, runtime_error, overrun,
}
use executor_hotpath_cpp.Wire.{WakeMessage, WakeAck}

module _ {D : Type 0} where
  -- So many samples, if there is a measurement.
  abbrev Counts : ℕ → Outcome (List D) → Type 0
  Counts n (measured samples) = length samples ≡ n
  Counts n (threw _) = Unit
  Counts n unknown = Unit

  -- The figures are those of as many samples as there are iterations, behind the warm-up.
  abbrev pub IsSized : Options → Stats D → Type 0
  IsSized o s = (s.n ≡ o.iterations) × (s.warmup ≡ o.warmup)

  abbrev pub IsSizedOutcome : Options → Outcome (Stats D) → Type 0
  IsSizedOutcome o (measured s) = IsSized o s
  IsSizedOutcome o (threw _) = Unit
  IsSizedOutcome o unknown = Unit

module _ {D : Type 0} ⦃d : Double D⦄ where
  length-snoc : (samples : List D) (x : D) → length (samples ++ x ∷ []) ≡ suc (length samples)
  length-snoc samples x = omega (arith, length-append samples (x ∷ []))

  decode_round-Counts :
      (o : Decoded (WakeMessage D)) (n : ℕ) (samples : List D) (next : List D → Outcome (List D))
      → Counts n (next samples)
      → Counts n (decode_round o samples next)
  decode_round-Counts (value _) n samples next h = h
  decode_round-Counts (failure _) n samples next h = tt
  decode_round-Counts exhausted n samples next h = tt

  decode_loop-Counts :
      (clock : Clock) (body : Bytes) (n i m : ℕ) (samples : List D)
      → length samples + n ≡ m
      → Counts m (decode_loop clock body n i samples)
  unfolding decode_loop
  decode_loop-Counts clock body zero i m samples h = omega (arith, h)
  decode_loop-Counts clock body (suc n) i m samples h =
      let more = samples ++ elapsed_ms (clock i) ∷ [] in
      decode_round-Counts (decode_wake_message body) m more
        (λ more. decode_loop clock body n (suc i) more)
        (decode_loop-Counts clock body n (suc i) m more
          (omega (arith, h, length-snoc samples (elapsed_ms (clock i)))))

  encode_loop-Counts :
      (clock : Clock) (ack : WakeAck) (n i : ℕ) (out : Bytes) (samples : List D)
      → length (encode_loop clock ack n i out samples).0 ≡ length samples + n
  unfolding encode_loop
  encode_loop-Counts clock ack zero i out samples = omega arith
  encode_loop-Counts clock ack (suc n) i out samples =
      encode_loop-Counts clock ack n (suc i) _ (samples ++ elapsed_ms (clock i) ∷ [])
      ∙ omega (arith, length-snoc samples (elapsed_ms (clock i)))

  module _ {K : Type 0} (ssl : Openssl K) where
    sign_round-Counts :
        (o : Signing) (n : ℕ) (samples : List D) (next : List D → Outcome (List D))
        → Counts n (next samples)
        → Counts n (sign_round ssl o samples next)
    sign_round-Counts (signed []) n samples next h = tt
    sign_round-Counts (signed (_ ∷ _)) n samples next h = h
    sign_round-Counts (logic_error _) n samples next h = tt
    sign_round-Counts (runtime_error _) n samples next h = tt
    sign_round-Counts overrun n samples next h = tt

    sign_loop-Counts :
        (clock : Clock) (answers : ℕ → SignAnswers) (now_ms : ℕ → ℤ) (n i m : ℕ)
        (s : RequestSigner K) (samples : List D)
        → length samples + n ≡ m
        → Counts m (sign_loop ssl clock answers now_ms n i s samples)
    unfolding sign_loop
    sign_loop-Counts clock answers now_ms zero i m s samples h = omega (arith, h)
    sign_loop-Counts clock answers now_ms (suc n) i m s samples h =
        let more = samples ++ elapsed_ms (clock i) ∷ [] in
        let (result, t) = sign_order ssl (answers i) (now_ms i) s in
        sign_round-Counts result m more
          (λ more. sign_loop ssl clock answers now_ms n (suc i) t more)
          (sign_loop-Counts clock answers now_ms n (suc i) m t more
            (omega (arith, h, length-snoc samples (elapsed_ms (clock i)))))

  from_samples-IsSized :
      (o : Options) (samples : List D)
      → o.warmup + o.iterations < 2 ^ 64
      → length samples ≡ total o
      → IsSized o (from_samples samples o.warmup)
  from_samples-IsSized o samples h l =
      let (n, w) = from_samples_sizes samples o.warmup (omega (arith, h, l)) in
      (omega (arith, n, h, l), w)

  measure-IsSized :
      (o : Options) (r : Outcome (List D))
      → o.warmup + o.iterations < 2 ^ 64
      → Counts (total o) r
      → IsSizedOutcome o (measure o r)
  measure-IsSized o (measured samples) h c = from_samples-IsSized o samples h c
  measure-IsSized o (threw _) h c = tt
  measure-IsSized o unknown h c = tt

  -- A benchmark that does not throw reports as many samples as iterations were asked for, and as many
  -- dropped as were asked for, if the two together fit 64 bits: the decoder's, the encoder's, and the
  -- signer's.
  pub benches-IsSized :
      {K : Type 0} (ssl : Openssl K) (o : Options) (clock : Clock) (wake : WakeMessage D) (now : ℤ)
      (answers : ℕ → SignAnswers) (now_ms : ℕ → ℤ) (s : RequestSigner K)
      → o.warmup + o.iterations < 2 ^ 64
      → IsSizedOutcome o (bench_decode o clock wake)
        × IsSized {D = D} o (bench_encode_ack o clock now)
        × IsSizedOutcome {D = D} o (bench_sign ssl o clock answers now_ms s)
  unfolding bench_decode bench_encode_ack bench_sign
  benches-IsSized ssl o clock wake now answers now_ms s h = (
    measure-IsSized o _ h (
        decode_loop-Counts clock (encode_message_body wake) (total o) 0 (total o) [] (omega arith)),
    from_samples-IsSized o _ h (encode_loop-Counts clock _ (total o) 0 [] [] ∙ omega arith),
    measure-IsSized o _ h
        (sign_loop-Counts ssl clock answers now_ms (total o) 0 (total o) s [] (omega arith)),
  )

-- ===== src/Bench/Runs.antt =====
-- The benchmarks of bench/bench_main.cpp, over given clocks. A clock gives the two readings of
-- `monotonic_ns` around the call of each iteration; a total of iterations is a 64-bit number.
pub mod Sizes
pub mod Configured
use executor_hotpath_cpp.Base.{
  ℕ, zero, suc, ◌+◌, ◌%◌, ◌^◌, not, Bool, true, false, List, [], ◌∷◌, ◌++◌, Option, none, some,
  Bytes, codes, if◌then◌else◌, length, ◌==◌,
}
use executor_hotpath_cpp.Base.Int.{ℤ, pos}
use executor_hotpath_cpp.Bench.Options.{Options}
use executor_hotpath_cpp.Bench.Percentile.{Stats, from_samples}
use executor_hotpath_cpp.Bench.Poller.{Link, Sent, sent_wake, diverged, send_wake}
use executor_hotpath_cpp.Double.{Double}
use executor_hotpath_cpp.Executor.Serve.{difference}
use executor_hotpath_cpp.Json.Writer.{to_chars}
use executor_hotpath_cpp.Protocol.Decode.{decode_wake_message}
use executor_hotpath_cpp.Protocol.Encode.{encode_ack_frame, encode_message_body}
use executor_hotpath_cpp.Protocol.Frame.{Decoded, value, failure, exhausted}
use executor_hotpath_cpp.Signer.{
  Openssl, RequestSigner, SignAnswers, Signing, signed, logic_error, runtime_error, overrun, sign,
}
use executor_hotpath_cpp.Wire.{
  WakeMessage, WakeAck, WakeAckStatus, accepted, rejected, default_message, default_ack,
  schema_version_current, buy_yes,
}

-- What a benchmark comes to: what it measured, an exception, or a model that has no answer.
pub data Outcome (A : Type 0) : Type 0 where
  measured : A → Outcome A
  threw : Bytes → Outcome A
  unknown : Outcome A

abbrev pub Clock : Type 0
Clock = ℕ → ℕ × ℕ

-- `options.warmup + options.iterations`
abbrev pub total : Options → ℕ
total options = (options.warmup + options.iterations) % 2 ^ 64

abbrev reason_or_empty : Option Bytes → Bytes
reason_or_empty none = []
reason_or_empty (some text) = text

-- What the server has counted must be what was sent.
unfoldable pub check_handled : ℕ → ℕ → ℕ → Option Bytes
check_handled fired wakes expected =
    if not (fired == expected)
    then some message
    else if not (wakes == expected)
    then some message
    else none
  where
    message : Bytes
    message =
        codes "executor handled "
        ++ to_chars (pos fired)
        ++ codes " fires and "
        ++ to_chars (pos wakes)
        ++ codes " wakes, expected "
        ++ to_chars (pos expected)

-- The call that `bench_sign` times.
abbrev pub sign_order :
    {K : Type 0} → Openssl K → SignAnswers → ℤ → RequestSigner K → Signing × RequestSigner K
sign_order ssl answers now_ms s =
    sign ssl answers (to_chars now_ms) (codes "GET") (codes "/trade-api/v2/portfolio/orders") s

module _ {D : Type 0} ⦃d : Double D⦄ where
  -- `elapsed_ms` of the readings around a call
  abbrev pub elapsed_ms : ℕ × ℕ → D
  elapsed_ms (started, now) = d.div (d.of_int (difference now started)) (d.of_int (pos 1000000))

  -- `bench_wake`, over the literals 0.55 and 0.04 and the clocks it reads.
  unfoldable pub bench_wake : D → D → ℤ → ℤ → WakeMessage D
  bench_wake probability edge now_ms now_ns =
      record (default_message d.zero_double d.one_double d.cent) {
        correlation_id = codes "bench-0";
        market_ticker = codes "KXBENCH-T100";
        asset = codes "BENCH";
        direction = buy_yes;
        kalshi_price = d.half;
        model_probability = probability;
        fee = d.cent;
        edge = edge;
        decision_ts_ms = pos 0;
        sent_at_ms = now_ms;
        sent_at_ns = now_ns;
        wire_price_yes_dollars = d.half;
      }

  abbrev pub measure : Options → Outcome (List D) → Outcome (Stats D)
  measure options (measured samples) = measured (from_samples samples options.warmup)
  measure options (threw message) = threw message
  measure options unknown = unknown

  -- The iterations from `i` on: each one is timed before its result is looked at.
  abbrev pub decode_round :
      Decoded (WakeMessage D) → List D → (List D → Outcome (List D)) → Outcome (List D)
  decode_round (value _) samples next = next samples
  decode_round (failure e) samples next = threw (codes "decode failed: " ++ e.message)
  decode_round exhausted samples next = unknown

  unfoldable pub decode_loop : Clock → Bytes → ℕ → ℕ → List D → Outcome (List D)
  decode_loop clock body zero i samples = measured samples
  decode_loop clock body (suc n) i samples =
      decode_round (decode_wake_message body) (samples ++ elapsed_ms (clock i) ∷ [])
        (λ more. decode_loop clock body n (suc i) more)

  unfoldable pub bench_decode : Options → Clock → WakeMessage D → Outcome (Stats D)
  unfolding decode_loop
  bench_decode options clock wake =
      measure options (decode_loop clock (encode_message_body wake) (total options) 0 [])

  -- The buffer `out` is written anew in each iteration, and is part of the result.
  unfoldable pub encode_loop : Clock → WakeAck → ℕ → ℕ → Bytes → List D → List D × Bytes
  encode_loop clock ack zero i out samples = (samples, out)
  encode_loop clock ack (suc n) i out samples =
      encode_loop clock ack n (suc i) (encode_ack_frame ack) (samples ++ elapsed_ms (clock i) ∷ [])

  unfoldable pub bench_encode_ack : Options → Clock → ℤ → Stats D
  unfolding encode_loop
  bench_encode_ack options clock now_ms =
      let ack : WakeAck = record default_ack {
        correlation_id = codes "bench-0";
        received_at_ms = now_ms;
      } in
      from_samples (encode_loop clock ack (total options) 0 [] []).0 options.warmup

  module _ {K : Type 0} (ssl : Openssl K) where
    abbrev pub sign_round : Signing → List D → (List D → Outcome (List D)) → Outcome (List D)
    sign_round (signed []) samples next = threw (codes "signer returned an empty signature")
    sign_round (signed (_ ∷ _)) samples next = next samples
    sign_round (logic_error message) samples next = threw message
    sign_round (runtime_error message) samples next = threw message
    sign_round overrun samples next = unknown

    -- Each iteration has the answers of its calls and its own time of day.
    unfoldable pub sign_loop :
        Clock → (ℕ → SignAnswers) → (ℕ → ℤ) → ℕ → ℕ → RequestSigner K → List D → Outcome (List D)
    sign_loop clock answers now_ms zero i s samples = measured samples
    sign_loop clock answers now_ms (suc n) i s samples =
        let (result, s') = sign_order ssl (answers i) (now_ms i) s in
        sign_round result (samples ++ elapsed_ms (clock i) ∷ [])
          (λ more. sign_loop clock answers now_ms n (suc i) s' more)

    -- `bench_sign` from the signer that is loaded on.
    unfoldable pub bench_sign :
        Options → Clock → (ℕ → SignAnswers) → (ℕ → ℤ) → RequestSigner K → Outcome (Stats D)
    unfolding sign_loop
    bench_sign options clock answers now_ms s =
        measure options (sign_loop clock answers now_ms (total options) 0 s [])

  abbrev check_status : WakeAckStatus → WakeAck → Outcome (List D) → Outcome (List D)
  check_status accepted ack next = next
  check_status rejected ack next =
      threw (
        codes "executor rejected "
        ++ ack.correlation_id
        ++ codes ": "
        ++ reason_or_empty ack.reason)

  abbrev trip : Sent → (WakeAck → Link → Outcome (List D)) → Outcome (List D)
  trip diverged next = unknown
  trip (sent_wake (some message) ack link) next = threw (codes "send_wake: " ++ message)
  trip (sent_wake none ack link) next = check_status ack.status ack (next ack link)

  -- The loop of `bench_roundtrip`, with the message, the ack and the socket as they are then.
  unfoldable pub roundtrip_loop :
      Clock → (ℕ → ℤ × ℤ) → ℕ → ℕ → WakeMessage D → WakeAck → Link → List D → Outcome (List D)
  roundtrip_loop clock times zero i message ack link samples = measured samples
  roundtrip_loop clock times (suc n) i message ack link samples =
      let (now_ms, now_ns) = times i in
      let wake : WakeMessage D = record message {
        correlation_id = codes "bench-" ++ to_chars (pos i);
        sent_at_ms = now_ms;
        sent_at_ns = now_ns;
      } in
      trip (send_wake true wake ack link) (λ a l.
        roundtrip_loop clock times n (suc i) wake a l (samples ++ elapsed_ms (clock i) ∷ []))

-- ===== src/Protocol/Decode/Unknown.antt =====
-- A key that `read_wake_field` of src/protocol.cpp does not know.
use executor_hotpath_cpp.Base.{
  ℕ, suc, ◌≡◌, refl, false, true, List, [], ◌∷◌, ◌++◌, Bytes, codes, equal, arith, All, length,
  some,
}
use executor_hotpath_cpp.Double.{Double}
use executor_hotpath_cpp.Json.Reader
use executor_hotpath_cpp.Json.Reader.{Reader, start, begin_object, skip, peek}
use executor_hotpath_cpp.Json.Strings.{next_member}
use executor_hotpath_cpp.Protocol.Answer.{P, refused, members}
use executor_hotpath_cpp.Protocol.Decode.{decode_wake_message, wake_message_required}
use executor_hotpath_cpp.Protocol.Decode.Run.{decode_refused}
use executor_hotpath_cpp.Protocol.Decode.Fields.{State, none_seen, read_wake_field}
use executor_hotpath_cpp.Protocol.Frame.{failure}
use executor_hotpath_cpp.Protocol.Members.{IsPlain, key_text, inside, next_member_first}
use executor_hotpath_cpp.Wire.{DecodeError, WakeMessage, default_message, unknown_field}

abbrev pub wake_field_names : List Bytes
wake_field_names =
    codes "schema_version"
    ∷ codes "correlation_id"
    ∷ codes "market_ticker"
    ∷ codes "asset"
    ∷ codes "direction"
    ∷ codes "kalshi_price"
    ∷ codes "model_probability"
    ∷ codes "fee"
    ∷ codes "edge"
    ∷ codes "decision_ts_ms"
    ∷ codes "sent_at_ms"
    ∷ codes "sent_at_ns"
    ∷ codes "recv_ns"
    ∷ codes "clock_domain"
    ∷ codes "dry_run"
    ∷ codes "wire_price_yes_dollars"
    ∷ codes "exchange_index"
    ∷ codes "available_size_contracts"
    ∷ codes "price_ranges"
    ∷ codes "correlation_group"
    ∷ []

-- None of the names.
abbrev pub IsUnknown : Bytes → Type 0
IsUnknown key = All (λ name. equal key name ≡ false) wake_field_names

abbrev pub unexpected : Bytes → DecodeError
unexpected key = record { code = unknown_field; message = codes "unexpected field: " ++ key }

module _ {D : Type 0} ⦃d : Double D⦄ where
  read_wake_field-IsUnknown :
      (key : Bytes) (s : State (WakeMessage D)) (r : Reader)
      → IsUnknown key
      → read_wake_field key s r ≡ refused (unexpected key)
  unfolding read_wake_field
  read_wake_field-IsUnknown key s r
        (
          a,
          (
            b,
            (
              c,
              (
                e,
                (f, (g, (h, (i, (j, (k, (l, (m, (n, (o, (p, (q, (t, (u, (v, (w, _)))))))))))))))),
              ),
            ),
          ),
        ) =
      rw (a, b, c, e, f, g, h, i, j, k, l, m, n, o, p, q, t, u, v, w) refl

members_refused :
    {S : Type 0} (field : Bytes → S → P S) (fuel : ℕ) {k : Bytes} {x : DecodeError} {r' : Reader}
    (s : S) (r : Reader)
    → next_member r ≡ Reader.ok (some k) r'
    → field k s r' ≡ refused x
    → members (suc fuel) field s r ≡ refused x
unfolding members
members_refused field fuel s r n f = ground arith

-- A body that opens an object, and whose first key, as the reader reads it (with any white space in
-- between and any escapes in the key), is none of the twenty names: it is refused at that key,
-- whatever follows, and the error names the key.
pub decode_wake_message-IsUnknown :
    (D : Type 0) ⦃d : Double D⦄ (body key : Bytes) (r r' : Reader)
    → begin_object (start body) ≡ Reader.ok tt r
    → next_member r ≡ Reader.ok (some key) r'
    → IsUnknown key
    → decode_wake_message {D = D} body ≡ failure (unexpected key)
unfolding decode_wake_message
decode_wake_message-IsUnknown D ⦃d⦄ body key r r' opened read u =
    let first : State (WakeMessage D) = record {
      message = default_message d.zero_double d.one_double d.cent;
      seen = none_seen;
    } in
    decode_refused read_wake_field wake_message_required first.message body r opened (
      members_refused read_wake_field (length body) first r read
        (read_wake_field-IsUnknown key first r' u))

-- A key without escapes, and no white space.
pub decode_wake_message-IsPlain :
    (D : Type 0) ⦃d : Double D⦄ (key rest : Bytes)
    → IsPlain key
    → IsUnknown key
    → decode_wake_message {D = D} (b'{' ∷ key_text key rest) ≡ failure (unexpected key)
unfolding begin_object skip peek
decode_wake_message-IsPlain D key rest p u =
    decode_wake_message-IsUnknown D (b'{' ∷ key_text key rest) key (inside true (key_text key rest))
      (inside false rest) refl (next_member_first rest (inside true (key_text key rest)) p refl) u

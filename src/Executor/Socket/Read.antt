-- ===== src/Executor/Socket/Read.antt =====
-- `read_exactly` of src/executor.cpp on a socket that does not fail.
use executor_hotpath_cpp.Base.{
  ℕ, zero, suc, ◌-◌, ◌≤◌, ◌<◌, ◌≡◌, refl, sym, ap, ◌∙◌, ◌⊎◌, inl, inr, true, false, List, [], ◌∷◌,
  ◌++◌, append-nil, append_assoc, Bytes, arith, if◌then◌else◌, length, All,
}
use executor_hotpath_cpp.Executor.Socket.{
  ReadResult, read_ok, peer_closed, read_failed, ReadAnswer, up_to, interrupted, read_error,
  is_empty, smaller, ReadDone, read_loop, read_exactly,
}
use executor_hotpath_cpp.Base.Cuts.{
  take, drop, take_split, drop_split, length-drop, append-take-drop, le_or_lt,
}

abbrev pub IsPatient : ReadAnswer → Type 0
IsPatient read_error = ⊥
IsPatient (interrupted stop) = stop ≡ false
IsPatient (up_to _) = Unit

pub smaller_le : (m n : ℕ) → (smaller m n ≤ m) × (smaller m n ≤ n)
smaller_le m n = ground arith

-- The buffer is filled with what comes first, and the rest is left.
abbrev pub IsExact : ℕ → Bytes → Bytes → ReadDone → Type 0
IsExact count out incoming r =
    (r.result ≡ read_ok)
    × (r.out ≡ out ++ take count incoming)
    × (r.incoming ≡ drop count incoming)
    × All IsPatient r.answers

IsExact-chunk :
    (more left b : ℕ) (out incoming : Bytes) (r : ReadDone)
    → more ≤ left
    → IsExact (left - more) (out ++ b ∷ take more incoming) (drop more incoming) r
    → IsExact (suc left) out (b ∷ incoming) r
IsExact-chunk more left b out incoming r h (e, o, i, p) = (
  e,
  o
      ∙ append_assoc out (b ∷ take more incoming) (take (left - more) (drop more incoming))
      ∙ ap (λ t. out ++ b ∷ t) (sym (take_split more left incoming h)),
  i ∙ sym (drop_split more left incoming h),
  p,
)

read_loop-IsExact :
    (answers : List ReadAnswer) (count : ℕ) (out incoming : Bytes)
    → All IsPatient answers
    → count ≤ length incoming
    → IsExact count out incoming (read_loop answers count out incoming)
unfolding read_loop
read_loop-IsExact answers zero out incoming p h = (refl, sym (append-nil out), refl, p)
read_loop-IsExact [] (suc left) out incoming p h = ground arith
read_loop-IsExact (up_to n ∷ answers) (suc left) out [] p h = absurd (omega arith)
read_loop-IsExact (up_to n ∷ answers) (suc left) out (b ∷ incoming) (_, p) h =
    let more : ℕ = smaller left (smaller n (length incoming)) in
    let l = smaller_le left (smaller n (length incoming)) in
    IsExact-chunk more left b out incoming
      (read_loop answers (left - more) (out ++ b ∷ take more incoming) (drop more incoming)) l.0
      (read_loop-IsExact answers (left - more) (out ++ b ∷ take more incoming) (drop more incoming)
        p (omega (arith, l.0, l.1, smaller_le n (length incoming), length-drop more incoming)))
read_loop-IsExact (interrupted true ∷ answers) (suc left) out incoming (e, p) h = ground arith
read_loop-IsExact (interrupted false ∷ answers) (suc left) out incoming (_, p) h =
    read_loop-IsExact answers (suc left) out incoming p h
read_loop-IsExact (read_error ∷ answers) (suc left) out incoming (p, _) h = absurd p

-- A read that its peer cuts short.
abbrev pub cut : Bytes → ReadResult
cut got = if is_empty got then peer_closed else read_failed

read_loop-cut :
    (answers : List ReadAnswer) (count : ℕ) (out incoming : Bytes)
    → All IsPatient answers
    → length incoming < count
    → (read_loop answers count out incoming).result ≡ cut (out ++ incoming)
unfolding read_loop
read_loop-cut answers zero out incoming p h = absurd (omega arith)
read_loop-cut [] (suc left) out incoming p h = ground arith
read_loop-cut (up_to n ∷ answers) (suc left) out [] p h = rw (append-nil out) refl
read_loop-cut (up_to n ∷ answers) (suc left) out (b ∷ incoming) (_, p) h =
    let more : ℕ = smaller left (smaller n (length incoming)) in
    let l = smaller_le left (smaller n (length incoming)) in
    read_loop-cut answers (left - more) (out ++ b ∷ take more incoming) (drop more incoming) p
      (omega (arith, l.0, l.1, smaller_le n (length incoming), length-drop more incoming))
    ∙ ap cut (append_assoc out (b ∷ take more incoming) (drop more incoming))
    ∙ ap (λ t. cut (out ++ b ∷ t)) (append-take-drop more incoming)
read_loop-cut (interrupted true ∷ answers) (suc left) out incoming (e, p) h = ground arith
read_loop-cut (interrupted false ∷ answers) (suc left) out incoming (_, p) h =
    read_loop-cut answers (suc left) out incoming p h
read_loop-cut (read_error ∷ answers) (suc left) out incoming (p, _) h = absurd p

-- However `read` splits the bytes, and with interruptions while the server runs, `read_exactly`
-- fills its buffer with the bytes that come first and leaves those behind them; a stream that ends
-- sooner is a closed peer if it was empty, and else a failure.
pub read_exactly-IsExact :
    (answers : List ReadAnswer) (count : ℕ) (incoming : Bytes)
    → All IsPatient answers
    → (count ≤ length incoming × IsExact count [] incoming (read_exactly answers count incoming))
      ⊎ (length incoming < count × ((read_exactly answers count incoming).result ≡ cut incoming))
unfolding read_exactly
read_exactly-IsExact answers count incoming p = elim (le_or_lt count (length incoming)) [
  | inl h ↦ inl (h, read_loop-IsExact answers count [] incoming p h)
  | inr h ↦ inr (h, read_loop-cut answers count [] incoming p h)
]

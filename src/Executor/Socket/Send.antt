-- ===== src/Executor/Socket/Send.antt =====
-- What `send_frame` of src/executor.cpp sends.
use executor_hotpath_cpp.Base.{
  ℕ, ◌+◌, ◌<◌, ◌≡◌, refl, sym, ap, ◌∙◌, ◌⊎◌, inl, inr, true, false, List, [], ◌∷◌, ◌++◌, append-nil,
  append_assoc, Bytes, arith, length, All,
}
use executor_hotpath_cpp.Executor.Socket.{
  SendAnswer, wrote, send_interrupted, send_error, SendDone, send_frame,
}
use executor_hotpath_cpp.Base.Cuts.{take, drop, take_add, length-drop, append-take-drop}

abbrev pub IsPatientSend : SendAnswer → Type 0
IsPatientSend send_error = ⊥
IsPatientSend (send_interrupted stop) = stop ≡ false
IsPatientSend (wrote _) = Unit

-- All of the frame goes out behind what was sent.
abbrev pub IsSent : Bytes → Bytes → SendDone → Type 0
IsSent sent frame d = (d.delivered ≡ true) × (d.sent ≡ sent ++ frame)

-- Less than all of the frame goes out.
abbrev pub IsCutOff : Bytes → Bytes → SendDone → Type 0
IsCutOff sent frame d =
    (d.delivered ≡ false) × (n : ℕ) × (n < length frame) × (d.sent ≡ sent ++ take n frame)

IsCutOff-chunk :
    (n : ℕ) (sent frame : Bytes) (d : SendDone)
    → IsCutOff (sent ++ take n frame) (drop n frame) d
    → IsCutOff sent frame d
IsCutOff-chunk n sent frame d (e, m, l, s) = (
  e,
  n + m,
  omega (arith, l, length-drop n frame),
  s
      ∙ append_assoc sent (take n frame) (take m (drop n frame))
      ∙ ap (λ t. sent ++ t) (sym (take_add n m frame)),
)

-- However `send` splits the bytes, `send_frame` sends the whole frame and says so, or it sends less
-- than that, from its front, and says that it has failed.
pub send_frame_lem :
    (answers : List SendAnswer) (sent frame : Bytes)
    → IsSent sent frame (send_frame answers sent frame)
      ⊎ IsCutOff sent frame (send_frame answers sent frame)
unfolding send_frame
send_frame_lem answers sent [] = inl (refl, sym (append-nil sent))
send_frame_lem [] sent (b ∷ frame) = inl (refl, refl)
send_frame_lem (wrote n ∷ answers) sent (b ∷ frame) =
    elim (send_frame_lem answers (sent ++ take n (b ∷ frame)) (drop n (b ∷ frame))) [
      | inl (e, s) ↦ inl (
        e,
        s
            ∙ append_assoc sent (take n (b ∷ frame)) (drop n (b ∷ frame))
            ∙ ap (λ t. sent ++ t) (append-take-drop n (b ∷ frame)),
      )
      | inr c ↦ inr (
          IsCutOff-chunk n sent (b ∷ frame)
            (send_frame answers (sent ++ take n (b ∷ frame)) (drop n (b ∷ frame))) c)
    ]
send_frame_lem (send_interrupted true ∷ answers) sent (b ∷ frame) =
    inr (refl, 0, omega arith, sym (append-nil sent))
send_frame_lem (send_interrupted false ∷ answers) sent (b ∷ frame) =
    send_frame_lem answers sent (b ∷ frame)
send_frame_lem (send_error ∷ answers) sent (b ∷ frame) =
    inr (refl, 0, omega arith, sym (append-nil sent))

send_frame-All :
    (answers : List SendAnswer) (sent frame : Bytes)
    → All IsPatientSend answers
    → ((send_frame answers sent frame).delivered ≡ true)
      × All IsPatientSend (send_frame answers sent frame).answers
unfolding send_frame
send_frame-All answers sent [] p = (refl, p)
send_frame-All [] sent (b ∷ frame) p = (refl, tt)
send_frame-All (wrote n ∷ answers) sent (b ∷ frame) (_, p) =
    send_frame-All answers (sent ++ take n (b ∷ frame)) (drop n (b ∷ frame)) p
send_frame-All (send_interrupted true ∷ answers) sent (b ∷ frame) (e, p) = ground arith
send_frame-All (send_interrupted false ∷ answers) sent (b ∷ frame) (_, p) =
    send_frame-All answers sent (b ∷ frame) p
send_frame-All (send_error ∷ answers) sent (b ∷ frame) (e, p) = absurd e

-- A socket that does not fail gets every frame, and is as it was for the next one.
pub send_frame-IsSent :
    (answers : List SendAnswer) (sent frame : Bytes)
    → All IsPatientSend answers
    → IsSent sent frame (send_frame answers sent frame)
      × All IsPatientSend (send_frame answers sent frame).answers
send_frame-IsSent answers sent frame p =
    let (e, q) = send_frame-All answers sent frame p in
    elim (send_frame_lem answers sent frame) [
      | inl s ↦ (s, q)
      | inr (f, _, _, _) ↦ absurd (ground (arith, e, f))
    ]

-- ===== src/Signer/Signed.antt =====
-- What a signature of src/signer.cpp is over, and the buffer that `base64` writes to.
use executor_hotpath_cpp.Base.{
  ℕ, ◌+◌, ◌-◌, ◌*◌, ◌/◌, ◌≡◌, refl, ap, ◌∙◌, inl, inr, Bool-cases, false, List, [], ◌∷◌, ◌++◌,
  Option, none, some, Bytes, arith, length, length-append, append_assoc, ltb,
}
use executor_hotpath_cpp.Base.Cuts.{take, drop, take-length-append}
use executor_hotpath_cpp.Base.Int.{pos}
use executor_hotpath_cpp.SpscRing.{replicate}
use executor_hotpath_cpp.Signer.{
  Openssl, SignSettings, sha256, pss, digest_width, signed, base64, buffer_size, resize,
  RequestSigner, SignAnswers, initial_settings, sign_with, set_parameters, with_settings,
  size_and_sign, finish_sign, sign_message, sign,
}

-- RSA-PSS over SHA-256 with a salt of 32 bytes, and SHA-256 in the mask.
abbrev pub pss_settings : SignSettings
pss_settings = record {
  digest = sha256;
  padding = pss;
  salt_length = digest_width;
  mgf1 = some sha256;
}

set_parameters-eq :
    (a : SignAnswers) {t : SignSettings}
    → set_parameters a initial_settings ≡ some t
    → t ≡ pss_settings
unfolding set_parameters
set_parameters-eq a h = ground arith

resize-append : (bytes rest : Bytes) → resize (length bytes) (bytes ++ rest) ≡ bytes
resize-append bytes rest =
    ap (λ t. take (length bytes) t)
      (append_assoc bytes rest (replicate (length bytes - length (bytes ++ rest)) 0))
    ∙ take-length-append bytes (rest ++ replicate (length bytes - length (bytes ++ rest)) 0)

module _ {K : Type 0} (ssl : Openssl K) where
  -- The signature of `text` in base64 is over `message`.
  pub record IsOver (a : SignAnswers) (k : K) (message text : Bytes) : Type 0 where
    pub signature : Bytes
    pub made : ssl.sign pss_settings k message a.salt ≡ some signature
    pub written : base64 ssl a.errors signature ≡ signed text

  finish-IsOver :
      (o : Option Bytes) (a : SignAnswers) (k : K) (message : Bytes) (s : RequestSigner K)
      {text : Bytes}
      → ssl.sign pss_settings k message a.salt ≡ o
      → (finish_sign ssl a o s).0 ≡ signed text
      → IsOver a k message text
  finish-IsOver none a k message s e h = absurd (ground arith)
  finish-IsOver (some written) a k message s e h = record {
    signature = written;
    made = e;
    written = rw (resize-append written (drop (length written) s.signature)) at h;
  }

  size-IsOver :
      (size : Option ℕ) (a : SignAnswers) (k : K) (message : Bytes) (s : RequestSigner K)
      {text : Bytes}
      → (size_and_sign ssl a size pss_settings k message s).0 ≡ signed text
      → IsOver a k message text
  size-IsOver none a k message s h = absurd (ground arith)
  size-IsOver (some n) a k message s h =
      finish-IsOver (ssl.sign pss_settings k message a.salt) a k message
        (record s { signature = resize n s.signature }) refl h

  settings-IsOver :
      (o : Option SignSettings) (a : SignAnswers) (k : K) (message : Bytes) (s : RequestSigner K)
      {text : Bytes}
      → set_parameters a initial_settings ≡ o
      → (with_settings ssl a o k message s).0 ≡ signed text
      → IsOver a k message text
  settings-IsOver none a k message s e h = absurd (ground arith)
  settings-IsOver (some settings) a k message s e h =
      size-IsOver a.sizing a k message s (rw (set_parameters-eq a e) at h)

  key-IsOver :
      (key : Option K) (a : SignAnswers) (message : Bytes) (s : RequestSigner K) {text : Bytes}
      → (sign_with ssl a key message s).0 ≡ signed text
      → (k : K) × (key ≡ some k) × IsOver a k message text
  unfolding set_parameters
  key-IsOver none a message s h = absurd (ground arith)
  key-IsOver (some k) a message s h = elim (Bool-cases a.init) [
    | inl e ↦ (
      k,
      refl,
      settings-IsOver (set_parameters a initial_settings) a k message s refl (rw e at h),
    )
    | inr e ↦ absurd (ground (arith, rw e at h))
  ]

  -- A signature that `sign` returns is the base64 of one that the key that was loaded makes, in
  -- RSA-PSS with SHA-256 and a salt of its width, over the timestamp, the method and the path in this
  -- order, whatever the calls answer and whatever earlier calls have left in the buffers.
  pub sign-IsOver :
      (a : SignAnswers) (timestamp method path : Bytes) (s : RequestSigner K) {text : Bytes}
      → (sign ssl a timestamp method path s).0 ≡ signed text
      → (k : K) × (s.key ≡ some k) × IsOver a k ((timestamp ++ method) ++ path) text
  unfolding sign_message sign
  sign-IsOver a timestamp method path s h =
      let message = (timestamp ++ method) ++ path in
      key-IsOver s.key a message (record s { message = message }) h

  -- What `EVP_EncodeBlock` is documented to do: four characters for each three bytes, a terminator
  -- behind them, and the number of the characters as its result.
  abbrev pub IsEncoder : Type 0
  IsEncoder =
      (bytes : Bytes)
      → (text : Bytes) × (length text ≡ 4 * ((length bytes + 2) / 3))
        × (ssl.encode_block bytes ≡ (pos (length text), text ++ 0 ∷ []))

  fits :
      (bytes text : Bytes)
      → length text ≡ 4 * ((length bytes + 2) / 3)
      → ltb (buffer_size (length bytes)) (length (text ++ 0 ∷ [])) ≡ false
  fits bytes text l = ground (arith, length-append text (0 ∷ []))

  cut_terminator : (text zeros : Bytes) → take (length text) ((text ++ 0 ∷ []) ++ zeros) ≡ text
  cut_terminator text zeros =
      ap (λ t. take (length text) t) (append_assoc text (0 ∷ []) zeros)
      ∙ take-length-append text (0 ∷ zeros)

  -- The buffer of `base64` is as long as what is written to it, the terminator included, and the
  -- result is the text without the terminator.
  pub base64_lem :
      (errors : List Bytes) (bytes : Bytes)
      → IsEncoder
      → (text : Bytes) × (length text ≡ 4 * ((length bytes + 2) / 3))
        × (base64 ssl errors bytes ≡ signed text)
  unfolding base64
  base64_lem errors bytes enc =
      let (text, l, e) = enc bytes in (text, l, rw (e, fits bytes text l, cut_terminator) refl)

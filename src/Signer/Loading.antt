-- ===== src/Signer/Loading.antt =====
-- `RequestSigner::load` of src/signer.cpp, and what it leaves: the key, and the objects of OpenSSL.
use executor_hotpath_cpp.Base.{
  ℕ, ◌+◌, ◌-◌, ◌≡◌, refl, ◌∙◌, inl, inr, Bool, Bool-cases, true, false, not, List, ◌++◌, Option,
  none, some, Bytes, codes, if◌then◌else◌, arith,
}
use executor_hotpath_cpp.Signer.{Openssl, openssl_error, Handles, RequestSigner}

-- What the calls of `load` answer: whether the file opens, the key that is read from it, whether
-- there is a context, and the queue after the call that fails.
pub record LoadAnswers (K : Type 0) : Type 0 where
  pub opens : Bool
  pub read : Option K
  pub has_context : Bool
  pub errors : List Bytes

module _ {K : Type 0} where
  -- `~Key` of the key that `key_` holds.
  abbrev free_old : Option K → Handles → Handles
  free_old none h = h
  free_old (some _) h = record h { keys = h.keys - 1; contexts = h.contexts - 1 }

  -- From the context on, with one key more than `h` counts.
  abbrev keep_key : LoadAnswers K → K → RequestSigner K → Option Bytes × RequestSigner K
  keep_key a k s =
      if a.has_context
      then (
        none,
        record s {
          key = some k;
          handles =
              free_old s.key
                (record s.handles { keys = s.handles.keys + 1; contexts = s.handles.contexts + 1 });
        },
      )
      else (
        some (codes "EVP_MD_CTX_new: " ++ openssl_error a.errors),
        record s { handles = record s.handles { keys = s.handles.keys + 1 - 1 } },
      )

module _ {K : Type 0} (ssl : Openssl K) where
  -- Behind `BIO_free`.
  abbrev pub read_key : LoadAnswers K → Option K → RequestSigner K → Option Bytes × RequestSigner K
  read_key a none s = (
    some (
        s.private_key_path
        ++ codes " is not an unencrypted PEM private key: "
        ++ openssl_error a.errors),
    s,
  )
  read_key a (some k) s =
      if not (ssl.is_rsa k)
      then (
        some (s.private_key_path ++ codes " does not contain an RSA private key"),
        record s { handles = record s.handles { keys = s.handles.keys + 1 - 1 } },
      )
      else keep_key a k s

  -- `load`
  unfoldable pub load : LoadAnswers K → RequestSigner K → Option Bytes × RequestSigner K
  load a s =
      if not a.opens
      then (
        some (codes "cannot read " ++ s.private_key_path ++ codes ": " ++ openssl_error a.errors),
        s,
      )
      else read_key a a.read
          (record s { handles = record s.handles { bios = s.handles.bios + 1 - 1 } })

  -- There is a context and a key for the key that is held, and nothing else.
  abbrev pub count : Option K → ℕ
  count none = 0
  count (some _) = 1

  pub record IsFreed (s : RequestSigner K) : Type 0 where
    pub no_bio : s.handles.bios ≡ 0
    pub keys : s.handles.keys ≡ count s.key
    pub contexts : s.handles.contexts ≡ count s.key

  -- A load that fails keeps the key from before; one that does not holds the key of the file, an RSA
  -- key.
  abbrev pub Loads : LoadAnswers K → RequestSigner K → Option Bytes × RequestSigner K → Type 0
  Loads a s (some failure, t) = t.key ≡ s.key
  Loads a s (none, t) = (k : K) × (a.read ≡ some k) × (ssl.is_rsa k ≡ true) × (t.key ≡ some k)

  abbrev Good : LoadAnswers K → RequestSigner K → Option Bytes × RequestSigner K → Type 0
  Good a s o = IsFreed o.1 × Loads a s o

  -- The counts behind `key_ = std::move(key)`.
  free_old-counts :
      (old : Option K) (h : Handles)
      → h.keys ≡ count old
      → h.contexts ≡ count old
      → (let h' = free_old old (record h { keys = h.keys + 1; contexts = h.contexts + 1 }) in
          (h'.bios ≡ h.bios) × (h'.keys ≡ 1) × (h'.contexts ≡ 1))
  free_old-counts none h k c = (refl, omega (arith, k), omega (arith, c))
  free_old-counts (some _) h k c = (refl, omega (arith, k), omega (arith, c))

  if-Good :
      (b : Bool) (a : LoadAnswers K) (s : RequestSigner K) (x y : Option Bytes × RequestSigner K)
      → Good a s x
      → Good a s y
      → Good a s (if b then x else y)
  if-Good true a s x y g h = g
  if-Good false a s x y g h = h

  -- One key is taken and given back.
  refused-IsFreed :
      (s : RequestSigner K)
      → IsFreed s
      → IsFreed (record s {
        handles = record s.handles { bios = s.handles.bios + 1 - 1; keys = s.handles.keys + 1 - 1 };
      })
  refused-IsFreed s f = record {
    no_bio = omega (arith, f.no_bio);
    keys = omega (arith, f.keys);
    contexts = f.contexts;
  }

  abbrev read_bio : RequestSigner K → RequestSigner K
  read_bio s = record s { handles = record s.handles { bios = s.handles.bios + 1 - 1 } }

  read_key-Good :
      (a : LoadAnswers K) (read : Option K) (s : RequestSigner K)
      → a.read ≡ read
      → IsFreed s
      → Good a s (read_key a read (read_bio s))
  read_key-Good a none s e f =
      (record { no_bio = omega (arith, f.no_bio); keys = f.keys; contexts = f.contexts }, refl)
  read_key-Good a (some k) s e f = elim (Bool-cases (ssl.is_rsa k)) [
    | inr other ↦ rw other (refused-IsFreed s f, refl)
    | inl rsa ↦
        let (b, n, c) = free_old-counts s.key (read_bio s).handles f.keys f.contexts in
        rw rsa (
          if-Good a.has_context a s _ _
            (
              record { no_bio = b ∙ omega (arith, f.no_bio); keys = n; contexts = c },
              (k, e, rsa, refl),
            )
            (refused-IsFreed s f, refl))
  ]

  -- Whatever the calls answer, `load` frees what it opens but for the key that it holds, and frees the
  -- key that it held before; it says whether the key of the file, an RSA key, is now the one.
  pub load_lem :
      (a : LoadAnswers K) (s : RequestSigner K)
      → IsFreed s
      → IsFreed (load a s).1 × Loads a s (load a s)
  unfolding load
  load_lem a s f = if-Good (not a.opens) a s _ _ (f, refl) (read_key-Good a a.read s refl f)

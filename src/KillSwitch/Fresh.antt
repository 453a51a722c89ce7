-- ===== src/KillSwitch/Fresh.antt =====
-- How old an answer of the kill switch can be.
use mathlib.Core.Path.{subst}
use executor_hotpath_cpp.Base.{
  ℕ, ◌+◌, ◌≤◌, ◌<◌, ◌⊎◌, inl, inr, ◌≡◌, refl, ap, ◌∙◌, ◌&&◌, Bool-cases, Bool, true, false, List,
  [], ◌∷◌, ◌++◌, Bytes, arith, ltb,
}
use executor_hotpath_cpp.KillSwitch.{
  KillSwitch, File, exists, make, is_engaged, engage, release, trim_end, keep_unless_blank, reason,
}

-- The file over time, and the polls of one run: the times at which `is_engaged` is called.
module _ (disk : ℕ → Bool) where
  -- The cache holds what was on disk when it was filled.
  pub record IsHonest (now : ℕ) (k : KillSwitch) : Type 0 where
    pub seen : k.has_cached ≡ true → k.cached ≡ disk k.checked_at_ns
    pub past : k.checked_at_ns ≤ now

  -- The answer at `now` is what was on disk less than the time to live ago, or at `now` itself.
  pub record IsFresh (ttl now : ℕ) (answer : Bool) : Type 0 where
    pub looked_at : ℕ
    pub not_later : looked_at ≤ now
    pub recent : (now < looked_at + ttl) ⊎ (looked_at ≡ now)
    pub answer_is : answer ≡ disk looked_at

  is_engaged-IsHonest :
      (k : KillSwitch) (before now : ℕ)
      → before ≤ now
      → IsHonest before k
      → IsHonest now (is_engaged now (disk now) k).0
  unfolding is_engaged
  is_engaged-IsHonest k before now le h = ground (arith, h.seen)

  is_engaged-IsFresh_from :
      (k : KillSwitch) (before now : ℕ)
      → before ≤ now
      → IsHonest before k
      → IsFresh k.ttl_ns now (is_engaged now (disk now) k).1
  unfolding is_engaged
  is_engaged-IsFresh_from k before now le h =
      elim (Bool-cases (k.has_cached && ltb now (k.checked_at_ns + k.ttl_ns))) [
        | inl t ↦ rw t (record {
          looked_at = k.checked_at_ns;
          not_later = omega (arith, h.past);
          recent = inl (ground arith);
          answer_is = h.seen (ground arith);
        })
        | inr f ↦ rw f (record {
          looked_at = now;
          not_later = omega arith;
          recent = inr refl;
          answer_is = refl;
        })
      ]

  ttl-is_engaged : (k : KillSwitch) (now : ℕ) → (is_engaged now (disk now) k).0.ttl_ns ≡ k.ttl_ns
  unfolding is_engaged
  ttl-is_engaged k now = ground arith

  -- The switch after a series of polls.
  pub after : KillSwitch → List ℕ → KillSwitch
  after k [] = k
  after k (now ∷ times) = after (is_engaged now (disk now) k).0 times

  -- No poll is earlier than the one before, and none later than `last`.
  abbrev pub InOrder : ℕ → List ℕ → ℕ → Type 0
  InOrder before [] last = before ≤ last
  InOrder before (now ∷ times) last = (before ≤ now) × InOrder now times last

  after-IsHonest :
      (times : List ℕ) (k : KillSwitch) (before last : ℕ)
      → InOrder before times last
      → IsHonest before k
      → IsHonest last (after k times) × ((after k times).ttl_ns ≡ k.ttl_ns)
  unfolding after
  after-IsHonest [] k before last o h =
      (record { seen = h.seen; past = omega (arith, h.past) }, refl)
  after-IsHonest (now ∷ times) k before last (le, o) h =
      let (later, e) =
        after-IsHonest times (is_engaged now (disk now) k).0 now last o
          (is_engaged-IsHonest k before now le h) in
      (later, e ∙ ttl-is_engaged k now)

  -- After any series of polls in order, the answer of the next one is what was on disk at some time
  -- that is past by less than the time to live, or at that poll itself.
  pub is_engaged-IsFresh :
      (ttl : ℕ) (times : List ℕ) (now : ℕ)
      → InOrder 0 times now
      → IsFresh ttl now (is_engaged now (disk now) (after (make ttl) times)).1
  is_engaged-IsFresh ttl times now o =
      let start : IsHonest 0 (make ttl) = record {
        seen = λ e. absurd (cc e);
        past = omega arith;
      } in
      let (h, e) = after-IsHonest times (make ttl) 0 now o start in
      subst (λ t. IsFresh t now (is_engaged now (disk now) (after (make ttl) times)).1) e
        (is_engaged-IsFresh_from (after (make ttl) times) now now (omega arith) h)

  -- Once the file is there to stay, every poll that is at least a time to live later says so.
  pub is_engaged_by_ttl :
      (ttl : ℕ) (times : List ℕ) (engaged now : ℕ)
      → InOrder 0 times now
      → ((t : ℕ) → engaged ≤ t → disk t ≡ true)
      → engaged + ttl ≤ now
      → (is_engaged now (disk now) (after (make ttl) times)).1 ≡ true
  is_engaged_by_ttl ttl times engaged now o stays late =
      let fresh = is_engaged-IsFresh ttl times now o in
      fresh.answer_is ∙ stays fresh.looked_at (ground (arith, fresh.recent))

trim_end-newline : (text : Bytes) → trim_end (text ++ b'\n' ∷ []) ≡ trim_end text
unfolding trim_end
trim_end-newline [] = refl
trim_end-newline (c ∷ cs) = ap (keep_unless_blank c) (trim_end-newline cs)

-- The operations of this process itself take effect at once.
module _ (k : KillSwitch) (file : File) where
  -- After `engage`, if the file could be written, the next look says engaged whenever it comes, and
  -- `reason` is the text with the blanks at its end dropped.
  engage_lem :
      (text : Bytes) (now : ℕ)
      → let (k', file') = engage true text (k, file) in
        ((is_engaged now (exists file') k').1 ≡ true) × (reason file' ≡ trim_end text)
  unfolding engage is_engaged reason
  engage_lem text now = (refl, trim_end-newline text)

  -- After `release`, if the file could be removed, the next look says released whenever it comes,
  -- and there is no reason.
  pub release_lem :
      (now : ℕ)
      → let (k', file') = release true (k, file) in
        ((is_engaged now (exists file') k').1 ≡ false) × (reason file' ≡ [])
  unfolding release is_engaged reason
  release_lem now = (refl, refl)

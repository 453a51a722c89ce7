-- ===== src/Json/Reader/Loop.antt =====
-- Rules for `loop`, the `while (true)` of the parser: an invariant, and enough fuel.
use executor_hotpath_cpp.Base.{ℕ, zero, suc, ◌≡◌, refl, arith}
use executor_hotpath_cpp.Json.Reader.{
  Reader, M, Outcome, ok, bad, out_of_fuel, Iter, next, done, loop, ◌>>=◌,
}

module _ {S A : Type 0} where
  -- What holds of the state that a round goes on with, or of the result that it leaves with.
  abbrev pub After : (S → Type 0) → (A → Type 0) → Iter S A → Type 0
  After P Q (next s) = P s
  After P Q (done a) = Q a

  module _ (P : S → Type 0) (Q : A → Type 0) (body : S → M (Iter S A)) where
    abbrev Keeps : Type 0
    Keeps =
        (s : S) (r : Reader) (i : Iter S A) (r' : Reader) → P s → body s r ≡ ok i r' → After P Q i

    round_inv :
        (fuel : ℕ) (s : S) (r : Reader) (o : Outcome (Iter S A)) {a : A} {r' : Reader}
        → Keeps
        → P s
        → body s r ≡ o
        → loop (suc fuel) body s r ≡ ok a r'
        → ((t : S) (u : Reader) → P t → loop fuel body t u ≡ ok a r' → Q a)
        → Q a
    unfolding loop
    round_inv fuel s r (ok (next t) u) keep p e h rec =
        rec t u (keep s r (next t) u p e) (rw (e, loop) at h)
    round_inv fuel s r (ok (done b) u) keep p e h rec = ground (arith, keep s r (done b) u p e)
    round_inv fuel s r (bad u) keep p e h rec = ground arith
    round_inv fuel s r out_of_fuel keep p e h rec = ground arith

    -- A result of the loop satisfies `Q` if each round keeps `P`.
    pub loop_inv :
        (fuel : ℕ) (s : S) (r : Reader) {a : A} {r' : Reader}
        → Keeps
        → P s
        → loop fuel body s r ≡ ok a r'
        → Q a
    loop_inv zero s r keep p h = unfold loop in cc h
    loop_inv (suc fuel) s r {a} {r'} keep p h =
        round_inv fuel s r (body s r) keep p refl h (λ t u q g. loop_inv fuel t u keep q g)

-- Inversion of a sequence that succeeds.
bind_at :
    {A B : Type 0} (f : A → M B) (o : Outcome A) (m : M A) (r : Reader) {b : B} {r' : Reader}
    → m r ≡ o
    → (m >>= f) r ≡ ok b r'
    → (a : A) × (s : Reader) × (m r ≡ ok a s) × (f a s ≡ ok b r')
bind_at f (ok a s) m r e h = (a, s, e, rw (e, ◌>>=◌) at h)
bind_at f (bad s) m r e h = absurd (ground arith)
bind_at f out_of_fuel m r e h = absurd (ground arith)

pub bind-eq-ok :
    {A B : Type 0} (m : M A) (f : A → M B) (r : Reader) {b : B} {r' : Reader}
    → (m >>= f) r ≡ ok b r'
    → (a : A) × (s : Reader) × (m r ≡ ok a s) × (f a s ≡ ok b r')
bind-eq-ok m f r h = bind_at f (m r) m r refl h

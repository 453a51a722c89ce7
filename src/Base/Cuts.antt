-- ===== src/Base/Cuts.antt =====
-- Where a list of bytes is cut in two.
use Prim.Native.Nat.{ℕ, zero, suc, ◌+◌, ◌-◌, ◌≤◌, ◌<◌}
use executor_hotpath_cpp.Base.Lists.{Bytes, length}
use mathlib.Core.Path.{◌≡◌, refl, ap, ◌∙◌}
use mathlib.Core.Logic.{◌⊎◌}
use mathlib.Core.List.{[], ◌∷◌, ◌++◌}
use native.Mathlib.Omega.{arith}

abbrev pub take : ℕ → Bytes → Bytes
take zero cs = []
take (suc n) [] = []
take (suc n) (c ∷ cs) = c ∷ take n cs

abbrev pub drop : ℕ → Bytes → Bytes
drop zero cs = cs
drop (suc n) [] = []
drop (suc n) (_ ∷ cs) = drop n cs

pub take-nil : (n : ℕ) → take n [] ≡ []
take-nil zero = refl
take-nil (suc n) = refl

pub drop-nil : (n : ℕ) → drop n [] ≡ []
drop-nil zero = refl
drop-nil (suc n) = refl

pub le_or_lt : (m n : ℕ) → (m ≤ n) ⊎ (n < m)
le_or_lt m n = ground arith

pub append-take-drop : (n : ℕ) (xs : Bytes) → take n xs ++ drop n xs ≡ xs
append-take-drop zero xs = refl
append-take-drop (suc n) [] = refl
append-take-drop (suc n) (x ∷ xs) = ap (λ t. x ∷ t) (append-take-drop n xs)

pub take_split : (m k : ℕ) (xs : Bytes) → m ≤ k → take k xs ≡ take m xs ++ take (k - m) (drop m xs)
take_split zero k xs h = ground arith
take_split (suc m) zero xs h = absurd (omega arith)
take_split (suc m) (suc k) [] h = ground (arith, take-nil (suc k - suc m))
take_split (suc m) (suc k) (x ∷ xs) h = ground (arith, take_split m k xs)

pub take_add : (m n : ℕ) (xs : Bytes) → take (m + n) xs ≡ take m xs ++ take n (drop m xs)
take_add m n xs =
    take_split m (m + n) xs (omega arith) ∙ ap (λ k. take m xs ++ take k (drop m xs)) (omega arith)

pub drop_split : (m k : ℕ) (xs : Bytes) → m ≤ k → drop k xs ≡ drop (k - m) (drop m xs)
drop_split zero k xs h = ground arith
drop_split (suc m) zero xs h = absurd (omega arith)
drop_split (suc m) (suc k) [] h = ground (arith, drop-nil (suc k - suc m))
drop_split (suc m) (suc k) (x ∷ xs) h = ground (arith, drop_split m k xs)

pub length-drop : (m : ℕ) (xs : Bytes) → length (drop m xs) ≡ length xs - m
length-drop zero xs = omega arith
length-drop (suc m) [] = omega arith
length-drop (suc m) (x ∷ xs) = omega (arith, length-drop m xs)

pub take-length-append : (xs ys : Bytes) → take (length xs) (xs ++ ys) ≡ xs
take-length-append [] ys = refl
take-length-append (x ∷ xs) ys = ap (λ t. x ∷ t) (take-length-append xs ys)

pub drop-length-append : (xs ys : Bytes) → drop (length xs) (xs ++ ys) ≡ ys
drop-length-append [] ys = refl
drop-length-append (x ∷ xs) ys = drop-length-append xs ys

-- ===== src/Bench/Percentile/Sorted.antt =====
-- What `Stats::from_samples` of bench/percentile.cpp depends on: the samples behind the warm-up in
-- ascending order, whichever sort puts them there.
use executor_hotpath_cpp.Base.{
  ℕ, zero, suc, ◌+◌, ◌-◌, ◌≤◌, ◌≡◌, refl, sym, ap, ◌∙◌, inl, inr, true, false, List, [], ◌∷◌,
  Bool-cases, arith, length,
}
use executor_hotpath_cpp.Bench.Percentile.{
  insert, sort, dropped, drop_samples, stats_of, from_samples,
}
use executor_hotpath_cpp.Double.{Double}
use mathlib.Core.Bool.{Bool-set}
use mathlib.Core.Path.{ap₂}
use mathlib.Core.List.{
  Mem, Perm, Pairwise, mem-cons_self, mem-cons_of_mem, forall_mem-cons, Pairwise-singleton,
}
use mathlib.Core.List.Pairwise
use mathlib.Core.List.Perm

module _ {D : Type 0} ⦃d : Double D⦄ where
  abbrev pub Le : D → D → Type 0
  Le a b = d.le a b ≡ true

  -- What `<` and `<=` are on doubles that satisfy `P`: those that are no NaN, and of which no two are
  -- equal but for a sign, as with two zeros.
  pub record IsOrder (P : D → Type 0) : Type 0 where
    pub le_of_lt : (a b : D) → P a → P b → d.lt a b ≡ true → Le a b
    pub le_of_not_lt : (a b : D) → P a → P b → d.lt b a ≡ false → Le a b
    pub le_trans : (a b c : D) → P a → P b → P c → Le a b → Le b c → Le a c
    pub le_antisymm : (a b : D) → P a → P b → Le a b → Le b a → a ≡ b

  abbrev pub Every : (D → Type 0) → List D → Type 0
  Every P l = (x : D) → Mem x l → P x

  insert-Perm : (x : D) (l : List D) → Perm (insert x l) (x ∷ l)
  unfolding insert
  insert-Perm x [] = Perm.rfl
  insert-Perm x (y ∷ ys) = elim (Bool-cases (d.lt y x)) [
    | inl e ↦ rw e (Perm.trans (Perm.cons y (insert-Perm x ys)) (Perm.swap x y ys))
    | inr e ↦ rw e Perm.rfl
  ]

  pub sort-Perm : (l : List D) → Perm (sort l) l
  unfolding sort
  sort-Perm [] = Perm.rfl
  sort-Perm (x ∷ xs) = Perm.trans (insert-Perm x (sort xs)) (Perm.cons x (sort-Perm xs))

  Le-prop : (a b : D) → IsProp (Le a b)
  Le-prop a b = Bool-set (d.le a b) true

  every_cons :
      {a b : D} {l : List D}
      → Le a b
      → ((z : D) → Mem z l → Le a z)
      → (z : D) → Mem z (b ∷ l)
      → Le a z
  every_cons {a} p h = (forall_mem-cons (Le-prop a)).1 (p, h)

  length-insert : (x : D) (l : List D) → length (insert x l) ≡ suc (length l)
  unfolding insert
  length-insert x [] = refl
  length-insert x (y ∷ ys) = ground (arith, length-insert x ys)

  length-sort : (l : List D) → length (sort l) ≡ length l
  unfolding sort
  length-sort [] = refl
  length-sort (x ∷ xs) = length-insert x (sort xs) ∙ ap suc (length-sort xs)

  length-drop_samples :
      (n : ℕ) (samples : List D) → length (drop_samples n samples) ≡ length samples - n
  unfolding drop_samples
  length-drop_samples zero samples = omega arith
  length-drop_samples (suc n) [] = omega arith
  length-drop_samples (suc n) (_ ∷ samples) = omega (arith, length-drop_samples n samples)

  -- How many samples are kept and how many are dropped, if there are at least those of the warm-up.
  pub from_samples_sizes :
      (samples : List D) (warmup : ℕ)
      → warmup ≤ length samples
      → ((from_samples samples warmup).n + warmup ≡ length samples)
        × ((from_samples samples warmup).warmup ≡ warmup)
  unfolding from_samples stats_of
  from_samples_sizes samples warmup h =
      let kept = drop_samples (dropped samples warmup) samples in
      let all : dropped samples warmup ≡ warmup = ground arith in
      (
        omega
            (arith, length-sort kept, length-drop_samples (dropped samples warmup) samples, all, h),
        all,
      )

  mem-drop_samples :
      (n : ℕ) (samples : List D) {x : D} → Mem x (drop_samples n samples) → Mem x samples
  unfolding drop_samples
  mem-drop_samples zero samples m = m
  mem-drop_samples (suc n) [] m = m
  mem-drop_samples (suc n) (y ∷ samples) m = mem-cons_of_mem y (mem-drop_samples n samples m)

  drop_samples-all : (samples : List D) → drop_samples (length samples) samples ≡ []
  unfolding drop_samples
  drop_samples-all [] = refl
  drop_samples-all (_ ∷ samples) = drop_samples-all samples

  drop_samples-dropped :
      (n : ℕ) (samples : List D) → drop_samples (dropped samples n) samples ≡ drop_samples n samples
  unfolding drop_samples
  drop_samples-dropped zero samples = ground arith
  drop_samples-dropped (suc n) [] = ground arith
  drop_samples-dropped (suc n) (_ ∷ samples) = ground (arith, drop_samples-dropped n samples)

  module _ {P : D → Type 0} (order : IsOrder P) where
    le_refl : (a : D) → P a → Le a a
    le_refl a p = elim (Bool-cases (d.lt a a)) [
      | inl e ↦ order.le_of_lt a a p p e
      | inr e ↦ order.le_of_not_lt a a p p e
    ]

    skip_second : {x y : D} {l : List D} → Every P (x ∷ y ∷ l) → Every P (x ∷ l)
    skip_second {x} {y} {l} every z m =
        every z ((Perm.mem_iff (Perm.swap x y l)).0 (mem-cons_of_mem y m))

    insert-Pairwise :
        (x : D) (l : List D) → Every P (x ∷ l) → Pairwise Le l → Pairwise Le (insert x l)
    unfolding insert
    insert-Pairwise x [] every s = Pairwise-singleton Le x
    insert-Pairwise x (y ∷ ys) every (Pairwise.cons below s) =
        let px = every x mem-cons_self in
        let py = every y (mem-cons_of_mem x mem-cons_self) in
        elim (Bool-cases (d.lt y x)) [
          | inl e ↦ rw e (
              Pairwise.cons
                (λ z m.
                  every_cons (order.le_of_lt y x py px e) below z
                    ((Perm.mem_iff (insert-Perm x ys)).0 m))
                (insert-Pairwise x ys (skip_second every) s))
          | inr e ↦
              let le = order.le_of_not_lt x y px py e in
              rw e (
                Pairwise.cons
                  (every_cons le (λ z m.
                    order.le_trans x y z px py (every z (mem-cons_of_mem x (mem-cons_of_mem y m)))
                      le (below z m)))
                  (Pairwise.cons below s))
        ]

    pub sort-Pairwise : (l : List D) → Every P l → Pairwise Le (sort l)
    unfolding sort
    sort-Pairwise [] every = Pairwise.nil
    sort-Pairwise (x ∷ xs) every =
        insert-Pairwise x (sort xs)
          (λ z m. every z ((Perm.mem_iff (Perm.cons x (sort-Perm xs))).0 m))
          (sort-Pairwise xs (λ z m. every z (mem-cons_of_mem x m)))

    below_head :
        {a b : D} {l r : List D}
        → Every P (a ∷ l)
        → P b
        → Pairwise Le (a ∷ l)
        → Perm (b ∷ r) (a ∷ l)
        → Le a b
    below_head {a} {b} {l} every pb (Pairwise.cons below _) p =
        every_cons (le_refl a (every a mem-cons_self)) below b ((Perm.mem_iff p).0 mem-cons_self)

    -- Two ascending orders of the same samples are one.
    Pairwise-unique : (l r : List D) → Every P l → Pairwise Le l → Pairwise Le r → Perm l r → l ≡ r
    Pairwise-unique [] r every sl sr p = Perm.nil-eq p
    Pairwise-unique (a ∷ l) [] every sl sr p = Perm.eq-nil p
    Pairwise-unique (a ∷ l) (b ∷ r) every sl sr p =
        let pa = every a mem-cons_self in
        let pb = every b ((Perm.mem_iff p).1 mem-cons_self) in
        let every_r : Every P (b ∷ r) = λ z m. every z ((Perm.mem_iff p).1 m) in
        let heads =
          order.le_antisymm a b pa pb (below_head every pb sl (Perm.symm p))
            (below_head every_r pa sr p) in
        let tails = Perm.cons_inv (Perm.trans p (Perm.cons' (sym heads) Perm.rfl)) in
        ap₂ ◌∷◌ heads (
          Pairwise-unique l r (λ z m. every z (mem-cons_of_mem a m)) (Pairwise.of_cons sl)
            (Pairwise.of_cons sr) tails)

    -- The figures of a run are those of any ascending order of the samples that are kept, so they do
    -- not depend on the sort, and every sample is kept or dropped: for samples that `<` orders.
    pub from_samples-stats_of :
        (samples ordered : List D) (warmup : ℕ)
        → Every P samples
        → Pairwise Le ordered
        → Perm ordered (drop_samples warmup samples)
        → (from_samples samples warmup ≡ stats_of ordered (dropped samples warmup))
          × (length ordered + dropped samples warmup ≡ length samples)
    unfolding from_samples
    from_samples-stats_of samples ordered warmup every s p =
        let kept = drop_samples warmup samples in
        let every_kept : Every P kept = λ z m. every z (mem-drop_samples warmup samples m) in
        let same : sort kept ≡ ordered = sym (
          Pairwise-unique ordered (sort kept) (λ z m. every_kept z ((Perm.mem_iff p).0 m)) s
            (sort-Pairwise kept every_kept) (Perm.trans p (Perm.symm (sort-Perm kept)))) in
        (
          rw (drop_samples-dropped warmup samples, same) refl,
          ground (arith, length-drop_samples warmup samples, ap length same, length-sort kept),
        )

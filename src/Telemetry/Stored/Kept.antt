-- ===== src/Telemetry/Stored/Kept.antt =====
-- What becomes of a list of rows when some of them are stored.
use mathlib.Core.List.{Sublist}
use mathlib.Core.List.Sublist
use mathlib.Core.Path.{subst}
use executor_hotpath_cpp.Base.{
  ℕ, ◌+◌, ◌≡◌, ◌∙◌, sym, ap, List, [], ◌++◌, append-nil, append_assoc, length, length-append, arith,
}

-- From `before` on, some of the rows were stored, in their order and each at most once, and as many
-- were counted; what is `left` stands behind them.
pub record Stores {E : Type 0} (before after rows left : List E) (counted counted' : ℕ)
    : Type 0 where
  pub kept : List E
  pub appended : after ≡ before ++ kept
  pub in_order : Sublist (kept ++ left) rows
  pub counts : counted' ≡ counted + length kept

module _ {E : Type 0} {before rows : List E} {n : ℕ} where
  pub Stores-none : {left : List E} → Sublist left rows → Stores before before rows left n n
  Stores-none s = record {
    kept = [];
    appended = sym (append-nil before);
    in_order = s;
    counts = omega arith;
  }

  pub Stores-behind :
      {after : List E} {m : ℕ} (more : List E)
      → Stores before after rows [] n m
      → Stores before after (rows ++ more) more n m
  Stores-behind more h = record {
    kept = h.kept;
    appended = h.appended;
    in_order =
        Sublist.append (subst (λ l. Sublist l rows) (append-nil h.kept) h.in_order)
          (Sublist.refl more);
    counts = h.counts;
  }

  pub Stores-trans :
      {between after left left' : List E} {m k : ℕ} (more : List E)
      → Stores before between rows left n m
      → Stores between after (left ++ more) left' m k
      → Stores before after (rows ++ more) left' n k
  Stores-trans {left} {left'} more h h' = record {
    kept = h.kept ++ h'.kept;
    appended = h'.appended ∙ ap (λ l. l ++ h'.kept) h.appended ∙ append_assoc before h.kept h'.kept;
    in_order = rw (append_assoc h.kept h'.kept left') (
        Sublist.trans (Sublist.append (Sublist.refl h.kept) h'.in_order) (
          subst (λ l. Sublist l (rows ++ more)) (append_assoc h.kept left more)
            (Sublist.append h.in_order (Sublist.refl more))));
    counts = omega (arith, h.counts, h'.counts, length-append h.kept h'.kept);
  }

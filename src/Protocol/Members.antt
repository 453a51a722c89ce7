-- ===== src/Protocol/Members.antt =====
-- Reading back the members of an object that an encoder wrote: no whitespace, plain keys.
use executor_hotpath_cpp.Base.{
  ℕ, suc, ◌-◌, true, false, [], ◌∷◌, ◌++◌, ◌≡◌, refl, none, some, Bytes, arith, get_or, set, Bool,
}
use executor_hotpath_cpp.Json.Reader
use executor_hotpath_cpp.Json.Reader.{Reader, Outcome, start, peek, separator, expect, skip}
use executor_hotpath_cpp.Json.Strings.{scan_string, next_member}
use executor_hotpath_cpp.Json.Utf8.{IsUtf8}
use executor_hotpath_cpp.Json.Utf8.Text.{IsAscii, IsAscii-IsUtf8}
use executor_hotpath_cpp.Json.Writer.RoundTrip.{escapes, scan_body-escapes}
use executor_hotpath_cpp.Protocol.Answer.{P, answer, members}

-- A key as the encoders write it: its bytes need no escape.
pub record IsPlain (k : Bytes) : Type 0 where
  pub utf8 : IsUtf8 k
  pub unescaped : escapes k ≡ k

scan_key :
    {k : Bytes} (t : Bytes) (r : Reader)
    → IsPlain k
    → scan_string (record r { rest = b'"' ∷ k ++ b'"' ∷ t }) ≡ Reader.ok k (record r { rest = t })
unfolding scan_string skip
scan_key {k} t r p = rw (p.unescaped) at (scan_body-escapes t r p.utf8)

pub separator_first :
    (r : Reader)
    → get_or r.first (r.depth - 1) false ≡ true
    → separator r ≡ Reader.ok tt (record r { first = set r.first (r.depth - 1) false })
unfolding separator
separator_first r f = rw f

pub separator_comma :
    (t : Bytes) (r : Reader)
    → get_or r.first (r.depth - 1) false ≡ false
    → separator (record r { rest = b',' ∷ t }) ≡ Reader.ok tt (record r { rest = t })
unfolding separator skip expect peek
separator_comma t r f = rw f

module _ {k : Bytes} (t : Bytes) (r : Reader) (p : IsPlain k) where
  pub next_member_first :
      get_or r.first (r.depth - 1) false ≡ true
      → next_member (record r { rest = b'"' ∷ k ++ b'"' ∷ b':' ∷ t })
        ≡ Reader.ok (some k) (record r { rest = t; first = set r.first (r.depth - 1) false })
  unfolding next_member skip expect
  next_member_first f = ground (
    arith,
    separator_first (record r { rest = b'"' ∷ k ++ b'"' ∷ b':' ∷ t }) f,
    scan_key (b':' ∷ t) (record r { first = set r.first (r.depth - 1) false }) p,
  )

  pub next_member_later :
      get_or r.first (r.depth - 1) false ≡ false
      → next_member (record r { rest = b',' ∷ b'"' ∷ k ++ b'"' ∷ b':' ∷ t })
        ≡ Reader.ok (some k) (record r { rest = t })
  unfolding next_member skip expect
  next_member_later f =
      ground (arith, separator_comma (b'"' ∷ k ++ b'"' ∷ b':' ∷ t) r f, scan_key (b':' ∷ t) r p)

pub next_member_end :
    (t : Bytes) (r : Reader)
    → next_member (record r { rest = b'}' ∷ t })
      ≡ Reader.ok none (record r { rest = t; depth = r.depth - 1 })
unfolding next_member skip
next_member_end t r = refl

module _ {S : Type 0} (field : Bytes → S → P S) (fuel : ℕ) where
  -- One round of the loop, and its end.
  pub members_step :
      {k : Bytes} {s' : S} {r' r'' : Reader} (s : S) (r : Reader)
      → next_member r ≡ Reader.ok (some k) r'
      → field k s r' ≡ answer s' r''
      → members (suc fuel) field s r ≡ members fuel field s' r''
  unfolding members
  members_step s r n f = ground arith

  pub members_end :
      {r' : Reader} (s : S) (r : Reader)
      → next_member r ≡ Reader.ok none r'
      → members (suc fuel) field s r ≡ answer s r'
  unfolding members
  members_end s r n = ground arith

-- The text of a key in front of its value, as the encoders write it.
abbrev pub key_text : Bytes → Bytes → Bytes
key_text k t = b'"' ∷ k ++ b'"' ∷ b':' ∷ t

-- The reader inside the outermost object, before its first member or behind one.
abbrev pub inside : Bool → Bytes → Reader
inside first t = record (start t) { depth = 1; first = set (start t).first 0 first }

module _ {S : Type 0} (field : Bytes → S → P S) (fuel : ℕ) {k t : Bytes} {s' : S} {r : Reader} where
  pub first_member :
      (s : S)
      → IsPlain k
      → field k s (inside false t) ≡ answer s' r
      → members (suc fuel) field s (inside true (key_text k t)) ≡ members fuel field s' r
  first_member s p f =
      members_step field fuel s _ (next_member_first t (inside true (key_text k t)) p refl) f

  pub later_member :
      (s : S)
      → IsPlain k
      → field k s (inside false t) ≡ answer s' r
      → members (suc fuel) field s (inside false (b',' ∷ key_text k t)) ≡ members fuel field s' r
  later_member s p f = members_step field fuel s _ (next_member_later t (inside false t) p refl) f

pub last_member :
    {S : Type 0} (field : Bytes → S → P S) (fuel : ℕ) (s : S)
    → members (suc fuel) field s (inside false (b'}' ∷ []))
      ≡ answer s (record (inside false []) { depth = 0 })
last_member field fuel s = members_end field fuel s _ (next_member_end [] (inside false []))

pub plain : (k : Bytes) → IsAscii k → escapes k ≡ k → IsPlain k
plain k a e = record { utf8 = IsAscii-IsUtf8 k a; unescaped = e }

-- ===== src/Telemetry/Opening/Version.antt =====
-- The schema version that `open` of src/telemetry.cpp leaves in a database.
use executor_hotpath_cpp.Base.{
  ℕ, ◌+◌, ◌^◌, ◌<◌, ◌≡◌, Bool, true, false, [], ◌∷◌, ◌++◌, Bytes, codes, leb, ◌&&◌, ◌||◌,
  if◌then◌else◌,
}
use executor_hotpath_cpp.Base.Int.{pos}
use executor_hotpath_cpp.Json.Reader.{starts_with}
use executor_hotpath_cpp.Json.Writer.{to_chars}
use executor_hotpath_cpp.Telemetry.Opening.{
  Connection, Opening, was_open, not_opened, opened, telemetry_schema_version,
}

-- The text of a statement in small letters, and a search in it.
abbrev small : ℕ → ℕ
small c = if leb b'A' c && leb c b'Z' then c + 32 else c

abbrev small_letters : Bytes → Bytes
small_letters [] = []
small_letters (c ∷ text) = small c ∷ small_letters text

abbrev holds : Bytes → Bytes → Bool
holds [] word = starts_with [] word
holds (c ∷ text) word = starts_with (c ∷ text) word || holds text word

-- A text that may change `user_version`: it names it, or it undoes what was done before it.
abbrev pub touches_version : Bytes → Bool
touches_version sql =
    holds (small_letters sql) (codes "user_version") || holds (small_letters sql) (codes "rollback")

-- What SQLite documents of `user_version`: it is a number in the file that SQLite itself makes no use
-- of, and `PRAGMA user_version = N` sets it to N. So a text that does not name it keeps it,
-- run at once or prepared and stepped; no other process sets it meanwhile.
pub record IsStamped {S : Type 0} (c : Connection S) (version : S → ℕ) : Type 0 where
  pub exec_keeps :
      (sql : Bytes) (db : S) → touches_version sql ≡ false → version (c.exec sql db).1 ≡ version db
  pub sets :
      (n : ℕ) (db : S)
      → n < 2 ^ 31
      → (let sql = codes "PRAGMA user_version = " ++ to_chars (pos n) in
          (c.exec sql db).0 ≡ true → version (c.exec sql db).1 ≡ n)
  pub prepare_keeps :
      (sql : Bytes) (db : S)
      → touches_version sql ≡ false
      → version (c.prepare sql db).1 ≡ version db
  pub step_keeps :
      (sql : Bytes) (db : S)
      → touches_version sql ≡ false
      → (c.prepare sql db).0 ≡ true
      → version (c.step (c.prepare sql db).1).1 ≡ version (c.prepare sql db).1
  pub timeout_keeps : (ms : ℕ) (db : S) → version (c.busy_timeout ms db).1 ≡ version db

module _ {S : Type 0} (c : Connection S) {version : S → ℕ} (laws : IsStamped c version) where
  -- A database that had the table `latency_events` keeps its version, opened or not; another has
  -- that of the source once it is opened.
  abbrev pub IsVersioned : Bool → ℕ → Opening S → Type 0
  IsVersioned preexisting v was_open = Unit
  IsVersioned preexisting v (not_opened _ db) = preexisting ≡ true → version db ≡ v
  IsVersioned true v (opened db) = version db ≡ v
  IsVersioned false v (opened db) = version db ≡ telemetry_schema_version

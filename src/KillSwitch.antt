-- ===== src/KillSwitch.antt =====
-- The kill switch of src/killswitch.cpp: a file at a known path, and a cached look at it. The file
-- is its contents, or `none` where there is no file. Times are `monotonic_ns()` readings and, like
-- the time to live, not negative.
pub mod Fresh
use executor_hotpath_cpp.Base.{
  ℕ, ◌+◌, ◌&&◌, ◌||◌, Bool, true, false, [], ◌∷◌, ◌++◌, Option, none, some, Bytes, ltb, ◌==◌,
  if◌then◌else◌,
}

abbrev pub File : Type 0
File = Option Bytes

abbrev pub exists : File → Bool
exists none = false
exists (some _) = true

abbrev pub default_ttl_ns : ℕ
default_ttl_ns = 1_000_000_000

pub record KillSwitch : Type 0 where
  pub ttl_ns : ℕ
  pub checked_at_ns : ℕ
  pub cached : Bool
  pub has_cached : Bool

abbrev pub make : ℕ → KillSwitch
make ttl_ns = record { ttl_ns = ttl_ns; checked_at_ns = 0; cached = false; has_cached = false }

-- `now - checked_at_ns_ < ttl_ns_`, on integers. `on_disk` is what `std::filesystem::exists` says
-- at `now`, with an error read as no; it is looked at only where the cache does not serve.
unfoldable pub is_engaged : ℕ → Bool → KillSwitch → KillSwitch × Bool
is_engaged now on_disk k =
    if k.has_cached && ltb now (k.checked_at_ns + k.ttl_ns)
    then (k, k.cached)
    else (record k { cached = on_disk; has_cached = true; checked_at_ns = now }, on_disk)

unfoldable pub invalidate : KillSwitch → KillSwitch
invalidate k = record k { has_cached = false; checked_at_ns = 0 }

-- `opens` is whether the stream could be opened: if not, the file stays as it is.
unfoldable pub engage : Bool → Bytes → KillSwitch × File → KillSwitch × File
unfolding invalidate
engage opens reason (k, file) = (invalidate k, if opens then some (reason ++ b'\n' ∷ []) else file)

-- `removes` is whether `std::filesystem::remove` succeeds.
unfoldable pub release : Bool → KillSwitch × File → KillSwitch × File
unfolding invalidate
release removes (k, file) = (invalidate k, if removes then none else file)

abbrev pub is_blank : ℕ → Bool
is_blank c = c == b' ' || c == b'\t' || c == b'\r' || c == b'\n'

abbrev pub keep_unless_blank : ℕ → Bytes → Bytes
keep_unless_blank c [] = if is_blank c then [] else c ∷ []
keep_unless_blank c (d ∷ ds) = c ∷ d ∷ ds

-- `text.resize(find_last_not_of(" \t\r\n") + 1)`, and nothing where all is blank
unfoldable pub trim_end : Bytes → Bytes
trim_end [] = []
trim_end (c ∷ cs) = keep_unless_blank c (trim_end cs)

unfoldable pub reason : File → Bytes
unfolding trim_end
reason none = []
reason (some text) = trim_end text

-- ===== src/Base/Int.antt =====
-- `std::int64_t`: an integer and its range. The library's ℤ stands on another ℕ.
use Prim.Native.Nat.{ℕ, ◌-◌, ◌^◌, ◌≤◌}

-- `negsuc n` is -(n + 1).
pub data ℤ : Type 0 where
  pos : ℕ → ℤ
  negsuc : ℕ → ℤ

abbrev pub max_i64 : ℕ
max_i64 = 2 ^ 63 - 1

abbrev pub IsI64 : ℤ → Type 0
IsI64 (pos n) = n ≤ max_i64
IsI64 (negsuc n) = n ≤ max_i64

-- ===== src/Prelude/Words.antt =====
-- size_t arithmetic, which wraps at 2^64, and the greatest size of a vector of char.
use Prim.Native.Nat.{ℕ, ◌+◌, ◌-◌, ◌%◌, ◌^◌}

abbrev pub add_size : ℕ → ℕ → ℕ
add_size a b = (a + b) % 2 ^ 64

-- `-` on ℕ stops at 0, so the modulus is added first.
abbrev pub sub_size : ℕ → ℕ → ℕ
sub_size a b = (a + 2 ^ 64 - b) % 2 ^ 64

-- `std::vector<char>::max_size()`, PTRDIFF_MAX.
abbrev pub max_size : ℕ
max_size = 2 ^ 63 - 1

-- Integers: `negsuc n` is -n-1.
pub data ℤ : Type 0 where
  pos negsuc : ℕ → ℤ

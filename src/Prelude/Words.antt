-- ===== src/Prelude/Words.antt =====
-- The unsigned 32-bit and 64-bit words of the source, with their wrap-around.
use Prim.Native.Nat.{ℕ, ◌+◌, ◌-◌, ◌%◌}

abbrev pub u64_mod : ℕ
u64_mod = 18446744073709551616

-- uint64_t and size_t: a sum, and a difference of two words.
abbrev pub add64 : ℕ → ℕ → ℕ
add64 a b = (a + b) % 18446744073709551616

abbrev pub sub64 : ℕ → ℕ → ℕ
sub64 a b = (a + 18446744073709551616 - b) % 18446744073709551616

abbrev pub u32_mod : ℕ
u32_mod = 4294967296

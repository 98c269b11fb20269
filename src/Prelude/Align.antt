-- ===== src/Prelude/Align.antt =====
-- Arithmetic of `usize` and `u64` values, and the rounding of an address to a page.
use Prim.Native.Nat.{ℕ, ◌+◌, ◌-◌, ◌*◌, ◌/◌, ◌%◌, ◌^◌}

abbrev pub page_size : ℕ
page_size = 4096

-- Sums and differences of 64-bit words go round at 2^64, as release builds compute them.
abbrev pub add64 : ℕ → ℕ → ℕ
add64 a b = (a + b) % 2 ^ 64

abbrev pub sub64 : ℕ → ℕ → ℕ
sub64 a b = (a + 2 ^ 64 - b) % 2 ^ 64

-- `x & !(PAGE_SIZE - 1)`.
abbrev pub align_down : ℕ → ℕ
align_down x = x / page_size * page_size

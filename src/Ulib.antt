-- ===== src/Ulib.antt =====
-- The parts of the user library, userspace-rs/src/ulib.rs, that compute: `atoi` and `malloc`. A
-- system call is the function of the kernel that answers it.
pub mod Atoi
pub mod Malloc
mod Tests
use kernel_rs.Prelude.{
  ℕ, zero, suc, ◌+◌, ◌-◌, ◌*◌, ◌/◌, ◌%◌, ◌^◌, Bool, true, false, not, ◌&&◌, ◌||◌, Option, none,
  some, List, [], ◌∷◌, ltb, leb, ◌==◌, if◌then◌else◌, max, ◌>>=◌,
}
use kernel_rs.Prelude.Align.{add64}
use kernel_rs.Prelude.Int.{ℤ, pos, negsuc}
use kernel_rs.Syscall.Sbrk.{Heap, sys_sbrk}

abbrev pub is_digit : ℕ → Bool
is_digit b = leb b'0' b && leb b b'9'

unfoldable pub skip_spaces : List ℕ → List ℕ
skip_spaces [] = []
skip_spaces (b ∷ rest) = let more = skip_spaces rest in if b == b' ' then more else b ∷ rest

-- The `i64` is a word.
unfoldable pub digits_from : ℕ → List ℕ → ℕ
digits_from v [] = v
digits_from v (b ∷ rest) =
    let more = digits_from ((v * 10 + (b - b'0')) % 2 ^ 64) rest in if is_digit b then more else v

-- `v as i32` of a word.
unfoldable pub as_i32 : ℕ → ℤ
as_i32 w = if ltb (w % 2 ^ 32) (2 ^ 31) then pos (w % 2 ^ 32) else negsuc (2 ^ 32 - 1 - w % 2 ^ 32)

unfoldable pub after_spaces : List ℕ → ℤ
after_spaces [] = as_i32 0
after_spaces (b ∷ rest) =
    if b == b'-'
    then as_i32 ((2 ^ 64 - digits_from 0 rest) % 2 ^ 64)
    else as_i32 (digits_from 0 (b ∷ rest))

abbrev pub atoi : List ℕ → ℤ
atoi s = after_spaces (skip_spaces s)

-- A multiple of 16 bytes.
abbrev pub rounded : ℕ → ℕ
rounded size = add64 (max size 1) 15 / 16 * 16

-- `none` is the null pointer.
unfoldable pub pointer : ℤ → Option ℕ
pointer (pos p) = some p
pointer (negsuc n) = none

unfoldable pub malloc : ℕ → Heap → Option (Heap × Option ℕ)
malloc size h = do (h', z) ← sys_sbrk (rounded size) h; some (h', pointer z)

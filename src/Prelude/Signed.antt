-- ===== src/Prelude/Signed.antt =====
-- 32-bit signed arithmetic as release builds compute it: a sum or difference of two `i32` values that
-- leaves the range comes back in at the other end.
use Prim.Native.Nat.{ℕ, ◌+◌, ◌-◌, ◌≤◌, ◌<◌, min, max}
use mathlib.Core.Path.{◌≡◌, ◌∙◌}
use native.Mathlib.Omega.{arith}
use kernel_rs.Prelude.Tests.{if◌then◌else◌}
use kernel_rs.Prelude.Int.{
  ℤ, pos, negsuc, ◌+ℤ◌, ◌-ℤ◌, ◌≤ℤ◌, ◌<ℤ◌, ltb_ℤ, leb_ℤ, min_ℤ, max_ℤ, +ℤ_parts, -ℤ_parts,
  eq_of_parts,
}

-- `negsuc 2147483647` is -2^31.
unfoldable pub wrap_i32 : ℤ → ℤ
wrap_i32 z =
    if ltb_ℤ z (negsuc 2147483647)
    then z +ℤ pos 4294967296
    else (if leb_ℤ (pos 2147483648) z then z -ℤ pos 4294967296 else z)

unfoldable pub add_i32 : ℤ → ℤ → ℤ
add_i32 a b = wrap_i32 (a +ℤ b)

unfoldable pub sub_i32 : ℤ → ℤ → ℤ
sub_i32 a b = wrap_i32 (a -ℤ b)

abbrev pub InI32 : ℤ → Type 0
InI32 z = (negsuc 2147483647 ≤ℤ z) × (z <ℤ pos 2147483648)

pub wrap_i32_id : (z : ℤ) → InI32 z → wrap_i32 z ≡ z
unfolding wrap_i32
wrap_i32_id z h = ground arith

pub add_i32_exact : (a b : ℤ) → InI32 (a +ℤ b) → add_i32 a b ≡ a +ℤ b
unfolding add_i32
add_i32_exact a b h = wrap_i32_id (a +ℤ b) h

pub sub_i32_exact : (a b : ℤ) → InI32 (a -ℤ b) → sub_i32 a b ≡ a -ℤ b
unfolding sub_i32
sub_i32_exact a b h = wrap_i32_id (a -ℤ b) h

pub add_i32-pos : (a b : ℕ) → a + b < 2147483648 → add_i32 (pos a) (pos b) ≡ pos (a + b)
add_i32-pos a b h =
    let e : pos a +ℤ pos b ≡ pos (a + b) = omega (arith, +ℤ_parts, eq_of_parts) in
    add_i32_exact (pos a) (pos b) (rw e (omega arith)) ∙ e

pub sub_i32-pos : (a b : ℕ) → b ≤ a → a < 2147483648 → sub_i32 (pos a) (pos b) ≡ pos (a - b)
sub_i32-pos a b le h =
    let e : pos a -ℤ pos b ≡ pos (a - b) = omega (arith, -ℤ_parts, eq_of_parts) in
    sub_i32_exact (pos a) (pos b) (rw e (omega arith)) ∙ e

pub min_ℤ-pos : (a b : ℕ) → min_ℤ (pos a) (pos b) ≡ pos (min a b)
unfolding min_ℤ
min_ℤ-pos a b = ground arith

pub max_ℤ-pos : (a b : ℕ) → max_ℤ (pos a) (pos b) ≡ pos (max a b)
unfolding max_ℤ
max_ℤ-pos a b = ground arith

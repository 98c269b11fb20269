-- ===== src/Prelude/Bits.antt =====
-- The bits of a machine word, as the native `bit_and` and `bit_or` compute them.
use Prim.Native.Nat.{
  ℕ, zero, suc, ◌+◌, ◌-◌, ◌*◌, ◌/◌, ◌%◌, ◌^◌, ◌≤◌, ◌<◌, min, max, bit_and, bit_or, digits,
  bit_and-bitwise, bit_or-bitwise,
}
use mathlib.Core.Path.{◌≡◌, refl, ◌∙◌, sym, ap}
use native.Mathlib.Omega.{arith}
use native.Mathlib.Nat.{pow-suc, pow-succ', one-le-pow, div-div-eq-div-mul}
use kernel_rs.Prelude.Tests.{◌==◌, ltb, if◌then◌else◌}

-- The bit `b` of `w`, counted from the lowest.
unfoldable pub bit : ℕ → ℕ → ℕ
bit w zero = w % 2
bit w (suc b) = bit (w / 2) b

pub bit-le : (w b : ℕ) → bit w b ≤ 1
unfolding bit
bit-le w zero = omega arith
bit-le w (suc b) = bit-le (w / 2) b

-- Both operations go through the digits of `a`, one for each unit of fuel: `rest` is applied to what
-- is left of `b` when `a` has ended, and `op` to each pair of digits.
module _ (rest : ℕ → ℕ) (op : ℕ → ℕ → ℕ) where
  fuel_free : (a b n m : ℕ) → a ≤ n → a ≤ m → digits rest op n a b ≡ digits rest op m a b
  fuel_free zero b zero zero hn hm = refl
  fuel_free zero b zero (suc m) hn hm = refl
  fuel_free zero b (suc n) zero hn hm = refl
  fuel_free zero b (suc n) (suc m) hn hm = refl
  fuel_free (suc a) b zero m hn hm = elim hn [ ]
  fuel_free (suc a) b (suc n) zero hn hm = elim hm [ ]
  fuel_free (suc a) b (suc n) (suc m) hn hm =
      let half_n : suc a / 2 ≤ n = omega arith in
      let half_m : suc a / 2 ≤ m = omega arith in
      ap (λ (k : ℕ). k * 2 + op (suc a % 2) (b % 2))
        (fuel_free (suc a / 2) (b / 2) n m half_n half_m)

  digits_step :
      (a b : ℕ)
      → digits rest op (suc a) (suc a) b
        ≡ digits rest op (suc a / 2) (suc a / 2) (b / 2) * 2 + op (suc a % 2) (b % 2)
  digits_step a b =
      ap (λ (k : ℕ). k * 2 + op (suc a % 2) (b % 2))
        (fuel_free (suc a / 2) (b / 2) a (suc a / 2) (omega arith) (omega arith))

and_ends : (b : ℕ) → bit_and 0 b ≡ 0
and_ends b = bit_and-bitwise 0 b

or_ends : (b : ℕ) → bit_or 0 b ≡ b
or_ends b = bit_or-bitwise 0 b

pub and_step : (a b : ℕ) → bit_and a b ≡ bit_and (a / 2) (b / 2) * 2 + min (a % 2) (b % 2)
and_step zero b = omega (arith, and_ends b, and_ends (b / 2))
and_step (suc a) b =
    let whole : bit_and (suc a) b ≡ digits (λ x. 0) min (suc a) (suc a) b =
      bit_and-bitwise (suc a) b in
    let half : bit_and (suc a / 2) (b / 2) ≡ digits (λ x. 0) min (suc a / 2) (suc a / 2) (b / 2) =
      bit_and-bitwise (suc a / 2) (b / 2) in
    omega (arith, whole, half, digits_step (λ x. 0) min a b)

pub or_step : (a b : ℕ) → bit_or a b ≡ bit_or (a / 2) (b / 2) * 2 + max (a % 2) (b % 2)
or_step zero b = omega (arith, or_ends b, or_ends (b / 2))
or_step (suc a) b =
    let whole : bit_or (suc a) b ≡ digits (λ x. x) max (suc a) (suc a) b =
      bit_or-bitwise (suc a) b in
    let half : bit_or (suc a / 2) (b / 2) ≡ digits (λ x. x) max (suc a / 2) (suc a / 2) (b / 2) =
      bit_or-bitwise (suc a / 2) (b / 2) in
    omega (arith, whole, half, digits_step (λ x. x) max a b)

-- The two native operations act on each bit.
pub bit-bit_and : (a b i : ℕ) → bit (bit_and a b) i ≡ min (bit a i) (bit b i)
unfolding bit
bit-bit_and a b zero = omega (arith, and_step a b)
bit-bit_and a b (suc i) =
    ap (λ k. bit k i) (omega (arith, and_step a b)) ∙ bit-bit_and (a / 2) (b / 2) i

pub bit-bit_or : (a b i : ℕ) → bit (bit_or a b) i ≡ max (bit a i) (bit b i)
unfolding bit
bit-bit_or a b zero = omega (arith, or_step a b)
bit-bit_or a b (suc i) =
    ap (λ k. bit k i) (omega (arith, or_step a b)) ∙ bit-bit_or (a / 2) (b / 2) i

-- Nothing is left of a word under a mask of no ones, and its last bit under a mask of one.
pub and_nothing : (n a : ℕ) → a ≤ n → bit_and a 0 ≡ 0
and_nothing n zero h = and_ends 0
and_nothing zero (suc a) h = elim h [ ]
and_nothing (suc n) (suc a) h =
    omega (arith, and_step (suc a) 0, and_nothing n (suc a / 2) (omega arith))

pub bit_and-one : (a : ℕ) → bit_and a 1 ≡ a % 2
bit_and-one a =
    let high : bit_and (a / 2) 0 ≡ 0 = and_nothing (a / 2) (a / 2) (omega arith) in
    omega (arith, and_step a 1, high)

pub one-le-two_pow : (n : ℕ) → 1 ≤ 2 ^ n
one-le-two_pow n = one-le-pow n 2 (omega arith)

-- `w >> b` and then the lowest bit.
pub shr-mod_two : (b w : ℕ) → (w / 2 ^ b) % 2 ≡ bit w b
unfolding bit
shr-mod_two zero w = omega arith
shr-mod_two (suc b) w =
    ap (λ k. k % 2) (ap (λ k. w / k) (pow-succ' 2 b) ∙ sym (div-div-eq-div-mul w 2 (2 ^ b)))
    ∙ shr-mod_two b (w / 2)

pub bit-zero : (i : ℕ) → bit 0 i ≡ 0
unfolding bit
bit-zero zero = refl
bit-zero (suc i) = bit-zero i

pub bit-two_pow : (b i : ℕ) → bit (2 ^ b) i ≡ (if i == b then 1 else 0)
unfolding bit
bit-two_pow zero zero = refl
bit-two_pow zero (suc i) = ground (arith, bit-zero i)
bit-two_pow (suc b) zero = ground (arith, pow-suc 2 b)
bit-two_pow (suc b) (suc i) =
    ap (λ k. bit k i) (omega (arith, pow-suc 2 b)) ∙ bit-two_pow b i ∙ ground arith

-- The complement `!(1 << b)` in a word of `n` bits.
abbrev pub clear_mask : ℕ → ℕ → ℕ
clear_mask n b = 2 ^ n - 1 - 2 ^ b

bit_ones : (n i : ℕ) → bit (2 ^ n - 1) i ≡ (if ltb i n then 1 else 0)
unfolding bit
bit_ones zero i = bit-zero i ∙ ground arith
bit_ones (suc n) zero = ground (arith, pow-suc 2 n, one-le-two_pow n)
bit_ones (suc n) (suc i) =
    ap (λ k. bit k i) (omega (arith, pow-suc 2 n, one-le-two_pow n)) ∙ bit_ones n i ∙ ground arith

pub two_pow_lt : (n b : ℕ) → b < n → 2 ^ b + 1 ≤ 2 ^ n
two_pow_lt zero b h = elim h [ ]
two_pow_lt (suc n) zero h = omega (arith, pow-suc 2 n, one-le-two_pow n)
two_pow_lt (suc n) (suc b) h = omega (arith, pow-suc 2 n, pow-suc 2 b, two_pow_lt n b (omega arith))

pub bit-clear_mask :
    (n b i : ℕ) → b < n → i < n → bit (clear_mask n b) i ≡ (if i == b then 0 else 1)
unfolding bit
bit-clear_mask zero b i h k = elim h [ ]
bit-clear_mask (suc n) zero zero h k = ground (arith, pow-suc 2 n, one-le-two_pow n)
bit-clear_mask (suc n) zero (suc i) h k =
    ap (λ k. bit k i) (omega (arith, pow-suc 2 n, one-le-two_pow n)) ∙ bit_ones n i ∙ ground arith
bit-clear_mask (suc n) (suc b) zero h k =
    ground (arith, pow-suc 2 n, pow-suc 2 b, one-le-two_pow n, two_pow_lt n b (omega arith))
bit-clear_mask (suc n) (suc b) (suc i) h k =
    ap (λ k. bit k i) (omega (arith, pow-suc 2 n, pow-suc 2 b, two_pow_lt n b (omega arith)))
    ∙ bit-clear_mask n b i (omega arith) (omega arith)
    ∙ ground arith

pub half-lt : (n w : ℕ) → w < 2 ^ suc n → w / 2 < 2 ^ n
half-lt n w h = omega (arith, pow-suc 2 n)

pub bit_or-lt : (n a b : ℕ) → a < 2 ^ n → b < 2 ^ n → bit_or a b < 2 ^ n
bit_or-lt zero a b h k = let e : a ≡ 0 = omega arith in rw (e, or_ends) k
bit_or-lt (suc n) a b h k =
    omega
      (arith, pow-suc 2 n, or_step a b, bit_or-lt n (a / 2) (b / 2) (half-lt n a h) (half-lt n b k))

pub bit_and-le : (a b : ℕ) → bit_and a b ≤ a
bit_and-le a b = go a a b (omega arith)
  where
    go : (n a b : ℕ) → a ≤ n → bit_and a b ≤ a
    go n zero b h = omega (arith, and_ends b)
    go zero (suc a) b h = absurd (omega arith)
    go (suc n) (suc a) b h =
        omega (arith, and_step (suc a) b, go n (suc a / 2) (b / 2) (omega arith))

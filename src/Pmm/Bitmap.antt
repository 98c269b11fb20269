-- ===== src/Pmm/Bitmap.antt =====
-- The laws of the three bitmap operations and of `trailing_zeros`.
use kernel_rs.Prelude.{
  ℕ, zero, suc, ◌/◌, ◌%◌, ◌^◌, ◌<◌, ◌≡◌, ap, ◌∙◌, ◌≢◌, true, false, not, arith, ◌==◌, if◌then◌else◌,
  Bool-cases, inl, inr,
}
use kernel_rs.Prelude.Bits.{
  bit, bit-le, bit-bit_and, bit-bit_or, bit_and-one, shr-mod_two, bit-two_pow, clear_mask,
  bit-clear_mask, bit_or-lt, bit_and-le, half-lt, bit-zero, two_pow_lt,
}
use kernel_rs.Pmm.{bm_set, bm_clear, bm_test, trailing_zeros}

-- A test reads one bit of one word.
pub bm_test_lem : (m : ℕ → ℕ) (i : ℕ) → bm_test m i ≡ not (bit (m (i / 64)) (i % 64) == 0)
unfolding bm_test
bm_test_lem m i =
    ap (λ k. not (k == 0))
      (bit_and-one (m (i / 64) / 2 ^ (i % 64)) ∙ shr-mod_two (i % 64) (m (i / 64)))

pub bm_test-bm_set :
    (m : ℕ → ℕ) (i j : ℕ) → bm_test (bm_set m i) j ≡ (if j == i then true else bm_test m j)
unfolding bm_set
bm_test-bm_set m i j = ground (
  arith,
  bm_test_lem m j,
  bm_test_lem (bm_set m i) j,
  bit-bit_or (m (i / 64)) (2 ^ (i % 64)) (j % 64),
  bit-two_pow (i % 64) (j % 64),
  bit-le (m (j / 64)) (j % 64),
  ap m {x = i / 64} {y = j / 64},
)

pub bm_test-bm_clear :
    (m : ℕ → ℕ) (i j : ℕ) → bm_test (bm_clear m i) j ≡ (if j == i then false else bm_test m j)
unfolding bm_clear
bm_test-bm_clear m i j = ground (
  arith,
  bm_test_lem m j,
  bm_test_lem (bm_clear m i) j,
  bit-bit_and (m (i / 64)) (clear_mask 64 (i % 64)) (j % 64),
  bit-clear_mask 64 (i % 64) (j % 64),
  bit-le (m (j / 64)) (j % 64),
  ap m {x = i / 64} {y = j / 64},
)

-- Every word fits in 64 bits.
abbrev pub Words : (ℕ → ℕ) → Type 0
Words m = (w : ℕ) → m w < 2 ^ 64

two_pow-lt_word : (b : ℕ) → b < 64 → 2 ^ b < 2 ^ 64
two_pow-lt_word b h = omega (arith, two_pow_lt 64 b h)

pub bm_set-Words : (m : ℕ → ℕ) (i : ℕ) → Words m → Words (bm_set m i)
unfolding bm_set
bm_set-Words m i h w = ground (
  arith,
  h w,
  bit_or-lt 64 (m (i / 64)) (2 ^ (i % 64)) (h (i / 64)) (two_pow-lt_word (i % 64) (omega arith)),
)

pub bm_clear-Words : (m : ℕ → ℕ) (i : ℕ) → Words m → Words (bm_clear m i)
unfolding bm_clear
bm_clear-Words m i h w =
    ground (arith, h w, h (i / 64), bit_and-le (m (i / 64)) (clear_mask 64 (i % 64)))

-- Of a word that is not 0, `trailing_zeros` is the index of the lowest bit that is set.
pub record Lowest (f w t : ℕ) : Type 0 where
  pub below : t < f
  pub is_set : bit w t ≡ 1
  pub first : (i : ℕ) → i < t → bit w i ≡ 0

pub trailing_zeros-Lowest : (f w : ℕ) → w ≢ 0 → w < 2 ^ f → Lowest f w (trailing_zeros f w)
unfolding trailing_zeros bit
trailing_zeros-Lowest zero w ne h = absurd (omega arith)
trailing_zeros-Lowest (suc f) w ne h = elim (Bool-cases (w % 2 == 1)) [
  | inl odd ↦ record { below = ground arith; is_set = ground arith; first = λ i lt. ground arith }
  | inr even ↦
      let rec = trailing_zeros-Lowest f (w / 2) (ground arith) (half-lt f w h) in
      record {
        below = rw even (omega (arith, rec.below));
        is_set = rw even rec.is_set;
        first = rw even (first_suc even rec.first);
      }
]
  where
    first_suc :
        (w % 2 == 1) ≡ false
        → ((i : ℕ) → i < trailing_zeros f (w / 2) → bit (w / 2) i ≡ 0)
        → (i : ℕ) → i < suc (trailing_zeros f (w / 2))
        → bit w i ≡ 0
    first_suc even h zero lt = ground arith
    first_suc even h (suc i) lt = h i (omega arith)

-- A word that is 0 has no free page, and the lowest bit of another is its first free page.
pub bm_test_zero : (m : ℕ → ℕ) (i : ℕ) → m (i / 64) ≡ 0 → bm_test m i ≡ false
bm_test_zero m i e = rw (bm_test_lem, e, bit-zero)

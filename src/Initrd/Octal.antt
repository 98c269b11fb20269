-- ===== src/Initrd/Octal.antt =====
-- `octal`, kernel-rs/src/fs/initrd.rs, on a field of a header.
use kernel_rs.Prelude.{
  ℕ, zero, suc, ◌+◌, ◌-◌, ◌*◌, ◌/◌, ◌%◌, ◌^◌, ◌<◌, ◌≡◌, refl, ◌∙◌, ap, ◌||◌, not, ◌==◌, false, List,
  ◌∷◌, arith,
}
use kernel_rs.Initrd.{is_octal_digit, octal, octal_from}

-- The last `k` octal digits of a number, the first digit first, in front of `rest`.
unfoldable pub octal_digits : ℕ → ℕ → List ℕ → List ℕ
octal_digits zero n rest = rest
octal_digits (suc k) n rest = octal_digits k (n / 8) ((b'0' + n % 8) ∷ rest)

octal_from-digit :
    (v d : ℕ) (rest : List ℕ)
    → d < 8
    → v * 8 + d < 2 ^ 64
    → octal_from v ((b'0' + d) ∷ rest) ≡ octal_from (v * 8 + d) rest
unfolding octal_from
octal_from-digit v d rest digit small =
    let goes_on : ((b'0' + d == 0) || not (is_octal_digit (b'0' + d))) ≡ false =
      ground (arith, digit) in
    let value : (v * 8 + (b'0' + d - b'0')) % 2 ^ 64 ≡ v * 8 + d = omega (arith, small) in
    rw (goes_on, value) refl

octal_from-digits :
    (k n : ℕ) (rest : List ℕ)
    → n < 8 ^ k
    → n < 2 ^ 64
    → octal_from 0 (octal_digits k n rest) ≡ octal_from n rest
unfolding octal_digits
octal_from-digits zero n rest lt small = ap (λ v. octal_from v rest) (omega (arith, lt))
octal_from-digits (suc k) n rest lt small =
    octal_from-digits k (n / 8) ((b'0' + n % 8) ∷ rest) (omega (arith, lt)) (omega (arith, small))
    ∙ octal_from-digit (n / 8) (n % 8) rest (omega arith) (omega (arith, small))
    ∙ ap (λ v. octal_from v rest) (omega arith)

-- A field holds the octal digits of a number below 2^64, then a NUL and any bytes: `octal` reads the number back.
pub octal-octal_digits :
    (k n : ℕ) (rest : List ℕ) → n < 8 ^ k → n < 2 ^ 64 → octal (octal_digits k n (0 ∷ rest)) ≡ n
unfolding octal_from
octal-octal_digits k n rest lt small = octal_from-digits k n (0 ∷ rest) lt small ∙ refl

-- ===== src/Ulib/Atoi.antt =====
-- `atoi`, userspace-rs/src/ulib.rs, reads back a number that was printed.
use kernel_rs.Prelude.{
  ℕ, zero, suc, ◌+◌, ◌-◌, ◌*◌, ◌/◌, ◌%◌, ◌^◌, ◌<◌, ◌≡◌, refl, sym, ◌∙◌, ap, ◌==◌, true, false, List,
  [], ◌∷◌, get_or, arith,
}
use kernel_rs.Prelude.Int.{ℤ, pos, negsuc}
use kernel_rs.Prelude.Signed.{InI32}
use kernel_rs.Ulib.{is_digit, skip_spaces, digits_from, as_i32, after_spaces, atoi}

-- The last `k` decimal digits of a number, the first digit first, in front of `rest`.
unfoldable pub dec_digits : ℕ → ℕ → List ℕ → List ℕ
dec_digits zero n rest = rest
dec_digits (suc k) n rest = dec_digits k (n / 10) ((b'0' + n % 10) ∷ rest)

-- A minus and digits, with `k` of them in all.
abbrev pub print : ℕ → ℤ → List ℕ → List ℕ
print k (pos n) rest = dec_digits k n rest
print k (negsuc n) rest = b'-' ∷ dec_digits k (n + 1) rest

abbrev pub spaces : ℕ → List ℕ → List ℕ
spaces zero rest = rest
spaces (suc n) rest = b' ' ∷ spaces n rest

digits_from-digit :
    (v d : ℕ) (rest : List ℕ)
    → d < 10
    → v * 10 + d < 2 ^ 64
    → digits_from v ((b'0' + d) ∷ rest) ≡ digits_from (v * 10 + d) rest
unfolding digits_from
digits_from-digit v d rest digit small =
    let goes_on : is_digit (b'0' + d) ≡ true = ground (arith, digit) in
    let value : (v * 10 + (b'0' + d - b'0')) % 2 ^ 64 ≡ v * 10 + d = omega (arith, small) in
    rw (goes_on, value) refl

digits_from-dec_digits :
    (k n : ℕ) (rest : List ℕ)
    → n < 10 ^ k
    → n < 2 ^ 64
    → digits_from 0 (dec_digits k n rest) ≡ digits_from n rest
unfolding dec_digits
digits_from-dec_digits zero n rest lt small = ap (λ v. digits_from v rest) (omega (arith, lt))
digits_from-dec_digits (suc k) n rest lt small =
    digits_from-dec_digits k (n / 10) ((b'0' + n % 10) ∷ rest) (omega (arith, lt))
      (omega (arith, small))
    ∙ digits_from-digit (n / 10) (n % 10) rest (omega arith) (omega (arith, small))
    ∙ ap (λ v. digits_from v rest) (omega arith)

digits_from-stop :
    (v : ℕ) (rest : List ℕ) → is_digit (get_or rest 0 0) ≡ false → digits_from v rest ≡ v
unfolding digits_from
digits_from-stop v [] stop = refl
digits_from-stop v (b ∷ rest) stop = rw stop refl

-- Digits begin with a digit.
first_digit :
    (k n : ℕ) (rest : List ℕ)
    → (d : ℕ) × (t : List ℕ) × (d < 10) × (dec_digits (suc k) n rest ≡ (b'0' + d) ∷ t)
unfolding dec_digits
first_digit zero n rest = (n % 10, rest, omega arith, refl)
first_digit (suc k) n rest = first_digit k (n / 10) ((b'0' + n % 10) ∷ rest)

skip_spaces-spaces :
    (n : ℕ) (rest : List ℕ) → (get_or rest 0 0 == b' ') ≡ false → skip_spaces (spaces n rest) ≡ rest
unfolding skip_spaces
skip_spaces-spaces zero [] no_space = refl
skip_spaces-spaces zero (b ∷ rest) no_space = rw no_space refl
skip_spaces-spaces (suc n) rest no_space = skip_spaces-spaces n rest no_space

value :
    (k n : ℕ) (rest : List ℕ)
    → is_digit (get_or rest 0 0) ≡ false
    → n < 10 ^ k
    → n < 2 ^ 64
    → digits_from 0 (dec_digits k n rest) ≡ n
value k n rest stop lt small =
    digits_from-dec_digits k n rest lt small ∙ digits_from-stop n rest stop

as_i32-pos : (n : ℕ) → n < 2 ^ 31 → as_i32 n ≡ pos n
unfolding as_i32
as_i32-pos n small = ground (arith, small)

as_i32-neg : (n : ℕ) → n < 2 ^ 31 → as_i32 ((2 ^ 64 - (n + 1)) % 2 ^ 64) ≡ negsuc n
unfolding as_i32
as_i32-neg n small = ground (arith, small)

plain_digits :
    (k n : ℕ) (rest : List ℕ)
    → after_spaces (dec_digits (suc k) n rest) ≡ as_i32 (digits_from 0 (dec_digits (suc k) n rest))
unfolding after_spaces
plain_digits k n rest =
    let (d, t, digit, starts) = first_digit k n rest in
    let no_minus : (b'0' + d == b'-') ≡ false = ground (arith, digit) in
    ap after_spaces starts
    ∙ rw (after_spaces, no_minus) (ap (λ s. as_i32 (digits_from 0 s)) (sym starts))

no_space : (k n : ℕ) (rest : List ℕ) → (get_or (dec_digits (suc k) n rest) 0 0 == b' ') ≡ false
no_space k n rest =
    let (d, t, digit, starts) = first_digit k n rest in
    ap (λ s. get_or s 0 0 == b' ') starts ∙ ground (arith, digit)

abbrev pub magnitude : ℤ → ℕ
magnitude (pos n) = n
magnitude (negsuc n) = n + 1

-- An `i32` in decimal, with at least as many digits as it has and zeros in front where there are more,
-- after any spaces and before the end or a byte that is no digit, is read back by `atoi`.
pub atoi-print :
    (m k : ℕ) (z : ℤ) (rest : List ℕ)
    → InI32 z
    → magnitude z < 10 ^ suc k
    → is_digit (get_or rest 0 0) ≡ false
    → atoi (spaces m (print (suc k) z rest)) ≡ z
unfolding after_spaces
atoi-print m k (pos n) rest fits enough stop =
    ap after_spaces (skip_spaces-spaces m (dec_digits (suc k) n rest) (no_space k n rest))
    ∙ plain_digits k n rest
    ∙ ap as_i32 (value (suc k) n rest stop (omega (arith, fits, enough)) (omega (arith, fits)))
    ∙ as_i32-pos n (omega (arith, fits))
atoi-print m k (negsuc n) rest fits enough stop =
    ap after_spaces (skip_spaces-spaces m (b'-' ∷ dec_digits (suc k) (n + 1) rest) refl)
    ∙ ap (λ v. as_i32 ((2 ^ 64 - v) % 2 ^ 64))
        (value (suc k) (n + 1) rest stop (omega (arith, fits, enough)) (omega (arith, fits)))
    ∙ as_i32-neg n (omega (arith, fits))

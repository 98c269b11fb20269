-- ===== src/Vmm/Entry.antt =====
-- The fields of a page table entry, as arithmetic.
use Prim.Native.Nat.{bit_and, bit_or}
use native.Mathlib.Nat.{pow-suc, pow-succ', div-div-eq-div-mul, mul_assoc, div-add-mod}
use kernel_rs.Prelude.{
  ℕ, zero, suc, ◌+◌, ◌-◌, ◌*◌, ◌/◌, ◌%◌, ◌^◌, ◌<◌, ◌≤◌, ◌≡◌, sym, ◌∙◌, ap, true, false, arith,
}
use kernel_rs.Prelude.Bits.{
  bit, bit-bit_and, bit-bit_or, bit-zero, and_step, or_step, bit_and-one, and_nothing,
  one-le-two_pow, half-lt,
}
use kernel_rs.Vmm.{present, huge, addr_of, table_entry, pte_addr_mask, pte_p}

-- Words with the same bits are the same.
bit_ext : (n a b : ℕ) → a ≤ n → b ≤ n → ((i : ℕ) → bit a i ≡ bit b i) → a ≡ b
unfolding bit
bit_ext zero a b ha hb same = omega arith
bit_ext (suc n) a b ha hb same =
    let low = same 0 in
    let high = bit_ext n (a / 2) (b / 2) (omega arith) (omega arith) (λ i. same (suc i)) in
    omega (arith, low, high)

bits_same : (a b : ℕ) → ((i : ℕ) → bit a i ≡ bit b i) → a ≡ b
bits_same a b same = bit_ext (a + b) a b (omega arith) (omega arith) same

and-or : (a b m : ℕ) → bit_and (bit_or a b) m ≡ bit_or (bit_and a m) (bit_and b m)
and-or a b m = bits_same _ _ (λ i. omega (
  arith,
  bit-bit_and (bit_or a b) m i,
  bit-bit_or a b i,
  bit-bit_or (bit_and a m) (bit_and b m) i,
  bit-bit_and a m i,
  bit-bit_and b m i,
))

or-zero : (a : ℕ) → bit_or a 0 ≡ a
or-zero a = bits_same _ _ (λ i. omega (arith, bit-bit_or a 0 i, bit-zero i))

double_mul : (m k : ℕ) → m * 2 ^ suc k ≡ m * 2 ^ k * 2
double_mul m k = ap (λ n. m * n) (pow-suc 2 k) ∙ sym (mul_assoc m (2 ^ k) 2)

-- A mask shifted to the left.
and-shift : (k a m : ℕ) → bit_and a (m * 2 ^ k) ≡ bit_and (a / 2 ^ k) m * 2 ^ k
and-shift zero a m =
    let one : m * 1 ≡ m = omega arith in
    let whole : a / 1 ≡ a = omega arith in
    ap (λ k. bit_and a k) one ∙ sym (ap (λ k. bit_and k m * 1) whole ∙ omega arith)
and-shift (suc k) a m =
    let double : m * 2 ^ suc k ≡ m * 2 ^ k * 2 = double_mul m k in
    let half : m * 2 ^ k * 2 / 2 ≡ m * 2 ^ k = omega arith in
    let even : m * 2 ^ k * 2 % 2 ≡ 0 = omega arith in
    let further : a / 2 / 2 ^ k ≡ a / 2 ^ suc k =
      div-div-eq-div-mul a 2 (2 ^ k) ∙ ap (λ n. a / n) (sym (pow-succ' 2 k)) in
    let step = and_step a (m * 2 ^ k * 2) in
    let rest : bit_and (a / 2) (m * 2 ^ k * 2 / 2) ≡ bit_and (a / 2 ^ suc k) m * 2 ^ k =
      ap (λ n. bit_and (a / 2) n) half
      ∙ and-shift k (a / 2) m
      ∙ ap (λ n. bit_and n m * 2 ^ k) further in
    ap (λ n. bit_and a n) double
    ∙ step
    ∙ omega (arith, rest, even)
    ∙ sym (double_mul (bit_and (a / 2 ^ suc k) m) k)

digit_mod : (n a : ℕ) → a % 2 ^ suc n ≡ a / 2 % 2 ^ n * 2 + a % 2
digit_mod n a =
    let quotient : a / 2 ^ suc n ≡ a / 2 / 2 ^ n =
      ap (λ k. a / k) (pow-succ' 2 n) ∙ sym (div-div-eq-div-mul a 2 (2 ^ n)) in
    let wide : 2 ^ suc n * (a / 2 ^ suc n) ≡ 2 * (2 ^ n * (a / 2 / 2 ^ n)) =
      ap (λ k. 2 ^ suc n * k) quotient
      ∙ ap (λ k. k * (a / 2 / 2 ^ n)) (pow-succ' 2 n)
      ∙ mul_assoc 2 (2 ^ n) (a / 2 / 2 ^ n) in
    omega (arith, wide, div-add-mod a (2 ^ suc n), div-add-mod (a / 2) (2 ^ n))

-- A mask of ones.
and-ones : (n a : ℕ) → bit_and a (2 ^ n - 1) ≡ a % 2 ^ n
and-ones zero a = and_nothing a a (omega arith) ∙ omega arith
and-ones (suc n) a =
    let half : (2 ^ suc n - 1) / 2 ≡ 2 ^ n - 1 = omega (arith, pow-suc 2 n, one-le-two_pow n) in
    let odd : (2 ^ suc n - 1) % 2 ≡ 1 = omega (arith, pow-suc 2 n, one-le-two_pow n) in
    let rest : bit_and (a / 2) ((2 ^ suc n - 1) / 2) ≡ a / 2 % 2 ^ n =
      ap (λ k. bit_and (a / 2) k) half ∙ and-ones n (a / 2) in
    let whole : a % 2 ^ suc n ≡ a / 2 % 2 ^ n * 2 + a % 2 = digit_mod n a in
    omega (arith, and_step a (2 ^ suc n - 1), rest, odd, whole)

-- Flags under the aligned part of a word.
or-low : (k x c f : ℕ) → c < 2 ^ k → f < 2 ^ k → bit_or (x * 2 ^ k + c) f ≡ x * 2 ^ k + bit_or c f
or-low zero x c f hc hf =
    let none : f ≡ 0 = omega arith in
    let same : bit_or c f ≡ c = ap (λ k. bit_or c k) none ∙ or-zero c in
    ap (λ k. bit_or (x * 1 + c) k) none ∙ or-zero (x * 1 + c) ∙ omega (arith, same)
or-low (suc k) x c f hc hf =
    let sum : x * 2 ^ suc k + c ≡ x * 2 ^ k * 2 + c = omega (arith, double_mul x k) in
    let half : (x * 2 ^ k * 2 + c) / 2 ≡ x * 2 ^ k + c / 2 = omega arith in
    let low : (x * 2 ^ k * 2 + c) % 2 ≡ c % 2 = omega arith in
    let rest : bit_or ((x * 2 ^ k * 2 + c) / 2) (f / 2) ≡ x * 2 ^ k + bit_or (c / 2) (f / 2) =
      ap (λ n. bit_or n (f / 2)) half
      ∙ or-low k x (c / 2) (f / 2) (half-lt k c hc) (half-lt k f hf) in
    ap (λ n. bit_or n f) sum
    ∙ or_step (x * 2 ^ k * 2 + c) f
    ∙ omega (arith, rest, low, double_mul x k, or_step c f)

-- The address of an entry is its bits from 12 to 51.
pub addr_of-bits : (e : ℕ) → addr_of e ≡ e / 4096 % 2 ^ 40 * 4096
unfolding addr_of
addr_of-bits e = and-shift 12 e (2 ^ 40 - 1) ∙ ap (λ k. k * 4096) (and-ones 40 (e / 4096))

-- A page address that fits is kept.
pub addr_of_page : (pa : ℕ) → pa % 4096 ≡ 0 → pa < 2 ^ 52 → addr_of pa ≡ pa
addr_of_page pa aligned fits = addr_of-bits pa ∙ omega arith

pub addr_of-aligned : (e : ℕ) → addr_of e % 4096 ≡ 0
addr_of-aligned e = let bits = addr_of-bits e in omega (arith, bits)

pub addr_of-addr_of : (e : ℕ) → addr_of (addr_of e) ≡ addr_of e
addr_of-addr_of e =
    let bits = addr_of-bits e in addr_of_page (addr_of e) (addr_of-aligned e) (omega (arith, bits))

pub present_odd : (e : ℕ) → e % 2 ≡ 1 → present e ≡ true
unfolding present
present_odd e odd = ground (arith, bit_and-one e)

addr_of-or : (a f : ℕ) → addr_of f ≡ 0 → addr_of (bit_or a f) ≡ addr_of a
unfolding addr_of
addr_of-or a f clear =
    and-or a f pte_addr_mask ∙ ap (λ k. bit_or (bit_and a pte_addr_mask) k) clear ∙ or-zero _

-- The entry of a new table.
pub table_entry_sum : (np : ℕ) → np % 4096 ≡ 0 → table_entry np ≡ np + 7
unfolding table_entry
table_entry_sum np aligned =
    let whole : np ≡ np / 4096 * 4096 + 0 = omega arith in
    let one : bit_or np 1 ≡ np / 4096 * 4096 + 1 =
      ap (λ k. bit_or k 1) whole ∙ or-low 12 (np / 4096) 0 1 (omega arith) (omega arith) in
    let three : bit_or (bit_or np 1) 2 ≡ np / 4096 * 4096 + 3 =
      ap (λ k. bit_or k 2) one ∙ or-low 12 (np / 4096) 1 2 (omega arith) (omega arith) in
    ap (λ k. bit_or k 4) three ∙ or-low 12 (np / 4096) 3 4 (omega arith) (omega arith) ∙ omega arith

pub table_entry-present : (np : ℕ) → np % 4096 ≡ 0 → present (table_entry np) ≡ true
table_entry-present np aligned = present_odd _ (omega (arith, table_entry_sum np aligned))

pub table_entry-huge : (np : ℕ) → np % 4096 ≡ 0 → huge (table_entry np) ≡ false
unfolding huge
table_entry-huge np aligned =
    let sum = table_entry_sum np aligned in
    let bits : bit_and (table_entry np) 128 ≡ bit_and (table_entry np / 128) 1 * 128 =
      and-shift 7 (table_entry np) 1 in
    ground (arith, sum, bits, bit_and-one (table_entry np / 128))

pub table_entry-addr_of : (np : ℕ) → np % 4096 ≡ 0 → np < 2 ^ 52 → addr_of (table_entry np) ≡ np
table_entry-addr_of np aligned fits =
    let sum = table_entry_sum np aligned in addr_of-bits (table_entry np) ∙ omega (arith, sum)

-- The entry of a page, with flags outside of the address.
pub leaf_entry-present : (pa flags : ℕ) → present (bit_or (bit_or (addr_of pa) flags) pte_p) ≡ true
leaf_entry-present pa flags = present_odd _ (omega (arith, or_step (bit_or (addr_of pa) flags) 1))

pub leaf_entry-addr_of :
    (pa flags : ℕ)
    → addr_of flags ≡ 0
    → addr_of (bit_or (bit_or (addr_of pa) flags) pte_p) ≡ addr_of pa
leaf_entry-addr_of pa flags clear =
    addr_of-or (bit_or (addr_of pa) flags) 1 (addr_of-bits 1)
    ∙ addr_of-or (addr_of pa) flags clear
    ∙ addr_of-addr_of pa

-- ===== src/Pmm/Count.antt =====
-- How many of the first `n` pages a test accepts, the invariant of the allocator, and what it means
-- that a run of pages is taken out of the free ones.
use kernel_rs.Prelude.{
  ℕ, zero, suc, ◌+◌, ◌<◌, ◌≤◌, ◌≡◌, refl, Bool, true, false, ◌&&◌, arith, ltb, leb, ◌==◌,
  if◌then◌else◌, Bool-cases, inl, inr,
}
use kernel_rs.Pmm.{Pmm, bm_test, bitmap_pages}
use kernel_rs.Pmm.Bitmap.{Words}

pub count : (ℕ → Bool) → ℕ → ℕ
count f zero = 0
count f (suc n) = (if f n then 1 else 0) + count f n

pub count_ext : (f g : ℕ → Bool) (n : ℕ) → ((j : ℕ) → j < n → g j ≡ f j) → count g n ≡ count f n
unfolding count
count_ext f g zero same = refl
count_ext f g (suc n) same =
    ground (arith, same n (omega arith), count_ext f g n (λ j h. same j (omega arith)))

pub count_none : (f : ℕ → Bool) (n : ℕ) → ((j : ℕ) → f j ≡ false) → count f n ≡ 0
unfolding count
count_none f zero h = refl
count_none f (suc n) h = ground (arith, h n, count_none f n h)

pub count-le : (f : ℕ → Bool) (n : ℕ) → count f n ≤ n
unfolding count
count-le f zero = omega arith
count-le f (suc n) = ground (arith, count-le f n)

-- Two tests that differ only at `i`.
pub count_drop :
    (f g : ℕ → Bool) (i n : ℕ)
    → i < n
    → f i ≡ true
    → ((j : ℕ) → g j ≡ (if j == i then false else f j))
    → count g n + 1 ≡ count f n
unfolding count
count_drop f g i zero lt yes_i same = absurd (omega arith)
count_drop f g i (suc n) lt yes_i same = elim (Bool-cases (n == i)) [
  | inl e ↦ ground (arith, same n, count_ext f g n (λ j h. ground (arith, same j)))
  | inr ne ↦ ground (arith, same n, count_drop f g i n (ground arith) yes_i same)
]

pub record IsValid (p : Pmm) : Type 0 where
  pub words : Words p.bitmap
  pub counted : p.free_pages ≡ count (bm_test p.bitmap) bitmap_pages
  pub zero_used : bm_test p.bitmap 0 ≡ false

-- The `n` pages from `i` on were free, and are the only ones that `p'` has not.
pub record Takes (p : Pmm) (i n : ℕ) (p' : Pmm) : Type 0 where
  pub fits : i + n ≤ bitmap_pages
  pub were_free : (j : ℕ) → i ≤ j → j < i + n → bm_test p.bitmap j ≡ true
  pub now :
      (j : ℕ)
      → bm_test p'.bitmap j ≡ (if leb i j && ltb j (i + n) then false else bm_test p.bitmap j)
  pub left : p'.free_pages + n ≡ p.free_pages

-- No page of the bitmap is free.
abbrev pub Exhausted : Pmm → Type 0
Exhausted p = (i : ℕ) → i < bitmap_pages → bm_test p.bitmap i ≡ false

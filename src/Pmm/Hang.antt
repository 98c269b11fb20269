-- ===== src/Pmm/Hang.antt =====
-- `alloc_pages` with an alignment of two pages or more: the step that realigns the index.
use kernel_rs.Prelude.{ℕ, zero, suc, ◌*◌, ◌/◌, ◌<◌, ◌≤◌, ◌≡◌, refl, ap, false, arith, max, none}
use native.Mathlib.Nat.{mod-eq_of_lt}
use kernel_rs.Prelude.Align.{page_size}
use kernel_rs.Pmm.{Pmm, bm_test, bitmap_pages, free_run, alloc_pages_from}

-- At an index that is 1 more than a multiple of the alignment no fuel is enough.
stuck : (f ap n : ℕ) (p : Pmm) → 2 ≤ ap → n < bitmap_pages → alloc_pages_from f ap n 1 p ≡ none
unfolding alloc_pages_from
stuck zero ap n p two fits = refl
stuck (suc f) ap n p two fits =
    ground (arith, mod-eq_of_lt {n = 1} {m = ap} two, stuck f ap n p two fits)

first_used : (m : ℕ → ℕ) (n : ℕ) → 0 < n → bm_test m 0 ≡ false → free_run m 0 n 0 ≡ 0
unfolding free_run
first_used m zero h used = elim h [ ]
first_used m (suc n) h used = rw used

-- With page 0 in use, as `init` leaves it, a request for at least one page and fewer than all pages of
-- the bitmap, aligned to two pages or more, never ends, whatever other pages are free: for every fuel
-- the loop runs out of it.
pub alloc_pages_hang :
    (f n align : ℕ) (p : Pmm)
    → bm_test p.bitmap 0 ≡ false
    → 0 < n
    → n < bitmap_pages
    → 2 * page_size ≤ align
    → alloc_pages_from f (max align page_size / page_size) n 0 p ≡ none
unfolding alloc_pages_from
alloc_pages_hang zero n align p used pos_n fits wide = refl
alloc_pages_hang (suc f) n align p used pos_n fits wide = ground (
  arith,
  first_used p.bitmap n pos_n used,
  stuck f (max align page_size / page_size) n p (omega arith) fits,
)

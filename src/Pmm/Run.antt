-- ===== src/Pmm/Run.antt =====
-- `alloc_pages` with the alignment of one page, the only one that the kernel asks for.
use kernel_rs.Prelude.{
  ℕ, zero, suc, ◌+◌, ◌*◌, ◌/◌, ◌%◌, ◌<◌, ◌≤◌, ◌≡◌, refl, ap, ◌⊎◌, inl, inr, true, false, ◌&&◌,
  arith, ltb, leb, ◌==◌, if◌then◌else◌, Bool-cases, Option, some, max,
}
use native.Mathlib.Decide.{dec_lt}
use kernel_rs.Prelude.Align.{page_size, add64, sub64}
use kernel_rs.Pmm.{
  Pmm, bm_test, bm_clear, bitmap_pages, free_run, clear_run, alloc_pages_from, alloc_pages,
}
use kernel_rs.Pmm.Bitmap.{Words, bm_test-bm_clear, bm_clear-Words}
use kernel_rs.Pmm.Count.{count, count_drop, count-le, IsValid, Takes}

abbrev pub AllFree : Pmm → ℕ → ℕ → Type 0
AllFree p i n = (j : ℕ) → i ≤ j → j < i + n → bm_test p.bitmap j ≡ true

-- Where the inner loop stops, started at `j` with `left` pages to go.
record RunEnd (m : ℕ → ℕ) (i left j k : ℕ) : Type 0 where
  from : j ≤ k
  to : k ≤ j + left
  free : (x : ℕ) → i + j ≤ x → x < i + k → bm_test m x ≡ true
  stop : k < j + left → bm_test m (i + k) ≡ false

free_run-RunEnd : (m : ℕ → ℕ) (i left j : ℕ) → RunEnd m i left j (free_run m i left j)
unfolding free_run
free_run-RunEnd m i zero j = record {
  from = omega arith;
  to = omega arith;
  free = λ x h k. absurd (omega arith);
  stop = λ h. absurd (omega arith);
}
free_run-RunEnd m i (suc left) j = elim (Bool-cases (bm_test m (i + j))) [
  | inr used ↦ rw used (record {
    from = omega arith;
    to = omega arith;
    free = λ x h k. absurd (omega arith);
    stop = λ h. used;
  })
  | inl unused ↦
      let rest = free_run-RunEnd m i left (j + 1) in
      rw unused (record {
        from = omega (arith, rest.from);
        to = omega (arith, rest.to);
        free = λ x h k. ground (arith, unused, rest.free x, ap (bm_test m) {x = x} {y = i + j});
        stop = λ h. rest.stop (omega arith);
      })
]

bm_test-clear_run :
    (n i : ℕ) (m : ℕ → ℕ) (j : ℕ)
    → bm_test (clear_run n i m) j ≡ (if leb i j && ltb j (i + n) then false else bm_test m j)
unfolding clear_run
bm_test-clear_run zero i m j = ground arith
bm_test-clear_run (suc n) i m j =
    ground (arith, bm_test-clear_run n (i + 1) (bm_clear m i) j, bm_test-bm_clear m i j)

clear_run-Words : (n i : ℕ) (m : ℕ → ℕ) → Words m → Words (clear_run n i m)
unfolding clear_run
clear_run-Words zero i m h = h
clear_run-Words (suc n) i m h = clear_run-Words n (i + 1) (bm_clear m i) (bm_clear-Words m i h)

count-clear_run :
    (n i : ℕ) (m : ℕ → ℕ)
    → i + n ≤ bitmap_pages
    → ((j : ℕ) → i ≤ j → j < i + n → bm_test m j ≡ true)
    → count (bm_test (clear_run n i m)) bitmap_pages + n ≡ count (bm_test m) bitmap_pages
unfolding clear_run
count-clear_run zero i m h free = omega arith
count-clear_run (suc n) i m h free = omega (
  arith,
  count-clear_run n (i + 1) (bm_clear m i) (omega arith)
      (λ j a b. ground (arith, bm_test-bm_clear m i j, free j)),
  count_drop (bm_test m) (bm_test (bm_clear m i)) i bitmap_pages (omega arith)
      (free i (omega arith) (omega arith)) (bm_test-bm_clear m i),
)

-- Clearing a run of free pages takes exactly that run.
take_run :
    (p : Pmm) (i n : ℕ)
    → IsValid p
    → i + n ≤ bitmap_pages
    → AllFree p i n
    → let p' = record p { bitmap = clear_run n i p.bitmap; free_pages = sub64 p.free_pages n } in
      Takes p i n p' × IsValid p'
take_run p i n v fits free =
    let drop = count-clear_run n i p.bitmap fits free in
    let most = count-le (bm_test p.bitmap) bitmap_pages in
    (
      record {
        fits = fits;
        were_free = free;
        now = bm_test-clear_run n i p.bitmap;
        left = omega (arith, v.counted);
      },
      record {
        words = clear_run-Words n i p.bitmap v.words;
        counted = omega (arith, v.counted);
        zero_used = ground (arith, v.zero_used, bm_test-clear_run n i p.bitmap 0);
      },
    )

-- What the search from the page `i` on returns.
pub record RunFound (i n : ℕ) (p : Pmm) (r : Option (Pmm × ℕ)) : Type 0 where
  pub page : ℕ
  pub after : Pmm
  pub returns : r ≡ some (after, page * page_size)
  pub above : 0 < page
  pub takes : Takes p page n after
  pub first : (k : ℕ) → i ≤ k → k < page → ¬ AllFree p k n
  pub valid : IsValid after

pub record NoRun (i n : ℕ) (p : Pmm) (r : Option (Pmm × ℕ)) : Type 0 where
  pub returns : r ≡ some (p, 0)
  pub none_free : (k : ℕ) → i ≤ k → k + n ≤ bitmap_pages → ¬ AllFree p k n

-- Past a run that a used page ends, the search goes on with nothing missed.
skip_run :
    (p : Pmm) (i n j : ℕ) (r : Option (Pmm × ℕ))
    → j < n
    → bm_test p.bitmap (i + j) ≡ false
    → NoRun (i + j + 1) n p r ⊎ RunFound (i + j + 1) n p r
    → NoRun i n p r ⊎ RunFound i n p r
skip_run p i n j r lt used (inl e) = inl (record {
  returns = e.returns;
  none_free = λ k h fits all. elim (dec_lt (i + j) k) [
    | yes later ↦ e.none_free k (omega arith) fits all
    | no sooner ↦ ground (arith, used, all (i + j))
  ];
})
skip_run p i n j r lt used (inr e) = inr (record {
  page = e.page;
  after = e.after;
  returns = e.returns;
  above = e.above;
  takes = e.takes;
  first = λ k h before all. elim (dec_lt (i + j) k) [
    | yes later ↦ e.first k (omega arith) before all
    | no sooner ↦ ground (arith, used, all (i + j))
  ];
  valid = e.valid;
})

mod_one : (i : ℕ) → (i % 1 == 0) ≡ true
mod_one i = ground arith

search_lem :
    (f n i : ℕ) (p : Pmm)
    → IsValid p
    → 0 < n
    → n ≤ bitmap_pages
    → i ≤ bitmap_pages
    → bitmap_pages < f + i
    → NoRun i n p (alloc_pages_from f 1 n i p) ⊎ RunFound i n p (alloc_pages_from f 1 n i p)
unfolding alloc_pages_from
search_lem zero n i p v pos_n small hi enough = absurd (omega arith)
search_lem (suc f) n i p v pos_n small hi enough =
    let j = free_run p.bitmap i n 0 in
    let run = free_run-RunEnd p.bitmap i n 0 in
    elim (Bool-cases (leb (add64 i n) bitmap_pages)) [
      | inr out ↦
          inl (rw out (record { returns = refl; none_free = λ k h fits. absurd (ground arith) }))
      | inl fits ↦ elim (Bool-cases (j == n)) [
        | inl full ↦
            let all : AllFree p i n = λ x a b. run.free x (omega arith) (ground arith) in
            let taken = take_run p i n v (ground arith) all in
            inr (
              rw (fits, mod_one i, full)
                (record {
                  page = i;
                  after = record p {
                    bitmap = clear_run n i p.bitmap;
                    free_pages = sub64 p.free_pages n;
                  };
                  returns = refl;
                  above = ground (arith, v.zero_used, all 0);
                  takes = taken.0;
                  first = λ k a b. absurd (omega arith);
                  valid = taken.1;
                }))
        | inr short ↦
            let lt : j < n = ground (arith, run.to) in
            rw (fits, mod_one i, short)
              (skip_run p i n j _ lt (run.stop (omega arith))
                (search_lem f n (i + j + 1) p v pos_n small (ground arith) (omega arith)))
      ]
    ]

search_all :
    (f a n : ℕ) (p : Pmm)
    → a ≡ 1
    → IsValid p
    → 0 < n
    → n ≤ bitmap_pages
    → bitmap_pages < f
    → NoRun 0 n p (alloc_pages_from f a n 0 p) ⊎ RunFound 0 n p (alloc_pages_from f a n 0 p)
search_all f a n p one v pos_n small enough =
    rw one (search_lem f n 0 p v pos_n small (omega arith) (omega arith))

-- On a valid allocator, with an alignment of at most one page, and for a number of pages from 1 to all
-- pages of the bitmap, `alloc_pages` ends. It returns 0 and changes nothing, and
-- then no `n` pages in a row are free; or it returns the address of the first `n` free pages in a
-- row, which is not 0, takes exactly those, counts them off, and leaves a valid allocator.
pub alloc_pages_lem :
    (p : Pmm) (n align : ℕ)
    → IsValid p
    → 0 < n
    → n ≤ bitmap_pages
    → align ≤ page_size
    → NoRun 0 n p (alloc_pages n align p) ⊎ RunFound 0 n p (alloc_pages n align p)
unfolding alloc_pages
alloc_pages_lem p n align v pos_n small a =
    search_all (bitmap_pages + 1) (max align page_size / page_size) n p (omega arith) v pos_n small
      (omega arith)

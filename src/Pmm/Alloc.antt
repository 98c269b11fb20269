-- ===== src/Pmm/Alloc.antt =====
-- `alloc_page` and `free_page`: the first free page, the invariant, and their round trip.
use kernel_rs.Prelude.{
  ℕ, subst, zero, suc, ◌+◌, ◌-◌, ◌*◌, ◌/◌, ◌%◌, ◌<◌, ◌≤◌, ◌≡◌, refl, ◌∙◌, ap, ◌≢◌, ◌⊎◌, inl, inr,
  true, false, not, arith, ◌==◌, if◌then◌else◌, Bool-cases, ==_iff, ==→≢,
}
use kernel_rs.Prelude.Bits.{bit}
use kernel_rs.Prelude.Align.{page_size, add64, sub64}
use kernel_rs.Pmm.{
  Pmm, bm_test, bm_clear, bm_set, trailing_zeros, alloc_page_from, alloc_page, free_page,
  bitmap_pages, bitmap_words,
}
use kernel_rs.Pmm.Bitmap.{
  bm_test_lem, bm_test-bm_clear, bm_test-bm_set, bm_clear-Words, bm_set-Words,
  trailing_zeros-Lowest, bm_test_zero,
}
use kernel_rs.Pmm.Count.{count_drop, count-le, IsValid, Takes, Exhausted}

bm_test_word : (m : ℕ → ℕ) (w b : ℕ) → b < 64 → bm_test m (w * 64 + b) ≡ not (bit (m w) b == 0)
bm_test_word m w b h = ground (
  arith,
  bm_test_lem m (w * 64 + b),
  ap m {x = (w * 64 + b) / 64} {y = w},
  ap (λ (k : ℕ). bit (m w) k) {x = (w * 64 + b) % 64} {y = b},
)

-- Clearing the bit of a free page and counting it off takes that page.
pub take_page :
    (p : Pmm) (i : ℕ)
    → IsValid p
    → i < bitmap_pages
    → bm_test p.bitmap i ≡ true
    → let p' = record p { bitmap = bm_clear p.bitmap i; free_pages = sub64 p.free_pages 1 } in
      Takes p i 1 p' × IsValid p'
take_page p i v lt yes_i =
    let drop =
      count_drop (bm_test p.bitmap) (bm_test (bm_clear p.bitmap i)) i bitmap_pages lt yes_i
        (bm_test-bm_clear p.bitmap i) in
    let most = count-le (bm_test p.bitmap) bitmap_pages in
    (
      record {
        fits = omega arith;
        were_free = λ j h k. subst (λ x. bm_test p.bitmap x ≡ true) (omega arith) yes_i;
        now = λ j. bm_test-bm_clear p.bitmap i j ∙ ground arith;
        left = omega (arith, v.counted);
      },
      record {
        words = bm_clear-Words p.bitmap i v.words;
        counted = omega (arith, v.counted);
        zero_used = ground (arith, v.zero_used, bm_test-bm_clear p.bitmap i 0);
      },
    )

-- What the scan from the word `w` on finds.
pub record Found (w : ℕ) (p : Pmm) (out : Pmm × ℕ) : Type 0 where
  pub page : ℕ
  pub address : out.1 ≡ page * page_size
  pub above : 0 < page
  pub takes : Takes p page 1 out.0
  pub first : (j : ℕ) → w * 64 ≤ j → j < page → bm_test p.bitmap j ≡ false
  pub valid : IsValid out.0

pub record NotFound (w : ℕ) (p : Pmm) (out : Pmm × ℕ) : Type 0 where
  pub same : out ≡ (p, 0)
  pub none_free : (j : ℕ) → w * 64 ≤ j → j < bitmap_pages → bm_test p.bitmap j ≡ false

empty_word :
    (p : Pmm) (w : ℕ)
    → p.bitmap w ≡ 0
    → (j : ℕ) → w * 64 ≤ j
    → j < (w + 1) * 64
    → bm_test p.bitmap j ≡ false
empty_word p w e j h k = bm_test_zero p.bitmap j (subst (λ x. p.bitmap x ≡ 0) (omega arith) e)

take_lowest :
    (p : Pmm) (w : ℕ)
    → IsValid p
    → w < bitmap_words
    → p.bitmap w ≢ 0
    → Found w p (
      record p {
        bitmap = bm_clear p.bitmap (w * 64 + trailing_zeros 64 (p.bitmap w));
        free_pages = sub64 p.free_pages 1;
      },
      (w * 64 + trailing_zeros 64 (p.bitmap w)) * page_size,
    )
take_lowest p w v lt ne =
    let t = trailing_zeros 64 (p.bitmap w) in
    let low = trailing_zeros-Lowest 64 (p.bitmap w) ne (v.words w) in
    let taken =
      take_page p (w * 64 + t) v (omega (arith, low.below))
        (ground (arith, low.is_set, bm_test_word p.bitmap w t low.below)) in
    record {
      page = w * 64 + t;
      address = refl;
      above = ground (arith, taken.0.were_free 0, v.zero_used);
      takes = taken.0;
      first = λ j h k. ground (
        arith,
        low.below,
        low.first (j - w * 64),
        bm_test_word p.bitmap w (j - w * 64),
        ap (bm_test p.bitmap) {x = w * 64 + (j - w * 64)} {y = j},
      );
      valid = taken.1;
    }

widen :
    (p : Pmm) (w : ℕ) (out : Pmm × ℕ)
    → p.bitmap w ≡ 0
    → NotFound (w + 1) p out ⊎ Found (w + 1) p out
    → NotFound w p out ⊎ Found w p out
widen p w out e (inl r) = inl (record {
  same = r.same;
  none_free = λ j h k. ground (arith, empty_word p w e j h, r.none_free j);
})
widen p w out e (inr r) = inr (record {
  page = r.page;
  address = r.address;
  above = r.above;
  takes = r.takes;
  first = λ j h k. ground (arith, empty_word p w e j h, r.first j);
  valid = r.valid;
})

scan_lem :
    (r w : ℕ) (p : Pmm)
    → IsValid p
    → w + r ≡ bitmap_words
    → NotFound w p (alloc_page_from r w p) ⊎ Found w p (alloc_page_from r w p)
unfolding alloc_page_from
scan_lem zero w p v e = inl (record { same = refl; none_free = λ j h k. absurd (omega arith) })
scan_lem (suc r) w p v e = elim (Bool-cases (p.bitmap w == 0)) [
  | inr full ↦ inr (rw full (take_lowest p w v (omega arith) (==→≢ _ _ full)))
  | inl dry ↦ rw dry (widen p w _ ((==_iff _ _).0 dry) (scan_lem r (w + 1) p v (omega arith)))
]

-- On a valid allocator `alloc_page` either returns 0 and changes nothing, and then no page is
-- free; or it returns the address of the first free page, which is not 0, takes exactly that page,
-- counts it off, and leaves a valid allocator.
pub alloc_page_lem :
    (p : Pmm) → IsValid p → ((alloc_page p ≡ (p, 0)) × Exhausted p) ⊎ Found 0 p (alloc_page p)
unfolding alloc_page
alloc_page_lem p v = split (scan_lem bitmap_words 0 p v (omega arith))
  where
    split :
        NotFound 0 p (alloc_page_from bitmap_words 0 p)
          ⊎ Found 0 p (alloc_page_from bitmap_words 0 p)
        → ((alloc_page_from bitmap_words 0 p ≡ (p, 0)) × Exhausted p)
          ⊎ Found 0 p (alloc_page_from bitmap_words 0 p)
    split (inl r) = inl (r.same, λ i h. r.none_free i (omega arith) h)
    split (inr r) = inr r

-- The test by which `free_page` accepts an address.
abbrev pub Freeable : Pmm → ℕ → Type 0
Freeable p pa =
    (pa % page_size ≡ 0)
    × (pa / page_size < bitmap_pages)
    × (bm_test p.bitmap (pa / page_size) ≡ false)

-- Setting the bit of a page in use and counting it gives that page back.
pub put_page :
    (p : Pmm) (i : ℕ)
    → IsValid p
    → i < bitmap_pages
    → bm_test p.bitmap i ≡ false
    → let p' = record p { bitmap = bm_set p.bitmap i; free_pages = add64 p.free_pages 1 } in
      (p'.free_pages ≡ p.free_pages + 1) × (0 < i → IsValid p')
put_page p i v lt no_i =
    let set_test = bm_test-bm_set p.bitmap i in
    let rise =
      count_drop (bm_test (bm_set p.bitmap i)) (bm_test p.bitmap) i bitmap_pages lt
        (ground (arith, set_test i)) (λ j. before set_test j) in
    let most = count-le (bm_test (bm_set p.bitmap i)) bitmap_pages in
    (
      omega (arith, v.counted),
      λ above. record {
        words = bm_set-Words p.bitmap i v.words;
        counted = omega (arith, v.counted);
        zero_used = ground (arith, v.zero_used, set_test 0);
      },
    )
  where
    before :
        ((j : ℕ) → bm_test (bm_set p.bitmap i) j ≡ (if j == i then true else bm_test p.bitmap j))
        → (j : ℕ) → bm_test p.bitmap j ≡ (if j == i then false else bm_test (bm_set p.bitmap i) j)
    before h j = ground (arith, h j, no_i, ap (bm_test p.bitmap) {x = j} {y = i})

free_page-accepts :
    (p : Pmm) (pa : ℕ)
    → Freeable p pa
    → free_page pa p
      ≡ record p { bitmap = bm_set p.bitmap (pa / page_size); free_pages = add64 p.free_pages 1 }
unfolding free_page
free_page-accepts p pa f = ground arith

free_page-refuses : (p : Pmm) (pa : ℕ) → ¬ Freeable p pa → free_page pa p ≡ p
unfolding free_page
free_page-refuses p pa bad = elim (Bool-cases (bm_test p.bitmap (pa / page_size))) [
  | inl used ↦ ground arith
  | inr unused ↦ ground (
    arith,
    unused,
    λ (a : pa % page_size ≡ 0) (b : pa / page_size < bitmap_pages). bad (a, b, unused),
  )
]

-- `free_page` of an aligned address in range whose page is in use frees exactly that page, counts
-- it, and (page 0 apart) leaves a valid allocator; of any other address, a page that is free already
-- among them, it changes nothing.
pub free_page_lem :
    (p : Pmm) (pa : ℕ)
    → IsValid p
    → (Freeable p pa
        → ((j : ℕ)
            → bm_test (free_page pa p).bitmap j
              ≡ (if j == pa / page_size then true else bm_test p.bitmap j))
          × ((free_page pa p).free_pages ≡ p.free_pages + 1)
          × (page_size ≤ pa → IsValid (free_page pa p)))
      × (¬ Freeable p pa → free_page pa p ≡ p)
free_page_lem p pa v = (accepted, free_page-refuses p pa)
  where
    accepted :
        Freeable p pa
        → ((j : ℕ)
            → bm_test (free_page pa p).bitmap j
              ≡ (if j == pa / page_size then true else bm_test p.bitmap j))
          × ((free_page pa p).free_pages ≡ p.free_pages + 1)
          × (page_size ≤ pa → IsValid (free_page pa p))
    accepted f =
        let put = put_page p (pa / page_size) v f.1 f.2 in
        rw (free_page-accepts p pa f)
          (bm_test-bm_set p.bitmap (pa / page_size), put.0, λ above. put.1 (omega arith))

-- A page that `alloc_page` returned can be freed at once: every page is then free or in use as it
-- was before, and the count is the old one.
pub free_page-alloc_page :
    (p : Pmm)
    → IsValid p
    → (alloc_page p).1 ≢ 0
    → let p' = free_page (alloc_page p).1 (alloc_page p).0 in
      ((j : ℕ) → bm_test p'.bitmap j ≡ bm_test p.bitmap j) × (p'.free_pages ≡ p.free_pages)
free_page-alloc_page p v ne = elim (alloc_page_lem p v) [
  | inl r ↦ absurd (ne (ap (λ (x : Pmm × ℕ). x.1) r.0))
  | inr r ↦ back r
]
  where
    back :
        Found 0 p (alloc_page p)
        → let p' = free_page (alloc_page p).1 (alloc_page p).0 in
          ((j : ℕ) → bm_test p'.bitmap j ≡ bm_test p.bitmap j) × (p'.free_pages ≡ p.free_pages)
    back r =
        let q = (alloc_page p).0 in
        let pa = (alloc_page p).1 in
        let index : pa / page_size ≡ r.page = omega (arith, r.address) in
        let freed = (free_page_lem q pa r.valid).0 (
          omega (arith, r.address),
          omega (arith, index, r.takes.fits),
          rw index (ground (arith, r.takes.now r.page)),
        ) in
        (
          λ j. ground (arith, index, freed.0 j, r.takes.now j, r.takes.were_free j),
          omega (arith, freed.1, r.takes.left),
        )

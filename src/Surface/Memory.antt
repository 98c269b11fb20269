-- ===== src/Surface/Memory.antt =====
-- The pages of a surface: what making one takes, and what dropping it gives back.
use kernel_rs.Prelude.{
  >>=-some, ℕ, zero, suc, ◌+◌, ◌-◌, ◌*◌, ◌/◌, ◌%◌, ◌^◌, ◌<◌, ◌≤◌, ◌≡◌, refl, sym, ◌∙◌, ap, subst,
  ◌⊎◌, inl, inr, true, false, ◌&&◌, ◌||◌, Option, none, some, ltb, leb, max, ◌==◌, if◌then◌else◌,
  arith, Bool-cases,
}
use kernel_rs.Prelude.Align.{page_size, add64, sub64}
use kernel_rs.Prelude.Int.{ℤ, pos, leb_ℤ}
use mathlib.Core.Option.{some-injective, none-ne-some}
use kernel_rs.Pmm.{
  Pmm, bm_test, free_page, alloc_pages, alloc_pages_from, free_run, bitmap_pages, pa_to_va,
  va_to_pa,
}
use kernel_rs.Pmm.Count.{IsValid, Takes}
use kernel_rs.Pmm.Alloc.{free_page_lem}
use kernel_rs.Pmm.Run.{RunFound, alloc_pages_lem}
use kernel_rs.Surface.{Surface, pages_of, create, create_pixels, free_pixels, drop}

-- The `n` pages from `i` on are free, and no other has changed.
record Freed (i n : ℕ) (p p' : Pmm) : Type 0 where
  now :
      (j : ℕ)
      → bm_test p'.bitmap j ≡ (if leb i j && ltb j (i + n) then true else bm_test p.bitmap j)
  valid : IsValid p'

free_pixels-Freed :
    (n i : ℕ) (p : Pmm)
    → IsValid p
    → 0 < i
    → i + n ≤ bitmap_pages
    → ((j : ℕ) → i ≤ j → j < i + n → bm_test p.bitmap j ≡ false)
    → Freed i n p (free_pixels n (i * page_size) p)
unfolding free_pixels
free_pixels-Freed zero i p v above fits used = record { now = λ j. ground arith; valid = v }
free_pixels-Freed (suc n) i p v above fits used =
    let index : i * page_size / page_size ≡ i = omega arith in
    let one = (free_page_lem p (i * page_size) v).0 (
      omega arith,
      omega arith,
      ap (bm_test p.bitmap) index ∙ used i (omega arith) (omega arith),
    ) in
    let q = free_page (i * page_size) p in
    let rest =
      free_pixels-Freed n (i + 1) q (one.2 (omega arith)) (omega arith) (omega arith)
        (λ j a b. one.0 j ∙ ground (arith, index, a, b, used j)) in
    let next : i * page_size + page_size ≡ (i + 1) * page_size = omega arith in
    subst (λ a. Freed i (suc n) p (free_pixels n a q)) (sym next)
      (record { now = λ j. rest.now j ∙ ground (arith, one.0 j, index); valid = rest.valid })

-- The page that was taken last is given back.
header_back :
    (i : ℕ) (p q : Pmm)
    → ((j : ℕ)
        → bm_test q.bitmap j ≡ (if leb i j && ltb j (i + 1) then false else bm_test p.bitmap j))
    → bm_test p.bitmap i ≡ true
    → i + 1 ≤ bitmap_pages
    → 0 < i
    → IsValid q
    → ((j : ℕ) → bm_test (free_page (i * page_size) q).bitmap j ≡ bm_test p.bitmap j)
      × IsValid (free_page (i * page_size) q)
header_back i p q now was_free fits above v =
    let index : i * page_size / page_size ≡ i = omega arith in
    let freed =
      (free_page_lem q (i * page_size) v).0
        (omega arith, omega arith, ap (bm_test q.bitmap) index ∙ now i ∙ ground arith) in
    (
      λ j. ground (arith, index, freed.0 j, now j, was_free, ap (bm_test p.bitmap) {x = j} {y = i}),
      freed.2 (omega arith),
    )

-- Allocation leaves the offset of the direct map.
KeepsOffset : Pmm → Option (Pmm × ℕ) → Type 0
KeepsOffset p none = Unit
KeepsOffset p (some (p', pa)) = p'.hhdm_offset ≡ p.hhdm_offset

alloc-KeepsOffset : (f a n i : ℕ) (p : Pmm) → KeepsOffset p (alloc_pages_from f a n i p)
unfolding alloc_pages_from KeepsOffset
alloc-KeepsOffset zero a n i p = tt
alloc-KeepsOffset (suc f) a n i p = elim (Bool-cases (leb (add64 i n) bitmap_pages)) [
  | inr past ↦ rw past refl
  | inl in_map ↦ elim (Bool-cases (i % a == 0)) [
    | inr off ↦ rw (in_map, off) (alloc-KeepsOffset f a n (i - i % a + 1) p)
    | inl on ↦ elim (Bool-cases (free_run p.bitmap i n 0 == n)) [
      | inl run ↦ rw (in_map, on, run) refl
      | inr short ↦
          rw (in_map, on, short) (alloc-KeepsOffset f a n (i + free_run p.bitmap i n 0 + 1) p)
    ]
  ]
]

alloc_offset :
    (a n : ℕ) (p p' : Pmm) (pa : ℕ)
    → alloc_pages n a p ≡ some (p', pa)
    → p'.hhdm_offset ≡ p.hhdm_offset
unfolding alloc_pages KeepsOffset
alloc_offset a n p p' pa e =
    subst (KeepsOffset p) e
      (alloc-KeepsOffset (bitmap_pages + 1) (max a page_size / page_size) n 0 p)

-- A surface that was made: its two runs of pages.
pub record Made (w h : ℤ) (p p2 : Pmm) (s : Surface) : Type 0 where
  pub header_page : ℕ
  pub pixel_page : ℕ
  pub between : Pmm
  pub header : Takes p header_page 1 between
  pub pixels : Takes between pixel_page (pages_of w h) p2
  pub header_is : s.header ≡ pa_to_va p2 (header_page * page_size)
  pub pixels_are : s.pixels ≡ pa_to_va p2 (pixel_page * page_size)
  pub size : (s.w ≡ w) × (s.h ≡ h)
  pub above : (0 < header_page) × (0 < pixel_page)
  pub offset : p2.hhdm_offset ≡ p.hhdm_offset
  pub valid : IsValid p2

module _ (w h : ℤ) (p : Pmm) (v : IsValid p)
    (area : (leb_ℤ w (pos 0) || leb_ℤ h (pos 0)) ≡ false) where
  -- What `create` answers.
  pub Answers : Option (Pmm × Option Surface) → Type 0
  Answers r =
      ((p' : Pmm) × (r ≡ some (p', none))
        × ((j : ℕ) → bm_test p'.bitmap j ≡ bm_test p.bitmap j)
        × IsValid p')
      ⊎ ((p' : Pmm) × (s : Surface) × (r ≡ some (p', some s)) × Made w h p p' s)

  from_header :
      (r : RunFound 0 1 p (alloc_pages 1 page_size p))
      → 0 < pages_of w h
      → pages_of w h ≤ bitmap_pages
      → Answers (create_pixels w h (r.page * page_size) r.after)
  unfolding Answers create_pixels
  from_header r some_page few =
      elim (alloc_pages_lem r.after (pages_of w h) page_size r.valid some_page few (omega arith)) [
        | inl full ↦
            let back =
              header_back r.page p r.after r.takes.now
                (r.takes.were_free r.page (omega arith) (omega arith)) r.takes.fits r.above
                r.valid in
            inl (
              free_page (r.page * page_size) r.after,
              >>=-some (alloc_pages (pages_of w h) page_size r.after) (r.after, 0) _ full.returns,
              back.0,
              back.1,
            )
        | inr found ↦
            let nonzero : (found.page * page_size == 0) ≡ false = ground (arith, found.above) in
            inr (
              found.after,
              _,
              >>=-some (alloc_pages (pages_of w h) page_size r.after)
                    (found.after, found.page * page_size) _ found.returns
                  ∙ rw nonzero refl,
              record {
                header_page = r.page;
                pixel_page = found.page;
                between = r.after;
                header = r.takes;
                pixels = found.takes;
                header_is = refl;
                pixels_are = refl;
                size = (refl, refl);
                above = (r.above, found.above);
                offset =
                    alloc_offset page_size (pages_of w h) r.after found.after _ found.returns
                    ∙ alloc_offset page_size 1 p r.after _ r.returns;
                valid = found.valid;
              },
            )
      ]

  -- On a valid allocator `create` of a surface with an area, of at most all pages of the bitmap, ends.
  -- It answers none, and then exactly those pages are free that were free before, the page of the
  -- header among them; or a surface of that size whose header is one page and whose pixels are a run
  -- of pages, which are what it takes. The allocator stays valid.
  pub create-Answers : 0 < pages_of w h → pages_of w h ≤ bitmap_pages → Answers (create w h p)
  unfolding create Answers
  create-Answers some_page few =
      elim (alloc_pages_lem p 1 page_size v (omega arith) (omega arith) (omega arith)) [
        | inl full ↦
            inl (
              p,
              rw area (>>=-some (alloc_pages 1 page_size p) (p, 0) _ full.returns),
              λ j. refl,
              v,
            )
        | inr r ↦
            let nonzero : (r.page * page_size == 0) ≡ false = ground (arith, r.above) in
            let same : create w h p ≡ create_pixels w h (r.page * page_size) r.after = rw area (
              >>=-some (alloc_pages 1 page_size p) (r.after, r.page * page_size) _ r.returns
              ∙ rw nonzero refl) in
            subst Answers (sym same) (from_header r some_page few)
      ]

dropped :
    (w h : ℤ) (p p' : Pmm) (s : Surface)
    → Made w h p p' s
    → p.hhdm_offset < 2 ^ 64
    → ((j : ℕ) → bm_test (drop s p').bitmap j ≡ bm_test p.bitmap j) × IsValid (drop s p')
unfolding drop pa_to_va va_to_pa
dropped w h p p' s m word =
    let n = pages_of w h in
    let fits = m.pixels.fits in
    let address : sub64 s.pixels p'.hhdm_offset ≡ m.pixel_page * page_size =
      omega (arith, m.pixels_are, m.offset, fits) in
    let header_fits = m.header.fits in
    let header_address : sub64 s.header p'.hhdm_offset ≡ m.header_page * page_size =
      omega (arith, m.header_is, m.offset, header_fits) in
    let count : pages_of s.w s.h ≡ n =
      ap (λ k. pages_of k s.h) m.size.0 ∙ ap (pages_of w) m.size.1 in
    let freed =
      free_pixels-Freed n m.pixel_page p' m.valid m.above.1 fits
        (λ j a b. m.pixels.now j ∙ ground (arith, a, b)) in
    let q = free_pixels n (m.pixel_page * page_size) p' in
    let restored : (j : ℕ) → bm_test q.bitmap j ≡ bm_test m.between.bitmap j =
      λ j. ground (arith, freed.now j, m.pixels.now j, m.pixels.were_free j) in
    rw (header_address, count, address)
      (header_back m.header_page p q (λ j. restored j ∙ m.header.now j)
        (m.header.were_free m.header_page (omega arith) (omega arith)) m.header.fits m.above.0
        freed.valid)

-- For a surface with an area, of at most all pages of the bitmap, on a valid allocator whose offset of
-- the direct map is a 64-bit word: when `create` has made it, `drop` gives back its pages, so that
-- exactly those pages are free that were free before, and leaves a valid allocator.
pub drop-create :
    (w h : ℤ) (p p' : Pmm) (s : Surface)
    → IsValid p
    → (leb_ℤ w (pos 0) || leb_ℤ h (pos 0)) ≡ false
    → 0 < pages_of w h
    → pages_of w h ≤ bitmap_pages
    → p.hhdm_offset < 2 ^ 64
    → create w h p ≡ some (p', some s)
    → ((j : ℕ) → bm_test (drop s p').bitmap j ≡ bm_test p.bitmap j) × IsValid (drop s p')
unfolding Answers
drop-create w h p p' s v area some_page few word e =
    elim (create-Answers w h p v area some_page few) [
      | inl (q, none_made, same, valid) ↦
          let both = some-injective (q, none) (p', some s) (sym none_made ∙ e) in
          elim (none-ne-some s (ap (λ (r : Pmm × Option Surface). r.1) both)) [ ]
      | inr (q, s', made, m) ↦
          let both = some-injective (q, some s') (p', some s) (sym made ∙ e) in
          let same_state = ap (λ (r : Pmm × Option Surface). r.0) both in
          let same_surface = some-injective s' s (ap (λ (r : Pmm × Option Surface). r.1) both) in
          dropped w h p p' s
            (subst (λ k. Made w h p k s) same_state (subst (Made w h p q) same_surface m)) word
    ]

-- ===== src/Pmm/Init.antt =====
-- `init`: the bitmap after it, described by the bytes that each entry of the memory map covers.
use kernel_rs.Prelude.{
  ℕ, zero, suc, ◌+◌, ◌-◌, ◌*◌, ◌/◌, ◌%◌, ◌^◌, ◌<◌, ◌≤◌, ◌≡◌, refl, sym, ◌∙◌, inl, inr, Bool, true,
  false, ◌&&◌, ◌||◌, arith, ltb, leb, if◌then◌else◌, Bool-cases, List, [], ◌∷◌,
}
use kernel_rs.Prelude.Align.{page_size}
use kernel_rs.Pmm.{
  Pmm, MemmapEntry, bm_test, bitmap_pages, mark_usable, init_entry, init_entries, init, entry_start,
  entry_end, zeroed,
}
use kernel_rs.Pmm.Bitmap.{bm_test-bm_set, bm_test_zero}
use kernel_rs.Pmm.Count.{count_none, IsValid}
use kernel_rs.Pmm.Alloc.{put_page}

-- The page `j` lies in a usable entry, whole, and below the cap of 512 MiB.
abbrev pub inside : MemmapEntry → ℕ → Bool
inside e j =
    e.usable
    && leb e.base (j * page_size)
    && leb ((j + 1) * page_size) (e.base + e.len)
    && ltb j bitmap_pages

abbrev pub inside_any : List MemmapEntry → ℕ → Bool
inside_any [] j = false
inside_any (e ∷ es) j = inside e j || inside_any es j

-- What the bootloader promises: no entry reaches the end of the address space, and no page lies in
-- two usable entries.
abbrev pub NoWrap : List MemmapEntry → Type 0
NoWrap [] = Unit {0}
NoWrap (e ∷ es) = (e.base + e.len + page_size ≤ 2 ^ 64) × NoWrap es

abbrev pub Disjoint : List MemmapEntry → Type 0
Disjoint [] = Unit {0}
Disjoint (e ∷ es) = ((j : ℕ) → inside e j ≡ true → inside_any es j ≡ false) × Disjoint es

bm_test-mark_usable :
    (r pa : ℕ) (p : Pmm) (j : ℕ)
    → pa % page_size ≡ 0
    → bm_test (mark_usable r pa p).bitmap j ≡ (
        if leb pa (j * page_size) && ltb (j * page_size) (pa + r * page_size)
        then true
        else bm_test p.bitmap j)
unfolding mark_usable
bm_test-mark_usable zero pa p j al = ground arith
bm_test-mark_usable (suc r) pa p j al =
    bm_test-mark_usable r (pa + page_size) _ j (omega arith)
    ∙ ground (arith, bm_test-bm_set p.bitmap (pa / page_size) j)

-- The pages that the loop over `[start, end)` marks.
abbrev between : ℕ → ℕ → ℕ → Bool
between start end j = leb start (j * page_size) && ltb (j * page_size) end

inside_lem :
    (e : MemmapEntry) (j : ℕ)
    → e.base + e.len + page_size ≤ 2 ^ 64
    → inside e j ≡ (e.usable && between (entry_start e) (entry_end e) j)
inside_lem e j nw = ground arith

abbrev mark_span : ℕ → ℕ → Pmm → Pmm
mark_span start end p = if leb end start then p else mark_usable ((end - start) / page_size) start p

bm_test-mark_span :
    (start end : ℕ) (p : Pmm) (j : ℕ)
    → start % page_size ≡ 0
    → end % page_size ≡ 0
    → bm_test (mark_span start end p).bitmap j ≡ (between start end j || bm_test p.bitmap j)
bm_test-mark_span start end p j s_al e_al = elim (Bool-cases (leb end start)) [
  | inl empty ↦ rw empty (ground arith)
  | inr more ↦
      rw (more, bm_test-mark_usable ((end - start) / page_size) start p j s_al) (ground arith)
]

-- Marking pages that are in use keeps the invariant.
mark_usable-IsValid :
    (r pa : ℕ) (p : Pmm)
    → IsValid p
    → pa % page_size ≡ 0
    → 0 < pa
    → pa / page_size + r ≤ bitmap_pages
    → ((j : ℕ) → pa / page_size ≤ j → j < pa / page_size + r → bm_test p.bitmap j ≡ false)
    → IsValid (mark_usable r pa p)
unfolding mark_usable
mark_usable-IsValid zero pa p v al above fits used = v
mark_usable-IsValid (suc r) pa p v al above fits used =
    let i = pa / page_size in
    let put = (put_page p i v (omega arith) (used i (omega arith) (omega arith))).1 (omega arith) in
    mark_usable-IsValid r (pa + page_size) _
      (record { words = put.words; counted = put.counted; zero_used = put.zero_used }) (omega arith)
      (omega arith) (omega arith) (λ j a b. ground (arith, bm_test-bm_set p.bitmap i j, used j))

mark_span-IsValid :
    (start end : ℕ) (p : Pmm)
    → IsValid p
    → start % page_size ≡ 0
    → end % page_size ≡ 0
    → end ≤ bitmap_pages * page_size
    → (between start end 0 ≡ false)
    → ((j : ℕ) → between start end j ≡ true → bm_test p.bitmap j ≡ false)
    → IsValid (mark_span start end p)
mark_span-IsValid start end p v s_al e_al cap above used = elim (Bool-cases (leb end start)) [
  | inl empty ↦ rw empty v
  | inr more ↦ rw more (
      mark_usable-IsValid ((end - start) / page_size) start p v s_al (ground arith) (ground arith)
        (λ j a b. used j (ground arith)))
]

init_entry-IsValid :
    (e : MemmapEntry) (p : Pmm)
    → IsValid p
    → e.base + e.len + page_size ≤ 2 ^ 64
    → inside e 0 ≡ false
    → ((j : ℕ) → inside e j ≡ true → bm_test p.bitmap j ≡ false)
    → IsValid (init_entry e p)
unfolding init_entry
init_entry-IsValid e p v nw above used = elim (Bool-cases e.usable) [
  | inr bad ↦ rw bad v
  | inl good ↦ rw good (
      mark_span-IsValid (entry_start e) (entry_end e) p v (omega arith) (ground arith)
        (ground arith) (rw good at rw (inside_lem e 0 nw) at above)
        (λ j b. used j (rw (inside_lem e j nw, good) b)))
]

bm_test-init_entry :
    (e : MemmapEntry) (p : Pmm) (j : ℕ)
    → e.base + e.len + page_size ≤ 2 ^ 64
    → bm_test (init_entry e p).bitmap j ≡ (inside e j || bm_test p.bitmap j)
unfolding init_entry
bm_test-init_entry e p j nw = rw (inside_lem e j nw) (elim (Bool-cases e.usable) [
  | inr bad ↦ rw bad
  | inl good ↦
      rw good (bm_test-mark_span (entry_start e) (entry_end e) p j (omega arith) (ground arith))
])

init_entries_lem :
    (es : List MemmapEntry) (p : Pmm)
    → IsValid p
    → NoWrap es
    → Disjoint es
    → inside_any es 0 ≡ false
    → ((j : ℕ) → inside_any es j ≡ true → bm_test p.bitmap j ≡ false)
    → IsValid (init_entries es p)
      × ((j : ℕ) → bm_test (init_entries es p).bitmap j ≡ (inside_any es j || bm_test p.bitmap j))
unfolding init_entries
init_entries_lem [] p v nw dis above used = (v, λ j. refl)
init_entries_lem (e ∷ es) p v nw dis above used =
    let one = bm_test-init_entry e p in
    let rest =
      init_entries_lem es (init_entry e p)
        (init_entry-IsValid e p v nw.0 (ground arith) (λ j h. used j (ground arith))) nw.1 dis.1
        (ground arith) (λ j h. ground (arith, one j nw.0, dis.0 j, used j)) in
    (rest.0, λ j. ground (arith, rest.1 j, one j nw.0))

zeroed-IsValid : (h : ℕ) → IsValid (record zeroed { hhdm_offset = h })
zeroed-IsValid h = record {
  words = λ w. omega arith;
  counted = sym (count_none (bm_test (λ w. 0)) bitmap_pages (λ j. bm_test_zero (λ w. 0) j refl));
  zero_used = bm_test_zero (λ w. 0) 0 refl;
}

-- For a memory map whose entries reach no end of the address space and share no page, and which
-- leaves out page 0, `init` gives a valid allocator, and a page is free exactly when it lies whole
-- in a usable entry and below the cap.
pub init_lem :
    (es : List MemmapEntry) (hhdm : ℕ)
    → NoWrap es
    → Disjoint es
    → inside_any es 0 ≡ false
    → IsValid (init es hhdm) × ((j : ℕ) → bm_test (init es hhdm).bitmap j ≡ inside_any es j)
unfolding init
init_lem es hhdm nw dis above =
    let start = record zeroed { hhdm_offset = hhdm } in
    let r =
      init_entries_lem es start (zeroed-IsValid hhdm) nw dis above
        (λ j h. bm_test_zero (λ w. 0) j refl) in
    (r.0, λ j. ground (arith, r.1 j, bm_test_zero (λ w. 0) j refl))

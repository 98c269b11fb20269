-- ===== src/Pmm.antt =====
-- The physical page allocator, kernel-rs/src/mm/pmm.rs: a static bitmap, one bit for a page of
-- 4096 bytes, and two counters. The bitmap is a function of the index of its 64-bit word.
pub mod Bitmap
pub mod Count
pub mod Alloc
pub mod Run
pub mod Hang
pub mod Init
mod Tests
use Prim.Native.Nat.{bit_and, bit_or}
use kernel_rs.Prelude.{
  ℕ, zero, suc, ◌+◌, ◌-◌, ◌*◌, ◌/◌, ◌%◌, ◌^◌, max, Bool, not, ◌||◌, Option, none, some, List, [],
  ◌∷◌, update, ltb, leb, ◌==◌, if◌then◌else◌,
}
use kernel_rs.Prelude.Align.{page_size, add64, sub64, align_down}
use kernel_rs.Prelude.Bits.{clear_mask}

abbrev pub pmm_max_phys : ℕ
pmm_max_phys = 536870912

abbrev pub bitmap_pages : ℕ
bitmap_pages = 131072

abbrev pub bitmap_words : ℕ
bitmap_words = 2048

pub record Pmm : Type 0 where
  pub bitmap : ℕ → ℕ
  pub total_pages : ℕ
  pub free_pages : ℕ
  pub hhdm_offset : ℕ

-- An address is the pointer's number.
unfoldable pub pa_to_va : Pmm → ℕ → ℕ
pa_to_va p pa = add64 pa p.hhdm_offset

unfoldable pub va_to_pa : Pmm → ℕ → ℕ
va_to_pa p va = sub64 va p.hhdm_offset

unfoldable pub bm_set : (ℕ → ℕ) → ℕ → ℕ → ℕ
bm_set m i = update m (i / 64) (bit_or (m (i / 64)) (2 ^ (i % 64)))

unfoldable pub bm_clear : (ℕ → ℕ) → ℕ → ℕ → ℕ
bm_clear m i = update m (i / 64) (bit_and (m (i / 64)) (clear_mask 64 (i % 64)))

unfoldable pub bm_test : (ℕ → ℕ) → ℕ → Bool
bm_test m i = not (bit_and (m (i / 64) / 2 ^ (i % 64)) 1 == 0)

-- `u64::trailing_zeros`, at fuel 64.
unfoldable pub trailing_zeros : ℕ → ℕ → ℕ
trailing_zeros zero w = 0
trailing_zeros (suc f) w =
    let rest = suc (trailing_zeros f (w / 2)) in if w % 2 == 1 then 0 else rest

-- The loop over the words, with the rounds left and the word's index.
unfoldable pub alloc_page_from : ℕ → ℕ → Pmm → Pmm × ℕ
alloc_page_from zero w p = (p, 0)
alloc_page_from (suc r) w p =
    let word = p.bitmap w in
    let idx = w * 64 + trailing_zeros 64 word in
    let rest = alloc_page_from r (w + 1) p in
    if word == 0 then rest else (
      record p { bitmap = bm_clear p.bitmap idx; free_pages = sub64 p.free_pages 1 },
      idx * page_size,
    )

-- The page's address, and 0 when none is free.
unfoldable pub alloc_page : Pmm → Pmm × ℕ
alloc_page p = alloc_page_from bitmap_words 0 p

-- The inner loop: how far from `j` the pages `i + j` on are free, with `left` to go.
unfoldable pub free_run : (ℕ → ℕ) → ℕ → ℕ → ℕ → ℕ
free_run m i zero j = j
free_run m i (suc left) j =
    let rest = free_run m i left (j + 1) in if bm_test m (i + j) then rest else j

unfoldable pub clear_run : ℕ → ℕ → (ℕ → ℕ) → ℕ → ℕ
clear_run zero i m = m
clear_run (suc n) i m = clear_run n (i + 1) (bm_clear m i)

-- The outer loop; `none` means that the fuel ran out. `ap` is the alignment in pages.
unfoldable pub alloc_pages_from : ℕ → ℕ → ℕ → ℕ → Pmm → Option (Pmm × ℕ)
alloc_pages_from zero ap count i p = none
alloc_pages_from (suc f) ap count i p =
    let realign = alloc_pages_from f ap count (i - i % ap + 1) p in
    let j = free_run p.bitmap i count 0 in
    let skip = alloc_pages_from f ap count (i + j + 1) p in
    if leb (add64 i count) bitmap_pages
    then (if not (i % ap == 0)
        then realign
        else (if j == count
            then (some (
              record p {
                bitmap = clear_run count i p.bitmap;
                free_pages = sub64 p.free_pages count;
              },
              i * page_size,
            ))
            else skip))
    else some (p, 0)

-- One more round than there are pages.
unfoldable pub alloc_pages : ℕ → ℕ → Pmm → Option (Pmm × ℕ)
alloc_pages count align p =
    alloc_pages_from (bitmap_pages + 1) (max align page_size / page_size) count 0 p

unfoldable pub free_page : ℕ → Pmm → Pmm
free_page pa p =
    let idx = pa / page_size in
    if not (pa % page_size == 0) || leb bitmap_pages idx || bm_test p.bitmap idx
    then p
    else record p { bitmap = bm_set p.bitmap idx; free_pages = add64 p.free_pages 1 }

pub free_count : Pmm → ℕ
free_count p = p.free_pages

pub total_count : Pmm → ℕ
total_count p = p.total_pages

-- An entry of the Limine memory map; `usable` is its type test.
pub record MemmapEntry : Type 0 where
  pub base : ℕ
  pub len : ℕ
  pub usable : Bool

-- `while p < end`, with the pages left.
unfoldable pub mark_usable : ℕ → ℕ → Pmm → Pmm
mark_usable zero pa p = p
mark_usable (suc r) pa p = mark_usable r (pa + page_size) (record p {
  bitmap = bm_set p.bitmap (pa / page_size);
  free_pages = add64 p.free_pages 1;
  total_pages = add64 p.total_pages 1;
})

abbrev pub entry_start : MemmapEntry → ℕ
entry_start e = align_down (sub64 (add64 e.base page_size) 1)

abbrev pub entry_end : MemmapEntry → ℕ
entry_end e =
    let end = align_down (add64 e.base e.len) in if ltb pmm_max_phys end then pmm_max_phys else end

unfoldable pub init_entry : MemmapEntry → Pmm → Pmm
init_entry e p =
    if not e.usable
    then p
    else (if leb (entry_end e) (entry_start e)
        then p
        else mark_usable ((entry_end e - entry_start e) / page_size) (entry_start e) p)

unfoldable pub init_entries : List MemmapEntry → Pmm → Pmm
init_entries [] p = p
init_entries (e ∷ es) p = init_entries es (init_entry e p)

-- The zeroed statics before `init`.
abbrev pub zeroed : Pmm
zeroed = record { bitmap = λ w. 0; total_pages = 0; free_pages = 0; hhdm_offset = 0 }

-- The bootloader's answers are the arguments; without them the code halts.
unfoldable pub init : List MemmapEntry → ℕ → Pmm
init es hhdm = init_entries es (record zeroed { hhdm_offset = hhdm })

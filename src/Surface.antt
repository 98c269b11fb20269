-- ===== src/Surface.antt =====
-- Surfaces, kernel-rs/src/gui/surface.rs: the memory of one, clipping to it, and filling and copying
-- of rectangles. Pixels are a function of their index in the surface's memory.
pub mod Axis
pub mod Pixels
pub mod Memory
mod Tests
use kernel_rs.Prelude.{
  ◌>>=◌, ℕ, zero, suc, ◌+◌, ◌-◌, ◌*◌, ◌/◌, ◌%◌, ◌^◌, Bool, true, false, ◌&&◌, ◌||◌, Option, none,
  some, update, leb, ltb, ◌==◌, if◌then◌else◌,
}
use kernel_rs.Prelude.Align.{page_size}
use kernel_rs.Prelude.Int.{ℤ, pos, pos_part, ltb_ℤ, leb_ℤ}
use kernel_rs.Prelude.Signed.{add_i32, sub_i32}
use kernel_rs.Pmm
use kernel_rs.Pmm.{Pmm}
use kernel_rs.Dirty.{Rect}

-- `header` is the virtual address of the structure itself, `pixels` that of the first pixel.
pub record Surface : Type 0 where
  pub w : ℤ
  pub h : ℤ
  pub header : ℕ
  pub pixels : ℕ

-- How many pages the pixels take.
abbrev pub pages_of : ℤ → ℤ → ℕ
pages_of w h = (pos_part w * pos_part h * 4 + (page_size - 1)) / page_size

-- The second half of `create`: the pixels, after the page at `hdr_pa` for the structure.
unfoldable pub create_pixels : ℤ → ℤ → ℕ → Pmm → Option (Pmm × Option Surface)
create_pixels w h hdr_pa p1 = do
  (p2, px_pa) ← Pmm.alloc_pages (pages_of w h) page_size p1
  if px_pa == 0
      then some (Pmm.free_page hdr_pa p2, none)
      else some (
        p2,
        some (record {
          w = w;
          h = h;
          header = Pmm.pa_to_va p2 hdr_pa;
          pixels = Pmm.pa_to_va p2 px_pa;
        }),
      )

-- `none` outside is the fuel of `alloc_pages`.
unfoldable pub create : ℤ → ℤ → Pmm → Option (Pmm × Option Surface)
create w h p = if leb_ℤ w (pos 0) || leb_ℤ h (pos 0) then some (p, none) else (do
  (p1, hdr_pa) ← Pmm.alloc_pages 1 page_size p
  if hdr_pa == 0 then some (p1, none) else create_pixels w h hdr_pa p1)

-- The loop of `drop` over the pages of the pixels, with the rounds left.
unfoldable pub free_pixels : ℕ → ℕ → Pmm → Pmm
free_pixels zero pa p = p
free_pixels (suc n) pa p = free_pixels n (pa + page_size) (Pmm.free_page pa p)

unfoldable pub drop : Surface → Pmm → Pmm
drop s p =
    Pmm.free_page (Pmm.va_to_pa p s.header)
      (free_pixels (pages_of s.w s.h) (Pmm.va_to_pa p s.pixels) p)

-- A surface's size and its pixels.
pub record Image : Type 0 where
  pub w : ℤ
  pub h : ℤ
  pub at : ℕ → ℕ

-- One end of a rectangle on one axis: a negative start is moved to 0 and the size shortened by as much.
abbrev pub clip_start : ℤ → ℤ → ℤ × ℤ
clip_start a size = if ltb_ℤ a (pos 0) then (pos 0, add_i32 size a) else (a, size)

abbrev pub clip_end : ℤ → ℤ → ℤ → ℤ
clip_end bound a size = if ltb_ℤ bound (add_i32 a size) then sub_i32 bound a else size

-- `none` when nothing is left.
unfoldable pub clip_to_surface : Image → Rect → Option Rect
clip_to_surface s q =
    let (x, w) = clip_start q.x q.w in
    let (y, h) = clip_start q.y q.h in
    let w' = clip_end s.w x w in
    let h' = clip_end s.h y h in
    if ltb_ℤ (pos 0) w' && ltb_ℤ (pos 0) h'
    then some (record { x = x; y = y; w = w'; h = h' })
    else none

-- `n as usize` of an index that is computed in `i32`: one that wraps to a negative number is extended.
abbrev pub pixel_index : ℕ → ℕ
pixel_index n = if ltb (n % 2 ^ 32) (2 ^ 31) then n % 2 ^ 32 else 2 ^ 64 - 2 ^ 32 + n % 2 ^ 32

-- The loop over a row, from the index `k` on.
unfoldable pub fill_row : ℕ → ℕ → ℕ → (ℕ → ℕ) → ℕ → ℕ
fill_row zero k color px = px
fill_row (suc n) k color px = fill_row n (k + 1) color (update px (pixel_index k) color)

-- The loop over the rows, from the row `y` on.
unfoldable pub fill_rows : ℕ → ℕ → ℕ → ℕ → ℕ → ℕ → (ℕ → ℕ) → ℕ → ℕ
fill_rows zero y stride x n color px = px
fill_rows (suc rows) y stride x n color px =
    fill_rows rows (y + 1) stride x n color (fill_row n (y * stride + x) color px)

unfoldable pub fill_rect : Image → Rect → ℕ → Image
fill_rect s q color = elim (clip_to_surface s q) [
  | none ↦ s
  | some r ↦ record s {
    at =
        fill_rows (pos_part r.h) (pos_part r.y) (pos_part s.w) (pos_part r.x) (pos_part r.w) color
          s.at;
  }
]

-- A copy of `n` pixels.
abbrev pub copy_row : ℕ → ℕ → ℕ → (ℕ → ℕ) → (ℕ → ℕ) → ℕ → ℕ
copy_row n to from src px k = if leb to k && ltb k (to + n) then src (from + (k - to)) else px k

unfoldable pub copy_rows : ℕ → ℕ → ℕ → ℕ → ℕ → ℕ → ℕ → (ℕ → ℕ) → (ℕ → ℕ) → ℕ → ℕ
copy_rows zero n to to_stride from from_stride y src px = px
copy_rows (suc rows) n to to_stride from from_stride y src px =
    copy_rows rows n to to_stride from from_stride (y + 1) src
      (copy_row n (pixel_index (to + y * to_stride)) (pixel_index (from + y * from_stride)) src px)

unfoldable pub blit : Image → ℤ → ℤ → Image → Image
blit dst dx dy src = elim (clip_to_surface dst (record { x = dx; y = dy; w = src.w; h = src.h })) [
  | none ↦ dst
  | some r ↦
      let sx = sub_i32 r.x dx in
      let sy = sub_i32 r.y dy in
      record dst {
        at =
            copy_rows (pos_part r.h) (pos_part r.w) (pos_part r.y * pos_part dst.w + pos_part r.x)
              (pos_part dst.w) (pos_part sy * pos_part src.w + pos_part sx) (pos_part src.w) 0
              src.at dst.at;
      }
]

-- ===== src/Dirty.antt =====
-- The dirty region of the compositor, kernel-rs/src/gui/dirty.rs: at most 16 rectangles of damage,
-- clipped to the screen. Coordinates are `i32` values; the array is a function of the index, of which
-- the first `n` are live.
pub mod Rects
pub mod Clip
pub mod Merge
pub mod Add
mod Tests
use kernel_rs.Prelude.{
  ℕ, zero, suc, ◌+◌, ◌-◌, Bool, true, false, not, ◌&&◌, Option, none, some, List, [], ◌∷◌, update,
  ltb, leb, ◌==◌, if◌then◌else◌, min,
}
use kernel_rs.Prelude.Int.{ℤ, pos, ltb_ℤ, leb_ℤ, min_ℤ, max_ℤ}
use kernel_rs.Prelude.Signed.{add_i32, sub_i32}

abbrev pub dirty_max_rects : ℕ
dirty_max_rects = 16

-- kernel-rs/src/gui/surface.rs.
pub record Rect : Type 0 where
  pub x : ℤ
  pub y : ℤ
  pub w : ℤ
  pub h : ℤ

pub record DirtyRegion : Type 0 where
  pub r : ℕ → Rect
  pub n : ℕ
  pub bw : ℤ
  pub bh : ℤ

abbrev pub new : DirtyRegion
new = record {
  r = λ i. record { x = pos 0; y = pos 0; w = pos 0; h = pos 0 };
  n = 0;
  bw = pos 0;
  bh = pos 0;
}

unfoldable pub init : DirtyRegion → ℤ → ℤ → DirtyRegion
init d bounds_w bounds_h = record d { n = 0; bw = bounds_w; bh = bounds_h }

unfoldable pub clear : DirtyRegion → DirtyRegion
clear d = record d { n = 0 }

pub empty : DirtyRegion → Bool
empty d = d.n == 0

abbrev pub clamp_low : ℤ → ℤ
clamp_low a = if ltb_ℤ a (pos 0) then pos 0 else a

abbrev pub clamp_high : ℤ → ℤ → ℤ
clamp_high bound a = if ltb_ℤ bound a then bound else a

-- `none` when nothing of the rectangle is on the screen.
unfoldable pub clip : DirtyRegion → Rect → Option Rect
clip d q =
    let x' = clamp_low q.x in
    let y' = clamp_low q.y in
    let w' = sub_i32 (clamp_high d.bw (add_i32 q.x q.w)) x' in
    let h' = sub_i32 (clamp_high d.bh (add_i32 q.y q.h)) y' in
    if ltb_ℤ (pos 0) w' && ltb_ℤ (pos 0) h'
    then some (record { x = x'; y = y'; w = w'; h = h' })
    else none

unfoldable pub union : Rect → Rect → Rect
union a b =
    let x0 = min_ℤ a.x b.x in
    let y0 = min_ℤ a.y b.y in
    let x1 = max_ℤ (add_i32 a.x a.w) (add_i32 b.x b.w) in
    let y1 = max_ℤ (add_i32 a.y a.h) (add_i32 b.y b.h) in
    record { x = x0; y = y0; w = sub_i32 x1 x0; h = sub_i32 y1 y0 }

-- Overlapping or touching at an edge.
unfoldable pub touching : Rect → Rect → Bool
touching a b =
    leb_ℤ a.x (add_i32 b.x b.w)
    && leb_ℤ b.x (add_i32 a.x a.w)
    && leb_ℤ a.y (add_i32 b.y b.h)
    && leb_ℤ b.y (add_i32 a.y a.h)

-- The first loop of `add`, at the index `i`, on fuel; `none` means that the fuel ran out.
unfoldable pub merge_from : ℕ → DirtyRegion → ℕ → Rect → Option (DirtyRegion × Rect)
merge_from zero d i q = none
merge_from (suc f) d i q =
    let last = d.n - 1 in
    let merged =
      merge_from f (record d { r = update d.r i (d.r last); n = last }) 0 (union (d.r i) q) in
    let pass = merge_from f d (i + 1) q in
    if ltb i d.n then (if touching (d.r i) q then merged else pass) else some (d, q)

-- The bounding box of `q` and the rectangles from `i` on, with the rounds left.
unfoldable pub collapse : ℕ → ℕ → (ℕ → Rect) → Rect → Rect
collapse zero i r q = q
collapse (suc k) i r q = collapse k (i + 1) r (union (r i) q)

unfoldable pub store : DirtyRegion → Rect → DirtyRegion
store d q =
    if ltb d.n dirty_max_rects
    then record d { r = update d.r d.n q; n = d.n + 1 }
    else record d { r = update d.r 0 (collapse d.n 0 d.r q); n = 1 }

-- More rounds than 17 for each rectangle and one more.
abbrev pub merge_fuel : ℕ
merge_fuel = 290

unfoldable pub add : DirtyRegion → Rect → Option DirtyRegion
add d q = elim (clip d q) [
  | none ↦ some d
  | some q' ↦ elim (merge_from merge_fuel d 0 q') [
    | none ↦ none
    | some (d', q'') ↦ some (store d' q'')
  ]
]

unfoldable pub add_xywh : DirtyRegion → ℤ → ℤ → ℤ → ℤ → Option DirtyRegion
add_xywh d x y w h = add d (record { x = x; y = y; w = w; h = h })

unfoldable pub add_all : DirtyRegion → DirtyRegion
add_all d = record d {
  n = 1;
  r = update d.r 0 (record { x = pos 0; y = pos 0; w = d.bw; h = d.bh });
}

pub rects_from : ℕ → ℕ → (ℕ → Rect) → List Rect
rects_from zero i r = []
rects_from (suc k) i r = r i ∷ rects_from k (i + 1) r

-- The rectangles copied to a slice of `len`.
unfoldable pub flush : DirtyRegion → ℕ → DirtyRegion × List Rect
flush d len = (record d { n = 0 }, rects_from (min d.n len) 0 d.r)

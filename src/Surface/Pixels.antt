-- ===== src/Surface/Pixels.antt =====
-- Which pixels `fill_rect` of kernel-rs/src/gui/surface.rs changes.
use native.Mathlib.Nat.{mul-le-mul_right, le_trans}
use kernel_rs.Prelude.{
  ℕ, zero, suc, ◌+◌, ◌*◌, ◌<◌, ◌≤◌, ◌≡◌, refl, sym, ◌∙◌, ap, subst, inl, inr, Bool, true, false,
  ◌&&◌, none, some, update, ltb, leb, ◌==◌, if◌then◌else◌, arith, Bool-cases, ==_iff,
}
use kernel_rs.Prelude.Int.{ℤ, pos, negsuc, pos_part, ltb_ℤ}
use kernel_rs.Dirty.{Rect}
use kernel_rs.Dirty.Clip.{Sane}
use kernel_rs.Surface.{
  Image, pixel_index, clip_start, clip_end, clip_to_surface, fill_row, fill_rows, fill_rect,
}
use kernel_rs.Surface.Axis.{in_axis, in_rect, axis_Left}

exact_index : (k : ℕ) → k < 2147483648 → pixel_index k ≡ k
exact_index k small = ground (arith, small)

-- What a row of writes leaves.
fill_row_lem :
    (n k color : ℕ) (px : ℕ → ℕ) (j : ℕ)
    → k + n ≤ 2147483648
    → fill_row n k color px j ≡ (if leb k j && ltb j (k + n) then color else px j)
unfolding fill_row
fill_row_lem zero k color px j small = ground arith
fill_row_lem (suc n) k color px j small =
    rw (exact_index k (omega (arith, small)))
      (fill_row_lem n (k + 1) color (update px k color) j (omega (arith, small)) ∙ ground arith)

-- The row `y` of `n` from `x` on, as indices.
in_row :
    (y py stride x n c : ℕ)
    → x + n ≤ stride
    → c < stride
    → (leb (y * stride + x) (py * stride + c) && ltb (py * stride + c) (y * stride + x + n))
      ≡ (py == y && (leb x c && ltb c (x + n)))
in_row y py stride x n c fits small = elim (Bool-cases (py == y)) [
  | inl same ↦ rw ((==_iff py y).0 same) (ground arith)
  | inr other ↦ elim (Bool-cases (ltb py y)) [
    | inl above ↦
        let step : (py + 1) * stride ≤ y * stride =
          mul-le-mul_right stride (ground (arith, above)) in
        ground (arith, other, step)
    | inr below ↦
        let step : (y + 1) * stride ≤ py * stride =
          mul-le-mul_right stride (ground (arith, below, other)) in
        ground (arith, other, step)
  ]
]

-- The rows from `y` on end where the next one starts.
row_end :
    (rows y stride x n : ℕ)
    → x + n ≤ stride
    → (y + suc rows) * stride ≤ 2147483648
    → y * stride + x + n ≤ 2147483648
row_end rows y stride x n fits small =
    let row : (y + 1) * stride ≤ (y + suc rows) * stride = mul-le-mul_right stride (omega arith) in
    omega (arith, row, fits, small)

fill_rows_lem :
    (rows y stride x n color : ℕ) (px : ℕ → ℕ) (py c : ℕ)
    → x + n ≤ stride
    → (y + rows) * stride ≤ 2147483648
    → c < stride
    → fill_rows rows y stride x n color px (py * stride + c) ≡ (
        if (leb x c && ltb c (x + n)) && (leb y py && ltb py (y + rows))
        then color
        else px (py * stride + c))
unfolding fill_rows
fill_rows_lem zero y stride x n color px py c fits small in_width = ground arith
fill_rows_lem (suc rows) y stride x n color px py c fits small in_width =
    fill_rows_lem rows (y + 1) stride x n color (fill_row n (y * stride + x) color px) py c fits
      (subst (λ m. m * stride ≤ 2147483648) (omega arith) small) in_width
    ∙ rw
        (
          fill_row_lem n (y * stride + x) color px (py * stride + c)
              (row_end rows y stride x n fits small),
          in_row y py stride x n c fits in_width,
        )
        (ground arith)

fill_rows_beyond :
    (rows y stride x n color : ℕ) (px : ℕ → ℕ) (k : ℕ)
    → x + n ≤ stride
    → (y + rows) * stride ≤ 2147483648
    → (y + rows) * stride ≤ k
    → fill_rows rows y stride x n color px k ≡ px k
unfolding fill_rows
fill_rows_beyond zero y stride x n color px k fits small beyond = refl
fill_rows_beyond (suc rows) y stride x n color px k fits small beyond =
    let row : (y + 1) * stride ≤ (y + suc rows) * stride = mul-le-mul_right stride (omega arith) in
    let rest : (y + 1 + rows) * stride ≤ k = subst (λ m. m * stride ≤ k) (omega arith) beyond in
    fill_rows_beyond rows (y + 1) stride x n color (fill_row n (y * stride + x) color px) k fits
      (subst (λ m. m * stride ≤ 2147483648) (omega arith) small) rest
    ∙ fill_row_lem n (y * stride + x) color px k (row_end rows y stride x n fits small)
    ∙ ground (arith, row, beyond)

-- The end that clipping leaves of an axis.
abbrev end_of : ℤ → ℤ → ℤ → ℤ
end_of bound a w = clip_end bound (clip_start a w).0 (clip_start a w).1

clip_none :
    (s : Image) (q : Rect)
    → (ltb_ℤ (pos 0) (end_of s.w q.x q.w) && ltb_ℤ (pos 0) (end_of s.h q.y q.h)) ≡ false
    → clip_to_surface s q ≡ none
unfolding clip_to_surface
clip_none s q e = rw (clip_to_surface, e) refl

clip_some :
    (s : Image) (q : Rect)
    → (ltb_ℤ (pos 0) (end_of s.w q.x q.w) && ltb_ℤ (pos 0) (end_of s.h q.y q.h)) ≡ true
    → clip_to_surface s q
      ≡ some (record {
        x = (clip_start q.x q.w).0;
        y = (clip_start q.y q.h).0;
        w = end_of s.w q.x q.w;
        h = end_of s.h q.y q.h;
      })
unfolding clip_to_surface
clip_some s q e = rw (clip_to_surface, e) refl

no_size :
    (low : ℕ) (n : ℤ) (p : ℕ)
    → ltb_ℤ (pos 0) n ≡ false
    → (leb low p && ltb p (low + pos_part n)) ≡ false
no_size low (pos n) p h = ground (arith, h)
no_size low (negsuc n) p h = ground arith

and_false : (b : Bool) → (b && false) ≡ false
and_false true = refl
and_false false = refl

-- A surface of `width` by `height`.
abbrev pub image : ℕ → ℕ → (ℕ → ℕ) → Image
image width height px = record { w = pos width; h = pos height; at = px }

-- What filling a rectangle leaves of the pixels.
pub record Filled (width height : ℕ) (px : ℕ → ℕ) (q : Rect) (color : ℕ) (px' : ℕ → ℕ)
    : Type 0 where
  pub inside :
      (x y : ℕ)
      → x < width
      → y < height
      → px' (y * width + x) ≡ (if in_rect q x y then color else px (y * width + x))
  pub beyond : (k : ℕ) → height * width ≤ k → px' k ≡ px k

module _ (width height : ℕ) (w_fits : width < 2147483648) (h_fits : height < 2147483648)
    (all_fit : height * width ≤ 2147483648) where
  filled_at : Rect → (ℕ → ℕ) → ℕ → ℕ → ℕ
  filled_at q px color =
      fill_rows (pos_part (end_of (pos height) q.y q.h)) (pos_part (clip_start q.y q.h).0) width
        (pos_part (clip_start q.x q.w).0) (pos_part (end_of (pos width) q.x q.w)) color px

  filled_at-Filled :
      (px : ℕ → ℕ) (q : Rect) (color : ℕ)
      → Sane q
      → (ltb_ℤ (pos 0) (end_of (pos width) q.x q.w) && ltb_ℤ (pos 0) (end_of (pos height) q.y q.h))
        ≡ true
      → Filled width height px q color (filled_at q px color)
  unfolding filled_at
  filled_at-Filled px q color sane some_area =
      let across = axis_Left q.x q.w width w_fits sane.across in
      let down = axis_Left q.y q.h height h_fits sane.down in
      let wide = across.within (ground (arith, some_area)) in
      let tall = down.within (ground (arith, some_area)) in
      let rows_fit = le_trans (mul-le-mul_right width tall) all_fit in
      let start_x = ap pos_part across.start_is in
      let start_y = ap pos_part down.start_is in
      rw (start_x, start_y)
        (record {
          inside = λ x y lx ly.
              fill_rows_lem (pos_part (end_of (pos height) q.y q.h)) down.low width across.low
                (pos_part (end_of (pos width) q.x q.w)) color px y x wide rows_fit lx
              ∙ rw (across.same x lx, down.same y ly) refl;
          beyond = λ k h.
              fill_rows_beyond (pos_part (end_of (pos height) q.y q.h)) down.low width across.low
                (pos_part (end_of (pos width) q.x q.w)) color px k wide rows_fit
                (le_trans (mul-le-mul_right width tall) h);
        })

  nothing-Filled :
      (px : ℕ → ℕ) (q : Rect) (color : ℕ)
      → Sane q
      → (ltb_ℤ (pos 0) (end_of (pos width) q.x q.w) && ltb_ℤ (pos 0) (end_of (pos height) q.y q.h))
        ≡ false
      → Filled width height px q color px
  nothing-Filled px q color sane no_area =
      let across = axis_Left q.x q.w width w_fits sane.across in
      let down = axis_Left q.y q.h height h_fits sane.down in
      record {
        inside = λ x y lx ly.
            let outside : in_rect q x y ≡ false =
              elim (Bool-cases (ltb_ℤ (pos 0) (end_of (pos width) q.x q.w))) [
                | inr narrow ↦
                    let miss = across.same x lx ∙ no_size across.low _ x narrow in
                    ap (λ b. b && in_axis q.y q.h y) miss
                | inl wide ↦
                    let flat =
                      ap (λ b. b && ltb_ℤ (pos 0) (end_of (pos height) q.y q.h)) (sym wide)
                      ∙ no_area in
                    let miss = down.same y ly ∙ no_size down.low _ y flat in
                    ap (λ b. in_axis q.x q.w x && b) miss ∙ and_false (in_axis q.x q.w x)
              ] in
            ap (λ b. if b then color else px (y * width + x)) (sym outside);
        beyond = λ k h. refl;
      }

  -- For a surface of at most 2^31 pixels and a rectangle of any position whose size is not negative and whose ends are `i32`
  -- values, `fill_rect` gives the colour to exactly the pixels of the surface that lie in the
  -- rectangle, leaves every other pixel, and writes nothing outside of the surface's memory.
  pub fill_rect-Filled :
      (px : ℕ → ℕ) (q : Rect) (color : ℕ)
      → Sane q
      → Filled width height px q color (fill_rect (image width height px) q color).at
  unfolding fill_rect filled_at
  fill_rect-Filled px q color sane =
      let s = image width height px in
      elim (Bool-cases (
        ltb_ℤ (pos 0) (end_of (pos width) q.x q.w)
        && ltb_ℤ (pos 0) (end_of (pos height) q.y q.h))) [
          | inl area ↦ rw (fill_rect, clip_some s q area) (filled_at-Filled px q color sane area)
          | inr no_area ↦
              rw (fill_rect, clip_none s q no_area) (nothing-Filled px q color sane no_area)
        ]

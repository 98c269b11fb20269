-- ===== src/Wm/Drag.antt =====
-- A window that follows the mouse: where it can go, and what is damaged.
use kernel_rs.Prelude.{
  >>=-some, ◌>>=◌, ℕ, ◌<◌, ◌≤◌, ◌≡◌, ◌≢◌, refl, sym, ◌∙◌, ap, subst, ◌⊎◌, inl, inr, true, false,
  some, update, if◌then◌else◌, arith, Bool-cases,
}
use kernel_rs.Prelude.Int.{ℤ, pos, ◌+ℤ◌, ◌-ℤ◌, ◌≤ℤ◌, +ℤ_parts, -ℤ_parts, eq_of_parts}
use kernel_rs.Prelude.Signed.{sub_i32, add_i32, add_i32_exact, sub_i32_exact}
use kernel_rs.Dirty.Rects.{Inside}
use kernel_rs.Dirty.Merge
use kernel_rs.Dirty.Merge.{Covered}
use kernel_rs.Wm.{
  Wm, GuiWindow, window_rect_screen, damage, set_win, clamp_between, drag_x, drag_y, moved, drag,
  stays,
}
use kernel_rs.Wm.Places.{InPlace, Small, damage-Damaged, window_rect_screen-Sane}

clamp_between_lem :
    (low high a : ℤ)
    → low ≤ℤ high
    → (low ≤ℤ clamp_between low high a) × (clamp_between low high a ≤ℤ high)
unfolding clamp_between
clamp_between_lem low high a h = ground arith

-- Forty pixels of the window are on the screen across, and its title bar is down to twenty.
pub record InReach (sw sh : ℕ) (win : GuiWindow) : Type 0 where
  pub left : pos 40 ≤ℤ win.x +ℤ win.w
  pub right : win.x +ℤ pos 40 ≤ℤ pos sw
  pub top : pos 20 ≤ℤ win.y
  pub bottom : win.y +ℤ pos 20 ≤ℤ pos sh

module _ (sw sh : ℕ) (wide : 80 ≤ sw) (sw_fits : sw ≤ 1048576) (high : 40 ≤ sh)
    (sh_fits : sh ≤ 1048576) where
  drag_x_lem :
      (w : GuiWindow) (x : ℤ)
      → Small w.w
      → (pos 40 ≤ℤ drag_x sw w x +ℤ w.w) × (drag_x sw w x +ℤ pos 40 ≤ℤ pos sw)
  unfolding drag_x
  drag_x_lem w x small =
      let minus : sub_i32 (pos 0) w.w ≡ pos 0 -ℤ w.w =
        sub_i32_exact (pos 0) w.w
          (omega (arith, -ℤ_parts, small), omega (arith, -ℤ_parts, small)) in
      let least : add_i32 (pos 0 -ℤ w.w) (pos 40) ≡ (pos 0 -ℤ w.w) +ℤ pos 40 =
        add_i32_exact (pos 0 -ℤ w.w) (pos 40)
          (omega (arith, -ℤ_parts, +ℤ_parts, small), omega (arith, -ℤ_parts, +ℤ_parts, small)) in
      let most : sub_i32 (pos sw) (pos 40) ≡ pos sw -ℤ pos 40 =
        sub_i32_exact (pos sw) (pos 40) (omega (arith, -ℤ_parts), omega (arith, -ℤ_parts)) in
      let low = (pos 0 -ℤ w.w) +ℤ pos 40 in
      let high = pos sw -ℤ pos 40 in
      let between = clamp_between_lem low high x (omega (arith, -ℤ_parts, +ℤ_parts, small)) in
      rw (minus, least, most)
        (omega (arith, -ℤ_parts, +ℤ_parts, between), omega (arith, -ℤ_parts, +ℤ_parts, between))

  drag_y_lem : (y : ℤ) → (pos 20 ≤ℤ drag_y sh y) × (drag_y sh y +ℤ pos 20 ≤ℤ pos sh)
  unfolding drag_y
  drag_y_lem y =
      let most : sub_i32 (pos sh) (pos 20) ≡ pos sh -ℤ pos 20 =
        sub_i32_exact (pos sh) (pos 20) (omega (arith, -ℤ_parts), omega (arith, -ℤ_parts)) in
      let between = clamp_between_lem (pos 20) (pos sh -ℤ pos 20) y (omega (arith, -ℤ_parts)) in
      rw most (omega (arith, between), omega (arith, -ℤ_parts, +ℤ_parts, between))

  -- What a step of a drag leaves.
  pub record Dragged (i : ℕ) (g g' : Wm) : Type 0 where
    pub at : GuiWindow
    pub windows : g'.wins ≡ update g.wins i at
    pub same : at ≡ record (g.wins i) { x = at.x; y = at.y }
    pub reach : InReach sw sh at
    pub place : InPlace at
    pub dirty : Merge.IsValid sw sh g'.dirty
    pub keeps : (px py : ℕ) → Covered g.dirty px py → Covered g'.dirty px py
    pub damaged :
        (at.x ≢ (g.wins i).x) ⊎ (at.y ≢ (g.wins i).y)
        → (px py : ℕ) → px < sw
        → py < sh
        → Inside (window_rect_screen (g.wins i)) px py ⊎ Inside (window_rect_screen at) px py
        → Covered g'.dirty px py
    pub focused_idx : g'.focused_idx ≡ g.focused_idx
    pub drag_win : g'.drag_win ≡ g.drag_win
    pub route_vt : g'.route_vt ≡ g.route_vt

  -- The window's new place, wherever the mouse is.
  dragged : (w : GuiWindow) (x y : ℤ) → GuiWindow
  dragged w x y = record w { x = drag_x sw w x; y = drag_y sh y }

  dragged-InReach : (w : GuiWindow) (x y : ℤ) → InPlace w → InReach sw sh (dragged w x y)
  unfolding dragged
  dragged-InReach w x y place =
      let across = drag_x_lem w x place.w in
      let down = drag_y_lem y in
      record { left = across.0; right = across.1; top = down.0; bottom = down.1 }

  dragged-InPlace : (w : GuiWindow) (x y : ℤ) → InPlace w → InPlace (dragged w x y)
  unfolding dragged
  dragged-InPlace w x y place =
      let across = drag_x_lem w x place.w in
      let down = drag_y_lem y in
      record {
        x = (omega (arith, across, place.w, +ℤ_parts), omega (arith, across, place.w, +ℤ_parts));
        y = (omega (arith, down, +ℤ_parts), omega (arith, down, +ℤ_parts));
        w = place.w;
        h = place.h;
      }

  moved-stays : (old w : GuiWindow) (g : Wm) → stays old w ≡ true → moved old w g ≡ some g
  unfolding moved
  moved-stays old w g e =
      ap
        (λ b.
          if b
          then some g
          else (do g' ← damage (window_rect_screen old) g; damage (window_rect_screen w) g'))
        e

  moved-damage :
      (old w : GuiWindow) (g g1 g2 : Wm)
      → stays old w ≡ false
      → damage (window_rect_screen old) g ≡ some g1
      → damage (window_rect_screen w) g1 ≡ some g2
      → moved old w g ≡ some g2
  unfolding moved
  moved-damage old w g g1 g2 e a b =
      ap
        (λ b.
          if b
          then some g
          else (do g' ← damage (window_rect_screen old) g; damage (window_rect_screen w) g'))
        e
      ∙ >>=-some (damage (window_rect_screen old) g) g1 (λ g'. damage (window_rect_screen w) g') a
      ∙ b

  stays_lem : (old w : GuiWindow) → stays old w ≡ true → (w.x ≡ old.x) × (w.y ≡ old.y)
  stays_lem old w e =
      (eq_of_parts w.x old.x (ground (arith, e)), eq_of_parts w.y old.y (ground (arith, e)))

  -- On a screen of at least 80 by 40 and at most 2^20 by 2^20 pixels, with a valid damage region and
  -- window sizes and positions of at most 2^20, wherever the mouse is: a step of a drag ends and
  -- changes nothing of any window but the position of the dragged one, of which 40 pixels stay on the
  -- screen across and the top stays between its title bar's height and 20 pixels above the bottom. If
  -- it has moved, every pixel of the screen in its old and in its new footprint is damaged; and what
  -- was damaged before stays so.
  pub drag-Dragged :
      (i : ℕ) (mx my : ℤ) (g : Wm)
      → Merge.IsValid sw sh g.dirty
      → InPlace (g.wins i)
      → (g' : Wm) × (drag sw sh i mx my g ≡ some g') × Dragged i g g'
  unfolding drag dragged
  drag-Dragged i mx my g valid place =
      let old = g.wins i in
      let x = sub_i32 mx g.drag_offx in
      let y = sub_i32 my g.drag_offy in
      let w = dragged old x y in
      let g0 = set_win i w g in
      elim (Bool-cases (stays old w)) [
        | inl still ↦ (
          g0,
          moved-stays old w g0 still,
          record {
            at = w;
            windows = refl;
            same = refl;
            reach = dragged-InReach old x y place;
            place = dragged-InPlace old x y place;
            dirty = valid;
            keeps = λ px py c. c;
            damaged = λ differs.
                let (same_x, same_y) = stays_lem old w still in
                elim differs [
                  | inl no_x ↦ elim (no_x same_x) [ ]
                  | inr no_y ↦ elim (no_y same_y) [ ]
                ];
            focused_idx = refl;
            drag_win = refl;
            route_vt = refl;
          },
        )
        | inr away ↦
            let (g1, e1, first) =
              damage-Damaged sw sh (omega arith) (omega arith) (window_rect_screen old) g0 valid
                (window_rect_screen-Sane old place) in
            let place' = dragged-InPlace old x y place in
            let valid' : Merge.IsValid sw sh g1.dirty =
              subst (λ (k : Wm). Merge.IsValid sw sh k.dirty) (sym first.is) first.added.valid in
            let (g2, e2, second) =
              damage-Damaged sw sh (omega arith) (omega arith) (window_rect_screen w) g1 valid'
                (window_rect_screen-Sane w place') in
            let is : g2 ≡ record g0 { dirty = second.region } =
              second.is ∙ ap (λ (k : Wm). record k { dirty = second.region }) first.is in
            let kept : (px py : ℕ) → Covered first.region px py → Covered second.region px py =
              λ px py c.
                second.added.keeps px py
                  (subst (λ (k : Wm). Covered k.dirty px py) (sym first.is) c) in
            (
              g2,
              moved-damage old w g0 g1 g2 away e1 e2,
              subst (Dragged i g) (sym is) (record {
                at = w;
                windows = refl;
                same = refl;
                reach = dragged-InReach old x y place;
                place = dragged-InPlace old x y place;
                dirty = second.added.valid;
                keeps = λ px py c. kept px py (first.added.keeps px py c);
                damaged = λ differs px py lx ly inside. elim inside [
                  | inl before ↦ kept px py (first.added.covers px py lx ly before)
                  | inr after ↦ second.added.covers px py lx ly after
                ];
                focused_idx = refl;
                drag_win = refl;
                route_vt = refl;
              }),
            )
      ]

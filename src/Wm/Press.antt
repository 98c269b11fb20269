-- ===== src/Wm/Press.antt =====
-- What a left press on a window does.
use kernel_rs.Prelude.{
  >>=-some, ℕ, ◌<◌, ◌≡◌, ◌≢◌, refl, sym, ◌∙◌, ap, Bool, true, false, some, ◌==◌, arith,
}
use kernel_rs.Prelude.Int.{ℤ, ltb_ℤ}
use kernel_rs.Dirty.Merge
use kernel_rs.Dirty.Merge.{Covered}
use kernel_rs.Wm.{Wm, take_focus, give_focus, grab, grab_if, routed, press}
use kernel_rs.Wm.Places.{Recoloured, Recoloured-InPlace}
use kernel_rs.Wm.Focus.{IsValid, Focused, take_focus-Unfocused, give_focus-Focused}

true≢false : true ≢ false
true≢false h = ground (arith, h)

module _ (sw sh : ℕ) (sw_fits : sw < 2147483648) (sh_fits : sh < 2147483648) where
  -- What a press on the window `h` leaves.
  pub record Pressed (h : ℕ) (mx my : ℤ) (g g' : Wm) : Type 0 where
    pub windows : (j : ℕ) → Recoloured (g.wins j) (g'.wins j)
    pub dirty : Merge.IsValid sw sh g'.dirty
    pub keeps : (px py : ℕ) → Covered g.dirty px py → Covered g'.dirty px py
    pub focus : (j : ℕ) → (g'.wins j).focused ≡ (j == h)
    pub now : g'.focused_idx ≡ some h
    pub route_vt : g'.route_vt ≡ routed (g.wins h).vt g.route_vt
    pub grabbed : ltb_ℤ my (g.wins h).y ≡ true → g'.drag_win ≡ some h
    pub not_grabbed : ltb_ℤ my (g.wins h).y ≡ false → g'.drag_win ≡ g.drag_win

  grab_if-Pressed :
      (h : ℕ) (mx my : ℤ) (g g1 : Wm)
      → Focused sw sh sw_fits sh_fits h g g1
      → (b : Bool) → b ≡ ltb_ℤ my (g.wins h).y
      → Pressed h mx my g
          (grab_if b h mx my (record g1 { route_vt = routed (g1.wins h).vt g1.route_vt }))
  unfolding grab_if
  grab_if-Pressed h mx my g g1 f b e =
      let route : routed (g1.wins h).vt g1.route_vt ≡ routed (g.wins h).vt g.route_vt =
        ap (λ v. routed v g1.route_vt) (f.changed.windows h).vt
        ∙ ap (routed (g.wins h).vt) f.changed.route_vt in
      go b e route
    where
      go :
          (b : Bool)
          → b ≡ ltb_ℤ my (g.wins h).y
          → routed (g1.wins h).vt g1.route_vt ≡ routed (g.wins h).vt g.route_vt
          → Pressed h mx my g
              (grab_if b h mx my (record g1 { route_vt = routed (g1.wins h).vt g1.route_vt }))
      go true e route = record {
        windows = f.changed.windows;
        dirty = f.changed.dirty;
        keeps = f.changed.keeps;
        focus = f.focus;
        now = f.now;
        route_vt = route;
        grabbed = λ k. refl;
        not_grabbed = λ k. absurd (true≢false (e ∙ k));
      }
      go false e route = record {
        windows = f.changed.windows;
        dirty = f.changed.dirty;
        keeps = f.changed.keeps;
        focus = f.focus;
        now = f.now;
        route_vt = route;
        grabbed = λ k. absurd (true≢false (sym k ∙ sym e));
        not_grabbed = λ k. f.changed.drag_win;
      }

  grab-Pressed :
      (h : ℕ) (mx my : ℤ) (g g1 : Wm)
      → Focused sw sh sw_fits sh_fits h g g1
      → Pressed h mx my g (grab h mx my g1)
  unfolding grab
  grab-Pressed h mx my g g1 f =
      grab_if-Pressed h mx my g g1 f (ltb_ℤ my (g1.wins h).y)
        (ap (ltb_ℤ my) (f.changed.windows h).y)

  pub press-Pressed :
      (h : ℕ) (mx my : ℤ) (g : Wm)
      → IsValid sw sh g
      → (g' : Wm) × (press h mx my g ≡ some g') × Pressed h mx my g g'
  unfolding press
  press-Pressed h mx my g v =
      let (g1, e1, taken) = take_focus-Unfocused sw sh sw_fits sh_fits h g v in
      let (g2, e2, given) =
        give_focus-Focused sw sh sw_fits sh_fits h g g1 taken (
          Recoloured-InPlace (g.wins h) (g1.wins h) (taken.changed.windows h) (v.table.placed h)) in
      (
        grab h mx my g2,
        >>=-some (take_focus h g) g1 _ e1 ∙ >>=-some (give_focus h g1) g2 _ e2,
        grab-Pressed h mx my g g2 given,
      )

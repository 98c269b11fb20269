-- ===== src/Wm/Open.antt =====
-- A new window, the end of `create_window` of kernel-rs/src/gui/wm.rs.
use mathlib.Core.Option.{some-injective}
use kernel_rs.Prelude.{
  >>=-some, ℕ, ◌<◌, ◌≡◌, ◌≢◌, refl, sym, ◌∙◌, ap, subst, inl, inr, true, false, some, update_self,
  update_ne, ◌==◌, if◌then◌else◌, arith, not, Bool-cases, Option-cases, ==_iff, ==→≢,
}
use kernel_rs.Dirty.Rects.{Inside}
use kernel_rs.Dirty.Merge.{Covered}
use kernel_rs.Wm.{
  Wm, GuiWindow, gui_max_windows, set_win, window_rect_screen, damage, unfocus, take_focus,
  take_from,
}
use kernel_rs.Wm.Places.{
  InPlace, Recoloured, Recoloured-InPlace, damage-Damaged, window_rect_screen-Sane,
}
use kernel_rs.Wm.Focus.{IsTable, IsValid, is_at, Unfocused, take_focus-Unfocused}
use kernel_rs.Wm.Compose.{unfocus_any, unfocus_current, focus_new, frame_render, open_window}

module _ (sw sh : ℕ) (sw_fits : sw < 2147483648) (sh_fits : sh < 2147483648) where
  -- A window that is not in use is not the focused one.
  free_away :
      (i f : ℕ) (g : Wm)
      → IsValid sw sh g
      → (g.wins i).used ≡ false
      → g.focused_idx ≡ some f
      → (f == i) ≡ false
  free_away i f g v unused e = elim (Bool-cases (f == i)) [
    | inr away ↦ away
    | inl here ↦
        let used = (v.table.focus_used f e).1 in
        let at = (==_iff f i).0 here in
        let both : true ≡ false = sym used ∙ ap (λ j. (g.wins j).used) at ∙ unused in
        ground (arith, both)
  ]

  free_unfocused :
      (i : ℕ) (g : Wm) → IsValid sw sh g → (g.wins i).used ≡ false → (g.wins i).focused ≡ false
  unfolding is_at
  free_unfocused i g v unused = v.table.focus i ∙ elim (Option-cases g.focused_idx) [
    | inl nobody ↦ ap (is_at i) nobody
    | inr (f, somebody) ↦
        let away = free_away i f g v unused somebody in ap (is_at i) somebody ∙ ground (arith, away)
  ]

  -- The slot holds the new window, which has no focus yet.
  placed-IsValid :
      (i : ℕ) (win : GuiWindow) (g : Wm)
      → IsValid sw sh g
      → win.used ≡ true
      → win.focused ≡ false
      → (g.wins i).used ≡ false
      → InPlace win
      → IsValid sw sh (set_win i win g)
  placed-IsValid i win g v used idle unused place = record {
    dirty = v.dirty;
    table = record {
      placed = λ j. elim (Bool-cases (j == i)) [
        | inl here ↦ rw here place
        | inr away ↦ rw away (v.table.placed j)
      ];
      focus = λ j. elim (Bool-cases (j == i)) [
        | inl here ↦
            let at = (==_iff j i).0 here in
            rw here (
              idle
              ∙ sym (free_unfocused i g v unused)
              ∙ ap (λ k. (g.wins k).focused) (sym at)
              ∙ v.table.focus j)
        | inr away ↦ rw away (v.table.focus j)
      ];
      focus_used = λ f e. elim (Bool-cases (f == i)) [
        | inl here ↦ ((v.table.focus_used f e).0, rw here used)
        | inr away ↦ ((v.table.focus_used f e).0, rw away (v.table.focus_used f e).1)
      ];
      drag_used = λ f e. elim (Bool-cases (f == i)) [
        | inl here ↦ ((v.table.drag_used f e).0, rw here used)
        | inr away ↦ ((v.table.drag_used f e).0, rw away (v.table.drag_used f e).1)
      ];
    };
  }

  as_take :
      (i : ℕ) (win : GuiWindow) (g : Wm)
      → IsValid sw sh g
      → (g.wins i).used ≡ false
      → unfocus_current (set_win i win g) ≡ take_focus i (set_win i win g)
  unfolding unfocus_any take_focus take_from
  as_take i win g v unused = elim (Option-cases g.focused_idx) [
    | inl nobody ↦
        ap (λ o. unfocus_any o (set_win i win g)) nobody
        ∙ sym (ap (λ o. take_from o i (set_win i win g)) nobody)
    | inr (f, somebody) ↦
        let away = free_away i f g v unused somebody in
        ap (λ o. unfocus_any o (set_win i win g)) somebody
        ∙ sym (
            ap (λ o. take_from o i (set_win i win g)) somebody
            ∙ ap (λ b. if not b then unfocus f (set_win i win g) else some (set_win i win g)) away)
  ]

  -- The painted window, and the others.
  painted_here :
      (i j : ℕ) (g : Wm)
      → (j == i) ≡ true
      → (frame_render i (focus_new i g)).wins j
        ≡ record (g.wins i) { focused = true; content_dirty = false; chrome_dirty = false }
  unfolding frame_render
  painted_here i j g here = rw here (
      ap (λ (w : GuiWindow). record w { content_dirty = false; chrome_dirty = false })
        (update_self g.wins i (record (g.wins i) { focused = true })))

  painted_away :
      (i j : ℕ) (g : Wm) → (j == i) ≡ false → (frame_render i (focus_new i g)).wins j ≡ g.wins j
  unfolding frame_render
  painted_away i j g away = rw away refl

  painted-IsTable :
      (i : ℕ) (g1 g2 : Wm)
      → IsValid sw sh g1
      → Unfocused sw sh sw_fits sh_fits i g1 g2
      → i < gui_max_windows
      → (g2.wins i).used ≡ true
      → IsTable (frame_render i (focus_new i g2)).wins (some i) g2.drag_win
  unfolding is_at
  painted-IsTable i g1 g2 v1 u small there =
      let place : InPlace (g2.wins i) =
        Recoloured-InPlace (g1.wins i) (g2.wins i) (u.changed.windows i) (v1.table.placed i) in
      record {
        placed = λ j. elim (Bool-cases (j == i)) [
          | inl here ↦
              subst InPlace (sym (painted_here i j g2 here))
                (record { x = place.x; y = place.y; w = place.w; h = place.h })
          | inr away ↦
              subst InPlace (sym (painted_away i j g2 away)) (
                Recoloured-InPlace (g1.wins j) (g2.wins j) (u.changed.windows j)
                  (v1.table.placed j))
        ];
        focus = λ j. elim (Bool-cases (j == i)) [
          | inl here ↦ ap (λ (w : GuiWindow). w.focused) (painted_here i j g2 here) ∙ sym here
          | inr away ↦
              ap (λ (w : GuiWindow). w.focused) (painted_away i j g2 away)
              ∙ u.others j (==→≢ j i away)
              ∙ sym away
        ];
        focus_used = λ f e.
            let same = some-injective i f e in
            (
              subst (λ k. k < gui_max_windows) same small,
              subst (λ k. ((frame_render i (focus_new i g2)).wins k).used ≡ true) same
                  (ap (λ (w : GuiWindow). w.used) (painted_here i i g2 (ground arith)) ∙ there),
            );
        drag_used = λ f e.
            let before = v1.table.drag_used f (sym u.changed.drag_win ∙ e) in
            (
              before.0,
              elim (Bool-cases (f == i)) [
                | inl here ↦ ap (λ (w : GuiWindow). w.used) (painted_here i f g2 here) ∙ there
                | inr away ↦
                    ap (λ (w : GuiWindow). w.used) (painted_away i f g2 away)
                    ∙ (u.changed.windows f).used
                    ∙ before.1
              ],
            );
      }

  -- The new window is in use and has the focus, and is damaged; other windows keep all but their
  -- focus and their colours.
  pub record Opened (i : ℕ) (win : GuiWindow) (g g' : Wm) : Type 0 where
    pub valid : IsValid sw sh g'
    pub now : g'.focused_idx ≡ some i
    pub used : (g'.wins i).used ≡ true
    pub others : (j : ℕ) → j ≢ i → Recoloured (g.wins j) (g'.wins j)
    pub keeps : (px py : ℕ) → Covered g.dirty px py → Covered g'.dirty px py
    pub shows :
        (px py : ℕ)
        → px < sw
        → py < sh
        → Inside (window_rect_screen (g'.wins i)) px py
        → Covered g'.dirty px py

  -- A window that takes a free slot of a valid window manager, at a place and of a size within bounds
  -- and not yet with the focus: opening it ends and leaves a window manager that is valid, so that only
  -- this window has the focus. It is in use, its footprint is damaged, what was damaged stays so, and
  -- every other window keeps its place, its size and its use.
  pub open_window-Opened :
      (i : ℕ) (win : GuiWindow) (g : Wm)
      → IsValid sw sh g
      → i < gui_max_windows
      → (g.wins i).used ≡ false
      → win.used ≡ true
      → win.focused ≡ (g.wins i).focused
      → InPlace win
      → (g' : Wm) × (open_window i win g ≡ some g') × Opened i win g g'
  unfolding open_window frame_render
  open_window-Opened i win g v small unused used same place =
      let g1 = set_win i win g in
      let idle : win.focused ≡ false = same ∙ free_unfocused i g v unused in
      let v1 = placed-IsValid i win g v used idle unused place in
      let (g2, e2, u) = take_focus-Unfocused sw sh sw_fits sh_fits i g1 v1 in
      let there : (g2.wins i).used ≡ true =
        (u.changed.windows i).used
        ∙ ap (λ (w : GuiWindow). w.used) (update_self g.wins i win)
        ∙ used in
      let g4 = frame_render i (focus_new i g2) in
      let table = painted-IsTable i g1 g2 v1 u small there in
      let (g', e, d) =
        damage-Damaged sw sh sw_fits sh_fits (window_rect_screen (g4.wins i)) g4 u.changed.dirty
          (window_rect_screen-Sane (g4.wins i) (table.placed i)) in
      (
        g',
        >>=-some (unfocus_current g1) g2
              (λ x.
                damage (window_rect_screen ((frame_render i (focus_new i x)).wins i))
                  (frame_render i (focus_new i x)))
              (as_take i win g v unused ∙ e2)
            ∙ e,
        subst (λ (x : Wm). Opened i win g x) (sym d.is)
            (record {
              valid = record { dirty = d.added.valid; table = table };
              now = refl;
              used = ap (λ (w : GuiWindow). w.used) (painted_here i i g2 (ground arith)) ∙ there;
              others = λ j ne.
                  let away : (j == i) ≡ false = ground (arith, ne) in
                  subst (λ (w : GuiWindow). Recoloured (g.wins j) w)
                    (sym (painted_away i j g2 away))
                    (subst (λ (w : GuiWindow). Recoloured w (g2.wins j))
                      (update_ne g.wins i j win ne) (u.changed.windows j));
              keeps = λ px py c. d.added.keeps px py (u.changed.keeps px py c);
              shows = λ px py lx ly c. d.added.covers px py lx ly c;
            }),
      )

-- ===== src/Wm/Update.antt =====
-- `wm_update_mouse`: the press, and then the drag.
use Prim.Native.Nat.{bit_and}
use mathlib.Core.Option.{some-injective, none-ne-some}
use kernel_rs.Prelude.{
  >>=-some, ℕ, ◌<◌, ◌≤◌, ◌≡◌, ◌≢◌, refl, sym, ◌∙◌, ap, subst, inl, inr, true, Option, none, some,
  update_self, ◌==◌, if◌then◌else◌, arith, Bool-cases, ==_iff, ==→≢,
}
use kernel_rs.Prelude.Int.{ℤ, ltb_ℤ}
use kernel_rs.Dirty.Merge.{Covered}
use kernel_rs.Mouse.{Mouse}
use kernel_rs.Wm.{
  Wm, GuiWindow, gui_max_windows, hit_test, press_at, presses, drag_any, drags, wm_update_mouse,
  left_pressed, routed,
}
use kernel_rs.Wm.Places.{InPlace, Recoloured-InPlace}
use kernel_rs.Wm.Hit.{Topmost, hit_test-Topmost}
use kernel_rs.Wm.Press.{Pressed, press-Pressed}
use kernel_rs.Wm.Focus.{IsTable, IsValid, is_at}
use kernel_rs.Wm.Drag.{Dragged, drag-Dragged, InReach}

-- The window that a left press is on.
abbrev pub clicked : Mouse → Wm → Option ℕ
clicked m g = if left_pressed g.prev_buttons m.buttons then hit_test g m.x m.y else none

unfoldable pub focus_after : Option ℕ → Option ℕ → Option ℕ
focus_after none focused = focused
focus_after (some h) focused = some h

unfoldable pub route_after : Option ℕ → Wm → Option ℕ
route_after none g = g.route_vt
route_after (some h) g = routed (g.wins h).vt g.route_vt

module _ (sw sh : ℕ) (wide : 80 ≤ sw) (sw_fits : sw ≤ 1048576) (high : 40 ≤ sh)
    (sh_fits : sh ≤ 1048576) where
  narrow : sw < 2147483648
  narrow = omega arith

  low : sh < 2147483648
  low = omega arith

  abbrev Valid : Wm → Type 0
  Valid g = IsValid sw sh g

  -- The state after the first part.
  record AfterPress (o : Option ℕ) (g g' : Wm) : Type 0 where
    valid : Valid g'
    keeps : (px py : ℕ) → Covered g.dirty px py → Covered g'.dirty px py
    focused_idx : g'.focused_idx ≡ focus_after o g.focused_idx
    route_vt : g'.route_vt ≡ route_after o g

  Pressed-IsTable :
      (h : ℕ) (mx my : ℤ) (g g' : Wm)
      → Valid g
      → h < gui_max_windows
      → (g.wins h).used ≡ true
      → Pressed sw sh (omega arith) (omega arith) h mx my g g'
      → IsTable g'.wins g'.focused_idx g'.drag_win
  unfolding is_at
  Pressed-IsTable h mx my g g' v small used p = record {
    placed = λ j. Recoloured-InPlace (g.wins j) (g'.wins j) (p.windows j) (v.table.placed j);
    focus = λ j. p.focus j ∙ sym (ap (is_at j) p.now);
    focus_used = λ f e.
        let same : h ≡ f = some-injective h f (sym p.now ∙ e) in
        (
          subst (λ k. k < gui_max_windows) same small,
          subst (λ k. (g'.wins k).used ≡ true) same ((p.windows h).used ∙ used),
        );
    drag_used = λ i e. elim (Bool-cases (ltb_ℤ my (g.wins h).y)) [
      | inl title ↦
          let same : h ≡ i = some-injective h i (sym (p.grabbed title) ∙ e) in
          (
            subst (λ k. k < gui_max_windows) same small,
            subst (λ k. (g'.wins k).used ≡ true) same ((p.windows h).used ∙ used),
          )
      | inr body ↦
          let before = v.table.drag_used i (sym (p.not_grabbed body) ∙ e) in
          (before.0, (p.windows i).used ∙ before.1)
    ];
  }

  press_at-AfterPress :
      (o : Option ℕ) (m : Mouse) (g : Wm)
      → Valid g
      → Topmost gui_max_windows g.wins m.x m.y o
      → (g' : Wm) × (press_at o m g ≡ some g') × AfterPress o g g'
  unfolding press_at focus_after route_after Topmost
  press_at-AfterPress none m g v top =
      (g, refl, record { valid = v; keeps = λ px py c. c; focused_idx = refl; route_vt = refl })
  press_at-AfterPress (some h) m g v top =
      let (g', e, p) = press-Pressed sw sh (omega arith) (omega arith) h m.x m.y g v in
      (
        g',
        e,
        record {
          valid = record {
            dirty = p.dirty;
            table = Pressed-IsTable h m.x m.y g g' v top.0 top.1 p;
          };
          keeps = p.keeps;
          focused_idx = p.now;
          route_vt = p.route_vt;
        },
      )

  presses-AfterPress :
      (m : Mouse) (g : Wm)
      → Valid g
      → (g' : Wm) × (presses m g ≡ some g') × AfterPress (clicked m g) g g'
  unfolding presses focus_after route_after
  presses-AfterPress m g v = elim (Bool-cases (left_pressed g.prev_buttons m.buttons)) [
    | inl down ↦
        rw down (press_at-AfterPress (hit_test g m.x m.y) m g v (hit_test-Topmost g m.x m.y))
    | inr up ↦
        rw up
          (g, refl, record { valid = v; keeps = λ px py c. c; focused_idx = refl; route_vt = refl })
  ]

  -- The state after the second part.
  record AfterDrag (m : Mouse) (g g' : Wm) : Type 0 where
    valid : Valid g'
    keeps : (px py : ℕ) → Covered g.dirty px py → Covered g'.dirty px py
    focused_idx : g'.focused_idx ≡ g.focused_idx
    route_vt : g'.route_vt ≡ g.route_vt
    released : bit_and m.buttons 1 ≡ 0 → g'.drag_win ≡ none
    reach : (i : ℕ) → g'.drag_win ≡ some i → InReach sw sh (g'.wins i)

  Dragged-IsTable :
      (i : ℕ) (g g' : Wm)
      → Valid g
      → Dragged sw sh wide sw_fits high sh_fits i g g'
      → IsTable g'.wins g'.focused_idx g'.drag_win
  Dragged-IsTable i g g' v d =
      let used : (j : ℕ) → (g'.wins j).used ≡ (g.wins j).used = λ j.
        ap (λ (w : ℕ → GuiWindow). (w j).used) d.windows ∙ elim (Bool-cases (j == i)) [
          | inl here ↦ rw here (
              ap (λ (w : GuiWindow). w.used) d.same
              ∙ ap (λ k. (g.wins k).used) (sym ((==_iff j i).0 here)))
          | inr away ↦ rw away refl
        ] in
      let focused : (j : ℕ) → (g'.wins j).focused ≡ (g.wins j).focused = λ j.
        ap (λ (w : ℕ → GuiWindow). (w j).focused) d.windows ∙ elim (Bool-cases (j == i)) [
          | inl here ↦ rw here (
              ap (λ (w : GuiWindow). w.focused) d.same
              ∙ ap (λ k. (g.wins k).focused) (sym ((==_iff j i).0 here)))
          | inr away ↦ rw away refl
        ] in
      record {
        placed = λ j.
            subst (λ (w : ℕ → GuiWindow). InPlace (w j)) (sym d.windows)
              (elim (Bool-cases (j == i)) [
                | inl here ↦ rw here d.place
                | inr away ↦ rw away (v.table.placed j)
              ]);
        focus = λ j. focused j ∙ v.table.focus j ∙ ap (is_at j) (sym d.focused_idx);
        focus_used = λ f e.
            let before = v.table.focus_used f (sym d.focused_idx ∙ e) in
            (before.0, used f ∙ before.1);
        drag_used = λ k e.
            let before = v.table.drag_used k (sym d.drag_win ∙ e) in (before.0, used k ∙ before.1);
      }

  drag_any-AfterDrag :
      (o : Option ℕ) (m : Mouse) (g : Wm)
      → Valid g
      → g.drag_win ≡ o
      → bit_and m.buttons 1 ≢ 0
      → (g' : Wm) × (drag_any o sw sh m g ≡ some g') × AfterDrag m g g'
  unfolding drag_any
  drag_any-AfterDrag none m g v e held = (
    g,
    refl,
    record {
      valid = v;
      keeps = λ px py c. c;
      focused_idx = refl;
      route_vt = refl;
      released = λ k. e;
      reach = λ i k. elim (none-ne-some i (sym e ∙ k)) [ ];
    },
  )
  drag_any-AfterDrag (some i) m g v e held =
      let (g', run, d) =
        drag-Dragged sw sh wide sw_fits high sh_fits i m.x m.y g v.dirty (v.table.placed i) in
      (
        g',
        run,
        record {
          valid = record { dirty = d.dirty; table = Dragged-IsTable i g g' v d };
          keeps = d.keeps;
          focused_idx = d.focused_idx;
          route_vt = d.route_vt;
          released = λ k. elim (held k) [ ];
          reach = λ j k.
              let same : i ≡ j = some-injective i j (sym e ∙ sym d.drag_win ∙ k) in
              subst (λ n. InReach sw sh (g'.wins n)) same
                (subst (λ (w : ℕ → GuiWindow). InReach sw sh (w i)) (sym d.windows)
                  (subst (InReach sw sh) (sym (update_self g.wins i d.at)) d.reach));
        },
      )

  drags-AfterDrag :
      (m : Mouse) (g : Wm) → Valid g → (g' : Wm) × (drags sw sh m g ≡ some g') × AfterDrag m g g'
  unfolding drags
  drags-AfterDrag m g v = elim (Bool-cases (bit_and m.buttons 1 == 0)) [
    | inr down ↦
        rw down (drag_any-AfterDrag g.drag_win m g v refl (==→≢ (bit_and m.buttons 1) 0 down))
    | inl up ↦ rw up (
      record g { drag_win = none },
      refl,
      record {
        valid = record {
          dirty = v.dirty;
          table = record {
            placed = v.table.placed;
            focus = v.table.focus;
            focus_used = v.table.focus_used;
            drag_used = λ i k. elim (none-ne-some i k) [ ];
          };
        };
        keeps = λ px py c. c;
        focused_idx = refl;
        route_vt = refl;
        released = λ k. refl;
        reach = λ i k. elim (none-ne-some i k) [ ];
      },
    )
  ]

  -- What `wm_update_mouse` leaves.
  pub record Updated (m : Mouse) (g g' : Wm) : Type 0 where
    pub valid : IsValid sw sh g'
    pub keeps : (px py : ℕ) → Covered g.dirty px py → Covered g'.dirty px py
    pub focused_idx : g'.focused_idx ≡ focus_after (clicked m g) g.focused_idx
    pub route_vt : g'.route_vt ≡ route_after (clicked m g) g
    pub released : bit_and m.buttons 1 ≡ 0 → g'.drag_win ≡ none
    pub reach : (i : ℕ) → g'.drag_win ≡ some i → InReach sw sh (g'.wins i)
    pub prev_buttons : g'.prev_buttons ≡ m.buttons

  -- On a screen of at least 80 by 40 and at most 2^20 by 2^20 pixels, for a valid window manager and
  -- any mouse state: `wm_update_mouse` ends, and leaves a valid window manager, in which exactly the
  -- window of FOCUSED_IDX is focused. A left press on a window moves the focus to the topmost window
  -- under the mouse and the keyboard to its terminal if it has one, and nothing else moves either; a
  -- window that is dragged is within reach, and none is when the button is up; what was damaged stays
  -- so.
  pub wm_update_mouse-Updated :
      (m : Mouse) (g : Wm)
      → IsValid sw sh g
      → (g' : Wm) × (wm_update_mouse sw sh m g ≡ some g') × Updated m g g'
  unfolding wm_update_mouse
  wm_update_mouse-Updated m g v =
      let (g1, e1, a) = presses-AfterPress m g v in
      let (g2, e2, b) = drags-AfterDrag m g1 a.valid in
      (
        record g2 { prev_buttons = m.buttons },
        >>=-some (presses m g) g1 _ e1 ∙ >>=-some (drags sw sh m g1) g2 _ e2,
        record {
          valid = record { dirty = b.valid.dirty; table = b.valid.table };
          keeps = λ px py c. b.keeps px py (a.keeps px py c);
          focused_idx = b.focused_idx ∙ a.focused_idx;
          route_vt = b.route_vt ∙ a.route_vt;
          released = b.released;
          reach = b.reach;
          prev_buttons = refl;
        },
      )

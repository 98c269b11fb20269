-- ===== src/Wm/Focus.antt =====
-- The focus: which window has it, and how it passes to another.
use kernel_rs.Prelude.{
  >>=-some, ℕ, ◌<◌, ◌≡◌, ◌≢◌, refl, sym, ◌∙◌, ap, subst, inl, inr, Bool, true, false, not, Option,
  none, some, update, ◌==◌, if◌then◌else◌, arith, Bool-cases, Option-cases, ==_iff, ==→≢,
}
use kernel_rs.Dirty.Rects.{Inside}
use kernel_rs.Dirty.Merge
use kernel_rs.Dirty.Merge.{Covered}
use kernel_rs.Wm.{
  Wm, GuiWindow, window_rect_screen, damage, gui_max_windows, set_win, unfocus, take_focus,
  give_focus, take_from, repaint_if,
}
use kernel_rs.Wm.Places.{
  InPlace, Recoloured, Recoloured-refl, Recoloured-trans, Recoloured-update, Recoloured-InPlace,
  damage-Damaged, window_rect_screen-Sane,
}

-- The index is that of the focused window.
unfoldable pub is_at : ℕ → Option ℕ → Bool
is_at j none = false
is_at j (some f) = j == f

-- Exactly the focused window has the focus, and it and the one that is dragged are in use.
pub record IsTable (wins : ℕ → GuiWindow) (focused drag : Option ℕ) : Type 0 where
  pub placed : (j : ℕ) → InPlace (wins j)
  pub focus : (j : ℕ) → (wins j).focused ≡ is_at j focused
  pub focus_used : (f : ℕ) → focused ≡ some f → (f < gui_max_windows) × ((wins f).used ≡ true)
  pub drag_used : (i : ℕ) → drag ≡ some i → (i < gui_max_windows) × ((wins i).used ≡ true)

take_nobody : (h : ℕ) (g : Wm) → g.focused_idx ≡ none → take_focus h g ≡ some g
unfolding take_focus take_from
take_nobody h g e = ap (λ o. take_from o h g) e

take_same : (h f : ℕ) (g : Wm) → g.focused_idx ≡ some f → (f == h) ≡ true → take_focus h g ≡ some g
unfolding take_focus take_from
take_same h f g e k =
    ap (λ o. take_from o h g) e ∙ ap (λ b. if not b then unfocus f g else some g) k

take_other :
    (h f : ℕ) (g : Wm) → g.focused_idx ≡ some f → (f == h) ≡ false → take_focus h g ≡ unfocus f g
unfolding take_focus take_from
take_other h f g e k =
    ap (λ o. take_from o h g) e ∙ ap (λ b. if not b then unfocus f g else some g) k

give_already :
    (h : ℕ) (g : Wm)
    → (g.wins h).focused ≡ true
    → give_focus h g
      ≡ some (set_win h (record (g.wins h) { focused = true }) (record g { focused_idx = some h }))
unfolding give_focus repaint_if
give_already h g e =
    >>=-some (repaint_if (g.wins h).focused h (record g { focused_idx = some h })) _ _
      (ap (λ b. repaint_if b h (record g { focused_idx = some h })) e)

give_fresh :
    (h : ℕ) (g g' : Wm)
    → (g.wins h).focused ≡ false
    → damage
        (window_rect_screen (record (g.wins h) { chrome_dirty = true }))
        (set_win h (record (g.wins h) { chrome_dirty = true }) (record g { focused_idx = some h }))
      ≡ some g'
    → give_focus h g ≡ some (set_win h (record (g'.wins h) { focused = true }) g')
unfolding give_focus repaint_if
give_fresh h g g' fresh e =
    >>=-some (repaint_if (g.wins h).focused h (record g { focused_idx = some h })) _ _
      (ap (λ b. repaint_if b h (record g { focused_idx = some h })) fresh ∙ e)

colours : (w : GuiWindow) (f c : Bool) → Recoloured w (record w { focused = f; chrome_dirty = c })
colours w f c = record { x = refl; y = refl; w = refl; h = refl; used = refl; vt = refl }

pub record IsValid (sw sh : ℕ) (g : Wm) : Type 0 where
  pub dirty : Merge.IsValid sw sh g.dirty
  pub table : IsTable g.wins g.focused_idx g.drag_win

module _ (sw sh : ℕ) (sw_fits : sw < 2147483648) (sh_fits : sh < 2147483648) where
  -- The colours of some windows have changed, and what is damaged stays so.
  pub record Changed (g g' : Wm) : Type 0 where
    pub windows : (j : ℕ) → Recoloured (g.wins j) (g'.wins j)
    pub dirty : Merge.IsValid sw sh g'.dirty
    pub keeps : (px py : ℕ) → Covered g.dirty px py → Covered g'.dirty px py
    pub drag_win : g'.drag_win ≡ g.drag_win
    pub route_vt : g'.route_vt ≡ g.route_vt

  Changed-refl : (g : Wm) → Merge.IsValid sw sh g.dirty → Changed g g
  Changed-refl g valid = record {
    windows = λ j. Recoloured-refl (g.wins j);
    dirty = valid;
    keeps = λ px py c. c;
    drag_win = refl;
    route_vt = refl;
  }

  -- The window `f` changes to `w`, and its footprint is damaged.
  repaint :
      (f : ℕ) (w : GuiWindow) (g : Wm)
      → Merge.IsValid sw sh g.dirty
      → Recoloured (g.wins f) w
      → InPlace w
      → (g' : Wm) × (damage (window_rect_screen w) (set_win f w g) ≡ some g')
        × Changed g g'
        × (g'.wins ≡ update g.wins f w)
        × (g'.focused_idx ≡ g.focused_idx)
        × ((px py : ℕ)
            → px < sw
            → py < sh
            → Inside (window_rect_screen w) px py
            → Covered g'.dirty px py)
  repaint f w g valid same place =
      let (g', e, d) =
        damage-Damaged sw sh sw_fits sh_fits (window_rect_screen w) (set_win f w g) valid
          (window_rect_screen-Sane w place) in
      (
        g',
        e,
        subst (λ x. Changed g x) (sym d.is)
            (record {
              windows = Recoloured-update g.wins f w same;
              dirty = d.added.valid;
              keeps = d.added.keeps;
              drag_win = refl;
              route_vt = refl;
            }),
        ap (λ (x : Wm). x.wins) d.is,
        ap (λ (x : Wm). x.focused_idx) d.is,
        λ px py lx ly c.
            subst (λ (x : Wm). Covered x.dirty px py) (sym d.is) (d.added.covers px py lx ly c),
      )

  -- After a press only `h` can have the focus.
  pub record Unfocused (h : ℕ) (g g' : Wm) : Type 0 where
    pub changed : Changed g g'
    pub others : (j : ℕ) → j ≢ h → (g'.wins j).focused ≡ false

  pub take_focus-Unfocused :
      (h : ℕ) (g : Wm) → IsValid sw sh g → (g' : Wm) × (take_focus h g ≡ some g') × Unfocused h g g'
  unfolding is_at unfocus
  take_focus-Unfocused h g v = elim (Option-cases g.focused_idx) [
    | inl nobody ↦ (
      g,
      take_nobody h g nobody,
      record {
        changed = Changed-refl g v.dirty;
        others = λ j ne. v.table.focus j ∙ ap (is_at j) nobody;
      },
    )
    | inr (f, somebody) ↦ elim (Bool-cases (f == h)) [
      | inl same ↦ (
        g,
        take_same h f g somebody same,
        record {
          changed = Changed-refl g v.dirty;
          others = λ j ne. v.table.focus j ∙ ap (is_at j) somebody ∙ ground (arith, same, ne);
        },
      )
      | inr other ↦
          let w = record (g.wins f) { focused = false; chrome_dirty = true } in
          let same = colours (g.wins f) false true in
          let (g', e, changed, rows, idx, covers) =
            repaint f w g v.dirty same (Recoloured-InPlace (g.wins f) w same (v.table.placed f)) in
          (
            g',
            take_other h f g somebody other ∙ e,
            record {
              changed = changed;
              others = λ j ne.
                  ap (λ (x : ℕ → GuiWindow). (x j).focused) rows ∙ elim (Bool-cases (j == f)) [
                    | inl here ↦ rw here refl
                    | inr away ↦ rw away (v.table.focus j ∙ ap (is_at j) somebody ∙ away)
                  ];
            },
          )
    ]
  ]

  -- The window `h` has the focus, and no other.
  pub record Focused (h : ℕ) (g g' : Wm) : Type 0 where
    pub changed : Changed g g'
    pub focus : (j : ℕ) → (g'.wins j).focused ≡ (j == h)
    pub now : g'.focused_idx ≡ some h

  -- The last write of `give_focus`.
  focus_on :
      (h : ℕ) (g g' : Wm)
      → Changed g g'
      → g'.focused_idx ≡ some h
      → ((j : ℕ) → j ≢ h → (g'.wins j).focused ≡ false)
      → Focused h g (set_win h (record (g'.wins h) { focused = true }) g')
  focus_on h g g' changed now others = record {
    changed = record {
      windows = λ j. Recoloured-trans (g.wins j) (g'.wins j) _ (changed.windows j) (
          Recoloured-update g'.wins h (record (g'.wins h) { focused = true })
            (record { x = refl; y = refl; w = refl; h = refl; used = refl; vt = refl }) j);
      dirty = changed.dirty;
      keeps = changed.keeps;
      drag_win = changed.drag_win;
      route_vt = changed.route_vt;
    };
    focus = λ j. elim (Bool-cases (j == h)) [
      | inl here ↦ rw here refl
      | inr away ↦ rw away (others j (==→≢ j h away))
    ];
    now = now;
  }

  Changed-trans : (a b c : Wm) → Changed a b → Changed b c → Changed a c
  Changed-trans a b c p q = record {
    windows = λ j. Recoloured-trans (a.wins j) (b.wins j) (c.wins j) (p.windows j) (q.windows j);
    dirty = q.dirty;
    keeps = λ px py k. q.keeps px py (p.keeps px py k);
    drag_win = q.drag_win ∙ p.drag_win;
    route_vt = q.route_vt ∙ p.route_vt;
  }

  marked : (h : ℕ) (g0 g : Wm) → Changed g0 g → Changed g0 (record g { focused_idx = some h })
  marked h g0 g c = record {
    windows = c.windows;
    dirty = c.dirty;
    keeps = c.keeps;
    drag_win = c.drag_win;
    route_vt = c.route_vt;
  }

  pub give_focus-Focused :
      (h : ℕ) (g0 g : Wm)
      → Unfocused h g0 g
      → InPlace (g.wins h)
      → (g' : Wm) × (give_focus h g ≡ some g') × Focused h g0 g'
  give_focus-Focused h g0 g u place = elim (Bool-cases (g.wins h).focused) [
    | inl already ↦ (
      set_win h (record (g.wins h) { focused = true }) (record g { focused_idx = some h }),
      give_already h g already,
      focus_on h g0 (record g { focused_idx = some h }) (marked h g0 g u.changed) refl u.others,
    )
    | inr fresh ↦
        let w = record (g.wins h) { chrome_dirty = true } in
        let same = colours (g.wins h) (g.wins h).focused true in
        let (g', e, changed, rows, idx, covers) =
          repaint h w (record g { focused_idx = some h }) u.changed.dirty same
            (Recoloured-InPlace (g.wins h) w same place) in
        (
          set_win h (record (g'.wins h) { focused = true }) g',
          give_fresh h g g' fresh e,
          focus_on h g0 g'
              (Changed-trans g0 (record g { focused_idx = some h }) g' (marked h g0 g u.changed)
                changed)
              idx
              (λ j ne. ap (λ (x : ℕ → GuiWindow). (x j).focused) rows ∙ elim (Bool-cases (j == h)) [
                | inl here ↦ absurd (ne ((==_iff j h).0 here))
                | inr away ↦ rw away (u.others j ne)
              ]),
        )
  ]

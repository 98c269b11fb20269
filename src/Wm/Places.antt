-- ===== src/Wm/Places.antt =====
-- Where windows are, and the damage of their footprints.
use kernel_rs.Prelude.{
  ℕ, ◌<◌, ◌≤◌, ◌≡◌, refl, sym, ◌∙◌, subst, inl, inr, some, update, ◌==◌, arith, Bool-cases, ==_iff,
}
use kernel_rs.Prelude.Int.{ℤ, pos, negsuc, ◌+ℤ◌, ◌-ℤ◌, ◌≤ℤ◌, +ℤ_parts, -ℤ_parts}
use kernel_rs.Prelude.Signed.{add_i32, sub_i32, add_i32_exact, sub_i32_exact}
use kernel_rs.Dirty.{Rect, DirtyRegion}
use kernel_rs.Dirty.Clip.{Sane}
use kernel_rs.Dirty.Merge
use kernel_rs.Dirty.Merge.{Covered}
use kernel_rs.Dirty.Add.{Added, add-Added}
use kernel_rs.Wm.{Wm, GuiWindow, window_rect_screen, damage}

-- A position within 2^20 of the corner, and a size of at most 2^20.
abbrev pub Near : ℤ → Type 0
Near a = (negsuc 1048575 ≤ℤ a) × (a ≤ℤ pos 1048576)

abbrev pub Small : ℤ → Type 0
Small a = (pos 0 ≤ℤ a) × (a ≤ℤ pos 1048576)

pub record InPlace (win : GuiWindow) : Type 0 where
  pub x : Near win.x
  pub y : Near win.y
  pub w : Small win.w
  pub h : Small win.h

less :
    (a : ℤ) (n : ℕ)
    → n ≤ 1048576
    → negsuc 1073741823 ≤ℤ a
    → a ≤ℤ pos 1073741824
    → sub_i32 a (pos n) ≡ a -ℤ pos n
less a n small low high =
    sub_i32_exact a (pos n) (omega (arith, -ℤ_parts, low, high), omega (arith, -ℤ_parts, low, high))

more :
    (a : ℤ) (n : ℕ)
    → n ≤ 1048576
    → negsuc 1073741823 ≤ℤ a
    → a ≤ℤ pos 1073741824
    → add_i32 a (pos n) ≡ a +ℤ pos n
more a n small low high =
    add_i32_exact a (pos n) (omega (arith, +ℤ_parts, low, high), omega (arith, +ℤ_parts, low, high))

-- The footprint of a window in integers without a bound.
pub window_rect_screen_lem :
    (w : GuiWindow)
    → InPlace w
    → window_rect_screen w ≡ record {
      x = w.x -ℤ pos 1;
      y = (w.y -ℤ pos 20) -ℤ pos 1;
      w = w.w +ℤ pos 2;
      h = (w.h +ℤ pos 20) +ℤ pos 2;
    }
unfolding window_rect_screen
window_rect_screen_lem w p =
    let x' = less w.x 1 (omega arith) (omega (arith, p.x)) (omega (arith, p.x)) in
    let y' = less w.y 20 (omega arith) (omega (arith, p.y)) (omega (arith, p.y)) in
    let y'' =
      less (w.y -ℤ pos 20) 1 (omega arith) (omega (arith, p.y, -ℤ_parts))
        (omega (arith, p.y, -ℤ_parts)) in
    let w' = more w.w 2 (omega arith) (omega (arith, p.w)) (omega (arith, p.w)) in
    let h' = more w.h 20 (omega arith) (omega (arith, p.h)) (omega (arith, p.h)) in
    let h'' =
      more (w.h +ℤ pos 20) 2 (omega arith) (omega (arith, p.h, +ℤ_parts))
        (omega (arith, p.h, +ℤ_parts)) in
    rw (x', y', y'', w', h', h'') refl

pub window_rect_screen-Sane : (w : GuiWindow) → InPlace w → Sane (window_rect_screen w)
window_rect_screen-Sane w p = subst Sane (sym (window_rect_screen_lem w p)) (record {
  across = record {
    at = (omega (arith, -ℤ_parts, p.x), omega (arith, -ℤ_parts, p.x));
    size = omega (arith, +ℤ_parts, p.w);
    end = omega (arith, -ℤ_parts, +ℤ_parts, p.x, p.w);
  };
  down = record {
    at = (omega (arith, -ℤ_parts, p.y), omega (arith, -ℤ_parts, p.y));
    size = omega (arith, +ℤ_parts, p.h);
    end = omega (arith, -ℤ_parts, +ℤ_parts, p.y, p.h);
  };
})

-- All that is the same in a window before and after its colours change.
pub record Recoloured (win win' : GuiWindow) : Type 0 where
  pub x : win'.x ≡ win.x
  pub y : win'.y ≡ win.y
  pub w : win'.w ≡ win.w
  pub h : win'.h ≡ win.h
  pub used : win'.used ≡ win.used
  pub vt : win'.vt ≡ win.vt

pub Recoloured-refl : (w : GuiWindow) → Recoloured w w
Recoloured-refl w = record { x = refl; y = refl; w = refl; h = refl; used = refl; vt = refl }

pub Recoloured-trans : (a b c : GuiWindow) → Recoloured a b → Recoloured b c → Recoloured a c
Recoloured-trans a b c p q = record {
  x = q.x ∙ p.x;
  y = q.y ∙ p.y;
  w = q.w ∙ p.w;
  h = q.h ∙ p.h;
  used = q.used ∙ p.used;
  vt = q.vt ∙ p.vt;
}

pub Recoloured-update :
    (wins : ℕ → GuiWindow) (i : ℕ) (w' : GuiWindow)
    → Recoloured (wins i) w'
    → (j : ℕ) → Recoloured (wins j) (update wins i w' j)
Recoloured-update wins i w' p j = elim (Bool-cases (j == i)) [
  | inl equal ↦ rw equal (subst (λ k. Recoloured (wins k) w') (sym ((==_iff j i).0 equal)) p)
  | inr differs ↦ rw differs (Recoloured-refl (wins j))
]

pub Recoloured-InPlace : (w w' : GuiWindow) → Recoloured w w' → InPlace w → InPlace w'
Recoloured-InPlace w w' r p = record {
  x = rw r.x p.x;
  y = rw r.y p.y;
  w = rw r.w p.w;
  h = rw r.h p.h;
}

module _ (sw sh : ℕ) (sw_fits : sw < 2147483648) (sh_fits : sh < 2147483648) where
  -- What a report of damage leaves.
  pub record Damaged (q : Rect) (g g' : Wm) : Type 0 where
    pub region : DirtyRegion
    pub is : g' ≡ record g { dirty = region }
    pub added : Added sw sh sw_fits sh_fits g.dirty q region

  pub damage-Damaged :
      (q : Rect) (g : Wm)
      → Merge.IsValid sw sh g.dirty
      → Sane q
      → (g' : Wm) × (damage q g ≡ some g') × Damaged q g g'
  unfolding damage
  damage-Damaged q g valid sane =
      let a = add-Added sw sh sw_fits sh_fits g.dirty q valid sane in
      (
        record g { dirty = a.0 },
        rw (damage, a.1) refl,
        record { region = a.0; is = refl; added = a.2 },
      )

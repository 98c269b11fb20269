-- ===== src/Wm/Over.antt =====
-- The pixels of a window, and the window under the mouse: `hit_test` of kernel-rs/src/gui/wm.rs.
use kernel_rs.Prelude.{
  ℕ, ◌<◌, ◌≡◌, refl, sym, ◌∙◌, ◌⊎◌, inl, inr, true, false, ◌&&◌, Option, none, some, arith,
  Bool-cases,
}
use kernel_rs.Prelude.Int.{ℤ, pos, ltb_ℤ, leb_ℤ, ◌+ℤ◌, ◌-ℤ◌, ◌≤ℤ◌, ◌<ℤ◌, +ℤ_parts, -ℤ_parts}
use kernel_rs.Prelude.Signed.{add_i32_exact, sub_i32_exact}
use kernel_rs.Wm.{Wm, GuiWindow, gui_max_windows, hits, hit_test}
use kernel_rs.Wm.Places.{InPlace}
use kernel_rs.Wm.Hit.{Topmost, hit_test-Topmost}

-- As wide as the window.
abbrev pub InColumns : GuiWindow → ℤ → Type 0
InColumns w mx = (w.x ≤ℤ mx) × (mx <ℤ w.x +ℤ w.w)

-- The 20 rows above the body.
abbrev pub InTitle : GuiWindow → ℤ → ℤ → Type 0
InTitle w mx my = InColumns w mx × (w.y -ℤ pos 20 ≤ℤ my) × (my <ℤ w.y)

abbrev pub InBody : GuiWindow → ℤ → ℤ → Type 0
InBody w mx my = InColumns w mx × (w.y ≤ℤ my) × (my <ℤ w.y +ℤ w.h)

abbrev pub Over : GuiWindow → ℤ → ℤ → Type 0
Over w mx my = InTitle w mx my ⊎ InBody w mx my

-- The window in use that is over the pixel and that no later window in use covers.
abbrev pub Uppermost : (ℕ → GuiWindow) → ℤ → ℤ → Option ℕ → Type 0
Uppermost wins mx my none =
    (j : ℕ) → j < gui_max_windows → (wins j).used ≡ true → ¬ Over (wins j) mx my
Uppermost wins mx my (some h) =
    (h < gui_max_windows)
    × ((wins h).used ≡ true)
    × Over (wins h) mx my
    × ((j : ℕ) → h < j → j < gui_max_windows → (wins j).used ≡ true → ¬ Over (wins j) mx my)

hits_exact :
    (w : GuiWindow) (mx my : ℤ)
    → InPlace w
    → hits w mx my
      ≡ (leb_ℤ w.x mx && ltb_ℤ mx (w.x +ℤ w.w) && leb_ℤ (w.y -ℤ pos 20) my && ltb_ℤ my (w.y +ℤ w.h))
unfolding hits
hits_exact w mx my p =
    let right =
      add_i32_exact w.x w.w
        (omega (arith, +ℤ_parts, p.x, p.w), omega (arith, +ℤ_parts, p.x, p.w)) in
    let bottom =
      add_i32_exact w.y w.h
        (omega (arith, +ℤ_parts, p.y, p.h), omega (arith, +ℤ_parts, p.y, p.h)) in
    let top =
      sub_i32_exact w.y (pos 20) (omega (arith, -ℤ_parts, p.y), omega (arith, -ℤ_parts, p.y)) in
    rw (hits, right, bottom, top) refl

hits-Over : (w : GuiWindow) (mx my : ℤ) → InPlace w → hits w mx my ≡ true → Over w mx my
hits-Over w mx my p hit =
    let h = sym (hits_exact w mx my p) ∙ hit in
    let across : InColumns w mx = (ground (arith, h), ground (arith, h)) in
    elim (Bool-cases (ltb_ℤ my w.y)) [
      | inl above ↦ inl (across, ground (arith, h), ground (arith, above))
      | inr below ↦ inr (across, ground (arith, below), ground (arith, h))
    ]

misses-Over : (w : GuiWindow) (mx my : ℤ) → InPlace w → hits w mx my ≡ false → ¬ Over w mx my
misses-Over w mx my p miss (inl (across, low, high)) =
    let h = sym (hits_exact w mx my p) ∙ miss in
    ground (arith, h, across, low, high, p.h, +ℤ_parts w.y w.h)
misses-Over w mx my p miss (inr (across, low, high)) =
    let h = sym (hits_exact w mx my p) ∙ miss in
    ground (arith, h, across, low, high, -ℤ_parts w.y (pos 20))

Topmost-Uppermost :
    (wins : ℕ → GuiWindow) (mx my : ℤ) (o : Option ℕ)
    → ((j : ℕ) → InPlace (wins j))
    → Topmost gui_max_windows wins mx my o
    → Uppermost wins mx my o
unfolding Topmost
Topmost-Uppermost wins mx my none place t =
    λ j lt used. misses-Over (wins j) mx my (place j) (t j lt used)
Topmost-Uppermost wins mx my (some h) place (lt, used, hit, rest) = (
  lt,
  used,
  hits-Over (wins h) mx my (place h) hit,
  λ j above below in_use. misses-Over (wins j) mx my (place j) (rest j above below in_use),
)

-- Of windows that are all placed within the bounds, `hit_test` answers the one in use with the greatest
-- index whose title bar of 20 rows or whose body has the pixel, and -1 exactly if there is none.
pub hit_test-Uppermost :
    (g : Wm) (mx my : ℤ)
    → ((j : ℕ) → InPlace (g.wins j))
    → Uppermost g.wins mx my (hit_test g mx my)
hit_test-Uppermost g mx my place =
    Topmost-Uppermost g.wins mx my (hit_test g mx my) place (hit_test-Topmost g mx my)

-- ===== src/Wm/Hit.antt =====
-- The window under the mouse.
use kernel_rs.Prelude.{
  ℕ, zero, suc, ◌<◌, ◌≡◌, sym, ◌∙◌, ap, inl, inr, true, false, Option, none, some, ◌==◌, arith,
  Bool-cases, ==_iff, ==→≢,
}
use kernel_rs.Prelude.Int.{ℤ}
use kernel_rs.Wm.{Wm, GuiWindow, gui_max_windows, hits, hit_from, hit_test}

-- The topmost of the windows in use that the pixel is in.
unfoldable pub Topmost : ℕ → (ℕ → GuiWindow) → ℤ → ℤ → Option ℕ → Type 0
Topmost n wins mx my none = (j : ℕ) → j < n → (wins j).used ≡ true → hits (wins j) mx my ≡ false
Topmost n wins mx my (some h) =
    (h < n)
    × ((wins h).used ≡ true)
    × (hits (wins h) mx my ≡ true)
    × ((j : ℕ) → h < j → j < n → (wins j).used ≡ true → hits (wins j) mx my ≡ false)

next :
    (n : ℕ) (wins : ℕ → GuiWindow) (mx my : ℤ)
    → ((wins n).used ≡ true → hits (wins n) mx my ≡ false)
    → (j : ℕ) → j < suc n
    → (wins j).used ≡ true
    → (j < n → (wins j).used ≡ true → hits (wins j) mx my ≡ false)
    → hits (wins j) mx my ≡ false
next n wins mx my miss j lt used below = elim (Bool-cases (j == n)) [
  | inl equal ↦
      let here = (==_iff j n).0 equal in
      ap (λ k. hits (wins k) mx my) here ∙ miss (ap (λ k. (wins k).used) (sym here) ∙ used)
  | inr differs ↦ below (omega (arith, lt, ==→≢ j n differs)) used
]

one_more :
    (n : ℕ) (wins : ℕ → GuiWindow) (mx my : ℤ) (o : Option ℕ)
    → ((wins n).used ≡ true → hits (wins n) mx my ≡ false)
    → Topmost n wins mx my o
    → Topmost (suc n) wins mx my o
unfolding Topmost
one_more n wins mx my none miss above = λ j lt used. next n wins mx my miss j lt used (above j)
one_more n wins mx my (some h) miss above =
    let (below, used_h, hit_h, rest) = above in
    (
      omega (arith, below),
      used_h,
      hit_h,
      λ j gt lt used. next n wins mx my miss j lt used (rest j gt),
    )

hit_from-Topmost :
    (n : ℕ) (wins : ℕ → GuiWindow) (mx my : ℤ) → Topmost n wins mx my (hit_from n wins mx my)
unfolding hit_from Topmost hits
hit_from-Topmost zero wins mx my = λ j h. elim h [ ]
hit_from-Topmost (suc n) wins mx my =
    let rest = hit_from-Topmost n wins mx my in
    elim (Bool-cases (wins n).used) [
      | inr unused ↦ rw unused (
          one_more n wins mx my (hit_from n wins mx my) (λ used. ground (arith, used, unused)) rest)
      | inl used ↦ elim (Bool-cases (hits (wins n) mx my)) [
        | inl hit ↦ rw (used, hit) (omega arith, used, hit, λ j h k. absurd (omega arith))
        | inr miss ↦
            rw (used, miss) (one_more n wins mx my (hit_from n wins mx my) (λ k. miss) rest)
      ]
    ]

-- `hit_test` finds the topmost window in use that the pixel is in the title bar or the body of, and -1
-- if there is none.
pub hit_test-Topmost :
    (g : Wm) (mx my : ℤ) → Topmost gui_max_windows g.wins mx my (hit_test g mx my)
unfolding hit_test
hit_test-Topmost g mx my = hit_from-Topmost gui_max_windows g.wins mx my

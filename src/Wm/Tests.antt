-- ===== src/Wm/Tests.antt =====
-- A terminal and the demo on a screen of 1280 by 800.
use mathlib.Core.Option.{some-injective, none-ne-some}
use kernel_rs.Prelude.{
  ℕ, ◌≡◌, ◌<◌, refl, inl, inr, true, false, none, some, [], ◌==◌, if◌then◌else◌, arith, Bool-cases,
  subst,
}
use kernel_rs.Prelude.Int.{pos, negsuc, ◌+ℤ◌, ◌-ℤ◌}
use kernel_rs.Prelude.Signed.{add_i32, sub_i32, wrap_i32}
use kernel_rs.Dirty
use kernel_rs.Dirty.Add.{init-IsValid}
use kernel_rs.Mouse.{Mouse, started}
use kernel_rs.Wm.{Wm, GuiWindow, wm_update_mouse, hit_test, hit_from, hits, drag}
use kernel_rs.Wm.Places.{InPlace}
use kernel_rs.Wm.Over.{Uppermost, hit_test-Uppermost}
use kernel_rs.Wm.Focus.{IsValid, is_at}
use kernel_rs.Wm.Drag.{Dragged, drag-Dragged}
use kernel_rs.Wm.Update.{Updated, wm_update_mouse-Updated}
use kernel_rs.Wm.Compose.{open_window}
use kernel_rs.Wm.Open.{Opened, open_window-Opened}

abbrev blank : GuiWindow
blank = record {
  title = [];
  x = pos 0;
  y = pos 0;
  w = pos 0;
  h = pos 0;
  body = none;
  frame = none;
  used = false;
  focused = false;
  content_dirty = false;
  chrome_dirty = false;
  animate = false;
  vt = none;
  on_paint = none;
}

abbrev terminal : GuiWindow
terminal = record blank {
  x = pos 60;
  y = pos 90;
  w = pos 456;
  h = pos 232;
  used = true;
  vt = some 0;
}

abbrev demo : GuiWindow
demo = record blank {
  x = pos 600;
  y = pos 200;
  w = pos 340;
  h = pos 200;
  used = true;
  focused = true;
}

abbrev desktop : Wm
desktop = record {
  wins = λ i. if i == 0 then terminal else (if i == 1 then demo else blank);
  focused_idx = some 1;
  dirty = Dirty.init Dirty.new (pos 1280) (pos 800);
  cursor_prev_x = negsuc 0;
  cursor_prev_y = pos 0;
  stat_paint_calls = 0;
  vt_win = λ i. if i == 0 then some 0 else none;
  want_new_term = false;
  prev_buttons = 0;
  drag_win = none;
  drag_offx = pos 0;
  drag_offy = pos 0;
  route_vt = none;
}

desktop-InPlace : (j : ℕ) → InPlace (desktop.wins j)
desktop-InPlace j = elim (Bool-cases (j == 0)) [
  | inl first ↦ rw first terminal_place
  | inr other ↦ elim (Bool-cases (j == 1)) [
    | inl second ↦ rw (other, second) demo_place
    | inr rest ↦ rw (other, rest) blank_place
  ]
]
  where
    terminal_place : InPlace terminal
    terminal_place = record {
      x = (omega arith, omega arith);
      y = (omega arith, omega arith);
      w = (omega arith, omega arith);
      h = (omega arith, omega arith);
    }

    demo_place : InPlace demo
    demo_place = record {
      x = (omega arith, omega arith);
      y = (omega arith, omega arith);
      w = (omega arith, omega arith);
      h = (omega arith, omega arith);
    }

    blank_place : InPlace blank
    blank_place = record {
      x = (omega arith, omega arith);
      y = (omega arith, omega arith);
      w = (omega arith, omega arith);
      h = (omega arith, omega arith);
    }

desktop-IsValid : IsValid 1280 800 desktop
unfolding is_at
desktop-IsValid = record {
  dirty = init-IsValid 1280 800 Dirty.new;
  table = record {
    placed = desktop-InPlace;
    focus = λ j. focus_at j;
    focus_used = λ f e.
        subst (λ k. (k < 8) × ((desktop.wins k).used ≡ true)) (some-injective 1 f e)
          (omega arith, refl);
    drag_used = λ i e. elim (none-ne-some i e) [ ];
  };
}
  where
    focus_at : (j : ℕ) → (desktop.wins j).focused ≡ (j == 1)
    focus_at j = elim (Bool-cases (j == 0)) [
      | inl first ↦ rw first (ground (arith, first))
      | inr other ↦ elim (Bool-cases (j == 1)) [
        | inl second ↦ rw (other, second) refl
        | inr rest ↦ rw (other, rest) refl
      ]
    ]

-- A left press on the title bar of the terminal.
abbrev press_title : Mouse
press_title = record started { x = pos 100; y = pos 80; buttons = 1 }

on_terminal : hit_test desktop press_title.x press_title.y ≡ some 0
unfolding hit_test hit_from hits add_i32 sub_i32 wrap_i32 ◌+ℤ◌ ◌-ℤ◌
on_terminal = refl

wm_update_mouse-Updated_example :
    (g' : Wm) × (wm_update_mouse 1280 800 press_title desktop ≡ some g')
    × Updated 1280 800
        (omega arith)
        (omega arith)
        (omega arith)
        (omega arith)
        press_title
        desktop
        g'
wm_update_mouse-Updated_example =
    wm_update_mouse-Updated 1280 800 (omega arith) (omega arith) (omega arith) (omega arith)
      press_title desktop desktop-IsValid

drag-Dragged_example :
    (g' : Wm) × (drag 1280 800 0 (pos 5000) (pos 5000) desktop ≡ some g')
    × Dragged 1280 800 (omega arith) (omega arith) (omega arith) (omega arith) 0 desktop g'
drag-Dragged_example =
    drag-Dragged 1280 800 (omega arith) (omega arith) (omega arith) (omega arith) 0 (pos 5000)
      (pos 5000) desktop desktop-IsValid.dirty (desktop-InPlace 0)

hit_test-Uppermost_example :
    Uppermost desktop.wins (pos 100) (pos 80) (hit_test desktop (pos 100) (pos 80))
hit_test-Uppermost_example = hit_test-Uppermost desktop (pos 100) (pos 80) desktop-InPlace

abbrev another : GuiWindow
another = record blank { x = pos 100; y = pos 100; w = pos 300; h = pos 100; used = true }

open_window-Opened_example :
    (g' : Wm) × (open_window 2 another desktop ≡ some g')
    × Opened 1280 800 (omega arith) (omega arith) 2 another desktop g'
open_window-Opened_example =
    open_window-Opened 1280 800 (omega arith) (omega arith) 2 another desktop desktop-IsValid
      (omega arith) refl refl refl
      (record {
        x = (omega arith, omega arith);
        y = (omega arith, omega arith);
        w = (omega arith, omega arith);
        h = (omega arith, omega arith);
      })

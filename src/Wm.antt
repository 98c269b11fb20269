-- ===== src/Wm.antt =====
-- The window manager, kernel-rs/src/gui/wm.rs: the window table, focus, hit test, dragging, and the
-- damage that these report. The table is a function of the index; a higher index is nearer to the
-- viewer. What is painted into a window is left out, but for the flags and the count that it changes;
-- `Painter` names the two painting functions.
pub mod Compose
pub mod Places
pub mod Hit
pub mod Over
pub mod Focus
pub mod Press
pub mod Drag
pub mod Update
pub mod Open
mod Tests
use Prim.Native.Nat.{bit_and}
use kernel_rs.Prelude.{
  ◌>>=◌, ℕ, zero, suc, ◌+◌, ◌-◌, ◌*◌, Bool, true, false, not, ◌&&◌, ◌||◌, Option, none, some, List,
  take, update, ◌%◌, ◌^◌, ltb, leb, ◌==◌, if◌then◌else◌,
}
use kernel_rs.Prelude.Int.{ℤ, pos, negsuc, ltb_ℤ, leb_ℤ, ◌-ℤ◌}
use kernel_rs.Prelude.Signed.{add_i32, sub_i32}
use kernel_rs.Dirty
use kernel_rs.Dirty.{Rect, DirtyRegion}
use kernel_rs.Mouse.{Mouse}
use kernel_rs.Pmm.{Pmm}
use kernel_rs.Surface
use kernel_rs.Surface.{Surface}

abbrev pub gui_max_windows : ℕ
gui_max_windows = 8

abbrev pub gui_title_h : ℕ
gui_title_h = 20

pub data Painter : Type 0 where
  paint_terminal : Painter
  paint_demo : Painter

pub record GuiWindow : Type 0 where
  pub title : List ℕ
  pub x : ℤ
  pub y : ℤ
  pub w : ℤ
  pub h : ℤ
  pub body : Option Surface
  pub frame : Option Surface
  pub used : Bool
  pub focused : Bool
  pub content_dirty : Bool
  pub chrome_dirty : Bool
  pub animate : Bool
  pub vt : Option ℕ
  pub on_paint : Option Painter

-- The statics of wm.rs, with those of `wm_update_mouse`, and ROUTE_VT of kbd.rs. An index is `none`
-- where the code has -1.
pub record Wm : Type 0 where
  pub wins : ℕ → GuiWindow
  pub focused_idx : Option ℕ
  pub dirty : DirtyRegion
  pub cursor_prev_x : ℤ
  pub cursor_prev_y : ℤ
  pub stat_paint_calls : ℕ
  pub vt_win : ℕ → Option ℕ
  pub want_new_term : Bool
  pub prev_buttons : ℕ
  pub drag_win : Option ℕ
  pub drag_offx : ℤ
  pub drag_offy : ℤ
  pub route_vt : Option ℕ

abbrev pub set_win : ℕ → GuiWindow → Wm → Wm
set_win i w g = record g { wins = update g.wins i w }

unfoldable pub window_rect_screen : GuiWindow → Rect
window_rect_screen w = record {
  x = sub_i32 w.x (pos 1);
  y = sub_i32 (sub_i32 w.y (pos gui_title_h)) (pos 1);
  w = add_i32 w.w (pos 2);
  h = add_i32 (add_i32 w.h (pos gui_title_h)) (pos 2);
}

-- `DIRTY.add`; `none` is the fuel of its loop.
unfoldable pub damage : Rect → Wm → Option Wm
damage q g = do d ← Dirty.add g.dirty q; some (record g { dirty = d })

unfoldable pub damage_footprint : GuiWindow → Wm → Option Wm
damage_footprint w g = damage (window_rect_screen w) g

-- `if c { DIRTY.add(q) }`.
unfoldable pub damage_if : Bool → Rect → Wm → Option Wm
damage_if c q g = if c then damage q g else some g

-- The number of a window that is in use.
unfoldable pub window_by_id : Option ℕ → Wm → Option ℕ
window_by_id none g = none
window_by_id (some i) g = if ltb i gui_max_windows && (g.wins i).used then some i else none

unfoldable pub mark_dirty : Option ℕ → Wm → Option Wm
mark_dirty id g = elim (window_by_id id g) [
  | none ↦ some g
  | some i ↦
      let w = record (g.wins i) { content_dirty = true } in damage_footprint w (set_win i w g)
]

-- `none` is a negative number.
unfoldable pub on_vt_dirty : Option ℕ → Wm → Option Wm
on_vt_dirty none g = some g
on_vt_dirty (some vt) g = if ltb vt 4 then mark_dirty (g.vt_win vt) g else some g

unfoldable pub on_fn_key : ℕ → Wm → Wm
on_fn_key f g = if f == 1 then record g { want_new_term = true } else g

-- The pixel is in the title bar or the body.
unfoldable pub hits : GuiWindow → ℤ → ℤ → Bool
hits w mx my =
    leb_ℤ w.x mx
    && ltb_ℤ mx (add_i32 w.x w.w)
    && leb_ℤ (sub_i32 w.y (pos gui_title_h)) my
    && ltb_ℤ my (add_i32 w.y w.h)

-- The loop of `hit_test`, downwards from the window `n - 1`.
unfoldable pub hit_from : ℕ → (ℕ → GuiWindow) → ℤ → ℤ → Option ℕ
hit_from zero wins mx my = none
hit_from (suc n) wins mx my =
    let rest = hit_from n wins mx my in
    if not (wins n).used then rest else (if hits (wins n) mx my then some n else rest)

unfoldable pub hit_test : Wm → ℤ → ℤ → Option ℕ
hit_test g mx my = hit_from gui_max_windows g.wins mx my

-- The window `f` loses the focus.
unfoldable pub unfocus : ℕ → Wm → Option Wm
unfocus f g =
    let w = record (g.wins f) { focused = false; chrome_dirty = true } in
    damage (window_rect_screen w) (set_win f w g)

-- A press on the window `h` takes the focus from the window `o`, unless that is the one.
unfoldable pub take_from : Option ℕ → ℕ → Wm → Option Wm
take_from none h g = some g
take_from (some f) h g = if not (f == h) then unfocus f g else some g

unfoldable pub take_focus : ℕ → Wm → Option Wm
take_focus h g = take_from g.focused_idx h g

-- The window `h` is repainted unless it had the focus.
unfoldable pub repaint_if : Bool → ℕ → Wm → Option Wm
repaint_if true h g = some g
repaint_if false h g =
    let w = record (g.wins h) { chrome_dirty = true } in
    damage (window_rect_screen w) (set_win h w g)

-- The window `h` gets the focus.
unfoldable pub give_focus : ℕ → Wm → Option Wm
give_focus h g = do
  g' ← repaint_if (g.wins h).focused h (record g { focused_idx = some h })
  some (set_win h (record (g'.wins h) { focused = true }) g')

-- Where typed characters go after a press on a window with the terminal `vt`.
unfoldable pub routed : Option ℕ → Option ℕ → Option ℕ
routed none route = route
routed (some vt) route = some vt

-- A press on the title bar of `h` begins a drag.
unfoldable pub grab_if : Bool → ℕ → ℤ → ℤ → Wm → Wm
grab_if false h mx my g = g
grab_if true h mx my g = record g {
  drag_win = some h;
  drag_offx = sub_i32 mx (g.wins h).x;
  drag_offy = sub_i32 my (g.wins h).y;
}

-- The keyboard goes to the terminal of `h`.
unfoldable pub grab : ℕ → ℤ → ℤ → Wm → Wm
grab h mx my g =
    grab_if (ltb_ℤ my (g.wins h).y) h mx my
      (record g { route_vt = routed (g.wins h).vt g.route_vt })

-- A left press on the window `h`.
unfoldable pub press : ℕ → ℤ → ℤ → Wm → Option Wm
press h mx my g = do g' ← take_focus h g; g'' ← give_focus h g'; some (grab h mx my g'')

-- A window's place is kept within reach.
unfoldable pub clamp_between : ℤ → ℤ → ℤ → ℤ
clamp_between low high a =
    let a' = if ltb_ℤ a low then low else a in if ltb_ℤ high a' then high else a'

unfoldable pub drag_x : ℕ → GuiWindow → ℤ → ℤ
drag_x width w x =
    clamp_between (add_i32 (sub_i32 (pos 0) w.w) (pos 40)) (sub_i32 (pos width) (pos 40)) x

unfoldable pub drag_y : ℕ → ℤ → ℤ
drag_y height y = clamp_between (pos gui_title_h) (sub_i32 (pos height) (pos 20)) y

-- `!(w.x != old_x || w.y != old_y)`.
abbrev pub stays : GuiWindow → GuiWindow → Bool
stays old w = leb_ℤ w.x old.x && leb_ℤ old.x w.x && leb_ℤ w.y old.y && leb_ℤ old.y w.y

-- Both places of a window that has moved are damaged.
unfoldable pub moved : GuiWindow → GuiWindow → Wm → Option Wm
moved old w g =
    if stays old w
    then some g
    else (do g' ← damage (window_rect_screen old) g; damage (window_rect_screen w) g')

-- The window `i` follows the mouse.
unfoldable pub drag : ℕ → ℕ → ℕ → ℤ → ℤ → Wm → Option Wm
drag width height i mx my g =
    let old = g.wins i in
    let w = record old {
      x = drag_x width old (sub_i32 mx g.drag_offx);
      y = drag_y height (sub_i32 my g.drag_offy);
    } in
    moved old w (set_win i w g)

-- Bit 0 of `buttons & !prev`.
abbrev pub left_pressed : ℕ → ℕ → Bool
left_pressed prev buttons = not (bit_and buttons 1 == 0) && (bit_and prev 1 == 0)

unfoldable pub press_at : Option ℕ → Mouse → Wm → Option Wm
press_at none m g = some g
press_at (some h) m g = press h m.x m.y g

-- The first part: a left press on a window.
unfoldable pub presses : Mouse → Wm → Option Wm
presses m g =
    if left_pressed g.prev_buttons m.buttons then press_at (hit_test g m.x m.y) m g else some g

unfoldable pub drag_any : Option ℕ → ℕ → ℕ → Mouse → Wm → Option Wm
drag_any none width height m g = some g
drag_any (some i) width height m g = drag width height i m.x m.y g

-- The second part: the drag goes on while the button is held.
unfoldable pub drags : ℕ → ℕ → Mouse → Wm → Option Wm
drags width height m g =
    if bit_and m.buttons 1 == 0
    then some (record g { drag_win = none })
    else drag_any g.drag_win width height m g

unfoldable pub wm_update_mouse : ℕ → ℕ → Mouse → Wm → Option Wm
wm_update_mouse width height m g = do
  g' ← presses m g
  g'' ← drags width height m g'
  some (record g'' { prev_buttons = m.buttons })

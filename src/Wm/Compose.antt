-- ===== src/Wm/Compose.antt =====
-- New windows, and a round of the compositor up to its list of rectangles to repaint:
-- `frame_render`, `create_window` and the first half of `compositor_thread` of
-- kernel-rs/src/gui/wm.rs.
use kernel_rs.Prelude.{
  ◌>>=◌, ℕ, zero, suc, ◌+◌, Bool, true, false, ◌&&◌, ◌||◌, Option, none, some, List, take, update,
  ◌%◌, ◌^◌, if◌then◌else◌,
}
use kernel_rs.Prelude.Int.{ℤ, pos, ltb_ℤ, leb_ℤ}
use kernel_rs.Prelude.Signed.{add_i32}
use kernel_rs.Dirty
use kernel_rs.Dirty.{Rect, DirtyRegion}
use kernel_rs.Mouse.{Mouse}
use kernel_rs.Pmm.{Pmm}
use kernel_rs.Surface
use kernel_rs.Surface.{Surface}
use kernel_rs.Wm.{
  gui_max_windows, gui_title_h, GuiWindow, Painter, Wm, set_win, window_rect_screen, damage,
  damage_if, mark_dirty, unfocus, wm_update_mouse,
}

-- `frame_render`, but for what is painted.
unfoldable pub frame_render : ℕ → Wm → Wm
frame_render i g =
    let w = g.wins i in
    record g {
      wins = update g.wins i (record w { content_dirty = false; chrome_dirty = false });
      stat_paint_calls = elim w.on_paint [
        | none ↦ g.stat_paint_calls
        | some p ↦ (g.stat_paint_calls + 1) % 2 ^ 64
      ];
    }

-- The window that has the focus loses it to a new one.
unfoldable pub unfocus_any : Option ℕ → Wm → Option Wm
unfocus_any none g = some g
unfocus_any (some f) g = unfocus f g

abbrev pub unfocus_current : Wm → Option Wm
unfocus_current g = unfocus_any g.focused_idx g

-- The window that has the slot `old`, with its surfaces.
abbrev pub new_window :
    List ℕ → ℤ → ℤ → ℤ → ℤ → Option Painter → Surface → Surface → GuiWindow → GuiWindow
new_window title x y w h on_paint body frame old = record old {
  body = some body;
  frame = some frame;
  title = take 23 title;
  x = x;
  y = y;
  w = w;
  h = h;
  used = true;
  vt = none;
  on_paint = on_paint;
}

abbrev pub focus_new : ℕ → Wm → Wm
focus_new i g = record g {
  wins = update g.wins i (record (g.wins i) { focused = true });
  focused_idx = some i;
}

unfoldable pub open_window : ℕ → GuiWindow → Wm → Option Wm
open_window i win g = do
  g' ← unfocus_current (set_win i win g)
  let painted = frame_render i (focus_new i g')
  damage (window_rect_screen (painted.wins i)) painted

-- The window in the free slot `i`: -1 when a surface cannot be had, which keeps the other one.
unfoldable pub make_window :
    ℕ → List ℕ → ℤ → ℤ → ℤ → ℤ → Option Painter → Wm × Pmm → Option ((Wm × Pmm) × Option ℕ)
make_window i title x y w h on_paint (g, p) = do
  (p1, body) ← Surface.create w h p
  (p2, frame) ←
      Surface.create (add_i32 w (pos 2)) (add_i32 (add_i32 h (pos gui_title_h)) (pos 2)) p1
  elim body [
    | none ↦ some ((g, p2), none)
    | some b ↦ elim frame [
      | none ↦ some ((g, p2), none)
      | some f ↦ do
        g' ← open_window i (new_window title x y w h on_paint b f (g.wins i)) g
        some ((g', p2), some i)
    ]
  ]

-- The loop of `create_window`, with the rounds left.
unfoldable pub create_window_from :
    ℕ → ℕ → List ℕ → ℤ → ℤ → ℤ → ℤ → Option Painter → Wm × Pmm → Option ((Wm × Pmm) × Option ℕ)
create_window_from zero i title x y w h on_paint (g, p) = some ((g, p), none)
create_window_from (suc n) i title x y w h on_paint (g, p) =
    let rest = create_window_from n (i + 1) title x y w h on_paint (g, p) in
    if (g.wins i).used then rest else make_window i title x y w h on_paint (g, p)

unfoldable pub create_window :
    List ℕ → ℤ → ℤ → ℤ → ℤ → Option Painter → Wm × Pmm → Option ((Wm × Pmm) × Option ℕ)
create_window title x y w h on_paint s =
    create_window_from gui_max_windows 0 title x y w h on_paint s

unfoldable pub rect_intersects : Rect → Rect → Bool
rect_intersects a b =
    ltb_ℤ a.x (add_i32 b.x b.w)
    && ltb_ℤ b.x (add_i32 a.x a.w)
    && ltb_ℤ a.y (add_i32 b.y b.h)
    && ltb_ℤ b.y (add_i32 a.y a.h)

-- The compositor's first step, the damage of a cursor that has moved.
unfoldable pub cursor_damage : Mouse → Wm → Option Wm
cursor_damage m g =
    if leb_ℤ m.x g.cursor_prev_x
      && leb_ℤ g.cursor_prev_x m.x
      && leb_ℤ m.y g.cursor_prev_y
      && leb_ℤ g.cursor_prev_y m.y
    then some g
    else do
      g' ←
          damage_if (leb_ℤ (pos 0) g.cursor_prev_x)
            (record { x = g.cursor_prev_x; y = g.cursor_prev_y; w = pos 12; h = pos 18 }) g
      g'' ← damage (record { x = m.x; y = m.y; w = pos 12; h = pos 18 }) g'
      some (record g'' { cursor_prev_x = m.x; cursor_prev_y = m.y })

-- Its second, the windows that change with every frame.
unfoldable pub mark_animated : ℕ → ℕ → Wm → Option Wm
mark_animated zero i g = some g
mark_animated (suc n) i g =
    if (g.wins i).used && (g.wins i).animate
    then (do g' ← mark_dirty (some i) g; mark_animated n (i + 1) g')
    else mark_animated n (i + 1) g

-- Its third, the frames that are out of date.
unfoldable pub refresh_frames : ℕ → ℕ → Wm → Wm
refresh_frames zero i g = g
refresh_frames (suc n) i g =
    let w = g.wins i in
    refresh_frames n (i + 1)
      (if w.used && (w.content_dirty || w.chrome_dirty) then frame_render i g else g)

-- A round of the compositor up to its list of rectangles to repaint.
unfoldable pub collect : ℕ → ℕ → Mouse → Wm → Option (Wm × List Rect)
collect width height m g = do
  g1 ← wm_update_mouse width height m g
  g2 ← cursor_damage m g1
  g3 ← mark_animated gui_max_windows 0 g2
  let g4 = refresh_frames gui_max_windows 0 g3
  let out = Dirty.flush g4.dirty Dirty.dirty_max_rects
  some (record g4 { dirty = out.0 }, out.1)

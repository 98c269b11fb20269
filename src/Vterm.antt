-- ===== src/Vterm.antt =====
-- The virtual terminals, kernel-rs/src/vterm.rs: four grids of 14 rows, each with a write position
-- and an input ring. The grid is a function of the row and the column. The hook that repaints a
-- window belongs to the window manager: a call of it is the terminal's number in the result.
pub mod Paper
pub mod Isolation
mod Tests
use kernel_rs.Prelude.{
  ℕ, zero, suc, ◌+◌, ◌-◌, Bool, true, false, not, ◌||◌, Option, none, some, update, ltb, leb, ◌==◌,
  if◌then◌else◌,
}
use kernel_rs.Ring
use kernel_rs.Ring.{Ring}

abbrev pub vt_max : ℕ
vt_max = 4

abbrev pub vt_rows : ℕ
vt_rows = 14

abbrev pub vt_cols : ℕ
vt_cols = 56

pub record Vterm : Type 0 where
  pub used : Bool
  pub grid : ℕ → ℕ → ℕ
  pub row : ℕ
  pub col : ℕ
  pub inq : Ring

abbrev pub empty : Vterm
empty = record { used = false; grid = λ r c. b' '; row = 0; col = 0; inq = Ring.empty }

-- TERMS, CONSOLE_UP, and whether DIRTY_HOOK is set.
pub record Terms : Type 0 where
  pub vts : ℕ → Vterm
  pub console_up : Bool
  pub dirty_hook : Bool

-- The loop of `create` over the slots, with the rounds left. `none` is the -1 of a full table.
pub create_from : ℕ → ℕ → Terms → Terms × Option ℕ
create_from zero i t = (t, none)
create_from (suc n) i t =
    let rest = create_from n (i + 1) t in
    if (t.vts i).used then rest else (
      record t {
        vts = update t.vts i (record empty { used = true });
        console_up = if i == 0 then true else t.console_up;
      },
      some i,
    )

pub create : Terms → Terms × Option ℕ
unfolding create_from
create t = create_from vt_max 0 t

pub set_dirty_hook : Terms → Terms
set_dirty_hook t = record t { dirty_hook = true }

-- Each row takes the text of the one below it, and the last becomes blank.
unfoldable pub scroll : Vterm → Vterm
scroll v = record v {
  grid = λ r.
      if ltb r (vt_rows - 1)
      then v.grid (r + 1)
      else (if r == vt_rows - 1 then (λ c. b' ') else v.grid r);
  row = vt_rows - 1;
}

-- `v.row += 1` and the scroll at the bottom.
unfoldable pub line_feed : Vterm → Vterm
unfolding scroll
line_feed v =
    let down = record v { row = v.row + 1; col = 0 } in
    if leb vt_rows (v.row + 1) then scroll down else down

-- The part of `putc_vt` after its early returns, for one terminal: a byte that is no carriage return.
unfoldable pub putc : ℕ → Vterm → Vterm
unfolding line_feed
putc c v =
    if c == b'\n'
    then line_feed v
    else (let written = record v { grid = update v.grid v.row (update (v.grid v.row) v.col c) } in
        if leb vt_cols (v.col + 1) then line_feed written else record written { col = v.col + 1 })

-- A terminal's number is out of range or free.
abbrev pub absent : ℕ → Terms → Bool
absent id t = leb vt_max id || not (t.vts id).used

-- The second part is the terminal for which the hook is called.
unfoldable pub putc_vt : ℕ → ℕ → Terms → Terms × Option ℕ
putc_vt id c t =
    if absent id t
    then (t, none)
    else (if c == b'\r' then (t, none) else (
      record t { vts = update t.vts id (putc c (t.vts id)) },
      if t.dirty_hook then some id else none,
    ))

-- A negative id is `none`.
unfoldable pub push : Option ℕ → ℕ → Terms → Terms
push none c t = t
push (some id) c t =
    if absent id t
    then t
    else record t { vts = update t.vts id (record (t.vts id) { inq = Ring.push c (t.vts id).inq }) }

unfoldable pub getc : ℕ → Terms → Option ℕ × Terms
getc id t =
    if absent id t
    then (none, t)
    else (let (c, r) = Ring.pop (t.vts id).inq in
        (c, record t { vts = update t.vts id (record (t.vts id) { inq = r }) }))

-- The first `vt_cols` bytes of a row, by column.
pub row_at : ℕ → ℕ → Terms → Option (ℕ → ℕ)
row_at id r t = if leb vt_max id || leb vt_rows r then none else some ((t.vts id).grid r)

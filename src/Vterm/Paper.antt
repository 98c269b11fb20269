-- ===== src/Vterm/Paper.antt =====
-- A terminal compared with a paper roll on which the same text is written (`putc_vt`).
use kernel_rs.Prelude.{
  ℕ, ◌+◌, ◌<◌, ◌≡◌, refl, ap, inl, inr, true, false, List, [], ◌∷◌, update, ltb, leb, ◌==◌,
  if◌then◌else◌, Bool-cases, arith, sym, subst, ◌∙◌, ◌≢◌, not, ◌||◌, update_self,
}
use kernel_rs.Vterm.{
  Vterm, Terms, vt_max, vt_rows, vt_cols, scroll, line_feed, putc, putc_vt, absent, empty,
}
use kernel_rs.Vterm.Isolation.{putc_vt-Touches}

-- Unbounded lines of 56 columns, and the position of the next byte.
pub record Paper : Type 0 where
  pub cell : ℕ → ℕ → ℕ
  pub line : ℕ
  pub col : ℕ

abbrev pub blank : Paper
blank = record { cell = λ l c. b' '; line = 0; col = 0 }

-- A byte that leaves a mark or ends a line.
abbrev pub put : ℕ → Paper → Paper
put c p =
    if c == b'\n'
    then record p { line = p.line + 1; col = 0 }
    else (let inked = record p { cell = update p.cell p.line (update (p.cell p.line) p.col c) } in
        if p.col + 1 == vt_cols
        then record inked { line = p.line + 1; col = 0 }
        else record inked { col = p.col + 1 })

-- A carriage return does nothing.
abbrev pub write : ℕ → Paper → Paper
write c p = if c == b'\r' then p else put c p

-- The terminal is in bounds and shows the lines of the paper from `top` on; below the last line
-- the paper is blank.
pub record Shows (p : Paper) (top : ℕ) (v : Vterm) : Type 0 where
  pub row_in : v.row < vt_rows
  pub col_in : v.col < vt_cols
  pub line_at : p.line ≡ top + v.row
  pub col_at : p.col ≡ v.col
  pub text : (r c : ℕ) → r < vt_rows → v.grid r c ≡ p.cell (top + r) c
  pub below : (l c : ℕ) → p.line < l → p.cell l c ≡ b' '

-- The line at the top after one more byte.
abbrev pub top_after : ℕ → Paper → ℕ → Vterm → ℕ
top_after c p top v = if ltb (top + 13) (put c p).line then top + 1 else top

line_feed-Shows :
    (p : Paper) (top : ℕ) (v : Vterm)
    → Shows p top v
    → Shows
        (record p { line = p.line + 1; col = 0 })
        (if ltb (top + 13) (p.line + 1) then top + 1 else top)
        (line_feed v)
unfolding line_feed scroll
line_feed-Shows p top v s = elim (Bool-cases (leb vt_rows (v.row + 1))) [
  | inl bottom ↦
      let last : v.row ≡ 13 = ground arith in
      let rolls : ltb (top + 13) (p.line + 1) ≡ true = ground (arith, s.line_at) in
      rw (bottom, rolls)
        (record {
          row_in = omega arith;
          col_in = omega arith;
          line_at = omega (arith, s.line_at);
          col_at = refl;
          text = λ r c h. ground (
            arith,
            s.text (r + 1) c,
            s.below (top + 1 + r) c,
            s.line_at,
            ap (λ (k : ℕ). p.cell k c) {x = top + (r + 1)} {y = top + 1 + r},
          );
          below = λ l c h. s.below l c (omega arith);
        })
  | inr room ↦
      let stays : ltb (top + 13) (p.line + 1) ≡ false = ground (arith, s.line_at) in
      rw (room, stays)
        (record {
          row_in = ground arith;
          col_in = omega arith;
          line_at = omega (arith, s.line_at);
          col_at = refl;
          text = s.text;
          below = λ l c h. s.below l c (omega arith);
        })
]

-- A byte that is no line feed, before the position moves on.
ink-Shows :
    (c : ℕ) (p : Paper) (top : ℕ) (v : Vterm)
    → Shows p top v
    → Shows
        (record p { cell = update p.cell p.line (update (p.cell p.line) p.col c) })
        top
        (record v { grid = update v.grid v.row (update (v.grid v.row) v.col c) })
ink-Shows c p top v s = record {
  row_in = s.row_in;
  col_in = s.col_in;
  line_at = s.line_at;
  col_at = s.col_at;
  text = λ r k h. ground (
    arith,
    s.line_at,
    s.col_at,
    s.text r k h,
    ap (λ (l : ℕ). p.cell l k) {x = p.line} {y = top + r},
    ap (λ (l : ℕ). v.grid l k) {x = v.row} {y = r},
  );
  below = λ l k h. ground (arith, s.below l k h);
}

-- Writing a byte that is no carriage return to a terminal that shows a paper roll, at the position of the roll, gives a
-- terminal that shows the roll with that byte written, in bounds; the window moves down by one
-- line exactly when the roll's line would leave it.
pub putc_refines :
    (c : ℕ) (p : Paper) (top : ℕ) (v : Vterm)
    → Shows p top v
    → Shows (put c p) (top_after c p top v) (putc c v)
unfolding putc
putc_refines c p top v s = elim (Bool-cases (c == b'\n')) [
  | inl nl ↦ rw nl (line_feed-Shows p top v s)
  | inr ink ↦
      let inked = ink-Shows c p top v s in
      elim (Bool-cases (p.col + 1 == vt_cols)) [
        | inl full ↦
            let full' : leb vt_cols (v.col + 1) ≡ true = ground (arith, s.col_at) in
            rw (ink, full, full') (line_feed-Shows _ top _ inked)
        | inr room ↦
            let room' : leb vt_cols (v.col + 1) ≡ false = ground (arith, s.col_at, s.col_in) in
            let stays : ltb (top + 13) p.line ≡ false = ground (arith, s.line_at, s.row_in) in
            rw (ink, room, room', stays)
              (record {
                row_in = s.row_in;
                col_in = ground arith;
                line_at = s.line_at;
                col_at = omega (arith, s.col_at);
                text = inked.text;
                below = inked.below;
              })
      ]
]

-- A text, byte by byte, to the terminal `id`.
unfoldable pub puts : ℕ → List ℕ → Terms → Terms
puts id [] t = t
puts id (c ∷ cs) t = puts id cs (putc_vt id c t).0

pub write_all : List ℕ → Paper → Paper
write_all [] p = p
write_all (c ∷ cs) p = write_all cs (write c p)

fresh-Shows : Shows blank 0 (record empty { used = true })
fresh-Shows = record {
  row_in = omega arith;
  col_in = omega arith;
  line_at = refl;
  col_at = refl;
  text = λ r c h. refl;
  below = λ l c h. refl;
}

putc_vt_refines :
    (id c : ℕ) (p : Paper) (top : ℕ) (t : Terms)
    → absent id t ≡ false
    → Shows p top (t.vts id)
    → (top' : ℕ) × Shows (write c p) top' ((putc_vt id c t).0.vts id)
unfolding putc_vt
putc_vt_refines id c p top t there s = elim (Bool-cases (c == b'\r')) [
  | inl returns ↦ (top, rw (there, returns) s)
  | inr other ↦ (
    top_after c p top (t.vts id),
    rw (there, other)
        (subst (Shows (put c p) (top_after c p top (t.vts id)))
          (sym (update_self t.vts id (putc c (t.vts id)))) (putc_refines c p top (t.vts id) s)),
  )
]

still_there : (id c : ℕ) (t : Terms) → absent id t ≡ false → absent id (putc_vt id c t).0 ≡ false
still_there id c t there =
    ap (λ b. leb vt_max id || not b) ((putc_vt-Touches id c t).0.in_use id) ∙ there

puts-Shows :
    (id : ℕ) (cs : List ℕ) (p : Paper) (top : ℕ) (t : Terms)
    → absent id t ≡ false
    → Shows p top (t.vts id)
    → (top' : ℕ) × Shows (write_all cs p) top' ((puts id cs t).vts id)
      × ((j : ℕ) → j ≢ id → (puts id cs t).vts j ≡ t.vts j)
unfolding puts write_all
puts-Shows id [] p top t there s = (top, s, λ j ne. refl)
puts-Shows id (c ∷ cs) p top t there s =
    let (top1, one) = putc_vt_refines id c p top t there s in
    let (top', rest, others) =
      puts-Shows id cs (write c p) top1 (putc_vt id c t).0 (still_there id c t there) one in
    (top', rest, λ j ne. others j ne ∙ (putc_vt-Touches id c t).0.others j ne)

-- Whatever text is written with `putc_vt` to a terminal in use that is fresh, the position stays in
-- bounds and the 14 rows are 14 lines in a row of the paper roll on which that text is written, without
-- its carriage returns, the last line among them; and no other terminal changes.
pub puts_refines :
    (id : ℕ) (cs : List ℕ) (t : Terms)
    → absent id t ≡ false
    → t.vts id ≡ record empty { used = true }
    → (top : ℕ) × Shows (write_all cs blank) top ((puts id cs t).vts id)
      × ((j : ℕ) → j ≢ id → (puts id cs t).vts j ≡ t.vts j)
puts_refines id cs t there fresh =
    puts-Shows id cs blank 0 t there (subst (Shows blank 0) (sym fresh) fresh-Shows)

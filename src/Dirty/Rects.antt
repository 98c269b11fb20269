-- ===== src/Dirty/Rects.antt =====
-- Rectangles on the screen: what clipping and union do to them, and to the pixels inside.
use kernel_rs.Prelude.{
  ℕ, ◌+◌, ◌-◌, ◌<◌, ◌≤◌, ◌≡◌, refl, ◌∙◌, ap, Bool, ◌&&◌, min, max, arith, subst,
}
use kernel_rs.Prelude.Int.{pos, ◌+ℤ◌, ◌≤ℤ◌, ◌<ℤ◌, leb_ℤ, +ℤ_parts}
use kernel_rs.Prelude.Signed.{add_i32, add_i32-pos, sub_i32-pos, min_ℤ-pos, max_ℤ-pos}
use kernel_rs.Dirty.{Rect, union, touching}

-- A pixel lies in a rectangle, by exact arithmetic.
abbrev pub Inside : Rect → ℕ → ℕ → Type 0
Inside q px py =
    ((q.x ≤ℤ pos px) × (pos px <ℤ q.x +ℤ q.w)) × ((q.y ≤ℤ pos py) × (pos py <ℤ q.y +ℤ q.h))

abbrev pub rect : ℕ → ℕ → ℕ → ℕ → Rect
rect x y w h = record { x = pos x; y = pos y; w = pos w; h = pos h }

module _ (sw sh : ℕ) where
  -- A rectangle with an area, within the screen.
  pub record OnScreen (q : Rect) : Type 0 where
    pub left : ℕ
    pub top : ℕ
    pub width : ℕ
    pub height : ℕ
    pub is : q ≡ rect left top width height
    pub wide : 0 < width
    pub high : 0 < height
    pub right_in : left + width ≤ sw
    pub bottom_in : top + height ≤ sh

  -- What the union is, on the screen.
  bounding_box :
      (x y w h x' y' w' h' : ℕ)
      → x + w < 2147483648
      → y + h < 2147483648
      → x' + w' < 2147483648
      → y' + h' < 2147483648
      → union (rect x y w h) (rect x' y' w' h')
        ≡ rect
            (min x x')
            (min y y')
            (max (x + w) (x' + w') - min x x')
            (max (y + h) (y' + h') - min y y')
  unfolding union
  bounding_box x y w h x' y' w' h' a b c d =
      rw
        (
          min_ℤ-pos x x',
          min_ℤ-pos y y',
          add_i32-pos x w a,
          add_i32-pos y h b,
          add_i32-pos x' w' c,
          add_i32-pos y' h' d,
          max_ℤ-pos (x + w) (x' + w'),
          max_ℤ-pos (y + h) (y' + h'),
          sub_i32-pos (max (x + w) (x' + w')) (min x x') (omega arith) (omega arith),
          sub_i32-pos (max (y + h) (y' + h')) (min y y') (omega arith) (omega arith),
        )
        refl

  module _ (sw_fits : sw < 2147483648) (sh_fits : sh < 2147483648) where
    -- The union of two rectangles on the screen, as a third.
    union_is :
        (a b : Rect) (m : OnScreen a) (n : OnScreen b)
        → union a b
          ≡ rect
              (min m.left n.left)
              (min m.top n.top)
              (max (m.left + m.width) (n.left + n.width) - min m.left n.left)
              (max (m.top + m.height) (n.top + n.height) - min m.top n.top)
    union_is a b m n =
        ap (λ q. union q b) m.is
        ∙ ap (union (rect m.left m.top m.width m.height)) n.is
        ∙ bounding_box m.left m.top m.width m.height n.left n.top n.width n.height
            (omega (arith, m.right_in, sw_fits)) (omega (arith, m.bottom_in, sh_fits))
            (omega (arith, n.right_in, sw_fits)) (omega (arith, n.bottom_in, sh_fits))

    pub union-OnScreen : (a b : Rect) → OnScreen a → OnScreen b → OnScreen (union a b)
    union-OnScreen a b m n = record {
      left = min m.left n.left;
      top = min m.top n.top;
      width = max (m.left + m.width) (n.left + n.width) - min m.left n.left;
      height = max (m.top + m.height) (n.top + n.height) - min m.top n.top;
      is = union_is a b m n;
      wide = omega (arith, m.wide);
      high = omega (arith, m.high);
      right_in = omega (arith, m.right_in, n.right_in, m.wide);
      bottom_in = omega (arith, m.bottom_in, n.bottom_in, m.high);
    }

    pub union-Inside_left :
        (a b : Rect) (px py : ℕ)
        → OnScreen a
        → OnScreen b
        → Inside a px py
        → Inside (union a b) px py
    union-Inside_left a b px py m n i =
        let i' = subst (λ (q : Rect). Inside q px py) m.is i in
        rw (union_is a b m n) (omega (arith, +ℤ_parts, i'))

    pub union-Inside_right :
        (a b : Rect) (px py : ℕ)
        → OnScreen a
        → OnScreen b
        → Inside b px py
        → Inside (union a b) px py
    union-Inside_right a b px py m n i =
        let i' = subst (λ (q : Rect). Inside q px py) n.is i in
        rw (union_is a b m n) (omega (arith, +ℤ_parts, i'))

and4_swap : (p q r s : Bool) → (p && q && r && s) ≡ (q && p && s && r)
and4_swap p q r s = ground arith

pub touching_comm : (a b : Rect) → touching a b ≡ touching b a
unfolding touching
touching_comm a b =
    and4_swap (leb_ℤ a.x (add_i32 b.x b.w)) (leb_ℤ b.x (add_i32 a.x a.w))
      (leb_ℤ a.y (add_i32 b.y b.h)) (leb_ℤ b.y (add_i32 a.y a.h))

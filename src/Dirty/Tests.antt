-- ===== src/Dirty/Tests.antt =====
-- Damage on a screen of 100 by 100 pixels, as in the self test of dirty.rs.
use kernel_rs.Prelude.{zero, false, ◌≢◌, ℕ, suc, ◌<◌, ◌≡◌, refl, some, arith, update}
use kernel_rs.Prelude.Int.{pos, negsuc, ◌+ℤ◌, ◌-ℤ◌, min_ℤ, max_ℤ}
use kernel_rs.Prelude.Signed.{add_i32, sub_i32, wrap_i32}
use kernel_rs.Dirty.{Rect, DirtyRegion, new, add, clip, union, touching, merge_from, store}
use kernel_rs.Dirty.Rects.{rect, OnScreen}
use kernel_rs.Dirty.Clip.{Sane}
use kernel_rs.Dirty.Merge.{IsValid}
use kernel_rs.Dirty.Add.{Added, add-Added}

abbrev screen : DirtyRegion
screen = record new { bw = pos 100; bh = pos 100 }

-- Two rectangles that do not touch.
abbrev two : DirtyRegion
two = record screen { r = update (λ i. rect 0 0 10 10) 1 (rect 50 50 10 10); n = 2 }

two-IsValid : IsValid 100 100 two
unfolding touching add_i32 wrap_i32 ◌+ℤ◌ ◌-ℤ◌
two-IsValid = record {
  screen_w = refl;
  screen_h = refl;
  few = omega arith;
  on_screen = λ i hi. on_screen_at i hi;
  apart = λ i j hi hj ne. apart_at i j hi hj ne;
}
  where
    on_screen_at : (i : ℕ) → i < 2 → OnScreen 100 100 (two.r i)
    on_screen_at zero hi = record {
      left = 0;
      top = 0;
      width = 10;
      height = 10;
      is = refl;
      wide = omega arith;
      high = omega arith;
      right_in = omega arith;
      bottom_in = omega arith;
    }
    on_screen_at (suc zero) hi = record {
      left = 50;
      top = 50;
      width = 10;
      height = 10;
      is = refl;
      wide = omega arith;
      high = omega arith;
      right_in = omega arith;
      bottom_in = omega arith;
    }
    on_screen_at (suc (suc i)) hi = absurd (omega (arith, hi))

    apart_at : (i j : ℕ) → i < 2 → j < 2 → i ≢ j → touching (two.r i) (two.r j) ≡ false
    apart_at zero zero hi hj ne = absurd (ne refl)
    apart_at zero (suc zero) hi hj ne = refl
    apart_at (suc zero) zero hi hj ne = refl
    apart_at (suc zero) (suc zero) hi hj ne = absurd (ne refl)
    apart_at zero (suc (suc j)) hi hj ne = absurd (omega (arith, hj))
    apart_at (suc zero) (suc (suc j)) hi hj ne = absurd (omega (arith, hj))
    apart_at (suc (suc i)) j hi hj ne = absurd (omega (arith, hi))

-- A rectangle that reaches over the left edge and touches the first of the two.
abbrev wide_rect : Rect
wide_rect = record { x = negsuc 4; y = pos 5; w = pos 20; h = pos 20 }

wide_rect-Sane : Sane wide_rect
unfolding ◌+ℤ◌
wide_rect-Sane = record {
  across = record { at = omega arith; size = omega arith; end = omega arith };
  down = record { at = omega arith; size = omega arith; end = omega arith };
}

add-Added_example :
    (d' : DirtyRegion) × (add two wide_rect ≡ some d')
    × Added 100 100 (omega arith) (omega arith) two wide_rect d'
add-Added_example =
    add-Added 100 100 (omega arith) (omega arith) two wide_rect two-IsValid wide_rect-Sane

-- The merged rectangle is the union.
merged :
    add two wide_rect
    ≡ some (record two { n = 2; r = update (update two.r 0 (rect 50 50 10 10)) 1 (rect 0 0 15 25) })
unfolding add clip merge_from union touching store add_i32 sub_i32 wrap_i32 ◌+ℤ◌ ◌-ℤ◌ min_ℤ max_ℤ
merged = refl

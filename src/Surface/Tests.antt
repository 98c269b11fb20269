-- ===== src/Surface/Tests.antt =====
-- Surfaces on a memory of ten pages.
use kernel_rs.Prelude.{ℕ, ◌≡◌, refl, true, arith, some, List, [], ◌∷◌}
use kernel_rs.Prelude.Int.{pos, negsuc, +ℤ_parts}
use kernel_rs.Dirty.{Rect}
use kernel_rs.Dirty.Clip.{Sane}
use kernel_rs.Pmm
use kernel_rs.Pmm.{
  Pmm, MemmapEntry, bm_test, alloc_pages, alloc_pages_from, init, init_entries, init_entry,
  mark_usable, free_run, clear_run, bm_set, bm_clear, pa_to_va,
}
use kernel_rs.Pmm.Count.{IsValid}
use kernel_rs.Pmm.Init.{init_lem}
use kernel_rs.Surface.{Surface, create, create_pixels, drop, fill_rect}
use kernel_rs.Surface.Memory.{Answers, create-Answers, drop-create}
use kernel_rs.Surface.Pixels.{Filled, fill_rect-Filled, image}

abbrev memmap : List MemmapEntry
memmap = record { base = 0x2000; len = 0x8000; usable = true } ∷ []

abbrev boot : Pmm
boot = Pmm.init memmap 0

boot-IsValid : IsValid boot
boot-IsValid = (init_lem memmap 0 (omega arith) ((λ j h. refl), tt) refl).0

create-Answers_example :
    Answers (pos 40) (pos 40) boot boot-IsValid refl (create (pos 40) (pos 40) boot)
create-Answers_example =
    create-Answers (pos 40) (pos 40) boot boot-IsValid refl (omega arith) (omega arith)

-- A square of 40 pixels takes a page for its header and two for its pixels.
abbrev square : Surface
square = record { w = pos 40; h = pos 40; header = 0x2000; pixels = 0x3000 }

abbrev after : Pmm
after = record boot { bitmap = clear_run 2 3 (clear_run 1 2 boot.bitmap); free_pages = 5 }

made : create (pos 40) (pos 40) boot ≡ some (after, some square)
unfolding create create_pixels alloc_pages alloc_pages_from init init_entries init_entry mark_usable
    free_run clear_run bm_clear bm_set bm_test pa_to_va
made = refl

drop-create_example :
    ((j : ℕ) → bm_test (drop square after).bitmap j ≡ bm_test boot.bitmap j)
    × IsValid (drop square after)
unfolding init init_entries init_entry mark_usable
drop-create_example =
    drop-create (pos 40) (pos 40) boot after square boot-IsValid refl (omega arith) (omega arith)
      (omega arith) made

-- Half of the rectangle is left of the surface.
abbrev half_left : Rect
half_left = record { x = negsuc 1; y = pos 1; w = pos 4; h = pos 2 }

half_left-Sane : Sane half_left
half_left-Sane = record {
  across = record {
    at = (omega arith, omega arith);
    size = omega arith;
    end = omega (arith, +ℤ_parts);
  };
  down = record {
    at = (omega arith, omega arith);
    size = omega arith;
    end = omega (arith, +ℤ_parts);
  };
}

fill_rect-Filled_example :
    Filled 8 4 (λ k. 0) half_left 7 (fill_rect (image 8 4 (λ k. 0)) half_left 7).at
fill_rect-Filled_example =
    fill_rect-Filled 8 4 (omega arith) (omega arith) (omega arith) (λ k. 0) half_left 7
      half_left-Sane

-- ===== src/Pmm/Tests.antt =====
-- The allocator on a small memory map.
use kernel_rs.Prelude.{
  ℕ, ◌+◌, ◌/◌, ◌≤◌, ◌≡◌, refl, ◌⊎◌, true, false, arith, ◌==◌, if◌then◌else◌, List, [], ◌∷◌, some,
  none, max,
}
use mathlib.Core.Option
use kernel_rs.Prelude.Align.{page_size}
use kernel_rs.Pmm.{
  Pmm, MemmapEntry, init, alloc_page, alloc_page_from, alloc_pages, alloc_pages_from, free_page,
  bm_test, bm_set, trailing_zeros, init_entries, init_entry, mark_usable, free_run, free_count,
}
use kernel_rs.Pmm.Count.{IsValid, Exhausted}
use kernel_rs.Pmm.Alloc.{Found, Freeable, alloc_page_lem, free_page_lem}
use kernel_rs.Pmm.Run.{NoRun, RunFound, alloc_pages_lem}
use kernel_rs.Pmm.Hang.{alloc_pages_hang}
use kernel_rs.Pmm.Init.{inside_any, init_lem}

-- Ten pages from address 0x800 on, of which eight are whole, and a reserved entry.
abbrev memmap : List MemmapEntry
memmap =
    record { base = 0x1800; len = 0x9000; usable = true }
    ∷ record { base = 0x20000; len = 0x4000; usable = false }
    ∷ []

abbrev boot : Pmm
boot = init memmap 0

boot-IsValid : IsValid boot
boot-IsValid = (init_lem memmap 0 (omega arith) ((λ j h. refl), ((λ j h. refl), tt)) refl).0

init_lem_example : IsValid boot × ((j : ℕ) → bm_test boot.bitmap j ≡ inside_any memmap j)
init_lem_example = init_lem memmap 0 (omega arith) ((λ j h. refl), ((λ j h. refl), tt)) refl

first_page : (alloc_page boot).1 ≡ 0x2000
unfolding alloc_page alloc_page_from init init_entries init_entry mark_usable bm_set trailing_zeros
first_page = refl

run_of_four : Option.map (λ (r : Pmm × ℕ). r.1) (alloc_pages 4 4096 boot) ≡ some 0x2000
unfolding alloc_pages alloc_pages_from init init_entries init_entry mark_usable bm_set bm_test
    free_run
run_of_four = refl

free_twice : free_count (free_page 0x2000 boot) ≡ 8
unfolding free_page init init_entries init_entry mark_usable bm_set bm_test free_count
free_twice = refl

alloc_page_lem_example :
    ((alloc_page boot ≡ (boot, 0)) × Exhausted boot) ⊎ Found 0 boot (alloc_page boot)
alloc_page_lem_example = alloc_page_lem boot boot-IsValid

free_page_lem_example :
    (Freeable boot 0x20000
      → ((j : ℕ)
          → bm_test (free_page 0x20000 boot).bitmap j
            ≡ (if j == 0x20 then true else bm_test boot.bitmap j))
        × ((free_page 0x20000 boot).free_pages ≡ boot.free_pages + 1)
        × (page_size ≤ 0x20000 → IsValid (free_page 0x20000 boot)))
    × (¬ Freeable boot 0x20000 → free_page 0x20000 boot ≡ boot)
free_page_lem_example = free_page_lem boot 0x20000 boot-IsValid

alloc_pages_lem_example :
    NoRun 0 4 boot (alloc_pages 4 4096 boot) ⊎ RunFound 0 4 boot (alloc_pages 4 4096 boot)
alloc_pages_lem_example =
    alloc_pages_lem boot 4 4096 boot-IsValid (omega arith) (omega arith) (omega arith)

alloc_pages_hang_example : alloc_pages_from 1000 (max 8192 page_size / page_size) 4 0 boot ≡ none
alloc_pages_hang_example =
    alloc_pages_hang 1000 4 8192 boot boot-IsValid.zero_used (omega arith) (omega arith)
      (omega arith)

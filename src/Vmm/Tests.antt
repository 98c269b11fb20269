-- ===== src/Vmm/Tests.antt =====
-- Paging on a memory of ten pages with one empty address space.
use kernel_rs.Prelude.{
  subst, ◌⊎◌, ℕ, suc, ◌*◌, ◌<◌, ◌≡◌, refl, ap, ◌∙◌, sym, true, false, arith, List, [], ◌∷◌, update,
  Bool-cases, if◌then◌else◌, inl, inr, ◌==◌, ==_iff, ==→≢, update_ne,
}
use kernel_rs.Prelude.Align.{page_size}
use kernel_rs.Pmm.{Pmm, MemmapEntry, bm_test}
use kernel_rs.Pmm
use kernel_rs.Pmm.Count.{IsValid}
use kernel_rs.Pmm.Init.{inside, inside_any, init_lem}
use kernel_rs.Pmm.{
  alloc_page, alloc_page_from, trailing_zeros, init, init_entries, init_entry, mark_usable, bm_set,
  bm_clear,
}
use kernel_rs.Vmm.{
  walk, walk_from, huge, table_entry, zero_table, Vm, map, unmap, translate, present, addr_of,
}
use kernel_rs.Vmm.Entry.{addr_of-bits}
use kernel_rs.Vmm.Tables.{IsShaped}
use kernel_rs.Pmm.Count.{Exhausted}
use kernel_rs.Vmm.Space.{Spaced, new_space-translate}
use kernel_rs.Vmm.{new_space}
use kernel_rs.Vmm.Map.{MapsOrFails, map-translate, Unmaps, unmap-translate}

abbrev memmap : List MemmapEntry
memmap = record { base = 0x2000; len = 0x8000; usable = true } ∷ []

abbrev pages : Pmm
pages = Pmm.init memmap 0

pages_lem : IsValid pages × ((j : ℕ) → bm_test pages.bitmap j ≡ inside_any memmap j)
pages_lem = init_lem memmap 0 (omega arith) ((λ j h. refl), tt) refl

-- The table of the address space is the page at 0x1000.
abbrev machine : Vm
machine = record { tables = λ t i. 0; pmm = pages; kernel_space = 0x1000 }

abbrev levels : ℕ → ℕ
levels = update (λ t. 0) 0x1000 4

at_root : (j : ℕ) → 0 < levels (j * page_size) → j ≡ 1
at_root j some_level = elim (Bool-cases (j * page_size == 0x1000)) [
  | inl equal ↦ omega (arith, (==_iff (j * page_size) 0x1000).0 equal)
  | inr differs ↦
      let none_there =
        update_ne {A = ℕ} (λ (t : ℕ). 0) 0x1000 (j * page_size) 4
          (==→≢ (j * page_size) 0x1000 differs) in
      omega (arith, none_there)
]

machine-IsShaped : IsShaped machine levels
unfolding present
machine-IsShaped = record {
  pages = pages_lem.0;
  below = λ t i r at small there fine. ground (arith, there);
  used = λ j some_level. ap (bm_test pages.bitmap) (at_root j some_level) ∙ pages_lem.1 1 ∙ refl;
}

map-translate_example :
    MapsOrFails machine levels 0x1000 0x400000 0x7000 (map 0x1000 0x400000 0x7000 6 machine)
map-translate_example =
    map-translate machine levels 0x1000 0x400000 0x7000 6 machine-IsShaped refl six_clear
  where
    six_clear : addr_of 6 ≡ 0
    six_clear = addr_of-bits 6

mapped : translate 0x1000 0x400123 (map 0x1000 0x400000 0x7000 6 machine).0 ≡ 0x7123
unfolding translate walk walk_from present huge addr_of map table_entry zero_table alloc_page
    alloc_page_from trailing_zeros init init_entries init_entry mark_usable bm_set bm_clear
mapped = refl

-- The same address space with one page mapped.
abbrev only : ℕ → ℕ → ℕ → ℕ
only k e i = if i == k then e else 0

abbrev chain : ℕ → ℕ → ℕ
chain t i =
    if t == 0x1000
    then only 0 0x2007 i
    else (if t == 0x2000
        then only 0 0x3007 i
        else (if t == 0x3000
            then only 2 0x4007 i
            else (if t == 0x4000 then only 0 0x7007 i else 0)))

abbrev depth : ℕ → ℕ
depth t =
    if t == 0x1000
    then 4
    else (if t == 0x2000 then 3 else (if t == 0x3000 then 2 else (if t == 0x4000 then 1 else 0)))

abbrev above : List MemmapEntry
above = record { base = 0x5000; len = 0x5000; usable = true } ∷ []

abbrev one_mapped : Vm
one_mapped = record { tables = chain; pmm = Pmm.init above 0; kernel_space = 0x1000 }

one_entry :
    (k e i n : ℕ)
    → depth (addr_of e) ≡ n
    → present (only k e i) ≡ true
    → depth (addr_of (only k e i)) ≡ n
unfolding present
one_entry k e i n leads there = elim (Bool-cases (i == k)) [
  | inl here ↦ rw here leads
  | inr away ↦
      let nothing : only k e i ≡ 0 = rw away refl in ground (arith, ap present nothing, there)
]

-- The tables above the leaf.
upper : (t r : ℕ) → depth t ≡ suc (suc r) → (t ≡ 0x1000) ⊎ (t ≡ 0x2000) ⊎ (t ≡ 0x3000)
upper t r at = ground (arith, at)

Links : ℕ → ℕ → ℕ → Type 0
Links i r t =
    depth t ≡ suc (suc r) → present (chain t i) ≡ true → depth (addr_of (chain t i)) ≡ suc r

link : (t i r : ℕ) → depth t ≡ suc (suc r) → Links i r t
unfolding Links addr_of
link t i r at = elim (upper t r at) [
  | inl one ↦ subst (Links i r) (sym one) (λ h. one_entry 0 0x2007 i (suc r) (omega (arith, h)))
  | inr (inl two) ↦
      subst (Links i r) (sym two) (λ h. one_entry 0 0x3007 i (suc r) (omega (arith, h)))
  | inr (inr three) ↦
      subst (Links i r) (sym three) (λ h. one_entry 2 0x4007 i (suc r) (omega (arith, h)))
]

above_lem :
    IsValid one_mapped.pmm × ((j : ℕ) → bm_test one_mapped.pmm.bitmap j ≡ inside_any above j)
above_lem = init_lem above 0 (omega arith) ((λ j h. refl), tt) refl

low : (j : ℕ) → 0 < depth (j * page_size) → j < 5
low j h = ground (arith, h)

not_above : (j : ℕ) → j < 5 → inside_any above j ≡ false
unfolding inside
not_above j h = ground (arith, h)

chain-IsShaped : IsShaped one_mapped depth
unfolding Links
chain-IsShaped = record {
  pages = above_lem.0;
  below = λ t i r at small there fine. link t i r at at there;
  used = λ j some_level. above_lem.1 j ∙ not_above j (low j some_level);
}

unmap-translate_example : Unmaps one_mapped depth 0x1000 0x400000 (unmap 0x1000 0x400000 one_mapped)
unmap-translate_example = unmap-translate one_mapped depth 0x1000 0x400000 chain-IsShaped refl

new_space-translate_example :
    ((new_space one_mapped ≡ (one_mapped, 0)) × Exhausted one_mapped.pmm)
    ⊎ Spaced one_mapped depth (new_space one_mapped)
new_space-translate_example = new_space-translate one_mapped depth chain-IsShaped refl

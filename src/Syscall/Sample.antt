-- ===== src/Syscall/Sample.antt =====
-- Memory for the calls that grow a heap.
use kernel_rs.Prelude.{
  ℕ, ◌≡◌, refl, [], ◌∷◌, update, arith, ◌*◌, ◌<◌, ◌∙◌, ap, true, List, Bool-cases, inl, inr, ◌==◌,
  ==_iff, ==→≢, update_ne,
}
use kernel_rs.Prelude.Align.{page_size}
use kernel_rs.Pmm
use kernel_rs.Pmm.{MemmapEntry, bm_test}
use kernel_rs.Pmm.Init.{init_lem}
use kernel_rs.Vmm.{present}
use kernel_rs.Vmm.Tables.{IsShaped}
use kernel_rs.Syscall.Sbrk.{Heap}

-- Memory of ten pages, in which the page at 0x1000 is the only table.
abbrev memmap : List MemmapEntry
memmap = record { base = 0x2000; len = 0x8000; usable = true } ∷ []

abbrev pub heap : Heap
heap = record {
  vm = record { tables = λ t i. 0; pmm = Pmm.init memmap 0; kernel_space = 0x1000 };
  space = 0x1000;
  brk = 0x600000000010;
}

abbrev pub levels : ℕ → ℕ
levels = update (λ t. 0) 0x1000 4

at_root : (j : ℕ) → 0 < levels (j * page_size) → j ≡ 1
at_root j some_level = elim (Bool-cases (j * page_size == 0x1000)) [
  | inl equal ↦ omega (arith, (==_iff (j * page_size) 0x1000).0 equal)
  | inr differs ↦
      let none_there =
        update_ne {A = ℕ} (λ (t : ℕ). 0) 0x1000 (j * page_size) 4
          (==→≢ (j * page_size) 0x1000 differs) in
      omega (arith, none_there)
]

pub heap-IsShaped : IsShaped heap.vm levels
unfolding present
heap-IsShaped =
    let (valid, free) = init_lem memmap 0 (omega arith) ((λ j h. refl), tt) refl in
    record {
      pages = valid;
      below = λ t i r at small there fine. ground (arith, there);
      used = λ j k. ap (bm_test heap.vm.pmm.bitmap) (at_root j k) ∙ free 1 ∙ refl;
    }

-- ===== src/Syscall/Page.antt =====
-- One page of a heap that grows, in `sys_sbrk` of kernel-rs/src/syscall.rs.
use kernel_rs.Prelude.{
  ℕ, ◌+◌, ◌%◌, ◌≡◌, refl, sym, ◌∙◌, ap, inl, inr, Bool, true, false, ◌==◌, arith,
}
use kernel_rs.Prelude.Align.{page_size}
use kernel_rs.Pmm.{Pmm, bm_test, alloc_page}
use kernel_rs.Pmm.Alloc.{Found, alloc_page_lem}
use kernel_rs.Vmm.{Vm, addr_of, zero_table, translate}
use kernel_rs.Vmm.Entry.{addr_of-bits, addr_of_page}
use kernel_rs.Vmm.Tables.{IsShaped}
use kernel_rs.Vmm.Hang.{fresh_page}
use kernel_rs.Vmm.Store.{OnlyAt}
use kernel_rs.Vmm.Map.{MapsOrFails, map-translate}
use kernel_rs.Vmm.Keeps.{
  mapped, Keeps, Keeps-refl, mapped-cleared, taken-IsShaped, rebase, AsBefore-Keeps,
  translated-mapped,
}
use kernel_rs.Syscall.Sbrk.{Heap, heap_flags, heap_page}

-- What adding a page leaves.
pub record Paged (va : ℕ) (p : Heap) (levels : ℕ → ℕ) (out : Heap × Bool) : Type 0 where
  pub keeps : Keeps p.vm levels out.0.vm
  pub space : out.0.space ≡ p.space
  pub brk : out.0.brk ≡ p.brk
  pub there : out.1 ≡ true → mapped out.0.vm p.space va ≡ true

heap_flags_clear : addr_of heap_flags ≡ 0
heap_flags_clear = addr_of-bits heap_flags

-- The page that was found is mapped and cleared.
mapped_page :
    (va : ℕ) (p : Heap) (levels : ℕ → ℕ) (p' : Pmm) (pa : ℕ) (s2 : Vm)
    → IsShaped p.vm levels
    → levels p.space ≡ 4
    → (found : Found 0 p.vm.pmm (p', pa)) → OnlyAt (record p.vm { pmm = p' }) levels p.space va s2
    → translate p.space va s2 ≡ addr_of pa + va % page_size
    → Paged va p levels (record p { vm = record s2 { tables = zero_table pa s2.tables } }, true)
mapped_page va p levels p' pa s2 shaped root found o e =
    let range = found.takes.fits in
    let page : addr_of pa ≡ pa =
      addr_of_page pa (omega (arith, found.address)) (omega (arith, found.address, range)) in
    let now =
      translated-mapped s2 p.space va
        (λ z. absurd (omega (arith, e, z, page, found.address, found.above))) in
    let used : bm_test p'.bitmap found.page ≡ false = found.takes.now found.page ∙ ground arith in
    let fresh = fresh_page p.vm levels p' pa shaped found in
    let no_table : o.levels_after pa ≡ 0 =
      ap o.levels_after found.address
      ∙ o.only_free found.page used
      ∙ ap levels (sym found.address)
      ∙ fresh in
    let (whole, there) =
      mapped-cleared (record p.vm { pmm = p' }) levels p.space va s2 pa root o now no_table in
    record { keeps = rebase p.vm p' levels _ whole; space = refl; brk = refl; there = λ k. there }

pub heap_page-Paged :
    (va : ℕ) (p : Heap) (levels : ℕ → ℕ)
    → IsShaped p.vm levels
    → levels p.space ≡ 4
    → Paged va p levels (heap_page va p)
unfolding heap_page MapsOrFails
heap_page-Paged va p levels shaped root = elim (alloc_page_lem p.vm.pmm shaped.pages) [
  | inl (full, exhausted) ↦ rw full (record {
    keeps = Keeps-refl p.vm levels shaped;
    space = refl;
    brk = refl;
    there = λ k. ground (arith, k);
  })
  | inr found ↦
      let p' = (alloc_page p.vm.pmm).0 in
      let pa = (alloc_page p.vm.pmm).1 in
      let some_page : (pa == 0) ≡ false = ground (arith, found.above, found.address) in
      elim (map-translate (record p.vm { pmm = p' }) levels p.space va pa heap_flags
        (taken-IsShaped p.vm levels p' pa shaped found) root heap_flags_clear) [
          | inl (ok, e, o) ↦
              rw (some_page, ok) (mapped_page va p levels p' pa _ shaped root found o e)
          | inr (failed, because, o) ↦
              rw (some_page, failed)
                (record {
                  keeps =
                      rebase p.vm p' levels _
                        (AsBefore-Keeps (record p.vm { pmm = p' }) levels _ o);
                  space = refl;
                  brk = refl;
                  there = λ k. ground (arith, k);
                })
        ]
]

-- ===== src/Syscall/Sbrk.antt =====
-- `sys_sbrk` of kernel-rs/src/syscall.rs: a process's heap grows by pages of the allocator, which
-- paging maps. A page is filled with zeros through the memory that also holds the tables.
use Prim.Native.Nat.{bit_or}
use kernel_rs.Prelude.{
  ℕ, zero, suc, ◌+◌, ◌-◌, ◌*◌, ◌/◌, Bool, true, false, not, ◌||◌, Option, none, some, ltb, ◌==◌,
  if◌then◌else◌, ◌>>=◌,
}
use kernel_rs.Prelude.Align.{page_size, add64, sub64}
use kernel_rs.Prelude.Int.{ℤ, pos, negsuc, ◌-ℤ◌}
use kernel_rs.Pmm
use kernel_rs.Vmm
use kernel_rs.Vmm.{Vm, pte_us, pte_rw, pte_nx, zero_table}

-- Memory, and the address space and the break of the thread that calls.
pub record Heap : Type 0 where
  pub vm : Vm
  pub space : ℕ
  pub brk : ℕ

abbrev pub heap_base : ℕ
heap_base = 0x600000000000

abbrev pub heap_max : ℕ
heap_max = 67108864

abbrev pub heap_flags : ℕ
heap_flags = bit_or (bit_or pte_us pte_rw) pte_nx

-- A page of zeros at `va`: false when no page is free or it cannot be mapped.
unfoldable pub heap_page : ℕ → Heap → Heap × Bool
heap_page va p =
    let (free, pa) = Pmm.alloc_page p.vm.pmm in
    let taken = record p.vm { pmm = free } in
    let (mapped, ok) = Vmm.map p.space va pa heap_flags taken in
    if pa == 0
    then (record p { vm = taken }, false)
    else (if not ok
        then (record p { vm = mapped }, false)
        else (record p { vm = record mapped { tables = zero_table pa mapped.tables } }, true))

-- The loop, on fuel: false when it breaks off.
unfoldable pub heap_pages : ℕ → ℕ → ℕ → Heap → Option (Heap × Bool)
heap_pages zero va newb p = none
heap_pages (suc f) va newb p =
    let (p', ok) = heap_page va p in
    let rest = heap_pages f (va + page_size) newb p' in
    if ltb va newb then (if ok then rest else some (p', false)) else some (p, true)

-- More rounds than a heap has pages.
abbrev pub heap_fuel : ℕ
heap_fuel = 16386

-- `rdi` is the increment as a word.
unfoldable pub sys_sbrk : ℕ → Heap → Option (Heap × ℤ)
sys_sbrk rdi p =
    let old = p.brk in
    let newb = add64 old rdi in
    if rdi == 0
    then some (p, pos old)
    else (if ltb newb old || ltb heap_max (sub64 newb heap_base) then some (p, negsuc 0) else (do
      (p', ok) ← heap_pages heap_fuel (add64 old (page_size - 1) / page_size * page_size) newb p
      some (if ok then (record p' { brk = newb }, pos old) else (p', pos old -ℤ pos 1))))

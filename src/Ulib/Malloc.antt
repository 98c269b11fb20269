-- ===== src/Ulib/Malloc.antt =====
-- `malloc`, userspace-rs/src/ulib.rs, on the kernel's `sys_sbrk`.
use kernel_rs.Prelude.{ℕ, ◌+◌, ◌-◌, ◌<◌, ◌≤◌, ◌≡◌, ◌⊎◌, true}
use kernel_rs.Vmm.Keeps.{mapped, Keeps}
use kernel_rs.Syscall.Sbrk.{Heap, heap_base}

-- Every byte below the break is mapped.
abbrev pub HeapMapped : Heap → Type 0
HeapMapped h = (va : ℕ) → heap_base ≤ va → va < h.brk → mapped h.vm h.space va ≡ true

-- The pointer is the old break and the block lies below the new one, or it is the byte before the old
-- break, and the break is as it was. Either way the heap is mapped, so that the block is.
pub record Allocates (size : ℕ) (h : Heap) (levels : ℕ → ℕ) (h' : Heap) (p : ℕ) : Type 0 where
  pub keeps : Keeps h.vm levels h'.vm
  pub heap : HeapMapped h'
  pub block :
      ((p ≡ h.brk)
        × (p + size ≤ h'.brk)
        × ((va : ℕ) → p ≤ va → va < p + size → mapped h'.vm h.space va ≡ true))
      ⊎ ((p ≡ h.brk - 1) × (h'.brk ≡ h.brk))

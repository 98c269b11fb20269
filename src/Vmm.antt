-- ===== src/Vmm.antt =====
-- Paging, kernel-rs/src/mm/vmm.rs. Memory is seen as tables of 512 entries: `tables t i` is the word
-- `i` of the page at the physical address `t`. Tables stand at page addresses, so two of them do not
-- overlap. The registers CR3 and the translation cache are the processor's.
pub mod Entry
pub mod Tables
pub mod Hang
pub mod Walk
pub mod Store
pub mod Map
pub mod Keeps
pub mod Space
mod Tests
use Prim.Native.Nat.{bit_and, bit_or}
use kernel_rs.Prelude.{
  ℕ, zero, suc, ◌+◌, ◌-◌, ◌*◌, ◌/◌, ◌%◌, ◌^◌, Bool, true, false, not, ◌&&◌, ◌||◌, Option, none,
  some, update, ltb, leb, ◌==◌, if◌then◌else◌,
}
use kernel_rs.Prelude.Align.{page_size, add64}
use kernel_rs.Pmm
use kernel_rs.Pmm.{Pmm}

abbrev pub pte_p : ℕ
pte_p = 1

abbrev pub pte_rw : ℕ
pte_rw = 2

abbrev pub pte_us : ℕ
pte_us = 4

abbrev pub pte_ps : ℕ
pte_ps = 128

abbrev pub pte_nx : ℕ
pte_nx = 9223372036854775808

abbrev pub pte_addr_mask : ℕ
pte_addr_mask = 0x000FFFFFFFFFF000

pub record Vm : Type 0 where
  pub tables : ℕ → ℕ → ℕ
  pub pmm : Pmm
  pub kernel_space : ℕ

-- `e & PTE_P != 0`, `e & PTE_PS != 0` and `e & PTE_ADDR_MASK`.
unfoldable pub present : ℕ → Bool
present e = not (bit_and e pte_p == 0)

unfoldable pub huge : ℕ → Bool
huge e = not (bit_and e pte_ps == 0)

unfoldable pub addr_of : ℕ → ℕ
addr_of e = bit_and e pte_addr_mask

abbrev pub table_index : ℕ → ℕ → ℕ
table_index lvl va = va / 2 ^ (12 + (lvl - 1) * 9) % 512

unfoldable pub zero_table : ℕ → (ℕ → ℕ → ℕ) → ℕ → ℕ → ℕ
zero_table pa m = update m pa (λ i. 0)

abbrev pub set_entry : (ℕ → ℕ → ℕ) → ℕ → ℕ → ℕ → ℕ → ℕ → ℕ
set_entry m t i e = update m t (update (m t) i e)

-- The entry for a new table.
unfoldable pub table_entry : ℕ → ℕ
table_entry np = bit_or (bit_or (bit_or np pte_p) pte_rw) pte_us

-- The loop of `walk` with the rounds left: the level is that many above `level`.
unfoldable pub walk_from : ℕ → ℕ → Bool → ℕ → ℕ → Vm → Vm × Option ℕ
walk_from zero level create va tbl s = (s, some tbl)
walk_from (suc r) level create va tbl s =
    let lvl = level + suc r in
    let idx = table_index lvl va in
    let e = s.tables tbl idx in
    let deeper = walk_from r level create va in
    if not (present e)
    then (if not create
        then (s, none)
        else (let (p', np) = Pmm.alloc_page s.pmm in
            if np == 0
            then (record s { pmm = p' }, none)
            else deeper (addr_of (table_entry np)) (record s {
              pmm = p';
              tables = set_entry (zero_table np s.tables) tbl idx (table_entry np);
            })))
    else (if huge e && ltb 1 lvl then (s, none) else deeper (addr_of e) s)

unfoldable pub walk : ℕ → ℕ → Bool → ℕ → Vm → Vm × Option ℕ
walk space va create level s = walk_from (4 - level) level create va space s

unfoldable pub map : ℕ → ℕ → ℕ → ℕ → Vm → Vm × Bool
map space va pa flags s =
    let (s', r) = walk space va true 1 s in
    elim r [
      | none ↦ (s', false)
      | some pt ↦ (
        record s' {
          tables =
              set_entry s'.tables pt (va / 4096 % 512) (bit_or (bit_or (addr_of pa) flags) pte_p);
        },
        true,
      )
    ]

unfoldable pub unmap : ℕ → ℕ → Vm → Vm × Bool
unmap space va s =
    let (s', r) = walk space va false 1 s in
    elim r [
      | none ↦ (s', false)
      | some pt ↦
          if not (present (s'.tables pt (va / 4096 % 512)))
          then (s', false)
          else (record s' { tables = set_entry s'.tables pt (va / 4096 % 512) 0 }, true)
    ]

unfoldable pub translate : ℕ → ℕ → Vm → ℕ
translate space va s = elim (walk space va false 1 s).1 [
  | none ↦ 0
  | some pt ↦
      let e = s.tables pt (va / 4096 % 512) in
      if not (present e) then 0 else add64 (addr_of e) (va % page_size)
]

-- The upper half of `from`, over zeros.
abbrev pub shared_half : (ℕ → ℕ) → ℕ → ℕ
shared_half from i = if leb 256 i then from i else 0

-- The loader's tables are at `old`.
unfoldable pub init : ℕ → Vm → Vm
init old s =
    let (p', nl4) = Pmm.alloc_page s.pmm in
    let m = zero_table nl4 s.tables in
    record { pmm = p'; tables = update m nl4 (shared_half (m old)); kernel_space = nl4 }

unfoldable pub new_space : Vm → Vm × ℕ
new_space s =
    let (p', nl4) = Pmm.alloc_page s.pmm in
    if nl4 == 0
    then (record s { pmm = p' }, 0)
    else (let m = zero_table nl4 s.tables in
        (record s { pmm = p'; tables = update m nl4 (shared_half (m s.kernel_space)) }, nl4))

-- The pages of the entries from `i` on that are present, with the rounds left.
unfoldable pub free_pages_of : ℕ → ℕ → (ℕ → ℕ) → Pmm → Pmm
free_pages_of zero i t p = p
free_pages_of (suc n) i t p =
    free_pages_of n (i + 1) t (if present (t i) then Pmm.free_page (addr_of (t i)) p else p)

-- A level of `destroy_space`: what is below each table, and then the table's page. The test for a huge
-- page is not made at the top.
unfoldable pub free_tables_of : (ℕ → Pmm → Pmm) → Bool → ℕ → ℕ → (ℕ → ℕ) → Pmm → Pmm
free_tables_of below top zero i t p = p
free_tables_of below top (suc n) i t p = free_tables_of below top n (i + 1) t (
    if not (present (t i)) || (not top && huge (t i))
    then p
    else Pmm.free_page (addr_of (t i)) (below (addr_of (t i)) p))

unfoldable pub destroy_space : ℕ → Vm → Vm
destroy_space space s =
    let m = s.tables in
    let l1 = λ (t : ℕ) (p : Pmm). free_pages_of 512 0 (m t) p in
    let l2 = λ (t : ℕ) (p : Pmm). free_tables_of l1 false 512 0 (m t) p in
    let l3 = λ (t : ℕ) (p : Pmm). free_tables_of l2 false 512 0 (m t) p in
    record s { pmm = Pmm.free_page space (free_tables_of l3 true 256 0 (m space) s.pmm) }

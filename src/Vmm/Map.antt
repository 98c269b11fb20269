-- ===== src/Vmm/Map.antt =====
-- `map`, `unmap` and `translate`, on well-formed tables.
use kernel_rs.Prelude.{
  ℕ, zero, suc, ◌+◌, ◌%◌, ◌^◌, ◌<◌, ◌≡◌, refl, sym, ◌∙◌, ap, subst, Bool, true, false, ◌⊎◌, arith,
  none, some, Bool-cases, inl, inr, Option-cases,
}
use Prim.Native.Nat.{bit_or}
use kernel_rs.Prelude.Align.{page_size}
use kernel_rs.Pmm.Count.{Exhausted}
use kernel_rs.Vmm.{
  Vm, present, huge, addr_of, table_index, set_entry, walk_from, walk, map, unmap, translate, pte_p,
}
use kernel_rs.Vmm.Entry.{leaf_entry-present, leaf_entry-addr_of, addr_of-bits}
use kernel_rs.Vmm.Tables.{IsShaped, Grown-refl, leaf_table, leaf_index, entry_for, entry_in}
use mathlib.Core.Option.{some-injective, none-ne-some}
use kernel_rs.Vmm.Walk.{
  leaf_table_missing, leaf_table-huge, leaf_table_deeper, walk-lookup, walk_from-Walked, huge_above,
}
use kernel_rs.Vmm.Store.{target, translate_entry, OnlyAt, AsBefore, stored_OnlyAt}

-- A page is mapped, or memory has run out or a large page is in the way.
unfoldable pub MapsOrFails : Vm → (ℕ → ℕ) → ℕ → ℕ → ℕ → Vm × Bool → Type 0
MapsOrFails s levels space va pa out =
    ((out.1 ≡ true)
      × (translate space va out.0 ≡ addr_of pa + va % page_size)
      × OnlyAt s levels space va out.0)
    ⊎ ((out.1 ≡ false)
        × (Exhausted out.0.pmm ⊎ (huge_above out.0.tables 3 space va ≡ true))
        × AsBefore s levels out.0)

map_stuck :
    (space va pa flags : ℕ) (s : Vm)
    → (walk_from 3 1 true va space s).1 ≡ none
    → map space va pa flags s ≡ ((walk_from 3 1 true va space s).0, false)
unfolding map walk
map_stuck space va pa flags s h = rw (map, walk, h) refl

map_ok :
    (space va pa flags : ℕ) (s : Vm) (pt : ℕ)
    → (walk_from 3 1 true va space s).1 ≡ some pt
    → let mid = (walk_from 3 1 true va space s).0 in
      map space va pa flags s ≡ (
        record mid {
          tables =
              set_entry mid.tables pt (leaf_index va) (bit_or (bit_or (addr_of pa) flags) pte_p);
        },
        true,
      )
unfolding map walk
map_ok space va pa flags s pt h = rw (map, walk, h) refl

leaf_target :
    (pa flags va : ℕ)
    → addr_of flags ≡ 0
    → target (bit_or (bit_or (addr_of pa) flags) pte_p) va ≡ addr_of pa + va % page_size
unfolding target
leaf_target pa flags va clear =
    let small : addr_of pa < 2 ^ 52 = let bits = addr_of-bits pa in omega (arith, bits) in
    rw (leaf_entry-present pa flags, leaf_entry-addr_of pa flags clear) (omega (arith, small))

-- On well-formed tables and with flags outside of the address, `map` either answers true, and then
-- the address is translated to the page's address plus its offset and every address that does not
-- share its entry is translated as before, or answers false, and then no page is free or a large page
-- is on the way and every address is translated as before. The tables stay well-formed.
pub map-translate :
    (s : Vm) (levels : ℕ → ℕ) (space va pa flags : ℕ)
    → IsShaped s levels
    → levels space ≡ 4
    → addr_of flags ≡ 0
    → MapsOrFails s levels space va pa (map space va pa flags s)
unfolding MapsOrFails
map-translate s levels space va pa flags shaped root clear =
    let w = walk_from-Walked 3 space va s levels shaped root in
    let mid = (walk_from 3 1 true va space s).0 in
    let kept = λ (space' va' : ℕ) (at : levels space' ≡ 4).
      translate_entry space' va' mid
      ∙ ap (λ e. target e va') (w.grown.kept space' 3 va' at)
      ∙ sym (translate_entry space' va' s) in
    elim w.result [
      | inr stuck ↦
          subst (MapsOrFails s levels space va pa)
            (sym (map_stuck space va pa flags s stuck.returned))
            (inr (
              refl,
              stuck.because,
              record {
                levels_after = w.levels_after;
                shaped = w.grown.shaped;
                level = w.grown.level;
                only_free = w.grown.only_free;
                stays_used = w.grown.stays_used;
                entries = λ space' va' at. w.grown.kept space' 3 va' at;
                all = kept;
              },
            ))
      | inl ok ↦
          let (here, only) =
            stored_OnlyAt s mid levels w.levels_after space va ok.leaf
              (bit_or (bit_or (addr_of pa) flags) pte_p) w.grown root ok.found ok.is_leaf in
          subst (MapsOrFails s levels space va pa)
            (sym (map_ok space va pa flags s ok.leaf ok.returned))
            (inl (refl, here ∙ leaf_target pa flags va clear, only))
    ]

leaf_level :
    (s : Vm) (levels : ℕ → ℕ) (r t va pt : ℕ)
    → IsShaped s levels
    → levels t ≡ suc r
    → leaf_table s.tables r t va ≡ some pt
    → levels pt ≡ 1
unfolding leaf_table
leaf_level s levels zero t va pt shaped at found = ap levels (sym (some-injective t pt found)) ∙ at
leaf_level s levels (suc r) t va pt shaped at found =
    let e = s.tables t (table_index (1 + suc r) va) in
    elim (Bool-cases (present e)) [
      | inr missing ↦
          elim (none-ne-some pt (sym (leaf_table_missing s.tables r t va missing) ∙ found)) [ ]
      | inl there ↦ elim (Bool-cases (huge e)) [
        | inl large ↦
            let stop = leaf_table-huge s.tables r t va there large in
            elim (none-ne-some pt (sym stop.0 ∙ found)) [ ]
        | inr fine ↦
            leaf_level s levels r (addr_of e) va pt shaped
              (shaped.below t _ r at (omega arith) there fine)
              (sym (leaf_table_deeper s.tables r t va there fine) ∙ found)
      ]
    ]

-- What `unmap` answers, what it leaves at the address, and what it leaves elsewhere.
pub Unmaps : Vm → (ℕ → ℕ) → ℕ → ℕ → Vm × Bool → Type 0
Unmaps s levels space va out =
    (out.1 ≡ present (entry_for s.tables 3 space va))
    × (translate space va out.0 ≡ 0)
    × OnlyAt s levels space va out.0

unmap_missing :
    (space va : ℕ) (s : Vm) → leaf_table s.tables 3 space va ≡ none → unmap space va s ≡ (s, false)
unfolding unmap
unmap_missing space va s h =
    rw (unmap, walk-lookup space va s, h) (rw (walk-lookup space va s) refl)

unmap_absent :
    (space va pt : ℕ) (s : Vm)
    → leaf_table s.tables 3 space va ≡ some pt
    → present (s.tables pt (leaf_index va)) ≡ false
    → unmap space va s ≡ (s, false)
unfolding unmap
unmap_absent space va pt s h k =
    rw (unmap, walk-lookup space va s, h) (rw (walk-lookup space va s, k) refl)

unmap-present :
    (space va pt : ℕ) (s : Vm)
    → leaf_table s.tables 3 space va ≡ some pt
    → present (s.tables pt (leaf_index va)) ≡ true
    → unmap space va s ≡ (record s { tables = set_entry s.tables pt (leaf_index va) 0 }, true)
unfolding unmap
unmap-present space va pt s h k =
    rw (unmap, walk-lookup space va s, h) (rw (walk-lookup space va s, k) refl)

-- Where nothing is mapped, `unmap` answers so and changes nothing.
unchanged :
    (s : Vm) (levels : ℕ → ℕ) (space va : ℕ)
    → IsShaped s levels
    → present (entry_for s.tables 3 space va) ≡ false
    → Unmaps s levels space va (s, false)
unfolding Unmaps target
unchanged s levels space va shaped absent = (
  sym absent,
  translate_entry space va s ∙ rw absent refl,
  record {
    levels_after = levels;
    shaped = shaped;
    level = λ t h. refl;
    only_free = λ j used. refl;
    stays_used = λ j used. used;
    entries = λ space' va' at apart. refl;
    others = λ space' va' at apart. refl;
  },
)

-- On well-formed tables `unmap` answers whether the address was mapped, and afterwards the address is
-- not translated, the tables are well-formed, and every address that does not share its entry is
-- translated as before.
pub unmap-translate :
    (s : Vm) (levels : ℕ → ℕ) (space va : ℕ)
    → IsShaped s levels
    → levels space ≡ 4
    → Unmaps s levels space va (unmap space va s)
unfolding Unmaps entry_in present target
unmap-translate s levels space va shaped root =
    elim (Option-cases (leaf_table s.tables 3 space va)) [
      | inl missing ↦
          subst (Unmaps s levels space va) (sym (unmap_missing space va s missing)) (
            unchanged s levels space va shaped (ap (λ l. present (entry_in s.tables va l)) missing))
      | inr (pt, found) ↦
          let same = ap (λ l. present (entry_in s.tables va l)) found in
          elim (Bool-cases (present (s.tables pt (leaf_index va)))) [
            | inr absent ↦
                subst (Unmaps s levels space va) (sym (unmap_absent space va pt s found absent))
                  (unchanged s levels space va shaped (same ∙ absent))
            | inl there ↦
                let leaf = leaf_level s levels 3 space va pt shaped root found in
                subst (Unmaps s levels space va) (sym (unmap-present space va pt s found there)) (
                  let (gone, only) =
                    stored_OnlyAt s s levels levels space va pt 0 (Grown-refl s levels shaped) root
                      found leaf in
                  (sym (same ∙ there), gone, only))
          ]
    ]

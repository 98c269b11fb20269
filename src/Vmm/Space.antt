-- ===== src/Vmm/Space.antt =====
-- `new_space`: a table whose upper half is the kernel's.
use kernel_rs.Prelude.{
  ℕ, zero, suc, ◌+◌, ◌*◌, ◌/◌, ◌%◌, ◌<◌, ◌≤◌, ◌≡◌, ◌≢◌, refl, sym, ◌∙◌, ap, subst, true, false,
  ◌==◌, ◌⊎◌, arith, update, update_self, update_ne, Bool-cases, inl, inr, ==_iff, ==→≢, leb,
}
use kernel_rs.Prelude.Align.{page_size}
use kernel_rs.Pmm.{Pmm, bm_test, alloc_page}
use kernel_rs.Pmm.Count.{Exhausted}
use kernel_rs.Pmm.Alloc.{Found, alloc_page_lem}
use kernel_rs.Vmm.{
  Vm, present, huge, addr_of, table_index, zero_table, shared_half, new_space, translate,
}
use kernel_rs.Vmm.Tables.{IsShaped, leaf_table, entry_for, entry_in, entry_for-same, apart}
use kernel_rs.Vmm.Hang.{fresh_page, no_table}
use kernel_rs.Vmm.Store.{target, translate_entry}

-- The tables with the page at `np` a new top table.
unfoldable with_space : (ℕ → ℕ → ℕ) → ℕ → ℕ → ℕ → ℕ → ℕ
with_space m kernel np = update (zero_table np m) np (shared_half (zero_table np m kernel))

module _ (s : Vm) (levels : ℕ → ℕ) (p' : Pmm) (np : ℕ) (shaped : IsShaped s levels)
    (kernel : levels s.kernel_space ≡ 4) (found : Found 0 s.pmm (p', np)) where
  fresh : levels np ≡ 0
  fresh = fresh_page s levels p' np shaped found

  spaced : ℕ → ℕ → ℕ
  spaced = with_space s.tables s.kernel_space np

  grown : ℕ → ℕ
  grown = update levels np 4

  row_old : (x : ℕ) → x ≢ np → spaced x ≡ s.tables x
  unfolding spaced with_space zero_table
  row_old x other =
      update_ne (zero_table np s.tables) np x (shared_half (zero_table np s.tables s.kernel_space))
        other
      ∙ update_ne s.tables np x (λ j. 0) other

  entry_new : (j : ℕ) → spaced np j ≡ shared_half (s.tables s.kernel_space) j
  unfolding spaced with_space zero_table
  entry_new j =
      let other = apart levels s.kernel_space np (omega (arith, kernel)) fresh in
      ap (λ (f : ℕ → ℕ). f j)
        (update_self (zero_table np s.tables) np
          (shared_half (zero_table np s.tables s.kernel_space)))
      ∙ ap (λ (f : ℕ → ℕ). shared_half f j) (update_ne s.tables np s.kernel_space (λ k. 0) other)

  level_old : (x : ℕ) → x ≢ np → grown x ≡ levels x
  unfolding grown
  level_old x other = update_ne levels np x 4 other

  level_new : grown np ≡ 4
  unfolding grown
  level_new = update_self levels np 4

  level_kept : (x : ℕ) → 0 < levels x → grown x ≡ levels x
  level_kept x some_level = level_old x (apart levels x np some_level fresh)

  entry_for-old :
      (r t va : ℕ) → levels t ≡ suc r → entry_for spaced r t va ≡ entry_for s.tables r t va
  unfolding leaf_table entry_in
  entry_for-old zero t va at =
      ap (λ (f : ℕ → ℕ). f (va / 4096 % 512))
        (row_old t (apart levels t np (omega (arith, at)) fresh))
  entry_for-old (suc r) t va at =
      let other = apart levels t np (omega (arith, at)) fresh in
      entry_for-same s.tables spaced r t t va
        (ap (λ (f : ℕ → ℕ). f (table_index (1 + suc r) va)) (row_old t other))
        (λ there fine. entry_for-old r _ va (shaped.below t _ r at (omega arith) there fine))

  upper_half :
      (va : ℕ)
      → 256 ≤ table_index 4 va
      → entry_for spaced 3 np va ≡ entry_for s.tables 3 s.kernel_space va
  upper_half va high =
      entry_for-same s.tables spaced 2 s.kernel_space np va
        (entry_new (table_index 4 va) ∙ ground (arith, high))
        (λ there fine.
          entry_for-old 2 (addr_of (s.tables s.kernel_space (table_index 4 va))) va
            (shaped.below s.kernel_space (table_index 4 va) 2 kernel (omega arith) there fine))

  lower_half : (va : ℕ) → table_index 4 va < 256 → entry_for spaced 3 np va ≡ 0
  unfolding leaf_table entry_in present
  lower_half va low =
      let nothing : spaced np (table_index 4 va) ≡ 0 =
        entry_new (table_index 4 va) ∙ ground arith in
      rw nothing refl

  below_new :
      (j r : ℕ)
      → suc (suc r) ≡ 4
      → j < 512
      → present (spaced np j) ≡ true
      → huge (spaced np j) ≡ false
      → grown (addr_of (spaced np j)) ≡ suc r
  below_new j r at small there fine = elim (Bool-cases (leb 256 j)) [
    | inr low ↦
        let nothing : spaced np j ≡ 0 = entry_new j ∙ rw low refl in
        elim (no_table (ap present (sym nothing) ∙ there)) [ ]
    | inl high ↦
        let same : spaced np j ≡ s.tables s.kernel_space j = entry_new j ∙ rw high refl in
        let before =
          shaped.below s.kernel_space j r (kernel ∙ sym at) small (ap present (sym same) ∙ there)
            (ap huge (sym same) ∙ fine) in
        ap (λ n. grown (addr_of n)) same ∙ level_kept _ (omega (arith, before)) ∙ before
  ]

  below_after :
      (x j r : ℕ)
      → grown x ≡ suc (suc r)
      → j < 512
      → present (spaced x j) ≡ true
      → huge (spaced x j) ≡ false
      → grown (addr_of (spaced x j)) ≡ suc r
  below_after x j r at small there fine = elim (Bool-cases (x == np)) [
    | inl equal ↦
        let here = (==_iff x np).0 equal in
        ap (λ k. grown (addr_of (spaced k j))) here
        ∙ below_new j r (sym at ∙ ap grown here ∙ level_new) small
            (ap (λ k. present (spaced k j)) (sym here) ∙ there)
            (ap (λ k. huge (spaced k j)) (sym here) ∙ fine)
    | inr differs ↦
        let other = ==→≢ x np differs in
        let same = ap (λ (f : ℕ → ℕ). f j) (row_old x other) in
        let before =
          shaped.below x j r (sym (level_old x other) ∙ at) small (ap present (sym same) ∙ there)
            (ap huge (sym same) ∙ fine) in
        ap (λ n. grown (addr_of n)) same ∙ level_kept _ (omega (arith, before)) ∙ before
  ]

  used_after : (j : ℕ) → 0 < grown (j * page_size) → bm_test p'.bitmap j ≡ false
  used_after j some_level = elim (Bool-cases (j * page_size == np)) [
    | inl equal ↦
        let page : j ≡ found.page =
          omega (arith, (==_iff (j * page_size) np).0 equal, found.address) in
        found.takes.now j ∙ ground (arith, page)
    | inr differs ↦
        let before =
          shaped.used j
            (subst (λ k. 0 < k) (level_old _ (==→≢ (j * page_size) np differs)) some_level) in
        found.takes.now j ∙ ground (arith, before)
  ]

-- A new address space: it translates the upper half as the kernel does and nothing of the lower.
pub record Spaced (s : Vm) (levels : ℕ → ℕ) (out : Vm × ℕ) : Type 0 where
  pub levels_after : ℕ → ℕ
  pub shaped : IsShaped out.0 levels_after
  pub is_new : levels out.1 ≡ 0
  pub root : levels_after out.1 ≡ 4
  pub level : (t : ℕ) → 0 < levels t → levels_after t ≡ levels t
  pub upper :
      (va : ℕ) → 256 ≤ table_index 4 va → translate out.1 va out.0 ≡ translate s.kernel_space va s
  pub lower : (va : ℕ) → table_index 4 va < 256 → translate out.1 va out.0 ≡ 0
  pub others : (space va : ℕ) → levels space ≡ 4 → translate space va out.0 ≡ translate space va s

new_table-Spaced :
    (s : Vm) (levels : ℕ → ℕ) (p' : Pmm) (np : ℕ)
    → IsShaped s levels
    → levels s.kernel_space ≡ 4
    → Found 0 s.pmm (p', np)
    → Spaced s levels (record s { pmm = p'; tables = with_space s.tables s.kernel_space np }, np)
unfolding spaced grown target present
new_table-Spaced s levels p' np shaped kernel found = record {
  levels_after = grown s levels p' np shaped kernel found;
  shaped = record {
    pages = found.valid;
    below = below_after s levels p' np shaped kernel found;
    used = used_after s levels p' np shaped kernel found;
  };
  is_new = fresh s levels p' np shaped kernel found;
  root = level_new s levels p' np shaped kernel found;
  level = level_kept s levels p' np shaped kernel found;
  upper = λ va high.
      translate_entry np va _
      ∙ ap (λ e. target e va) (upper_half s levels p' np shaped kernel found va high)
      ∙ sym (translate_entry s.kernel_space va s);
  lower = λ va low.
      translate_entry np va _
      ∙ ap (λ e. target e va) (lower_half s levels p' np shaped kernel found va low);
  others = λ space va at.
      translate_entry space va _
      ∙ ap (λ e. target e va) (entry_for-old s levels p' np shaped kernel found 3 space va at)
      ∙ sym (translate_entry space va s);
}

new_space_made :
    (s : Vm)
    → ((alloc_page s.pmm).1 == 0) ≡ false
    → new_space s ≡ (
      record s {
        pmm = (alloc_page s.pmm).0;
        tables = with_space s.tables s.kernel_space (alloc_page s.pmm).1;
      },
      (alloc_page s.pmm).1,
    )
unfolding new_space with_space
new_space_made s h = rw h refl

new_space_full : (s : Vm) → alloc_page s.pmm ≡ (s.pmm, 0) → new_space s ≡ (s, 0)
unfolding new_space
new_space_full s h = rw h refl

-- On well-formed tables `new_space` either answers 0, and then no page is free and nothing has
-- changed, or answers a page that was no table: every address of the upper half is translated in it
-- as in the kernel's space, no address of the lower half is, and every other space translates as
-- before. The tables stay well-formed.
pub new_space-translate :
    (s : Vm) (levels : ℕ → ℕ)
    → IsShaped s levels
    → levels s.kernel_space ≡ 4
    → ((new_space s ≡ (s, 0)) × Exhausted s.pmm) ⊎ Spaced s levels (new_space s)
new_space-translate s levels shaped kernel = elim (alloc_page_lem s.pmm shaped.pages) [
  | inl (full, exhausted) ↦ inl (new_space_full s full, exhausted)
  | inr found ↦
      let p' = (alloc_page s.pmm).0 in
      let np = (alloc_page s.pmm).1 in
      let some_page : (np == 0) ≡ false = ground (arith, found.above, found.address) in
      inr (
        subst (Spaced s levels) (sym (new_space_made s some_page))
          (new_table-Spaced s levels p' np shaped kernel found))
]

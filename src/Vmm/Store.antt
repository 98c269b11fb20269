-- ===== src/Vmm/Store.antt =====
-- `translate`, and a store to a leaf table.
use mathlib.Core.Option.{some-injective, none-ne-some}
use kernel_rs.Prelude.{
  false, true, ◌*◌, ℕ, zero, suc, ◌+◌, ◌%◌, ◌<◌, ◌≡◌, ◌≢◌, refl, sym, ◌∙◌, ap, not, ◌==◌, ◌⊎◌,
  if◌then◌else◌, arith, some, update, update_self, update_ne, Bool-cases, inl, inr, ==_iff, ==→≢,
  Option-cases,
}
use kernel_rs.Prelude.Align.{page_size, add64}
use kernel_rs.Pmm.{bm_test}
use kernel_rs.Vmm.{Vm, present, huge, addr_of, table_index, set_entry, walk, translate}
use kernel_rs.Vmm.Tables.{IsShaped, Grown, leaf_table, leaf_index, entry_for, entry_in}
use kernel_rs.Vmm.Walk.{walk_from-lookup}

-- What an entry translates an address to.
unfoldable pub target : ℕ → ℕ → ℕ
target e va = if not (present e) then 0 else add64 (addr_of e) (va % page_size)

-- `translate` goes by the entry for the address.
pub translate_entry :
    (space va : ℕ) (s : Vm) → translate space va s ≡ target (entry_for s.tables 3 space va) va
unfolding translate walk target entry_in present
translate_entry space va s = elim (Option-cases (leaf_table s.tables 3 space va)) [
  | inl missing ↦ rw (translate, walk, walk_from-lookup 3 space va s, missing) refl
  | inr (pt, found) ↦ rw (translate, walk, walk_from-lookup 3 space va s, found) refl
]

-- The two addresses do not share an entry.
abbrev pub Apart : (ℕ → ℕ → ℕ) → ℕ → ℕ → ℕ → ℕ → Type 0
Apart m space va space' va' =
    (leaf_table m 3 space' va' ≢ leaf_table m 3 space va) ⊎ (leaf_index va' ≢ leaf_index va)

-- A store to a leaf table.
module _ (s : Vm) (levels : ℕ → ℕ) (pt k e : ℕ) (shaped : IsShaped s levels)
    (leaf : levels pt ≡ 1) where
  stored : ℕ → ℕ → ℕ
  stored = set_entry s.tables pt k e

  stored_away : (t j : ℕ) → t ≢ pt → stored t j ≡ s.tables t j
  unfolding stored
  stored_away t j away =
      ap (λ (f : ℕ → ℕ). f j) (update_ne s.tables pt t (update (s.tables pt) k e) away)

  stored_row : (j : ℕ) → stored pt j ≡ update (s.tables pt) k e j
  unfolding stored
  stored_row j = ap (λ (f : ℕ → ℕ). f j) (update_self s.tables pt (update (s.tables pt) k e))

  leaf_table-stored :
      (r t va : ℕ) → levels t ≡ suc r → leaf_table stored r t va ≡ leaf_table s.tables r t va
  unfolding leaf_table
  leaf_table-stored zero t va at = refl
  leaf_table-stored (suc r) t va at =
      let idx = table_index (1 + suc r) va in
      let same : stored t idx ≡ s.tables t idx =
        stored_away t idx (λ h. absurd (omega (arith, at, leaf, ap levels h))) in
      elim (Bool-cases (present (s.tables t idx))) [
        | inr missing ↦ rw (same, missing) refl
        | inl there ↦ elim (Bool-cases (huge (s.tables t idx))) [
          | inl large ↦ rw (same, there, large) refl
          | inr fine ↦
              rw (same, there, fine)
                (leaf_table-stored r (addr_of (s.tables t idx)) va
                  (shaped.below t idx r at (omega arith) there fine))
        ]
      ]

  stored-IsShaped : IsShaped (record s { tables = stored }) levels
  stored-IsShaped = record {
    pages = shaped.pages;
    used = shaped.used;
    below = λ t i r at small there fine.
        let same : stored t i ≡ s.tables t i =
          stored_away t i (λ h. absurd (omega (arith, at, leaf, ap levels h))) in
        ap (λ n. levels (addr_of n)) same
        ∙ shaped.below t i r at small (ap present (sym same) ∙ there) (ap huge (sym same) ∙ fine);
  }

  stored_here :
      (r t va : ℕ)
      → levels t ≡ suc r
      → leaf_table s.tables r t va ≡ some pt
      → leaf_index va ≡ k
      → entry_for stored r t va ≡ e
  unfolding entry_in
  stored_here r t va at found index =
      ap (entry_in stored va) (leaf_table-stored r t va at ∙ found)
      ∙ stored_row (leaf_index va)
      ∙ ap (update (s.tables pt) k e) index
      ∙ update_self (s.tables pt) k e

  stored_elsewhere :
      (r t va : ℕ)
      → levels t ≡ suc r
      → (leaf_table s.tables r t va ≢ some pt) ⊎ (leaf_index va ≢ k)
      → entry_for stored r t va ≡ entry_for s.tables r t va
  unfolding entry_in
  stored_elsewhere r t va at other =
      ap (entry_in stored va) (leaf_table-stored r t va at)
      ∙ elim (Option-cases (leaf_table s.tables r t va)) [
        | inl missing ↦ rw missing refl
        | inr (pt', found) ↦
            let same : stored pt' (leaf_index va) ≡ s.tables pt' (leaf_index va) =
              elim (Bool-cases (pt' == pt)) [
                | inr away ↦ stored_away pt' (leaf_index va) (==→≢ pt' pt away)
                | inl equal ↦
                    let one = (==_iff pt' pt).0 equal in
                    elim other [
                      | inl other_table ↦ elim (other_table (found ∙ ap some one)) [ ]
                      | inr other_index ↦
                          ap (λ n. stored n (leaf_index va)) one
                          ∙ stored_row (leaf_index va)
                          ∙ update_ne (s.tables pt) k (leaf_index va) e other_index
                          ∙ ap (λ n. s.tables n (leaf_index va)) (sym one)
                    ]
              ] in
            rw found same
      ]

  stored_others :
      (space va space' va' : ℕ)
      → levels space ≡ 4
      → levels space' ≡ 4
      → leaf_table s.tables 3 space va ≡ some pt
      → leaf_index va ≡ k
      → Apart stored space va space' va'
      → entry_for stored 3 space' va' ≡ entry_for s.tables 3 space' va'
  stored_others space va space' va' at at' found index apart =
      stored_elsewhere 3 space' va' at' (elim apart [
        | inl tables_differ ↦ inl (λ h. tables_differ (
            leaf_table-stored 3 space' va' at'
            ∙ h
            ∙ sym found
            ∙ sym (leaf_table-stored 3 space va at)))
        | inr places_differ ↦ inr (λ h. places_differ (h ∙ sym index))
      ])

-- The tables are well-formed, none is lost, and only the translation of one page of addresses may
-- have changed.
pub record OnlyAt (s : Vm) (levels : ℕ → ℕ) (space va : ℕ) (s' : Vm) : Type 0 where
  pub levels_after : ℕ → ℕ
  pub shaped : IsShaped s' levels_after
  pub level : (t : ℕ) → 0 < levels t → levels_after t ≡ levels t
  pub only_free :
      (j : ℕ)
      → bm_test s.pmm.bitmap j ≡ false
      → levels_after (j * page_size) ≡ levels (j * page_size)
  pub stays_used : (j : ℕ) → bm_test s.pmm.bitmap j ≡ false → bm_test s'.pmm.bitmap j ≡ false
  pub entries :
      (space' va' : ℕ)
      → levels space' ≡ 4
      → Apart s'.tables space va space' va'
      → entry_for s'.tables 3 space' va' ≡ entry_for s.tables 3 space' va'
  pub others :
      (space' va' : ℕ)
      → levels space' ≡ 4
      → Apart s'.tables space va space' va'
      → translate space' va' s' ≡ translate space' va' s

-- Nothing is translated otherwise than before.
pub record AsBefore (s : Vm) (levels : ℕ → ℕ) (s' : Vm) : Type 0 where
  pub levels_after : ℕ → ℕ
  pub shaped : IsShaped s' levels_after
  pub level : (t : ℕ) → 0 < levels t → levels_after t ≡ levels t
  pub only_free :
      (j : ℕ)
      → bm_test s.pmm.bitmap j ≡ false
      → levels_after (j * page_size) ≡ levels (j * page_size)
  pub stays_used : (j : ℕ) → bm_test s.pmm.bitmap j ≡ false → bm_test s'.pmm.bitmap j ≡ false
  pub entries :
      (space' va' : ℕ)
      → levels space' ≡ 4
      → entry_for s'.tables 3 space' va' ≡ entry_for s.tables 3 space' va'
  pub all : (space' va' : ℕ) → levels space' ≡ 4 → translate space' va' s' ≡ translate space' va' s

-- A store to the entry of `va`, after a walk.
pub stored_OnlyAt :
    (s mid : Vm) (levels levels' : ℕ → ℕ) (space va pt e : ℕ)
    → (grown : Grown s levels mid levels') → levels space ≡ 4
    → leaf_table mid.tables 3 space va ≡ some pt
    → levels' pt ≡ 1
    → let after = record mid { tables = set_entry mid.tables pt (leaf_index va) e } in
      (translate space va after ≡ target e va) × OnlyAt s levels space va after
unfolding stored
stored_OnlyAt s mid levels levels' space va pt e grown root found leaf =
    let k = leaf_index va in
    let at = grown.level space (omega (arith, root)) ∙ root in
    (
      translate_entry space va _
          ∙ ap (λ n. target n va)
              (stored_here mid levels' pt k e grown.shaped leaf 3 space va at found refl),
      record {
        levels_after = levels';
        shaped = stored-IsShaped mid levels' pt k e grown.shaped leaf;
        level = grown.level;
        only_free = grown.only_free;
        stays_used = grown.stays_used;
        entries = λ space' va' at' apart.
            let level' = grown.level space' (omega (arith, at')) ∙ at' in
            stored_others mid levels' pt k e grown.shaped leaf space va space' va' at level' found
              refl apart
            ∙ grown.kept space' 3 va' at';
        others = λ space' va' at' apart.
            let level' = grown.level space' (omega (arith, at')) ∙ at' in
            translate_entry space' va' _
            ∙ ap (λ n. target n va')
                (stored_others mid levels' pt k e grown.shaped leaf space va space' va' at level'
                    found refl apart
                  ∙ grown.kept space' 3 va' at')
            ∙ sym (translate_entry space' va' s);
      },
    )

false≢true : false ≢ true
false≢true h = ground (arith, h)

-- Addresses that are mapped stay so when the entry of `va` becomes a mapped one.
pub OnlyAt-mapped :
    (s : Vm) (levels : ℕ → ℕ) (space va : ℕ) (s' : Vm)
    → OnlyAt s levels space va s'
    → present (entry_for s'.tables 3 space va) ≡ true
    → (space' va' : ℕ) → levels space' ≡ 4
    → present (entry_for s.tables 3 space' va') ≡ true
    → present (entry_for s'.tables 3 space' va') ≡ true
unfolding entry_in present
OnlyAt-mapped s levels space va s' o now space' va' at before =
    let go = λ (apart : Apart s'.tables space va space' va').
      ap present (o.entries space' va' at apart) ∙ before in
    elim (Bool-cases (leaf_index va' == leaf_index va)) [
      | inr other ↦ go (inr (==→≢ (leaf_index va') (leaf_index va) other))
      | inl same ↦ elim (Option-cases (leaf_table s'.tables 3 space va)) [
        | inl missing ↦
            let absent = ap (λ l. present (entry_in s'.tables va l)) missing in
            elim (false≢true (sym absent ∙ now)) [ ]
        | inr (pt, found) ↦ elim (Option-cases (leaf_table s'.tables 3 space' va')) [
          | inl missing ↦ go (inl (λ e. none-ne-some pt (sym missing ∙ e ∙ found)))
          | inr (pt', found') ↦ elim (Bool-cases (pt' == pt)) [
            | inr other ↦
                go (inl (λ e. ==→≢ pt' pt other (some-injective pt' pt (sym found' ∙ e ∙ found))))
            | inl one ↦
                ap (λ l. present (entry_in s'.tables va' l)) found'
                ∙ ap (λ i. present (s'.tables pt' i))
                    ((==_iff (leaf_index va') (leaf_index va)).0 same)
                ∙ ap (λ t. present (s'.tables t (leaf_index va))) ((==_iff pt' pt).0 one)
                ∙ sym (ap (λ l. present (entry_in s'.tables va l)) found)
                ∙ now
          ]
        ]
      ]
    ]

-- ===== src/Vmm/Walk.antt =====
-- `walk`: the lookup, and the way down that makes the tables that are missing.
use kernel_rs.Prelude.{
  ℕ, zero, suc, ◌+◌, ◌≡◌, refl, ◌∙◌, ap, Bool, true, false, ◌&&◌, ◌||◌, ◌==◌, ◌⊎◌, arith, Option,
  none, some, Bool-cases, inl, inr, ltb,
}
use kernel_rs.Pmm.{alloc_page}
use kernel_rs.Pmm.Count.{Exhausted}
use kernel_rs.Pmm.Alloc.{alloc_page_lem}
use kernel_rs.Vmm.{Vm, present, huge, addr_of, table_index, table_entry, walk_from, walk}
use kernel_rs.Vmm.Entry.{table_entry-present, table_entry-huge, table_entry-addr_of}
use kernel_rs.Vmm.Hang.{aligned, fits, deeper, extended, at_new, extended_Grown, entry_stored}
use kernel_rs.Vmm.Tables.{IsShaped, Grown, Grown-refl, Grown-trans, leaf_table, hung}

-- The walk that makes no table only looks.
pub walk_from-lookup :
    (r t va : ℕ) (s : Vm) → walk_from r 1 false va t s ≡ (s, leaf_table s.tables r t va)
unfolding walk_from leaf_table
walk_from-lookup zero t va s = refl
walk_from-lookup (suc r) t va s =
    let e = s.tables t (table_index (1 + suc r) va) in
    let deep : ltb 1 (1 + suc r) ≡ true = ground arith in
    elim (Bool-cases (present e)) [
      | inr missing ↦ rw missing refl
      | inl there ↦ elim (Bool-cases (huge e)) [
        | inl big ↦ rw (there, big, deep) refl
        | inr small ↦ rw (there, small) (walk_from-lookup r (addr_of e) va s)
      ]
    ]

pub walk-lookup :
    (space va : ℕ) (s : Vm) → walk space va false 1 s ≡ (s, leaf_table s.tables 3 space va)
unfolding walk
walk-lookup space va s = walk_from-lookup 3 space va s

-- A large page stands on the way to the leaf table.
unfoldable pub huge_above : (ℕ → ℕ → ℕ) → ℕ → ℕ → ℕ → Bool
huge_above m zero t va = false
huge_above m (suc r) t va =
    let e = m t (table_index (1 + suc r) va) in
    let rest = huge_above m r (addr_of e) va in present e && (huge e || rest)

-- How a walk that makes tables ends: at the leaf table, or where no page is left or a large page is.
pub record Reaches (m : ℕ → ℕ → ℕ) (levels : ℕ → ℕ) (r t va : ℕ) (out : Option ℕ) : Type 0 where
  pub leaf : ℕ
  pub returned : out ≡ some leaf
  pub found : leaf_table m r t va ≡ some leaf
  pub is_leaf : levels leaf ≡ 1

pub record Blocked (s : Vm) (r t va : ℕ) (out : Option ℕ) : Type 0 where
  pub returned : out ≡ none
  pub found : leaf_table s.tables r t va ≡ none
  pub because : Exhausted s.pmm ⊎ (huge_above s.tables r t va ≡ true)

pub record Walked (s : Vm) (levels : ℕ → ℕ) (r t va : ℕ) (out : Vm × Option ℕ) : Type 0 where
  pub levels_after : ℕ → ℕ
  pub grown : Grown s levels out.0 levels_after
  pub result : Reaches out.0.tables levels_after r t va out.1 ⊎ Blocked out.0 r t va out.1

-- A walk from the next table down is one from a table above.
through :
    (s s1 : Vm) (levels levels1 : ℕ → ℕ) (r t va next : ℕ) (out : Vm × Option ℕ)
    → Grown s levels s1 levels1
    → levels1 t ≡ suc (suc r)
    → present (s1.tables t (table_index (1 + suc r) va)) ≡ true
    → huge (s1.tables t (table_index (1 + suc r) va)) ≡ false
    → addr_of (s1.tables t (table_index (1 + suc r) va)) ≡ next
    → Walked s1 levels1 r next va out
    → Walked s levels (suc r) t va out
unfolding leaf_table huge_above
through s s1 levels levels1 r t va next out before level there fine leads w =
    let idx = table_index (1 + suc r) va in
    let kept : out.0.tables t idx ≡ s1.tables t idx =
      w.grown.entries t idx (omega (arith, level)) there in
    record {
      levels_after = w.levels_after;
      grown = Grown-trans s levels s1 levels1 out.0 w.levels_after before w.grown;
      result = elim w.result [
        | inl ok ↦ inl (record {
          leaf = ok.leaf;
          returned = ok.returned;
          found = rw (kept, there, fine, leads) ok.found;
          is_leaf = ok.is_leaf;
        })
        | inr stuck ↦ inr (record {
          returned = stuck.returned;
          found = rw (kept, there, fine, leads) stuck.found;
          because = elim stuck.because [
            | inl full ↦ inl full
            | inr large ↦ inr (rw (kept, there, fine, leads) large)
          ];
        })
      ];
    }

pub leaf_table_missing :
    (m : ℕ → ℕ → ℕ) (r t va : ℕ)
    → present (m t (table_index (1 + suc r) va)) ≡ false
    → leaf_table m (suc r) t va ≡ none
unfolding leaf_table
leaf_table_missing m r t va h = rw h refl

pub leaf_table-huge :
    (m : ℕ → ℕ → ℕ) (r t va : ℕ)
    → present (m t (table_index (1 + suc r) va)) ≡ true
    → huge (m t (table_index (1 + suc r) va)) ≡ true
    → (leaf_table m (suc r) t va ≡ none) × (huge_above m (suc r) t va ≡ true)
unfolding leaf_table huge_above
leaf_table-huge m r t va h k = (rw (h, k) refl, rw (h, k) refl)

pub leaf_table_deeper :
    (m : ℕ → ℕ → ℕ) (r t va : ℕ)
    → present (m t (table_index (1 + suc r) va)) ≡ true
    → huge (m t (table_index (1 + suc r) va)) ≡ false
    → leaf_table m (suc r) t va ≡ leaf_table m r (addr_of (m t (table_index (1 + suc r) va))) va
unfolding leaf_table
leaf_table_deeper m r t va h k = rw (h, k) refl

pub walk_from-Walked :
    (r t va : ℕ) (s : Vm) (levels : ℕ → ℕ)
    → IsShaped s levels
    → levels t ≡ suc r
    → Walked s levels r t va (walk_from r 1 true va t s)
unfolding walk_from leaf_table extended hung
walk_from-Walked zero t va s levels shaped level = record {
  levels_after = levels;
  grown = Grown-refl s levels shaped;
  result = inl (record { leaf = t; returned = refl; found = refl; is_leaf = level });
}
walk_from-Walked (suc r) t va s levels shaped level =
    let idx = table_index (1 + suc r) va in
    let e = s.tables t idx in
    let deep : ltb 1 (1 + suc r) ≡ true = ground arith in
    elim (Bool-cases (present e)) [
      | inr missing ↦ elim (alloc_page_lem s.pmm shaped.pages) [
        | inl (full, exhausted) ↦
            rw (missing, full)
              (record {
                levels_after = levels;
                grown = Grown-refl s levels shaped;
                result = inr (record {
                  returned = refl;
                  found = leaf_table_missing s.tables r t va missing;
                  because = inl exhausted;
                });
              })
        | inr found ↦
            let p' = (alloc_page s.pmm).0 in
            let np = (alloc_page s.pmm).1 in
            let some_page : (np == 0) ≡ false = ground (arith, found.above, found.address) in
            let grown = extended_Grown s levels p' t idx np r shaped found level missing in
            let whole = aligned s levels p' t idx np r shaped found level missing in
            let stored = entry_stored s levels p' t idx np r shaped found level missing in
            let next_level =
              at_new s levels p' t idx np r shaped found level missing (addr_of (table_entry np)) (
                table_entry-addr_of np whole
                  (fits s levels p' t idx np r shaped found level missing)) in
            rw (missing, some_page)
              (through s (extended s levels p' t idx np r shaped found level missing) levels
                (deeper s levels p' t idx np r shaped found level missing) r t va
                (addr_of (table_entry np)) _ grown (grown.level t (omega (arith, level)) ∙ level)
                (ap present stored ∙ table_entry-present np whole)
                (ap huge stored ∙ table_entry-huge np whole) (ap addr_of stored)
                (walk_from-Walked r (addr_of (table_entry np)) va _ _ grown.shaped next_level))
      ]
      | inl there ↦ elim (Bool-cases (huge e)) [
        | inl big ↦
            let large = leaf_table-huge s.tables r t va there big in
            rw (there, big, deep)
              (record {
                levels_after = levels;
                grown = Grown-refl s levels shaped;
                result = inr (record { returned = refl; found = large.0; because = inr large.1 });
              })
        | inr fine ↦
            rw (there, fine)
              (through s s levels levels r t va (addr_of e) _ (Grown-refl s levels shaped) level
                there fine refl
                (walk_from-Walked r (addr_of e) va s levels shaped
                  (shaped.below t idx r level (omega arith) there fine)))
      ]
    ]

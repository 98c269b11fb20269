-- ===== src/Vmm/Keeps.antt =====
-- What an operation on page tables must keep: their form, and the addresses that are mapped.
use kernel_rs.Prelude.{
  ◌≤◌, ◌&&◌, not, none, if◌then◌else◌, Option-cases, ℕ, zero, suc, ◌+◌, ◌/◌, ◌%◌, ◌<◌, ◌≡◌, ◌≢◌,
  refl, sym, ◌∙◌, ap, inl, inr, Bool, true, false, update_ne, arith, Bool-cases,
}
use kernel_rs.Pmm.{Pmm}
use kernel_rs.Pmm.Alloc.{Found}
use kernel_rs.Vmm.{Vm, present, huge, addr_of, table_index, zero_table, translate}
use kernel_rs.Vmm.Tables.{IsShaped, entry_for, entry_in, leaf_table, entry_for-same, apart}
use kernel_rs.Vmm.Store.{target, translate_entry, OnlyAt, AsBefore, OnlyAt-mapped}

-- The address is mapped in the space.
abbrev pub mapped : Vm → ℕ → ℕ → Bool
mapped s space va = present (entry_for s.tables 3 space va)

-- Memory where the tables are the same finds the same entries.
agree-entry_for :
    (m m' : ℕ → ℕ → ℕ) (levels : ℕ → ℕ)
    → ((t : ℕ) → 0 < levels t → m' t ≡ m t)
    → ((t i r : ℕ)
        → levels t ≡ suc (suc r)
        → i < 512
        → present (m t i) ≡ true
        → huge (m t i) ≡ false
        → levels (addr_of (m t i)) ≡ suc r)
    → (r t va : ℕ) → levels t ≡ suc r
    → entry_for m' r t va ≡ entry_for m r t va
unfolding entry_in leaf_table
agree-entry_for m m' levels same below zero t va at =
    ap (λ (f : ℕ → ℕ). f (va / 4096 % 512)) (same t (omega (arith, at)))
agree-entry_for m m' levels same below (suc r) t va at =
    let idx = table_index (1 + suc r) va in
    entry_for-same m m' r t t va (ap (λ (f : ℕ → ℕ). f idx) (same t (omega (arith, at))))
      (λ there fine.
        agree-entry_for m m' levels same below r (addr_of (m t idx)) va
          (below t idx r at (omega arith) there fine))

-- The tables are well-formed, none is lost, and what was mapped is mapped.
pub record Keeps (s : Vm) (levels : ℕ → ℕ) (s' : Vm) : Type 0 where
  pub levels_after : ℕ → ℕ
  pub shaped : IsShaped s' levels_after
  pub level : (t : ℕ) → 0 < levels t → levels_after t ≡ levels t
  pub stays :
      (space va : ℕ) → levels space ≡ 4 → mapped s space va ≡ true → mapped s' space va ≡ true

pub Keeps-refl : (s : Vm) (levels : ℕ → ℕ) → IsShaped s levels → Keeps s levels s
Keeps-refl s levels h = record {
  levels_after = levels;
  shaped = h;
  level = λ t k. refl;
  stays = λ space va at k. k;
}

pub Keeps-trans :
    (a b c : Vm) (l : ℕ → ℕ) (p : Keeps a l b) → Keeps b p.levels_after c → Keeps a l c
Keeps-trans a b c l p q = record {
  levels_after = q.levels_after;
  shaped = q.shaped;
  level = λ t k. q.level t (omega (arith, p.level t k, k)) ∙ p.level t k;
  stays = λ space va at k.
      q.stays space va (p.level space (omega (arith, at)) ∙ at) (p.stays space va at k);
}

-- A page that is no table is cleared.
pub cleared-Keeps :
    (s : Vm) (levels : ℕ → ℕ) (pa : ℕ)
    → IsShaped s levels
    → levels pa ≡ 0
    → Keeps s levels (record s { tables = zero_table pa s.tables })
unfolding zero_table
cleared-Keeps s levels pa h none_there =
    let same : (t : ℕ) → 0 < levels t → zero_table pa s.tables t ≡ s.tables t =
      λ t k. update_ne s.tables pa t (λ i. 0) (apart levels t pa k none_there) in
    record {
      levels_after = levels;
      shaped = record {
        pages = h.pages;
        used = h.used;
        below = λ t i r at small there fine.
            let row = ap (λ (f : ℕ → ℕ). f i) (same t (omega (arith, at))) in
            ap (λ e. levels (addr_of e)) row
            ∙ h.below t i r at small (ap present (sym row) ∙ there) (ap huge (sym row) ∙ fine);
      };
      level = λ t k. refl;
      stays = λ space va at k.
          ap present
            (agree-entry_for s.tables (zero_table pa s.tables) levels same h.below 3 space va at)
          ∙ k;
    }

-- A page of the allocator is no table once it is taken.
pub taken-IsShaped :
    (s : Vm) (levels : ℕ → ℕ) (p' : Pmm) (pa : ℕ)
    → IsShaped s levels
    → Found 0 s.pmm (p', pa)
    → IsShaped (record s { pmm = p' }) levels
taken-IsShaped s levels p' pa h found = record {
  pages = found.valid;
  below = h.below;
  used = λ j k. found.takes.now j ∙ ground (arith, h.used j k);
}

pub rebase :
    (s : Vm) (q : Pmm) (levels : ℕ → ℕ) (s' : Vm)
    → Keeps (record s { pmm = q }) levels s'
    → Keeps s levels s'
rebase s q levels s' k = record {
  levels_after = k.levels_after;
  shaped = k.shaped;
  level = k.level;
  stays = k.stays;
}

pub AsBefore-Keeps : (s : Vm) (levels : ℕ → ℕ) (s' : Vm) → AsBefore s levels s' → Keeps s levels s'
AsBefore-Keeps s levels s' o = record {
  levels_after = o.levels_after;
  shaped = o.shaped;
  level = o.level;
  stays = λ space va at k. ap present (o.entries space va at) ∙ k;
}

OnlyAt-Keeps :
    (s : Vm) (levels : ℕ → ℕ) (space va : ℕ) (s' : Vm)
    → OnlyAt s levels space va s'
    → mapped s' space va ≡ true
    → Keeps s levels s'
OnlyAt-Keeps s levels space va s' o now = record {
  levels_after = o.levels_after;
  shaped = o.shaped;
  level = o.level;
  stays = λ space' va' at k. OnlyAt-mapped s levels space va s' o now space' va' at k;
}

-- An address that is translated to something is mapped.
pub translated-mapped :
    (s : Vm) (space va : ℕ) → translate space va s ≢ 0 → mapped s space va ≡ true
unfolding target
translated-mapped s space va some_where = elim (Bool-cases (mapped s space va)) [
  | inl there ↦ there
  | inr absent ↦ elim (some_where (translate_entry space va s ∙ rw absent refl)) [ ]
]

-- A page is mapped and then cleared.
pub mapped-cleared :
    (s : Vm) (levels : ℕ → ℕ) (space va : ℕ) (s2 : Vm) (pa : ℕ)
    → levels space ≡ 4
    → (o : OnlyAt s levels space va s2) → mapped s2 space va ≡ true
    → o.levels_after pa ≡ 0
    → Keeps s levels (record s2 { tables = zero_table pa s2.tables })
      × (mapped (record s2 { tables = zero_table pa s2.tables }) space va ≡ true)
unfolding OnlyAt-Keeps
mapped-cleared s levels space va s2 pa root o now no_table =
    let first = OnlyAt-Keeps s levels space va s2 o now in
    let second = cleared-Keeps s2 o.levels_after pa o.shaped no_table in
    (
      Keeps-trans s s2 _ levels first second,
      second.stays space va (o.level space (omega (arith, root)) ∙ root) now,
    )

-- The addresses of a page share their indices.
same_index :
    (r va va' : ℕ)
    → r ≤ 3
    → va / 4096 ≡ va' / 4096
    → table_index (1 + r) va ≡ table_index (1 + r) va'
same_index zero va va' le same = ap (λ n. n % 512) same
same_index (suc zero) va va' le same = omega (arith, same)
same_index (suc (suc zero)) va va' le same = omega (arith, same)
same_index (suc (suc (suc zero))) va va' le same = omega (arith, same)
same_index (suc (suc (suc (suc r)))) va va' le same = absurd (omega (arith, le))

same_leaf_table :
    (m : ℕ → ℕ → ℕ) (r t va va' : ℕ)
    → r ≤ 3
    → va / 4096 ≡ va' / 4096
    → leaf_table m r t va ≡ leaf_table m r t va'
unfolding leaf_table
same_leaf_table m zero t va va' le same = refl
same_leaf_table m (suc r) t va va' le same =
    let idx = table_index (1 + suc r) va in
    ap (λ rest. if present (m t idx) && not (huge (m t idx)) then rest else none)
      (same_leaf_table m r (addr_of (m t idx)) va va' (omega (arith, le)) same)
    ∙ ap
        (λ i.
          if present (m t i) && not (huge (m t i))
          then leaf_table m r (addr_of (m t i)) va'
          else none)
        (same_index (suc r) va va' le same)

-- The addresses of a page are mapped together.
pub mapped-page :
    (s : Vm) (space va va' : ℕ) → va / 4096 ≡ va' / 4096 → mapped s space va ≡ mapped s space va'
unfolding entry_in
mapped-page s space va va' same =
    ap (λ o. present (entry_in s.tables va o))
      (same_leaf_table s.tables 3 space va va' (omega arith) same)
    ∙ elim (Option-cases (leaf_table s.tables 3 space va')) [
      | inl nothing ↦ rw nothing refl
      | inr (t, found) ↦ rw found (ap (λ i. present (s.tables t (i % 512))) same)
    ]

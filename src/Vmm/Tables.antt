-- ===== src/Vmm/Tables.antt =====
-- What a hierarchy of page tables means, and a new table in it.
use kernel_rs.Prelude.{
  ℕ, zero, suc, ◌+◌, ◌*◌, ◌/◌, ◌%◌, ◌^◌, ◌<◌, ◌≡◌, ◌≢◌, refl, sym, ◌∙◌, ap, true, false, not, ◌&&◌,
  ◌==◌, if◌then◌else◌, arith, Option, none, some, update, update_self, update_ne, Bool-cases, inl,
  inr, ==_iff, ==→≢,
}
use kernel_rs.Prelude.Align.{page_size}
use kernel_rs.Pmm.{bm_test}
use kernel_rs.Pmm.Count.{IsValid}
use kernel_rs.Vmm.{Vm, present, huge, addr_of, table_index, table_entry, zero_table, set_entry}
use kernel_rs.Vmm.Entry.{table_entry-present, table_entry-huge, table_entry-addr_of}

-- The leaf table for `va`, `r` levels below the table `t`.
unfoldable pub leaf_table : (ℕ → ℕ → ℕ) → ℕ → ℕ → ℕ → Option ℕ
leaf_table m zero t va = some t
leaf_table m (suc r) t va =
    let e = m t (table_index (1 + suc r) va) in
    let rest = leaf_table m r (addr_of e) va in if present e && not (huge e) then rest else none

abbrev pub leaf_index : ℕ → ℕ
leaf_index va = va / 4096 % 512

unfoldable pub entry_in : (ℕ → ℕ → ℕ) → ℕ → Option ℕ → ℕ
entry_in m va none = 0
entry_in m va (some t) = m t (leaf_index va)

-- The entry for `va`, 0 where there is none.
abbrev pub entry_for : (ℕ → ℕ → ℕ) → ℕ → ℕ → ℕ → ℕ
entry_for m r t va = entry_in m va (leaf_table m r t va)

-- `levels t` is the level of the table at `t`, 1 for a leaf table, and 0 where no table is. The
-- entries of a table lead to tables of the next level, and the page of a table is in use.
pub record IsShaped (s : Vm) (levels : ℕ → ℕ) : Type 0 where
  pub pages : IsValid s.pmm
  pub below :
      (t i r : ℕ)
      → levels t ≡ suc (suc r)
      → i < 512
      → present (s.tables t i) ≡ true
      → huge (s.tables t i) ≡ false
      → levels (addr_of (s.tables t i)) ≡ suc r
  pub used : (j : ℕ) → 0 < levels (j * page_size) → bm_test s.pmm.bitmap j ≡ false

-- No table and no entry is lost, and every address that a table translates is translated as before.
pub record Grown (s : Vm) (levels : ℕ → ℕ) (s' : Vm) (levels' : ℕ → ℕ) : Type 0 where
  pub shaped : IsShaped s' levels'
  pub level : (t : ℕ) → 0 < levels t → levels' t ≡ levels t
  pub kept :
      (t r va : ℕ) → levels t ≡ suc r → entry_for s'.tables r t va ≡ entry_for s.tables r t va
  pub entries :
      (t j : ℕ) → 0 < levels t → present (s.tables t j) ≡ true → s'.tables t j ≡ s.tables t j
  pub only_free :
      (j : ℕ) → bm_test s.pmm.bitmap j ≡ false → levels' (j * page_size) ≡ levels (j * page_size)
  pub stays_used : (j : ℕ) → bm_test s.pmm.bitmap j ≡ false → bm_test s'.pmm.bitmap j ≡ false
  pub root : s'.kernel_space ≡ s.kernel_space

pub Grown-refl : (s : Vm) (levels : ℕ → ℕ) → IsShaped s levels → Grown s levels s levels
Grown-refl s levels h = record {
  shaped = h;
  level = λ t k. refl;
  kept = λ t r va k. refl;
  entries = λ t j k there. refl;
  only_free = λ j used. refl;
  stays_used = λ j used. used;
  root = refl;
}

pub Grown-trans :
    (s : Vm) (l : ℕ → ℕ) (s' : Vm) (l' : ℕ → ℕ) (s'' : Vm) (l'' : ℕ → ℕ)
    → Grown s l s' l'
    → Grown s' l' s'' l''
    → Grown s l s'' l''
Grown-trans s l s' l' s'' l'' a b = record {
  shaped = b.shaped;
  level = λ t k. b.level t (omega (arith, a.level t k)) ∙ a.level t k;
  kept = λ t r va k. b.kept t r va (a.level t (omega (arith, k)) ∙ k) ∙ a.kept t r va k;
  entries = λ t j k there.
      b.entries t j (omega (arith, k, a.level t k)) (ap present (a.entries t j k there) ∙ there)
      ∙ a.entries t j k there;
  only_free = λ j used. b.only_free j (a.stays_used j used) ∙ a.only_free j used;
  stays_used = λ j used. b.stays_used j (a.stays_used j used);
  root = b.root ∙ a.root;
}

-- Nothing is found in a table of zeros.
pub entry_for-zeros : (m : ℕ → ℕ → ℕ) (r t va : ℕ) → ((i : ℕ) → m t i ≡ 0) → entry_for m r t va ≡ 0
unfolding entry_in leaf_table present
entry_for-zeros m zero t va h = h (leaf_index va)
entry_for-zeros m (suc r) t va h = rw (h (table_index (1 + suc r) va)) refl

-- A page that holds no table is another page than one that does.
pub apart : (levels : ℕ → ℕ) (t np : ℕ) → 0 < levels t → levels np ≡ 0 → t ≢ np
apart levels t np some_level no_level same = omega (arith, ap levels same)

-- Where two tables have the same entry, the same is found below them.
pub entry_for-same :
    (m m' : ℕ → ℕ → ℕ) (r t t' va : ℕ)
    → m' t' (table_index (1 + suc r) va) ≡ m t (table_index (1 + suc r) va)
    → (present (m t (table_index (1 + suc r) va)) ≡ true
        → huge (m t (table_index (1 + suc r) va)) ≡ false
        → entry_for m' r (addr_of (m t (table_index (1 + suc r) va))) va
          ≡ entry_for m r (addr_of (m t (table_index (1 + suc r) va))) va)
    → entry_for m' (suc r) t' va ≡ entry_for m (suc r) t va
unfolding leaf_table entry_in
entry_for-same m m' r t t' va same deeper =
    elim (Bool-cases (present (m t (table_index (1 + suc r) va)))) [
      | inr missing ↦ rw (same, missing) refl
      | inl there ↦ elim (Bool-cases (huge (m t (table_index (1 + suc r) va)))) [
        | inl big ↦ rw (same, there, big) refl
        | inr small ↦ rw (same, there, small) (deeper there small)
      ]
    ]

-- The tables after the table at `np` is cleared and its entry is stored.
unfoldable pub hung : (ℕ → ℕ → ℕ) → ℕ → ℕ → ℕ → ℕ → ℕ → ℕ
hung m t i np = set_entry (zero_table np m) t i (table_entry np)

-- A new table of zeros, hung below a table where no entry was.
module _ (m : ℕ → ℕ → ℕ) (levels : ℕ → ℕ) (t i np n : ℕ) (level : levels t ≡ suc (suc n))
    (fresh : levels np ≡ 0) (aligned : np % 4096 ≡ 0) (fits : np < 2 ^ 52)
    (no_entry : present (m t i) ≡ false) where
  new_row : ℕ → ℕ
  new_row = update (zero_table np m t) i (table_entry np)

  pub hung-old : (t' : ℕ) → t' ≢ np → t' ≢ t → (hung m t i np) t' ≡ m t'
  unfolding hung new_row zero_table
  hung-old t' other away =
      update_ne (zero_table np m) t t' new_row away ∙ update_ne m np t' (λ j. 0) other

  pub hung-new : (j : ℕ) → (hung m t i np) np j ≡ 0
  unfolding hung new_row zero_table
  hung-new j =
      let away : np ≢ t = λ same. apart levels t np (omega (arith, level)) fresh (sym same) in
      let row : (hung m t i np) np ≡ (λ j. 0) =
        update_ne (zero_table np m) t np new_row away ∙ update_self m np (λ j. 0) in
      ap (λ (f : ℕ → ℕ). f j) row

  pub hung-here : (j : ℕ) → (hung m t i np) t j ≡ update (m t) i (table_entry np) j
  unfolding hung new_row zero_table
  hung-here j =
      let other : t ≢ np = apart levels t np (omega (arith, level)) fresh in
      ap (λ (f : ℕ → ℕ). f j) (update_self (zero_table np m) t new_row)
      ∙ ap (λ (f : ℕ → ℕ). update f i (table_entry np) j) (update_ne m np t (λ k. 0) other)

  pub hung-at : (t' j : ℕ) → t' ≡ t → (hung m t i np) t' j ≡ update (m t) i (table_entry np) j
  hung-at t' j same = ap (λ k. (hung m t i np) k j) same ∙ hung-here j

  pub hung-entry_for :
      ((t' j r : ℕ)
        → levels t' ≡ suc (suc r)
        → j < 512
        → present (m t' j) ≡ true
        → huge (m t' j) ≡ false
        → levels (addr_of (m t' j)) ≡ suc r)
      → (r t' va : ℕ) → levels t' ≡ suc r
      → entry_for (hung m t i np) r t' va ≡ entry_for m r t' va
  unfolding entry_in leaf_table
  hung-entry_for below zero t' va at =
      let other = apart levels t' np (omega (arith, at)) fresh in
      let away : t' ≢ t = λ same. absurd (omega (arith, at, level, ap levels same)) in
      ap (λ (f : ℕ → ℕ). f (leaf_index va)) (hung-old t' other away)
  hung-entry_for below (suc r) t' va at =
      let idx = table_index (1 + suc r) va in
      let other = apart levels t' np (omega (arith, at)) fresh in
      let go = λ (same : (hung m t i np) t' idx ≡ m t' idx).
        entry_for-same m (hung m t i np) r t' t' va same (λ there small.
          hung-entry_for below r (addr_of (m t' idx)) va
            (below t' idx r at (omega arith) there small)) in
      elim (Bool-cases (t' == t)) [
        | inr differs ↦ go (ap (λ (f : ℕ → ℕ). f idx) (hung-old t' other (==→≢ t' t differs)))
        | inl equal ↦
            let same = (==_iff t' t).0 equal in
            elim (Bool-cases (idx == i)) [
              | inr differs ↦ go (
                  hung-at t' idx same
                  ∙ update_ne (m t) i idx (table_entry np) (==→≢ idx i differs)
                  ∙ ap (λ k. m k idx) (sym same))
              | inl here ↦
                  let at_i = (==_iff idx i).0 here in
                  let missing : present (m t' idx) ≡ false =
                    ap (λ k. present (m k idx)) same ∙ ap (λ k. present (m t k)) at_i ∙ no_entry in
                  let now : (hung m t i np) t' idx ≡ table_entry np =
                    hung-at t' idx same
                    ∙ ap (update (m t) i (table_entry np)) at_i
                    ∙ update_self (m t) i (table_entry np) in
                  let back = table_entry-addr_of np aligned fits in
                  rw
                    (
                      now,
                      table_entry-present np aligned,
                      table_entry-huge np aligned,
                      back,
                      missing,
                    )
                    (entry_for-zeros (hung m t i np) r np va hung-new)
            ]
      ]

-- ===== src/Vmm/Hang.antt =====
-- A page from the allocator becomes a table below one that lacked an entry.
use kernel_rs.Prelude.{
  ℕ, suc, ◌*◌, ◌%◌, ◌^◌, ◌<◌, ◌≡◌, ◌≢◌, refl, sym, ◌∙◌, ap, subst, true, false, ◌==◌, arith, update,
  update_self, update_ne, Bool-cases, inl, inr, ==_iff, ==→≢,
}
use kernel_rs.Prelude.Align.{page_size}
use kernel_rs.Pmm.{Pmm, bm_test}
use kernel_rs.Pmm.Alloc.{Found}
use kernel_rs.Vmm.{Vm, present, huge, addr_of, table_entry}
use kernel_rs.Vmm.Entry.{table_entry-addr_of}
use kernel_rs.Vmm.Tables.{IsShaped, Grown, hung, hung-old, hung-new, hung-at, hung-entry_for, apart}

pub no_table : present 0 ≢ true
unfolding present
no_table h = ground (arith, h)

-- A page that was free has no table.
pub fresh_page :
    (s : Vm) (levels : ℕ → ℕ) (p' : Pmm) (np : ℕ)
    → IsShaped s levels
    → Found 0 s.pmm (p', np)
    → levels np ≡ 0
fresh_page s levels p' np shaped found = elim (Bool-cases (levels np == 0)) [
  | inl none_there ↦ (==_iff (levels np) 0).0 none_there
  | inr some_there ↦
      let some_level : 0 < levels np = omega (arith, ==→≢ (levels np) 0 some_there) in
      let busy = shaped.used found.page (subst (λ k. 0 < levels k) found.address some_level) in
      let free = found.takes.were_free found.page (omega arith) (omega arith) in
      ground (arith, busy, free)
]

-- The state with a new table is well-formed, and translates as before.
module _ (s : Vm) (levels : ℕ → ℕ) (p' : Pmm) (t i np n : ℕ) (shaped : IsShaped s levels)
    (found : Found 0 s.pmm (p', np)) (level : levels t ≡ suc (suc n))
    (no_entry : present (s.tables t i) ≡ false) where
  pub aligned : np % 4096 ≡ 0
  aligned = omega (arith, found.address)

  pub fits : np < 2 ^ 52
  fits = let range = found.takes.fits in omega (arith, found.address, range)

  fresh : levels np ≡ 0
  fresh = fresh_page s levels p' np shaped found

  unfoldable pub deeper : ℕ → ℕ
  deeper = update levels np (suc n)

  unfoldable pub extended : Vm
  extended = record s { pmm = p'; tables = hung s.tables t i np }

  pub at_new : (x : ℕ) → x ≡ np → deeper x ≡ suc n
  unfolding deeper
  at_new x same = ap deeper same ∙ update_self levels np (suc n)

  at_old : (x : ℕ) → x ≢ np → deeper x ≡ levels x
  unfolding deeper
  at_old x other = update_ne levels np x (suc n) other

  kept_level : (x : ℕ) → 0 < levels x → deeper x ≡ levels x
  kept_level x some_level = at_old x (apart levels x np some_level fresh)

  used_after : (j : ℕ) → 0 < deeper (j * page_size) → bm_test p'.bitmap j ≡ false
  used_after j some_level = elim (Bool-cases (j * page_size == np)) [
    | inl equal ↦
        let page : j ≡ found.page =
          omega (arith, (==_iff (j * page_size) np).0 equal, found.address) in
        found.takes.now j ∙ ground (arith, page)
    | inr differs ↦
        let before =
          shaped.used j
            (subst (λ k. 0 < k) (at_old _ (==→≢ (j * page_size) np differs)) some_level) in
        found.takes.now j ∙ ground (arith, before)
  ]

  entry_of_new : (j : ℕ) → hung s.tables t i np np j ≡ 0
  entry_of_new = hung-new s.tables levels t i np n level fresh aligned fits no_entry

  old_row : (x : ℕ) → x ≢ np → x ≢ t → hung s.tables t i np x ≡ s.tables x
  old_row = hung-old s.tables levels t i np n level fresh aligned fits no_entry

  entry_in_parent :
      (x j : ℕ) → x ≡ t → hung s.tables t i np x j ≡ update (s.tables t) i (table_entry np) j
  entry_in_parent = hung-at s.tables levels t i np n level fresh aligned fits no_entry

  below_old :
      (x j r : ℕ)
      → x ≢ np
      → hung s.tables t i np x j ≡ s.tables x j
      → deeper x ≡ suc (suc r)
      → j < 512
      → present (hung s.tables t i np x j) ≡ true
      → huge (hung s.tables t i np x j) ≡ false
      → deeper (addr_of (hung s.tables t i np x j)) ≡ suc r
  below_old x j r other old at small there fine =
      let before =
        shaped.below x j r (sym (at_old x other) ∙ at) small (ap present (sym old) ∙ there)
          (ap huge (sym old) ∙ fine) in
      ap (λ k. deeper (addr_of k)) old ∙ kept_level _ (omega (arith, before)) ∙ before

  below_after :
      (x j r : ℕ)
      → deeper x ≡ suc (suc r)
      → j < 512
      → present (hung s.tables t i np x j) ≡ true
      → huge (hung s.tables t i np x j) ≡ false
      → deeper (addr_of (hung s.tables t i np x j)) ≡ suc r
  below_after x j r at small there fine = elim (Bool-cases (x == np)) [
    | inl equal ↦
        let zeros = ap (λ k. hung s.tables t i np k j) ((==_iff x np).0 equal) ∙ entry_of_new j in
        elim (no_table (ap present (sym zeros) ∙ there)) [ ]
    | inr other ↦
        let go = below_old x j r (==→≢ x np other) in
        elim (Bool-cases (x == t)) [
          | inr away ↦
              go (ap (λ (f : ℕ → ℕ). f j) (old_row x (==→≢ x np other) (==→≢ x t away))) at small
                there fine
          | inl equal ↦
              let same = (==_iff x t).0 equal in
              let row = entry_in_parent x j same in
              elim (Bool-cases (j == i)) [
                | inr away ↦
                    go
                      (row
                        ∙ update_ne (s.tables t) i j (table_entry np) (==→≢ j i away)
                        ∙ ap (λ k. s.tables k j) (sym same))
                      at small there fine
                | inl here ↦
                    let now : hung s.tables t i np x j ≡ table_entry np =
                      row
                      ∙ ap (update (s.tables t) i (table_entry np)) ((==_iff j i).0 here)
                      ∙ update_self (s.tables t) i (table_entry np) in
                    let depth = sym (at_old x (==→≢ x np other)) ∙ at in
                    ap (λ k. deeper (addr_of k)) now
                    ∙ at_new _ (table_entry-addr_of np aligned fits)
                    ∙ omega (arith, depth, level, ap levels same)
              ]
        ]
  ]

  entries_after :
      (x j : ℕ)
      → 0 < levels x
      → present (s.tables x j) ≡ true
      → hung s.tables t i np x j ≡ s.tables x j
  entries_after x j some_level there =
      let other = apart levels x np some_level fresh in
      elim (Bool-cases (x == t)) [
        | inr away ↦ ap (λ (f : ℕ → ℕ). f j) (old_row x other (==→≢ x t away))
        | inl equal ↦
            let same = (==_iff x t).0 equal in
            elim (Bool-cases (j == i)) [
              | inr away ↦
                  entry_in_parent x j same
                  ∙ update_ne (s.tables t) i j (table_entry np) (==→≢ j i away)
                  ∙ ap (λ k. s.tables k j) (sym same)
              | inl here ↦
                  let missing : present (s.tables x j) ≡ false =
                    ap (λ k. present (s.tables k j)) same
                    ∙ ap (λ k. present (s.tables t k)) ((==_iff j i).0 here)
                    ∙ no_entry in
                  ground (arith, there, missing)
            ]
      ]

  pub entry_stored : hung s.tables t i np t i ≡ table_entry np
  entry_stored = entry_in_parent t i refl ∙ update_self (s.tables t) i (table_entry np)

  not_new : (j : ℕ) → bm_test s.pmm.bitmap j ≡ false → j * page_size ≢ np
  not_new j used same =
      let page : j ≡ found.page = omega (arith, same, found.address) in
      let free = found.takes.were_free found.page (omega arith) (omega arith) in
      ground (arith, free, sym (ap (bm_test s.pmm.bitmap) page) ∙ used)

  pub extended_Grown : Grown s levels extended deeper
  unfolding extended
  extended_Grown = record {
    shaped = record { pages = found.valid; below = below_after; used = used_after };
    level = kept_level;
    kept = λ x r va at.
        hung-entry_for s.tables levels t i np n level fresh aligned fits no_entry shaped.below r x
          va at;
    entries = entries_after;
    only_free = λ j used. at_old (j * page_size) (λ same. not_new j used same);
    stays_used = λ j used. found.takes.now j ∙ ground (arith, used);
    root = refl;
  }

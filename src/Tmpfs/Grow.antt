-- ===== src/Tmpfs/Grow.antt =====
-- The two ways of a write: the file moved to the end of the pool, or written where it is.
use kernel_rs.Prelude.{
  ℕ, ◌+◌, ◌-◌, ◌<◌, ◌≤◌, ◌≡◌, refl, sym, ◌∙◌, ap, ◌⊎◌, inl, inr, true, false, some, List, length,
  update, update_self, update_ne, ◌==◌, Bool-cases, arith,
}
use kernel_rs.Tmpfs.{Fs, TNode, write_pool, is_file, tn_max, tn_pool}
use kernel_rs.Tmpfs.Nodes.{slice, not_file, copy_within, relocate, overwrite}
use kernel_rs.Tmpfs.ReadWrite.{slice-write_pool}
use kernel_rs.Tmpfs.Invariant.{IsValid, Apart, place-IsValid}
use kernel_rs.Tmpfs.Splice.{splice-slice, Written, node_data_of, node_data_same}

-- The file system after a write that moved the file to the end of the pool.
abbrev pub grown : Fs → ℕ → ℕ → List ℕ → Fs
grown fs id off bytes = record {
  nodes =
      update fs.nodes id (record (fs.nodes id) { off = fs.pool_used; size = off + length bytes });
  pool =
      write_pool (copy_within fs.pool (fs.nodes id).off (fs.nodes id).size fs.pool_used)
        (fs.pool_used + off) bytes;
  pool_used = fs.pool_used + (off + length bytes);
}

pub overwrite-relocate :
    (fs : Fs) (id off : ℕ) (bytes : List ℕ)
    → overwrite (relocate fs id (off + length bytes)) id off bytes ≡ grown fs id off bytes
unfolding overwrite relocate
overwrite-relocate fs id off bytes =
    ap
      (λ (n : TNode). record (grown fs id off bytes) {
        pool =
            write_pool (copy_within fs.pool (fs.nodes id).off (fs.nodes id).size fs.pool_used)
              (n.off + off) bytes;
      })
      (update_self fs.nodes id
        (record (fs.nodes id) { off = fs.pool_used; size = off + length bytes }))

pub field_same :
    {A : Type 0} (fs : Fs) (id j : ℕ) (n : TNode) (field : TNode → A)
    → field n ≡ field (fs.nodes id)
    → field (update fs.nodes id n j) ≡ field (fs.nodes j)
field_same fs id j n field e = elim (Bool-cases (j == id)) [
  | inl same ↦
      let is : j ≡ id = ground (arith, same) in rw same (e ∙ ap (λ i. field (fs.nodes i)) (sym is))
  | inr other ↦ rw other refl
]

pub grown-Written :
    (fs : Fs) (id off : ℕ) (bytes : List ℕ)
    → IsValid fs
    → not_file fs id ≡ false
    → off ≤ (fs.nodes id).size
    → (fs.nodes id).size < off + length bytes
    → fs.pool_used + (off + length bytes) ≤ tn_pool
    → Written fs id off bytes
        (slice fs.pool (fs.nodes id).off (fs.nodes id).size)
        (grown fs id off bytes, some (length bytes))
grown-Written fs id off bytes v ok inside short fits =
    let n = record (fs.nodes id) { off = fs.pool_used; size = off + length bytes } in
    let self = update_self fs.nodes id n in
    let fs' = grown fs id off bytes in
    let is : is_file (fs.nodes id).typ ≡ true = ground (arith, ok) in
    let below : id < tn_max = ground (arith, ok) in
    let above : 0 < id = ground (arith, ok) in
    let ok' : not_file fs' id ≡ false = rw self ok in
    let ext = v.extent_in id below is in
    record {
      count = refl;
      contents =
          node_data_of fs' id ok'
          ∙ ap some (
              ap (λ (m : TNode). slice fs'.pool m.off m.size) self
              ∙ splice-slice fs.pool fs'.pool (fs.nodes id).off fs.pool_used off (fs.nodes id).size
                  (off + length bytes) bytes inside moved
                  (slice-write_pool _ (fs.pool_used + off) bytes)
                  (λ k lt. absurd (omega (arith, short, lt))) (omega (arith, short)));
      others = λ j ne.
          node_data_same fs fs' j (update_ne fs.nodes id j n ne) (λ file_j below_j k lt.
            let there = v.extent_in j below_j file_j in
            kept ((fs.nodes j).off + k) (omega (arith, there, lt)));
      names = λ j. field_same fs id j n (λ (m : TNode). m.name) refl;
      types = λ j. field_same fs id j n (λ (m : TNode). m.typ) refl;
      parents = λ j. field_same fs id j n (λ (m : TNode). m.parent) refl;
      valid =
          place-IsValid fs id (fs.pool_used + (off + length bytes)) n fs'.pool v above
            (v.parent_in id below) (omega arith) (omega arith) fits;
    }
  where
    moved :
        (k : ℕ)
        → k < off
        → (grown fs id off bytes).pool (fs.pool_used + k) ≡ fs.pool ((fs.nodes id).off + k)
    moved k lt = ground (
      arith,
      lt,
      inside,
      ap fs.pool {x = (fs.nodes id).off + (fs.pool_used + k - fs.pool_used)}
          {y = (fs.nodes id).off + k},
    )

    kept : (x : ℕ) → x < fs.pool_used → (grown fs id off bytes).pool x ≡ fs.pool x
    kept x lt = ground (arith, lt)

-- The file system after a write into the file's room.
pub within-Written :
    (fs : Fs) (id off : ℕ) (bytes : List ℕ)
    → IsValid fs
    → not_file fs id ≡ false
    → off + length bytes ≤ (fs.nodes id).size
    → Written fs id off bytes
        (slice fs.pool (fs.nodes id).off (fs.nodes id).size)
        (overwrite fs id off bytes, some (length bytes))
unfolding overwrite
within-Written fs id off bytes v ok room =
    let fs' = overwrite fs id off bytes in
    let is : is_file (fs.nodes id).typ ≡ true = ground (arith, ok) in
    let below : id < tn_max = ground (arith, ok) in
    let a = (fs.nodes id).off in
    record {
      count = refl;
      contents =
          node_data_of fs' id ok
          ∙ ap some (
              splice-slice fs.pool fs'.pool a a off (fs.nodes id).size (fs.nodes id).size bytes
                (omega (arith, room)) (λ k lt. untouched (a + k) (inl (omega (arith, lt))))
                (slice-write_pool fs.pool (a + off) bytes)
                (λ k lt.
                  untouched (a + off + length bytes + k) (inr (omega arith))
                  ∙ ap fs.pool (omega arith))
                (omega (arith, room)));
      others = λ j ne. node_data_same fs fs' j refl (λ file_j below_j k lt.
          untouched ((fs.nodes j).off + k)
            (away j k lt (v.apart id j below below_j (λ e. ne (sym e)) is file_j)));
      names = λ j. refl;
      types = λ j. refl;
      parents = λ j. refl;
      valid = record {
        root_is_dir = v.root_is_dir;
        root_parent = v.root_parent;
        used_in = v.used_in;
        parent_in = v.parent_in;
        extent_in = v.extent_in;
        apart = v.apart;
      };
    }
  where
    untouched :
        (x : ℕ)
        → (x < (fs.nodes id).off + off) ⊎ ((fs.nodes id).off + off + length bytes ≤ x)
        → (overwrite fs id off bytes).pool x ≡ fs.pool x
    untouched x (inl lt) = ground (arith, lt)
    untouched x (inr ge) = ground (arith, ge)

    away :
        (j k : ℕ)
        → k < (fs.nodes j).size
        → Apart (fs.nodes id) (fs.nodes j)
        → ((fs.nodes j).off + k < (fs.nodes id).off + off)
          ⊎ ((fs.nodes id).off + off + length bytes ≤ (fs.nodes j).off + k)
    away j k lt (inl past) = inr (omega (arith, past, room))
    away j k lt (inr before) = inl (omega (arith, before, lt))

-- ===== src/Tmpfs/Contents.antt =====
-- What a creation and an unlink do to the contents of the files.
use kernel_rs.Prelude.{
  ℕ, ◌+◌, ◌<◌, ◌≤◌, ◌≡◌, refl, sym, ◌∙◌, ap, ◌≢◌, inl, inr, Bool, true, false, not, ◌||◌, Option,
  none, some, List, length, update, update_self, update_ne, ◌==◌, arith, subst,
}
use kernel_rs.Tmpfs.{
  Fs, TNode, free, file, is_file, tn_pool, put_data, unlink_at, unlink, create, create_at, resolve,
  resolve_parent, child_of,
}
use kernel_rs.Tmpfs.Nodes.{not_file, node_data, slice}
use kernel_rs.Tmpfs.Below.{resolve_parent-ParentBelow}
use kernel_rs.Tmpfs.Create.{
  Target, create_at-Target, put, put_data-cases, put_data-IsValid, added, Allocated, create_at-new,
}
use kernel_rs.Tmpfs.Invariant.{IsValid}
use kernel_rs.Tmpfs.Splice.{node_data_of, missing_data, node_data_same}
use kernel_rs.Tmpfs.ReadWrite.{slice-write_pool}

-- What a successful creation leaves: the bytes given in the file returned, and every other file as it
-- was.
pub record Created (fs : Fs) (bytes : List ℕ) (id : ℕ) (out : Fs) : Type 0 where
  pub contents : node_data out (some id) ≡ some bytes
  pub others : (j : ℕ) → j ≢ id → node_data out (some j) ≡ node_data fs (some j)
  pub valid : IsValid out

put-Created :
    (fs base : Fs) (id : ℕ) (bytes : List ℕ)
    → IsValid base
    → not_file base id ≡ false
    → ((j : ℕ) → j ≢ id → node_data base (some j) ≡ node_data fs (some j))
    → IsValid (put base id bytes)
    → Created fs bytes id (put base id bytes)
put-Created fs base id bytes v ok elsewhere v' =
    let n = record (base.nodes id) { off = base.pool_used; size = length bytes } in
    let self = update_self base.nodes id n in
    let ok' : not_file (put base id bytes) id ≡ false = rw self ok in
    record {
      contents =
          node_data_of (put base id bytes) id ok'
          ∙ ap some (
              ap (λ (m : TNode). slice (put base id bytes).pool m.off m.size) self
              ∙ slice-write_pool base.pool base.pool_used bytes);
      others = λ j ne.
          node_data_same base (put base id bytes) j (update_ne base.nodes id j n ne)
            (λ file_j below_j k lt. kept j k lt (v.extent_in j below_j file_j))
          ∙ elsewhere j ne;
      valid = v';
    }
  where
    kept :
        (j k : ℕ)
        → k < (base.nodes j).size
        → (base.nodes j).off + (base.nodes j).size ≤ base.pool_used
        → (put base id bytes).pool ((base.nodes j).off + k) ≡ base.pool ((base.nodes j).off + k)
    kept j k lt ext = ground (arith, lt, ext)

-- In a valid file system, when `create` returns a node, `node_data` of that node is the bytes given,
-- that of every other node is as it was, and the file system is valid.
pub create-Created :
    (fs : Fs) (path bytes : List ℕ) (id : ℕ)
    → IsValid fs
    → (create fs path bytes).1 ≡ some id
    → Created fs bytes id (create fs path bytes).0
unfolding create
create-Created fs path bytes id v made =
    elim (create_at-Target fs (resolve_parent fs path) bytes v
      (resolve_parent-ParentBelow fs path v)) [
        | inl e ↦ let clash : none ≡ some id = sym (ap (λ (r : Fs × Option ℕ). r.1) e) ∙ made in cc
        | inr t ↦ elim (put_data-cases t.base t.id bytes) [
          | inl full ↦
              let clash : none ≡ some id =
                sym (ap (λ (r : Fs × Option ℕ). r.1) (t.fills ∙ full)) ∙ made in
              cc
          | inr (room, is) ↦
              let all = t.fills ∙ is in
              let same : t.id ≡ id =
                ap (λ (o : Option ℕ). elim o [ none ↦ id | some x ↦ x ])
                  (sym (ap (λ (r : Fs × Option ℕ). r.1) all) ∙ made) in
              let v' =
                subst (λ (r : Fs × Option ℕ). IsValid r.0) is
                  (put_data-IsValid t.base t.id bytes t.valid (ground (arith, t.is))
                    (ground (arith, t.is))) in
              subst (λ (i : ℕ). Created fs bytes i (create_at fs (resolve_parent fs path) bytes).0)
                same (rw all (put-Created fs t.base t.id bytes t.valid t.is (elsewhere t) v'))
        ]
      ]
  where
    elsewhere :
        (t : Target fs bytes (create_at fs (resolve_parent fs path) bytes)) (j : ℕ)
        → j ≢ t.id
        → node_data t.base (some j) ≡ node_data fs (some j)
    elsewhere t j ne =
        node_data_same fs t.base j (t.elsewhere j ne)
          (λ file_j below_j k lt. ap (λ (p : ℕ → ℕ). p ((fs.nodes j).off + k)) t.same_pool)

-- What a removal leaves: no file at the node, and every other file as it was.
pub record Removed (fs : Fs) (id : ℕ) (out : Fs × Bool) : Type 0 where
  pub answers : out.1 ≡ true
  pub gone : node_data out.0 (some id) ≡ none
  pub others : (j : ℕ) → j ≢ id → node_data out.0 (some j) ≡ node_data fs (some j)

-- `unlink` of a path that resolves to a file succeeds, leaves no file at its node, and keeps the
-- contents of every other file; of a path that does not resolve, or to no file, it fails and changes
-- nothing.
pub unlink_lem :
    (fs : Fs) (path : List ℕ)
    → ((id : ℕ)
        → resolve fs path ≡ some id
        → not_file fs id ≡ false
        → Removed fs id (unlink fs path))
      × ((id : ℕ)
          → resolve fs path ≡ some id
          → is_file (fs.nodes id).typ ≡ false
          → unlink fs path ≡ (fs, false))
      × (resolve fs path ≡ none → unlink fs path ≡ (fs, false))
unfolding unlink unlink_at
unlink_lem fs path = (
  λ id e ok.
      let fits : ((id == 0) || not (is_file (fs.nodes id).typ)) ≡ false = ground (arith, ok) in
      rw (e, fits) (removed id),
  λ id e other.
      let fits : ((id == 0) || not (is_file (fs.nodes id).typ)) ≡ true = ground (arith, other) in
      rw (e, fits) refl,
  λ e. rw e refl,
)
  where
    after : ℕ → Fs
    after id = record fs { nodes = update fs.nodes id (record (fs.nodes id) { typ = free }) }

    removed : (id : ℕ) → Removed fs id (after id, true)
    removed id =
        let self = update_self fs.nodes id (record (fs.nodes id) { typ = free }) in
        let no_file : not_file (after id) id ≡ true = rw self (ground arith) in
        record {
          answers = refl;
          gone = missing_data (after id) id no_file;
          others = λ j ne.
              node_data_same fs (after id) j
                (update_ne fs.nodes id j (record (fs.nodes id) { typ = free }) ne)
                (λ file_j below_j k lt. refl);
        }

-- `create` of a new name without room in the pool for the bytes returns -1, and yet leaves a new, empty
-- file of that name.
pub create_full :
    (fs : Fs) (path leaf bytes : List ℕ) (parent i : ℕ)
    → resolve_parent fs path ≡ some (parent, leaf)
    → child_of fs parent leaf ≡ none
    → Allocated fs parent leaf file i
    → tn_pool < fs.pool_used + length bytes
    → create fs path bytes ≡ (added fs i parent leaf file, none)
unfolding create
create_full fs path leaf bytes parent i e fresh a full =
    rw e (create_at-new fs parent i leaf bytes fresh a ∙ no_room)
  where
    no_room : put_data (added fs i parent leaf file) i bytes ≡ (added fs i parent leaf file, none)
    no_room = elim (put_data-cases (added fs i parent leaf file) i bytes) [
      | inl is ↦ is
      | inr (room, is) ↦ absurd (omega (arith, full, room))
    ]

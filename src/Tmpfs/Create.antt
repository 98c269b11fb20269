-- ===== src/Tmpfs/Create.antt =====
-- Creation of nodes: `alloc_node`, the filling of a file and `create`.
use kernel_rs.Prelude.{
  ℕ, ◌+◌, ◌<◌, ◌≤◌, ◌≡◌, refl, ◌≢◌, ◌⊎◌, inl, inr, true, false, Option, none, some, List, length,
  update, update_self, update_ne, ltb, Bool-cases, Option-cases, arith, subst,
}
use kernel_rs.Tmpfs.{
  Fs, NodeType, file, is_free, is_file, tn_max, tn_pool, alloc_node, free_from, new_node, put_data,
  write_pool, child_of, create_at,
}
use kernel_rs.Tmpfs.Nodes.{not_file}
use kernel_rs.Tmpfs.Walk.{Searches, First, free_from-Searches, child_of-Searches}
use kernel_rs.Tmpfs.Invariant.{IsValid, place-IsValid}
use kernel_rs.Tmpfs.Below.{ParentBelow}

-- The file system with a new node.
abbrev pub added : Fs → ℕ → ℕ → List ℕ → NodeType → Fs
added fs i parent name typ = record fs { nodes = update fs.nodes i (new_node fs parent name typ) }

-- What `alloc_node` does: nothing without a free node, or a new node in place of a free one.
pub record Allocated (fs : Fs) (parent : ℕ) (name : List ℕ) (typ : NodeType) (i : ℕ) : Type 0 where
  pub above : 0 < i
  pub below : i < tn_max
  pub was_free : is_free (fs.nodes i).typ ≡ true
  pub is : alloc_node fs parent name typ ≡ (added fs i parent name typ, some i)

pub alloc_node-cases :
    (fs : Fs) (parent : ℕ) (name : List ℕ) (typ : NodeType)
    → (alloc_node fs parent name typ ≡ (fs, none)) ⊎ ((i : ℕ) × Allocated fs parent name typ i)
unfolding alloc_node
alloc_node-cases fs parent name typ = elim (Option-cases (free_from 191 1 fs)) [
  | inl e ↦ inl (rw (e, alloc_node) refl)
  | inr (i, e) ↦
      let s =
        subst (Searches (λ i. is_free (fs.nodes i).typ) 1 191) e (free_from-Searches 191 1 fs) in
      inr (
        i,
        record {
          above = omega (arith, s.from);
          below = omega (arith, s.to);
          was_free = s.passes;
          is = rw (e, alloc_node) refl;
        },
      )
]

-- The file system with `bytes` at the end of the pool as the contents of a file.
abbrev pub put : Fs → ℕ → List ℕ → Fs
put fs id bytes = record {
  nodes = update fs.nodes id (record (fs.nodes id) { off = fs.pool_used; size = length bytes });
  pool = write_pool fs.pool fs.pool_used bytes;
  pool_used = fs.pool_used + length bytes;
}

pub put_data-cases :
    (fs : Fs) (id : ℕ) (bytes : List ℕ)
    → (put_data fs id bytes ≡ (fs, none))
      ⊎ ((fs.pool_used + length bytes ≤ tn_pool)
          × (put_data fs id bytes ≡ (put fs id bytes, some id)))
unfolding put_data
put_data-cases fs id bytes = elim (Bool-cases (ltb tn_pool (fs.pool_used + length bytes))) [
  | inl full ↦ inl (rw full refl)
  | inr room ↦ inr (ground (arith, room), rw room refl)
]

pub added-IsValid :
    (fs : Fs) (i parent : ℕ) (name : List ℕ) (typ : NodeType)
    → IsValid fs
    → 0 < i
    → parent < tn_max
    → IsValid (added fs i parent name typ)
added-IsValid fs i parent name typ v above parent_lt =
    place-IsValid fs i fs.pool_used (new_node fs parent name typ) fs.pool v above parent_lt
      (omega arith) (omega arith) v.used_in

pub put_data-IsValid :
    (fs : Fs) (id : ℕ) (bytes : List ℕ)
    → IsValid fs
    → 0 < id
    → id < tn_max
    → IsValid (put_data fs id bytes).0
put_data-IsValid fs id bytes v above below = elim (put_data-cases fs id bytes) [
  | inl full ↦ rw full v
  | inr (room, is) ↦ rw is (
      place-IsValid fs id (fs.pool_used + length bytes)
        (record (fs.nodes id) { off = fs.pool_used; size = length bytes }) _ v above
        (v.parent_in id below) (omega arith) (omega arith) room)
]

-- What `create` does where it resolves: a file emptied and filled, or a new file filled.
pub create_at-file :
    (fs : Fs) (parent j : ℕ) (leaf bytes : List ℕ)
    → child_of fs parent leaf ≡ some j
    → is_file (fs.nodes j).typ ≡ true
    → create_at fs (some (parent, leaf)) bytes ≡ put_data fs j bytes
unfolding create_at
create_at-file fs parent j leaf bytes e f = rw (e, create_at, f) refl

pub create_at-new :
    (fs : Fs) (parent i : ℕ) (leaf bytes : List ℕ)
    → child_of fs parent leaf ≡ none
    → Allocated fs parent leaf file i
    → create_at fs (some (parent, leaf)) bytes ≡ put_data (added fs i parent leaf file) i bytes
unfolding create_at
create_at-new fs parent i leaf bytes e a = rw (e, create_at, a.is) (rw a.is refl)

-- The node that `create` fills, in the file system as it is then.
pub record Target (fs : Fs) (bytes : List ℕ) (out : Fs × Option ℕ) : Type 0 where
  pub id : ℕ
  pub base : Fs
  pub valid : IsValid base
  pub is : not_file base id ≡ false
  pub fills : out ≡ put_data base id bytes
  pub elsewhere : (j : ℕ) → j ≢ id → base.nodes j ≡ fs.nodes j
  pub same_pool : base.pool ≡ fs.pool

pub create_at-Target :
    (fs : Fs) (r : Option (ℕ × List ℕ)) (bytes : List ℕ)
    → IsValid fs
    → ParentBelow r
    → (create_at fs r bytes ≡ (fs, none)) ⊎ Target fs bytes (create_at fs r bytes)
unfolding create_at
create_at-Target fs none bytes v below = inl refl
create_at-Target fs (some (parent, leaf)) bytes v below =
    elim (Option-cases (child_of fs parent leaf)) [
      | inr (j, e) ↦
          let found : First _ 1 191 j =
            subst (Searches _ 1 191) e (child_of-Searches fs parent leaf) in
          elim (Bool-cases (is_file (fs.nodes j).typ)) [
            | inl f ↦ inr (record {
              id = j;
              base = fs;
              valid = v;
              is = ground (arith, f, found.from, found.to);
              fills = create_at-file fs parent j leaf bytes e f;
              elsewhere = λ k ne. refl;
              same_pool = refl;
            })
            | inr f ↦ inl (rw (e, create_at, f) refl)
          ]
      | inl e ↦ elim (alloc_node-cases fs parent leaf file) [
        | inl full ↦ inl (rw (e, create_at, full) (rw full refl))
        | inr (i, a) ↦
            let n = new_node fs parent leaf file in
            let base = added fs i parent leaf file in
            inr (record {
              id = i;
              base = base;
              valid = added-IsValid fs i parent leaf file v a.above below;
              is = rw (update_self fs.nodes i n) (ground (arith, a.above, a.below));
              fills = create_at-new fs parent i leaf bytes e a;
              elsewhere = λ k ne. update_ne fs.nodes i k n ne;
              same_pool = refl;
            })
      ]
    ]

pub create_at-IsValid :
    (fs : Fs) (r : Option (ℕ × List ℕ)) (bytes : List ℕ)
    → IsValid fs
    → ParentBelow r
    → IsValid (create_at fs r bytes).0
create_at-IsValid fs r bytes v below = elim (create_at-Target fs r bytes v below) [
  | inl e ↦ rw e v
  | inr t ↦
      rw t.fills
        (put_data-IsValid t.base t.id bytes t.valid (ground (arith, t.is)) (ground (arith, t.is)))
]

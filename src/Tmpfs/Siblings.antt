-- ===== src/Tmpfs/Siblings.antt =====
-- The names of nodes under all operations.
use kernel_rs.Prelude.{
  ℕ, ◌≡◌, refl, ◌⊎◌, inl, inr, true, false, not, ◌||◌, Option, none, some, List, update, ◌==◌,
  Bool-cases, Option-cases, arith, subst,
}
use kernel_rs.Prelude.Bytes.{NoNul, buf_copy}
use kernel_rs.Tmpfs.{
  Fs, NodeType, free, file, dir, is_free, is_file, unlink_at, unlink, create, create_at, resolve,
  resolve_parent, child_of, mkdir, mkdir_at, rename, rename_at, init, vfs_name_max, free_node,
}
use kernel_rs.Tmpfs.Nodes.{node_write}
use kernel_rs.Tmpfs.Create.{added, alloc_node-cases, create_at-file, create_at-new}
use kernel_rs.Tmpfs.Reach.{Reaches, booted, creates, makes, unlinks, renames, writes}
use kernel_rs.Tmpfs.Names.{Distinct, place-Distinct, keep-Distinct}
use kernel_rs.Tmpfs.Unique.{
  NameOk, fresh_name, put_data-Distinct, added-Distinct, resolve_parent-NameOk,
}
use kernel_rs.Tmpfs.Reach.{Reaches, booted, creates, makes, unlinks, renames, writes}
use kernel_rs.Tmpfs.Write.{node_write-names}

create_at-Distinct :
    (fs : Fs) (r : Option (ℕ × List ℕ)) (bytes : List ℕ)
    → Distinct fs
    → NameOk r
    → Distinct (create_at fs r bytes).0
unfolding create_at
create_at-Distinct fs none bytes d ok = d
create_at-Distinct fs (some (parent, leaf)) bytes d ok =
    elim (Option-cases (child_of fs parent leaf)) [
      | inr (j, e) ↦ elim (Bool-cases (is_file (fs.nodes j).typ)) [
        | inl f ↦ rw (create_at-file fs parent j leaf bytes e f) (put_data-Distinct fs j bytes d)
        | inr f ↦ rw (e, create_at, f) d
      ]
      | inl e ↦ elim (alloc_node-cases fs parent leaf file) [
        | inl full ↦ rw (e, create_at, full) (rw full d)
        | inr (i, a) ↦ rw (create_at-new fs parent i leaf bytes e a) (
            put_data-Distinct (added fs i parent leaf file) i bytes
              (added-Distinct fs i parent leaf file d ok e))
      ]
    ]

mkdir_at-Distinct :
    (fs : Fs) (r : Option (ℕ × List ℕ)) → Distinct fs → NameOk r → Distinct (mkdir_at fs r).0
unfolding mkdir_at
mkdir_at-Distinct fs none d ok = d
mkdir_at-Distinct fs (some (parent, leaf)) d ok = elim (Option-cases (child_of fs parent leaf)) [
  | inr (j, e) ↦ rw (e, mkdir_at) d
  | inl e ↦ elim (alloc_node-cases fs parent leaf dir) [
    | inl full ↦ rw (e, mkdir_at, full) (rw full d)
    | inr (i, a) ↦ rw (e, mkdir_at, a.is) (rw a.is (added-Distinct fs i parent leaf dir d ok e))
  ]
]

-- A node whose type alone changes, to free.
freed-Distinct :
    (fs : Fs) (id : ℕ)
    → Distinct fs
    → Distinct (record fs { nodes = update fs.nodes id (record (fs.nodes id) { typ = free }) })
freed-Distinct fs id d =
    keep-Distinct fs
      (record fs { nodes = update fs.nodes id (record (fs.nodes id) { typ = free }) }) d
      (λ j u. kept j u (Bool-cases (j == id)))
  where
    kept :
        (j : ℕ)
        → is_free (update fs.nodes id (record (fs.nodes id) { typ = free }) j).typ ≡ false
        → ((j == id) ≡ true) ⊎ ((j == id) ≡ false)
        → (is_free (fs.nodes j).typ ≡ false)
          × ((update fs.nodes id (record (fs.nodes id) { typ = free }) j).parent
              ≡ (fs.nodes j).parent)
          × ((update fs.nodes id (record (fs.nodes id) { typ = free }) j).name ≡ (fs.nodes j).name)
    kept j u (inl same) = let clash : true ≡ false = rw same at u in absurd cc
    kept j u (inr other) = rw other (rw other at u, refl, refl)

unlink-Distinct : (fs : Fs) (path : List ℕ) → Distinct fs → Distinct (unlink fs path).0
unfolding unlink unlink_at
unlink-Distinct fs path d = elim (Option-cases (resolve fs path)) [
  | inl e ↦ rw e d
  | inr (id, e) ↦ elim (Bool-cases ((id == 0) || not (is_file (fs.nodes id).typ))) [
    | inl bad ↦ rw (e, bad) d
    | inr ok ↦ rw (e, ok) (freed-Distinct fs id d)
  ]
]

rename-Distinct :
    (fs : Fs) (oldp newp : List ℕ) → NoNul newp → Distinct fs → Distinct (rename fs oldp newp).0
unfolding rename rename_at
rename-Distinct fs oldp newp h d = elim (Option-cases (resolve fs oldp)) [
  | inl e ↦ rw (e, rename) d
  | inr (id, e) ↦ elim (Bool-cases (id == 0)) [
    | inl root ↦ rw (e, rename, root) d
    | inr inner ↦
        rw (e, rename, inner) (moved id (resolve_parent fs newp) (resolve_parent-NameOk fs newp h))
  ]
]
  where
    moved : (id : ℕ) (r : Option (ℕ × List ℕ)) → NameOk r → Distinct (rename_at fs id r).0
    moved id none ok = d
    moved id (some (parent, leaf)) ok = elim (Option-cases (child_of fs parent leaf)) [
      | inr (j, f) ↦ rw (f, rename_at) d
      | inl f ↦
          rw (f, rename_at)
            (place-Distinct fs id fs.pool_used
              (record (fs.nodes id) { parent = parent; name = buf_copy vfs_name_max leaf }) fs.pool
              d (fresh_name fs parent leaf ok f))
    ]

node_write-Distinct :
    (fs : Fs) (id : Option ℕ) (off : ℕ) (bytes : List ℕ)
    → Distinct fs
    → Distinct (node_write fs id off bytes).0
node_write-Distinct fs id off bytes d = keep-Distinct fs (node_write fs id off bytes).0 d (λ j u.
    let same = node_write-names fs id off bytes j in
    (subst (λ (t : NodeType). is_free t ≡ false) same.1 u, same.2, same.0))

create-Distinct :
    (fs : Fs) (path bytes : List ℕ) → NoNul path → Distinct fs → Distinct (create fs path bytes).0
unfolding create
create-Distinct fs path bytes h d =
    create_at-Distinct fs (resolve_parent fs path) bytes d (resolve_parent-NameOk fs path h)

mkdir-Distinct : (fs : Fs) (path : List ℕ) → NoNul path → Distinct fs → Distinct (mkdir fs path).0
unfolding mkdir
mkdir-Distinct fs path h d =
    mkdir_at-Distinct fs (resolve_parent fs path) d (resolve_parent-NameOk fs path h)

init-Distinct : (fs : Fs) → Distinct (init fs)
unfolding init
init-Distinct fs = record {
  differ = λ i j pi hi pj hj ne ui uj ep en.
      let empty : (i == 0) ≡ false = ground (arith, pi) in
      let u : is_free (update (λ (k : ℕ). free_node) 0 (record free_node { typ = dir }) i).typ
          ≡ false =
        ui in
      let clash : true ≡ false = rw empty at u in cc;
}

-- In every file system that any sequence of `create`, `mkdir`, `unlink`, `rename` and `node_write`, on
-- paths without a NUL, reaches from `init`, no two nodes in use other than the root have both the same
-- parent and the same name, so a path names one node at most.
pub Reaches-Distinct : (fs : Fs) → Reaches NoNul fs → Distinct fs
Reaches-Distinct _ (booted fs) = init-Distinct fs
Reaches-Distinct _ (creates fs path bytes h r) =
    create-Distinct fs path bytes h (Reaches-Distinct fs r)
Reaches-Distinct _ (makes fs path h r) = mkdir-Distinct fs path h (Reaches-Distinct fs r)
Reaches-Distinct _ (unlinks fs path h r) = unlink-Distinct fs path (Reaches-Distinct fs r)
Reaches-Distinct _ (renames fs oldp newp h h' r) =
    rename-Distinct fs oldp newp h' (Reaches-Distinct fs r)
Reaches-Distinct _ (writes fs id off bytes r) =
    node_write-Distinct fs id off bytes (Reaches-Distinct fs r)

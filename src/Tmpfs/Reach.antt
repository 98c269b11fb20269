-- ===== src/Tmpfs/Reach.antt =====
-- `mkdir`, `unlink`, `rename` and the runs of operations on the file system.
use kernel_rs.Prelude.{
  ℕ, ◌<◌, refl, inl, inr, not, ◌||◌, Option, none, some, List, ◌==◌, Bool-cases, Option-cases,
  arith, subst,
}
use kernel_rs.Tmpfs.{
  Fs, free, dir, is_file, tn_max, unlink_at, rename_at, child_of, init, create, mkdir, mkdir_at,
  unlink, rename, resolve, resolve_parent,
}
use kernel_rs.Tmpfs.Nodes.{node_write}
use kernel_rs.Tmpfs.Invariant.{IsValid, init-IsValid, keep-IsValid}
use kernel_rs.Tmpfs.Write.{node_write-IsValid}
use kernel_rs.Tmpfs.Below.{Below, ParentBelow, resolve-Below, resolve_parent-ParentBelow}
use kernel_rs.Tmpfs.Create.{create_at-IsValid, alloc_node-cases, added-IsValid}

mkdir_at-IsValid :
    (fs : Fs) (r : Option (ℕ × List ℕ)) → IsValid fs → ParentBelow r → IsValid (mkdir_at fs r).0
unfolding mkdir_at
mkdir_at-IsValid fs none v below = v
mkdir_at-IsValid fs (some (parent, leaf)) v below = elim (Option-cases (child_of fs parent leaf)) [
  | inr (j, e) ↦ rw (e, mkdir_at) v
  | inl e ↦ elim (alloc_node-cases fs parent leaf dir) [
    | inl full ↦ rw (e, mkdir_at, full) (rw full v)
    | inr (i, a) ↦
        rw (e, mkdir_at, a.is) (rw a.is (added-IsValid fs i parent leaf dir v a.above below))
  ]
]

unlink_at-IsValid : (fs : Fs) (r : Option ℕ) → IsValid fs → Below r → IsValid (unlink_at fs r).0
unfolding unlink_at
unlink_at-IsValid fs none v below = v
unlink_at-IsValid fs (some id) v below =
    elim (Bool-cases ((id == 0) || not (is_file (fs.nodes id).typ))) [
      | inl bad ↦ rw bad v
      | inr ok ↦ rw ok (
          keep-IsValid fs id (record (fs.nodes id) { typ = free }) v (ground (arith, ok)) below
            (v.parent_in id below) (λ e. cc))
    ]

rename_at-IsValid :
    (fs : Fs) (id : ℕ) (r : Option (ℕ × List ℕ))
    → IsValid fs
    → 0 < id
    → id < tn_max
    → ParentBelow r
    → IsValid (rename_at fs id r).0
unfolding rename_at
rename_at-IsValid fs id none v above lt below = v
rename_at-IsValid fs id (some (parent, leaf)) v above lt below =
    elim (Option-cases (child_of fs parent leaf)) [
      | inr (j, e) ↦ rw (e, rename_at) v
      | inl e ↦ rw (e, rename_at) (keep-IsValid fs id _ v above lt below (λ f. (f, refl, refl)))
    ]

pub create-IsValid : (fs : Fs) (path bytes : List ℕ) → IsValid fs → IsValid (create fs path bytes).0
unfolding create
create-IsValid fs path bytes v =
    create_at-IsValid fs (resolve_parent fs path) bytes v (resolve_parent-ParentBelow fs path v)

pub mkdir-IsValid : (fs : Fs) (path : List ℕ) → IsValid fs → IsValid (mkdir fs path).0
unfolding mkdir
mkdir-IsValid fs path v =
    mkdir_at-IsValid fs (resolve_parent fs path) v (resolve_parent-ParentBelow fs path v)

pub unlink-IsValid : (fs : Fs) (path : List ℕ) → IsValid fs → IsValid (unlink fs path).0
unfolding unlink
unlink-IsValid fs path v = unlink_at-IsValid fs (resolve fs path) v (resolve-Below fs path v)

pub rename-IsValid : (fs : Fs) (oldp newp : List ℕ) → IsValid fs → IsValid (rename fs oldp newp).0
unfolding rename
rename-IsValid fs oldp newp v = elim (Option-cases (resolve fs oldp)) [
  | inl e ↦ rw (e, rename) v
  | inr (id, e) ↦ elim (Bool-cases (id == 0)) [
    | inl root ↦ rw (e, rename, root) v
    | inr inner ↦
        rw (e, rename, inner)
          (rename_at-IsValid fs id (resolve_parent fs newp) v (ground (arith, inner))
            (subst Below e (resolve-Below fs oldp v)) (resolve_parent-ParentBelow fs newp v))
  ]
]

-- The file systems that a run of the operations reaches, on paths of a kind.
pub data Reaches (ok : List ℕ → Type 0) : Fs → Type 0 where
  booted : (fs : Fs) → Reaches ok (init fs)
  creates :
      (fs : Fs) (path bytes : List ℕ)
      → ok path
      → Reaches ok fs
      → Reaches ok (create fs path bytes).0
  makes : (fs : Fs) (path : List ℕ) → ok path → Reaches ok fs → Reaches ok (mkdir fs path).0
  unlinks : (fs : Fs) (path : List ℕ) → ok path → Reaches ok fs → Reaches ok (unlink fs path).0
  renames :
      (fs : Fs) (oldp newp : List ℕ)
      → ok oldp
      → ok newp
      → Reaches ok fs
      → Reaches ok (rename fs oldp newp).0
  writes :
      (fs : Fs) (id : Option ℕ) (off : ℕ) (bytes : List ℕ)
      → Reaches ok fs
      → Reaches ok (node_write fs id off bytes).0

-- Every file system that any sequence of `create`, `mkdir`, `unlink`, `rename` and `node_write`, with
-- any arguments, reaches from `init` is valid: node 0 is the root directory and its own parent, every
-- parent is an index of the table, every file lies in the used part of the pool, which is within the
-- pool, and no two files overlap.
pub Reaches-IsValid : (ok : List ℕ → Type 0) (fs : Fs) → Reaches ok fs → IsValid fs
Reaches-IsValid ok _ (booted fs) = init-IsValid fs
Reaches-IsValid ok _ (creates fs path bytes o r) =
    create-IsValid fs path bytes (Reaches-IsValid ok fs r)
Reaches-IsValid ok _ (makes fs path o r) = mkdir-IsValid fs path (Reaches-IsValid ok fs r)
Reaches-IsValid ok _ (unlinks fs path o r) = unlink-IsValid fs path (Reaches-IsValid ok fs r)
Reaches-IsValid ok _ (renames fs oldp newp o o' r) =
    rename-IsValid fs oldp newp (Reaches-IsValid ok fs r)
Reaches-IsValid ok _ (writes fs id off bytes r) =
    node_write-IsValid fs id off bytes (Reaches-IsValid ok fs r)

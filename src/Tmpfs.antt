-- ===== src/Tmpfs.antt =====
-- The file system in memory, kernel-rs/src/fs/tmpfs.rs: a table of 192 nodes, a pool of bytes that
-- is only ever taken from its end, and the number of pool bytes in use. Table and pool are functions
-- of the index. A node id is a number, and `none` for the -1 of the code. Sums of offsets and sizes
-- stay below the pool's size plus the length of a slice, so they do not wrap.
pub mod Nodes
pub mod Paths
pub mod Walk
pub mod Invariant
pub mod ReadWrite
pub mod Splice
pub mod Grow
pub mod Write
pub mod Below
pub mod Create
pub mod Reach
pub mod Contents
pub mod Names
pub mod Unique
pub mod Siblings
pub mod Sample
mod Tests
use kernel_rs.Prelude.{
  ℕ, zero, suc, ◌+◌, ◌-◌, ◌*◌, ◌≤◌, Bool, true, false, not, ◌&&◌, ◌||◌, Option, none, some, List,
  [], ◌∷◌, length, get_or, replicate, update, ltb, leb, ◌==◌, if◌then◌else◌, bytes_eq, min,
}
use kernel_rs.Prelude.Bytes.{buf_copy, until_nul}

abbrev pub vfs_name_max : ℕ
vfs_name_max = 24

abbrev pub tn_max : ℕ
tn_max = 192

abbrev pub tn_pool : ℕ
tn_pool = 1048576

-- VN_FREE, VN_FILE and VN_DIR.
pub data NodeType : Type 0 where
  free file dir : NodeType

abbrev pub is_free : NodeType → Bool
is_free free = true
is_free _ = false

abbrev pub is_file : NodeType → Bool
is_file file = true
is_file _ = false

abbrev pub is_dir : NodeType → Bool
is_dir dir = true
is_dir _ = false

pub record TNode : Type 0 where
  pub name : List ℕ
  pub typ : NodeType
  pub parent : ℕ
  pub off : ℕ
  pub size : ℕ

abbrev pub free_node : TNode
free_node = record { name = replicate 24 0; typ = free; parent = 0; off = 0; size = 0 }

-- NODES, POOL and POOL_USED.
pub record Fs : Type 0 where
  pub nodes : ℕ → TNode
  pub pool : ℕ → ℕ
  pub pool_used : ℕ

abbrev pub name_bytes : TNode → List ℕ
name_bytes n = until_nul n.name

-- The test of the loop of `child_of`.
abbrev pub is_child : Fs → ℕ → List ℕ → ℕ → Bool
is_child fs parent name i =
    not (is_free (fs.nodes i).typ)
    && ((fs.nodes i).parent == parent)
    && bytes_eq (name_bytes (fs.nodes i)) name

pub child_from : ℕ → ℕ → Fs → ℕ → List ℕ → Option ℕ
child_from zero i fs parent name = none
child_from (suc n) i fs parent name =
    let rest = child_from n (i + 1) fs parent name in
    if is_child fs parent name i then some i else rest

unfoldable pub child_of : Fs → ℕ → List ℕ → Option ℕ
child_of fs parent name = child_from 191 1 fs parent name

-- The loops over the bytes of a path: past the slashes, and over a component.
unfoldable pub skip_slashes : List ℕ → List ℕ
skip_slashes [] = []
skip_slashes (c ∷ cs) = if c == b'/' then skip_slashes cs else c ∷ cs

unfoldable pub component : List ℕ → List ℕ
component [] = []
component (c ∷ cs) = if c == b'/' then [] else c ∷ component cs

unfoldable pub past_component : List ℕ → List ℕ
past_component [] = []
past_component (c ∷ cs) = if c == b'/' then c ∷ cs else past_component cs

abbrev pub dot : List ℕ
dot = b'.' ∷ []

abbrev pub dot_dot : List ℕ
dot_dot = b'.' ∷ b'.' ∷ []

-- What one component makes of the current node.
unfoldable pub enter : Fs → ℕ → List ℕ → Option ℕ
enter fs cur comp =
    if bytes_eq comp dot
    then some cur
    else (if bytes_eq comp dot_dot
        then some (if not (cur == 0) then (fs.nodes cur).parent else cur)
        else (if leb vfs_name_max (length comp)
            then none
            else (if not (is_dir (fs.nodes cur).typ) then none else child_of fs cur comp)))

abbrev pub is_empty : List ℕ → Bool
is_empty [] = true
is_empty (c ∷ cs) = false

-- The loop of `resolve` over what is left of the path, on fuel.
pub resolve_from : ℕ → Fs → ℕ → List ℕ → Option ℕ
resolve_from zero fs cur p = none
resolve_from (suc f) fs cur p =
    let q = skip_slashes p in
    let rest = λ (next : ℕ). resolve_from f fs next (past_component q) in
    if is_empty q
    then some cur
    else elim (enter fs cur (component q)) [ none ↦ none | some next ↦ rest next ]

-- A byte more of fuel than the path has.
pub resolve : Fs → List ℕ → Option ℕ
resolve fs [] = none
resolve fs (c ∷ p) = if c == b'/' then resolve_from (suc (length p)) fs 0 p else none

-- The last component, if it is a proper name.
abbrev pub leaf_of : ℕ → List ℕ → Option (ℕ × List ℕ)
leaf_of cur comp =
    if is_empty comp || leb vfs_name_max (length comp)
    then none
    else (if bytes_eq comp dot || bytes_eq comp dot_dot then none else some (cur, comp))

pub resolve_parent_from : ℕ → Fs → ℕ → List ℕ → Option (ℕ × List ℕ)
resolve_parent_from zero fs cur p = none
resolve_parent_from (suc f) fs cur p =
    let q = skip_slashes p in
    let after = skip_slashes (past_component q) in
    let rest = λ (next : ℕ). resolve_parent_from f fs next after in
    if is_empty q
    then none
    else (if is_empty after
        then leaf_of cur (component q)
        else elim (enter fs cur (component q)) [ none ↦ none | some next ↦ rest next ])

pub resolve_parent : Fs → List ℕ → Option (ℕ × List ℕ)
resolve_parent fs [] = none
resolve_parent fs (c ∷ p) = if c == b'/' then resolve_parent_from (suc (length p)) fs 0 p else none

-- The first free node from `i` on, with the rounds left.
pub free_from : ℕ → ℕ → Fs → Option ℕ
free_from zero i fs = none
free_from (suc n) i fs =
    let rest = free_from n (i + 1) fs in if is_free (fs.nodes i).typ then some i else rest

abbrev pub new_node : Fs → ℕ → List ℕ → NodeType → TNode
new_node fs parent name typ = record {
  name = buf_copy vfs_name_max name;
  typ = if is_file typ then file else dir;
  parent = parent;
  off = fs.pool_used;
  size = 0;
}

unfoldable pub alloc_node : Fs → ℕ → List ℕ → NodeType → Fs × Option ℕ
alloc_node fs parent name typ = elim (free_from 191 1 fs) [
  | none ↦ (fs, none)
  | some i ↦ (record fs { nodes = update fs.nodes i (new_node fs parent name typ) }, some i)
]

pub init : Fs → Fs
init fs = record {
  nodes = update (λ i. free_node) 0 (record free_node { typ = dir });
  pool = fs.pool;
  pool_used = 0;
}

-- `none` is the 0 of a path that does not resolve.
pub path_type : Fs → List ℕ → Option NodeType
path_type fs path = elim (resolve fs path) [ none ↦ none | some id ↦ some (fs.nodes id).typ ]

pub path_size : Fs → List ℕ → Option ℕ
path_size fs path = elim (resolve fs path) [
  | none ↦ none
  | some id ↦ if is_file (fs.nodes id).typ then some (fs.nodes id).size else none
]

-- `true` is the 0 of success.
unfoldable pub mkdir_at : Fs → Option (ℕ × List ℕ) → Fs × Bool
mkdir_at fs none = (fs, false)
mkdir_at fs (some (parent, leaf)) = elim (child_of fs parent leaf) [
  | some j ↦ (fs, false)
  | none ↦
      let (fs', r) = alloc_node fs parent leaf dir in
      elim r [ none ↦ (fs', false) | some i ↦ (fs', true) ]
]

unfoldable pub mkdir : Fs → List ℕ → Fs × Bool
mkdir fs path = mkdir_at fs (resolve_parent fs path)

-- `pool[at..at + n].copy_from_slice(bytes)`.
abbrev pub write_pool : (ℕ → ℕ) → ℕ → List ℕ → ℕ → ℕ
write_pool pool at bytes j =
    if leb at j && ltb j (at + length bytes) then get_or bytes (j - at) 0 else pool j

-- The contents of a new or truncated file, at the end of the pool.
unfoldable pub put_data : Fs → ℕ → List ℕ → Fs × Option ℕ
put_data fs id bytes = if ltb tn_pool (fs.pool_used + length bytes) then (fs, none) else (
  record {
    nodes = update fs.nodes id (record (fs.nodes id) { off = fs.pool_used; size = length bytes });
    pool = write_pool fs.pool fs.pool_used bytes;
    pool_used = fs.pool_used + length bytes;
  },
  some id,
)

unfoldable pub create_at : Fs → Option (ℕ × List ℕ) → List ℕ → Fs × Option ℕ
create_at fs none bytes = (fs, none)
create_at fs (some (parent, leaf)) bytes = elim (child_of fs parent leaf) [
  | none ↦
      let (fs', r) = alloc_node fs parent leaf file in
      elim r [ none ↦ (fs', none) | some id ↦ put_data fs' id bytes ]
  | some id ↦ if is_file (fs.nodes id).typ then put_data fs id bytes else (fs, none)
]

unfoldable pub create : Fs → List ℕ → List ℕ → Fs × Option ℕ
create fs path bytes = create_at fs (resolve_parent fs path) bytes

unfoldable pub unlink_at : Fs → Option ℕ → Fs × Bool
unlink_at fs none = (fs, false)
unlink_at fs (some id) =
    if (id == 0) || not (is_file (fs.nodes id).typ)
    then (fs, false)
    else (record fs { nodes = update fs.nodes id (record (fs.nodes id) { typ = free }) }, true)

unfoldable pub unlink : Fs → List ℕ → Fs × Bool
unlink fs path = unlink_at fs (resolve fs path)

unfoldable pub rename_at : Fs → ℕ → Option (ℕ × List ℕ) → Fs × Bool
rename_at fs id none = (fs, false)
rename_at fs id (some (parent, leaf)) = elim (child_of fs parent leaf) [
  | some j ↦ (fs, false)
  | none ↦ (
    record fs {
      nodes =
          update fs.nodes id
            (record (fs.nodes id) { parent = parent; name = buf_copy vfs_name_max leaf });
    },
    true,
  )
]

unfoldable pub rename : Fs → List ℕ → List ℕ → Fs × Bool
rename fs oldp newp = elim (resolve fs oldp) [
  | none ↦ (fs, false)
  | some id ↦ if id == 0 then (fs, false) else rename_at fs id (resolve_parent fs newp)
]

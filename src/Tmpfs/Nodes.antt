-- ===== src/Tmpfs/Nodes.antt =====
-- The operations by node id and the listing of a directory, kernel-rs/src/fs/tmpfs.rs.
use kernel_rs.Prelude.{
  ℕ, zero, suc, ◌+◌, ◌-◌, Bool, not, ◌&&◌, ◌||◌, Option, none, some, List, [], ◌∷◌, length, update,
  ltb, leb, ◌==◌, if◌then◌else◌,
}
use kernel_rs.Tmpfs.{
  Fs, NodeType, is_dir, is_file, is_free, resolve, tn_max, tn_pool, write_pool, free,
}

abbrev pub lookup : Fs → List ℕ → Option ℕ
lookup fs path = resolve fs path

unfoldable pub node_type : Fs → Option ℕ → NodeType
node_type fs none = free
node_type fs (some id) = if leb tn_max id then free else (fs.nodes id).typ

unfoldable pub node_size : Fs → Option ℕ → ℕ
node_size fs none = 0
node_size fs (some id) = if leb tn_max id then 0 else (fs.nodes id).size

-- `id <= 0 || id >= TN_MAX || nodes[id].typ != VN_FILE`.
abbrev pub not_file : Fs → ℕ → Bool
not_file fs id = (id == 0) || leb tn_max id || not (is_file (fs.nodes id).typ)

-- The `n` bytes of the pool from `at` on.
unfoldable pub slice : (ℕ → ℕ) → ℕ → ℕ → List ℕ
slice pool at zero = []
slice pool at (suc n) = pool at ∷ slice pool (at + 1) n

unfoldable pub node_data : Fs → Option ℕ → Option (List ℕ)
node_data fs none = none
node_data fs (some id) =
    if not_file fs id then none else some (slice fs.pool (fs.nodes id).off (fs.nodes id).size)

-- The bytes copied to the front of a buffer of `len` bytes; `none` is the -1 of no file.
unfoldable pub node_read : Fs → Option ℕ → ℕ → ℕ → Option (List ℕ)
node_read fs none off len = none
node_read fs (some id) off len =
    let n = fs.nodes id in
    if not_file fs id
    then none
    else (if ltb n.size off
        then some []
        else some
            (slice fs.pool (n.off + off) (if ltb n.size (off + len) then n.size - off else len)))

-- `pool.copy_within(from..from + n, to)`.
abbrev pub copy_within : (ℕ → ℕ) → ℕ → ℕ → ℕ → ℕ → ℕ
copy_within pool from n to j = if leb to j && ltb j (to + n) then pool (from + (j - to)) else pool j

-- The file moved to the end of the pool, with room for `need` bytes.
unfoldable pub relocate : Fs → ℕ → ℕ → Fs
relocate fs id need =
    let n = fs.nodes id in
    record {
      nodes = update fs.nodes id (record n { off = fs.pool_used; size = need });
      pool = copy_within fs.pool n.off n.size fs.pool_used;
      pool_used = fs.pool_used + need;
    }

-- The bytes written, into the file's room.
unfoldable pub overwrite : Fs → ℕ → ℕ → List ℕ → Fs
overwrite fs id off bytes = record fs { pool = write_pool fs.pool ((fs.nodes id).off + off) bytes }

-- The number of bytes written; `none` is -1.
unfoldable pub node_write : Fs → Option ℕ → ℕ → List ℕ → Fs × Option ℕ
node_write fs none off bytes = (fs, none)
node_write fs (some id) off bytes =
    if not_file fs id || ltb (fs.nodes id).size off
    then (fs, none)
    else (let need = off + length bytes in
        if ltb (fs.nodes id).size need
        then (if ltb tn_pool (fs.pool_used + need)
            then (fs, none)
            else (overwrite (relocate fs id need) id off bytes, some (length bytes)))
        else (overwrite fs id off bytes, some (length bytes)))

unfoldable pub read_path : Fs → List ℕ → ℕ → ℕ → Option (List ℕ)
read_path fs path off len = node_read fs (resolve fs path) off len

unfoldable pub write_path : Fs → List ℕ → ℕ → List ℕ → Fs × Option ℕ
write_path fs path off bytes = node_write fs (resolve fs path) off bytes

pub record DirEnt : Type 0 where
  pub name : List ℕ
  pub size : ℕ
  pub typ : NodeType

-- The loop of `list` from the node `i` on, where `index` entries are still to be passed.
unfoldable pub list_from : ℕ → ℕ → Fs → ℕ → ℕ → Option DirEnt
list_from zero i fs pid index = none
list_from (suc n) i fs pid index =
    let node = fs.nodes i in
    let skip = list_from n (i + 1) fs pid index in
    let pass = list_from n (i + 1) fs pid (index - 1) in
    if is_free node.typ || not (node.parent == pid)
    then skip
    else (if not (index == 0)
        then pass
        else some (record { name = node.name; size = node.size; typ = node.typ }))

unfoldable pub list : Fs → List ℕ → ℕ → Option DirEnt
list fs path index = elim (resolve fs path) [
  | none ↦ none
  | some pid ↦ if is_dir (fs.nodes pid).typ then list_from 191 1 fs pid index else none
]

-- ===== src/Tmpfs/Tests.antt =====
-- The file system on small inputs: two files, and the theorems applied to them.
use kernel_rs.Prelude.{ℕ, ◌≡◌, refl, false, none, some, List, [], ◌∷◌, arith, if◌then◌else◌, ◌==◌}
use kernel_rs.Prelude.Bytes.{NoNul}
use kernel_rs.Tmpfs.{
  Fs, init, create, unlink, resolve, resolve_parent, enter, create_at, put_data, alloc_node,
  child_of, child_from, free_from, is_file, resolve_parent_from, skip_slashes, component,
  past_component,
}
use kernel_rs.Tmpfs.Nodes.{node_write, node_read, node_data, not_file}
use kernel_rs.Tmpfs.Paths.{walk, walk_parent, split, resolve-eq-walk}
use kernel_rs.Tmpfs.ReadWrite.{window, node_read-eq-node_data}
use kernel_rs.Tmpfs.Invariant.{IsValid, init-IsValid}
use kernel_rs.Tmpfs.Splice.{Written}
use kernel_rs.Tmpfs.Write.{node_write-Written}
use kernel_rs.Tmpfs.Reach.{Reaches, booted, creates, Reaches-IsValid}
use kernel_rs.Tmpfs.Names.{Distinct}
use kernel_rs.Tmpfs.Siblings.{Reaches-Distinct}
use kernel_rs.Tmpfs.Contents.{Created, Removed, create-Created, unlink_lem}
use kernel_rs.Tmpfs.Sample.{
  blank, path_a, one_file, created_a, one_file-IsValid, contents_a, room_at_a,
}

abbrev path_b : List ℕ
path_b = b'/' ∷ b'b' ∷ []

abbrev two_files : Fs
two_files = (create one_file path_b (9 ∷ [])).0

node_read-eq-node_data_example :
    node_read one_file (some 1) 1 5 ≡ window 1 5 (node_data one_file (some 1))
node_read-eq-node_data_example = node_read-eq-node_data one_file (some 1) 1 5

node_write-Written_example :
    Written one_file 1 2 (7 ∷ 8 ∷ []) (1 ∷ 2 ∷ 3 ∷ []) (node_write one_file (some 1) 2 (7 ∷ 8 ∷ []))
node_write-Written_example =
    node_write-Written one_file 1 2 (7 ∷ 8 ∷ []) (1 ∷ 2 ∷ 3 ∷ []) one_file-IsValid contents_a
      room_at_a

create-Created_example :
    Created (init blank) (1 ∷ 2 ∷ 3 ∷ []) 1 (create (init blank) path_a (1 ∷ 2 ∷ 3 ∷ [])).0
create-Created_example =
    create-Created (init blank) path_a (1 ∷ 2 ∷ 3 ∷ []) 1 (init-IsValid blank) created_a

resolve-eq-walk_example :
    (resolve one_file path_a
      ≡ (if b'/' == b'/' then walk one_file 0 (split [] (b'a' ∷ [])) else none))
    × (resolve_parent one_file path_a
        ≡ (if b'/' == b'/' then walk_parent one_file 0 (split [] (b'a' ∷ [])) else none))
    × (resolve one_file [] ≡ none)
    × (resolve_parent one_file [] ≡ none)
resolve-eq-walk_example = resolve-eq-walk one_file b'/' (b'a' ∷ [])

unlink_lem_example :
    ((id : ℕ)
      → resolve one_file path_a ≡ some id
      → not_file one_file id ≡ false
      → Removed one_file id (unlink one_file path_a))
    × ((id : ℕ)
        → resolve one_file path_a ≡ some id
        → is_file (one_file.nodes id).typ ≡ false
        → unlink one_file path_a ≡ (one_file, false))
    × (resolve one_file path_a ≡ none → unlink one_file path_a ≡ (one_file, false))
unlink_lem_example = unlink_lem one_file path_a

NoNul-path_a : NoNul path_a
NoNul-path_a = (λ e. absurd (omega (arith, e)), (λ e. absurd (omega (arith, e)), tt))

NoNul-path_b : NoNul path_b
NoNul-path_b = (λ e. absurd (omega (arith, e)), (λ e. absurd (omega (arith, e)), tt))

two_files_reached : Reaches NoNul two_files
two_files_reached =
    creates one_file path_b (9 ∷ []) NoNul-path_b
      (creates (init blank) path_a (1 ∷ 2 ∷ 3 ∷ []) NoNul-path_a (booted blank))

Reaches-IsValid_example : IsValid two_files
Reaches-IsValid_example = Reaches-IsValid NoNul two_files two_files_reached

Reaches-Distinct_example : Distinct two_files
Reaches-Distinct_example = Reaches-Distinct two_files two_files_reached

-- A file system whose pool is full.
abbrev full : Fs
full = record (init blank) { pool_used = 1048576 }

-- The parent of the last component may be a file: the new node is made, and no path leads to it.
abbrev orphan : Fs
orphan = (create one_file (b'/' ∷ b'a' ∷ b'/' ∷ b'x' ∷ []) (5 ∷ [])).0

orphan_made : (create one_file (b'/' ∷ b'a' ∷ b'/' ∷ b'x' ∷ []) (5 ∷ [])).1 ≡ some 2
unfolding create create_at put_data alloc_node child_of child_from free_from resolve_parent enter
    resolve_parent_from skip_slashes component past_component init
orphan_made = refl

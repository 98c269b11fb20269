-- ===== src/Tmpfs/Sample.antt =====
-- A file system with one file, for tests.
use kernel_rs.Prelude.{true, ℕ, ◌≡◌, refl, some, List, [], ◌∷◌, arith}
use kernel_rs.Tmpfs.{
  Fs, free_node, init, create, resolve_parent, create_at, put_data, alloc_node, child_of,
  child_from, free_from, is_file, resolve_parent_from, skip_slashes, component, past_component,
}
use kernel_rs.Tmpfs.Nodes.{node_data}
use kernel_rs.Tmpfs.Nodes.{node_type}
use kernel_rs.Tmpfs.Invariant.{IsValid, init-IsValid}
use kernel_rs.Tmpfs.Write.{Fits}
use kernel_rs.Tmpfs.Reach.{create-IsValid}
use kernel_rs.Tmpfs.Contents.{create-Created}

abbrev pub blank : Fs
blank = record { nodes = λ i. free_node; pool = λ i. 0; pool_used = 0 }

abbrev pub path_a : List ℕ
path_a = b'/' ∷ b'a' ∷ []

abbrev pub one_file : Fs
one_file = (create (init blank) path_a (1 ∷ 2 ∷ 3 ∷ [])).0

pub created_a : (create (init blank) path_a (1 ∷ 2 ∷ 3 ∷ [])).1 ≡ some 1
unfolding create create_at put_data alloc_node child_of child_from free_from resolve_parent
    resolve_parent_from skip_slashes component past_component init
created_a = refl

pub one_file-IsValid : IsValid one_file
one_file-IsValid = create-IsValid (init blank) path_a (1 ∷ 2 ∷ 3 ∷ []) (init-IsValid blank)

pub contents_a : node_data one_file (some 1) ≡ some (1 ∷ 2 ∷ 3 ∷ [])
contents_a =
    (create-Created (init blank) path_a (1 ∷ 2 ∷ 3 ∷ []) 1 (init-IsValid blank) created_a).contents

pub size_a : (one_file.nodes 1).size ≡ 3
unfolding create create_at put_data alloc_node child_of child_from free_from resolve_parent
    resolve_parent_from skip_slashes component past_component init
size_a = refl

pub used_a : one_file.pool_used ≡ 3
unfolding create create_at put_data alloc_node child_of child_from free_from resolve_parent
    resolve_parent_from skip_slashes component past_component init
used_a = refl

pub room_at_a : Fits one_file 1 2 (7 ∷ 8 ∷ [])
room_at_a = (rw size_a (omega arith), λ short. rw used_a (omega arith))

pub file_a : is_file (node_type one_file (some 1)) ≡ true
unfolding node_type create create_at put_data alloc_node child_of child_from free_from
    resolve_parent resolve_parent_from skip_slashes component past_component init
file_a = refl

-- ===== src/Syscall/Chdir.antt =====
-- `sys_chdir` of kernel-rs/src/syscall.rs: the text of the new working directory is rebuilt from the
-- components of the path. The buffer is the list of the bytes written so far.
use kernel_rs.Prelude.{
  ℕ, zero, suc, ◌+◌, ◌-◌, not, Option, none, some, List, [], ◌∷◌, ◌++◌, length, take, get_or, leb,
  ◌==◌, if◌then◌else◌, bytes_eq,
}
use kernel_rs.Prelude.Int.{ℤ, pos}
use kernel_rs.Sched.{set_cwd}
use kernel_rs.Tmpfs.{is_dir, is_empty, skip_slashes, component, past_component, dot, dot_dot}
use kernel_rs.Tmpfs.Nodes.{lookup, node_type}
use kernel_rs.Syscall.{Kernel, failed, abs_path}

-- The index at or before `n` of a slash, or 0.
unfoldable pub slash_before : ℕ → List ℕ → ℕ
slash_before zero out = 0
slash_before (suc n) out =
    let rest = slash_before n out in if get_or out (suc n) 0 == b'/' then suc n else rest

-- The step for "..": back over one byte, then to a slash, which stays unless it is the first byte.
unfoldable pub back_up : List ℕ → List ℕ
back_up out = let n = slash_before (length out - 1) out in if n == 0 then [] else take (n + 1) out

-- `none` when the buffer of 96 bytes is full.
unfoldable pub add_component : List ℕ → List ℕ → Option (List ℕ)
add_component comp out =
    if bytes_eq comp dot
    then some out
    else (if bytes_eq comp dot_dot
        then some (back_up out)
        else (if leb 95 (length out + 1 + length comp) then none else some (out ++ (b'/' ∷ comp))))

-- The loop over what is left of the path, on fuel.
unfoldable pub rebuild_from : ℕ → List ℕ → List ℕ → Option (List ℕ)
rebuild_from zero p out = none
rebuild_from (suc f) p out =
    let q = skip_slashes p in
    let rest = λ (out' : List ℕ). rebuild_from f (past_component q) out' in
    if is_empty q
    then some out
    else elim (add_component (component q) out) [ none ↦ none | some out' ↦ rest out' ]

-- The path begins with a slash, since it resolves; "/" when nothing is left.
unfoldable pub rebuild : List ℕ → Option (List ℕ)
rebuild [] = some (b'/' ∷ [])
rebuild (c ∷ p) = elim (rebuild_from (suc (length p)) p []) [
  | none ↦ none
  | some out ↦ some (if is_empty out then b'/' ∷ [] else out)
]

unfoldable pub chdir_path : List ℕ → Kernel → Kernel × ℤ
chdir_path path k = elim (lookup k.fs path) [
  | none ↦ (k, failed)
  | some id ↦ if not (is_dir (node_type k.fs (some id))) then (k, failed) else elim (rebuild path) [
    | none ↦ (k, failed)
    | some cwd ↦ (record k { thread = set_cwd cwd k.thread }, pos 0)
  ]
]

unfoldable pub sys_chdir : ℕ → Kernel → Kernel × ℤ
sys_chdir rdi k = elim (abs_path k rdi) [ none ↦ (k, failed) | some path ↦ chdir_path path k ]

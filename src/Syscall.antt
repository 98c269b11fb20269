-- ===== src/Syscall.antt =====
-- System calls on files and terminals, kernel-rs/src/syscall.rs: the state that a call reads and
-- changes, the copies from and to user memory, and the descriptor table. User memory is a function of
-- the address. The result of a call is an integer, `failed` for -1.
pub mod Sbrk
pub mod Page
pub mod Heap
pub mod Sample
pub mod Files
pub mod Chdir
pub mod Descriptors
pub mod Reading
pub mod Cwd
pub mod Report
mod Tests
use kernel_rs.Prelude.{
  ℕ, zero, suc, ◌+◌, ◌-◌, ◌*◌, ◌^◌, ◌%◌, Bool, true, false, not, ◌&&◌, ◌||◌, Option, none, some,
  List, [], ◌∷◌, ◌++◌, length, take, update, ltb, leb, ◌==◌, if◌then◌else◌, min,
}
use kernel_rs.Prelude.Int.{ℤ, pos, negsuc}
use kernel_rs.Sched.{Thread, Ufd, ufd_first, ufd_max, cwd_str}
use kernel_rs.Tmpfs.{Fs, is_empty}
use kernel_rs.Vterm.{Terms}
use kernel_rs.Kbd.{Kbd}

-- The current thread, the file system, user memory, the terminals, the keyboard and the bytes sent to
-- the serial line.
pub record Kernel : Type 0 where
  pub thread : Thread
  pub fs : Fs
  pub mem : ℕ → ℕ
  pub terms : Terms
  pub kbd : Kbd
  pub serial : List ℕ

abbrev pub failed : ℤ
failed = negsuc 0

abbrev pub bad_uaddr : ℕ → Bool
bad_uaddr p = (p == 0) || leb 0x0000800000000000 p

-- At most `n` bytes up to a NUL; `none` when there is none.
pub read_str : (ℕ → ℕ) → ℕ → ℕ → Option (List ℕ)
read_str mem zero a = none
read_str mem (suc n) a =
    let rest = read_str mem n (a + 1) in
    if mem a == 0 then some [] else elim rest [ none ↦ none | some s ↦ some (mem a ∷ s) ]

unfoldable pub copy_ustr : (ℕ → ℕ) → ℕ → ℕ → Option (List ℕ)
copy_ustr mem uptr size = if bad_uaddr uptr then none else read_str mem size uptr

pub ends_slash : List ℕ → Bool
ends_slash [] = false
ends_slash (c ∷ []) = c == b'/'
ends_slash (c ∷ d ∷ cs) = ends_slash (d ∷ cs)

abbrev pub starts_slash : List ℕ → Bool
starts_slash [] = false
starts_slash (c ∷ cs) = c == b'/'

-- The absolute path of `raw`, in a buffer of 256 bytes.
unfoldable pub path_of : List ℕ → List ℕ → List ℕ
path_of cwd raw =
    if starts_slash raw
    then take 255 raw
    else (let base = take 255 cwd in
        let base' =
          if ltb (length base + 1) 256 && ltb 0 (length base) && not (ends_slash base)
          then base ++ (b'/' ∷ [])
          else base in
        base' ++ take (255 - length base') raw)

unfoldable pub abs_path : Kernel → ℕ → Option (List ℕ)
abs_path k uptr = elim (copy_ustr k.mem uptr 256) [
  | none ↦ none
  | some raw ↦ some (path_of (cwd_str k.thread) raw)
]

-- A descriptor as the 32 bits of the argument: a negative one is out of the range too.
abbrev pub fd_of : ℕ → ℕ
fd_of rdi = rdi % 2 ^ 32

abbrev pub in_range : ℕ → Bool
in_range fd = leb ufd_first fd && ltb fd ufd_max

-- The node and the position of an open descriptor.
unfoldable pub fd_get : Thread → ℕ → Option (ℕ × ℕ)
fd_get t fd =
    if in_range fd
    then elim (t.fds fd).node [ none ↦ none | some node ↦ some (node, (t.fds fd).pos) ]
    else none

-- A descriptor set to a node and a position.
abbrev pub set_fd : Thread → ℕ → Ufd → Thread
set_fd t fd u = record t { fds = update t.fds fd u }

-- ===== src/Syscall/Files.antt =====
-- The system calls on files, kernel-rs/src/syscall.rs. The arguments are the registers that the call
-- reads.
use kernel_rs.Prelude.{
  ℕ, zero, suc, ◌+◌, ◌-◌, ◌%◌, ◌^◌, Bool, ◌&&◌, not, ◌||◌, Option, none, some, List, [], ◌∷◌, ◌++◌,
  length, take, update, ltb, leb, ◌==◌, if◌then◌else◌,
}
use kernel_rs.Prelude.Int.{ℤ, pos}
use kernel_rs.Prelude.Align.{add64}
use kernel_rs.Prelude.Bytes.{until_nul}
use kernel_rs.Sched.{Thread, ufd_first, ufd_max, cwd_str}
use kernel_rs.Tmpfs.{Fs, NodeType, is_file, create, mkdir, unlink, rename, write_pool}
use kernel_rs.Tmpfs.Nodes.{slice, lookup, node_type, node_size, node_read, node_write, list}
use kernel_rs.Vterm
use kernel_rs.Vterm.{Terms}
use kernel_rs.Kbd
use kernel_rs.Kbd.{Kbd}
use kernel_rs.Syscall.{Kernel, failed, bad_uaddr, abs_path, fd_of, in_range, fd_get, set_fd}

abbrev pub status : Bool → ℤ
status ok = if ok then pos 0 else failed

-- The terminal of the thread, or terminal 0 for a thread without one when the console is up.
abbrev pub out_vt : Kernel → Option ℕ
out_vt k = elim k.thread.vt [
  | some vt ↦ some vt
  | none ↦ if k.terms.console_up then some 0 else none
]

abbrev pub to_vt : Option ℕ → ℕ → Terms → Terms
to_vt none c t = t
to_vt (some vt) c t = (Vterm.putc_vt vt c t).0

-- Each byte goes to the serial line, after a carriage return for a line feed, and to the terminal.
pub put_bytes : List ℕ → Kernel → Kernel
put_bytes [] k = k
put_bytes (c ∷ cs) k =
    let sent = if c == b'\n' then b'\r' ∷ c ∷ [] else c ∷ [] in
    put_bytes cs (record k { serial = k.serial ++ sent; terms = to_vt (out_vt k) c k.terms })

unfoldable pub write_file : ℕ → List ℕ → Kernel → Kernel × ℤ
write_file fd bytes k = elim (fd_get k.thread fd) [
  | none ↦ (k, failed)
  | some (node, at) ↦
      let (fs', r) = node_write k.fs (some node) at bytes in
      elim r [
        | none ↦ (record k { fs = fs' }, failed)
        | some n ↦ (
          record k {
            fs = fs';
            thread = set_fd k.thread fd (record { node = some node; pos = add64 at n });
          },
          pos n,
        )
      ]
]

-- At most 1 MiB in one call.
abbrev pub capped : ℕ → ℕ
capped len = if ltb 1048576 len then 1048576 else len

unfoldable pub sys_write : ℕ → ℕ → ℕ → Kernel → Kernel × ℤ
sys_write rdi rsi rdx k =
    let fd = fd_of rdi in
    let bytes = slice k.mem rsi (capped rdx) in
    if bad_uaddr rsi && ltb 0 rdx
    then (k, failed)
    else (if (fd == 1) || (fd == 2)
        then (put_bytes bytes k, pos (capped rdx))
        else write_file fd bytes k)

-- The sum of the position and the length leaves the 64 bits: it comes out below the position, and so
-- the range of the pool ends before it starts.
abbrev pub range_wraps : Fs → ℕ → ℕ → ℕ → Bool
range_wraps fs node at len = leb at (fs.nodes node).size && leb (2 ^ 64) (at + len)

-- `none` is the panic at such a range.
unfoldable pub read_file : ℕ → ℕ → ℕ → Kernel → Option (Kernel × ℤ)
read_file fd buf len k = elim (fd_get k.thread fd) [
  | none ↦ some (k, failed)
  | some (node, at) ↦ elim (node_read k.fs (some node) at len) [
    | none ↦ some (k, failed)
    | some bytes ↦
        if range_wraps k.fs node at len
        then none
        else some (
          record k {
            mem = write_pool k.mem buf bytes;
            thread =
                set_fd k.thread fd (record { node = some node; pos = add64 at (length bytes) });
          },
          pos (length bytes),
        )
  ]
]

-- One look at the input; `none` when there is no byte, and the call waits for an interrupt.
unfoldable pub read_input : ℕ → Kernel → Option (Kernel × ℤ)
read_input buf k = elim (out_vt k) [
  | some vt ↦
      let (c, terms') = Vterm.getc vt k.terms in
      elim c [
        | none ↦ none
        | some b ↦ some (record k { terms = terms'; mem = update k.mem buf b }, pos 1)
      ]
  | none ↦
      let (c, kbd') = Kbd.getchar k.kbd in
      elim c [
        | none ↦ none
        | some b ↦ some (record k { kbd = kbd'; mem = update k.mem buf b }, pos 1)
      ]
]

-- A read waits for an interrupt, panics, or answers.
pub data ReadEnd : Type 0 where
  waits panics : ReadEnd
  answers : Kernel × ℤ → ReadEnd

abbrev pub from_input : Option (Kernel × ℤ) → ReadEnd
from_input none = waits
from_input (some r) = answers r

abbrev pub from_file : Option (Kernel × ℤ) → ReadEnd
from_file none = panics
from_file (some r) = answers r

unfoldable pub sys_read : ℕ → ℕ → ℕ → Kernel → ReadEnd
sys_read rdi rsi rdx k =
    if bad_uaddr rsi
    then answers (k, failed)
    else (if fd_of rdi == 0
        then from_input (read_input rsi k)
        else from_file (read_file (fd_of rdi) rsi rdx k))

-- The first descriptor from `i` on that is not open, with the rounds left.
unfoldable pub closed_from : ℕ → ℕ → Thread → Option ℕ
closed_from zero i t = none
closed_from (suc n) i t =
    let rest = closed_from n (i + 1) t in elim (t.fds i).node [ none ↦ some i | some node ↦ rest ]

-- `flags & 2`, O_CREAT.
abbrev pub wants_create : ℕ → Bool
wants_create rsi = leb 2 (rsi % 4)

unfoldable pub open_node : Kernel → Option ℕ → Kernel × ℤ
open_node k none = (k, failed)
open_node k (some id) =
    if not (is_file (node_type k.fs (some id)))
    then (k, failed)
    else elim (closed_from (ufd_max - ufd_first) ufd_first k.thread) [
      | none ↦ (k, failed)
      | some i ↦
          (record k { thread = set_fd k.thread i (record { node = some id; pos = 0 }) }, pos i)
    ]

unfoldable pub open_path : ℕ → List ℕ → Kernel → Kernel × ℤ
open_path rsi path k = elim (lookup k.fs path) [
  | some id ↦ open_node k (some id)
  | none ↦
      if wants_create rsi
      then (let (fs', r) = create k.fs path [] in open_node (record k { fs = fs' }) r)
      else (k, failed)
]

unfoldable pub sys_open : ℕ → ℕ → Kernel → Kernel × ℤ
sys_open rdi rsi k = elim (abs_path k rdi) [ none ↦ (k, failed) | some path ↦ open_path rsi path k ]

unfoldable pub sys_close : ℕ → Kernel → Kernel × ℤ
sys_close rdi k =
    let fd = fd_of rdi in
    if in_range fd
    then (
      record k { thread = set_fd k.thread fd (record (k.thread.fds fd) { node = none }) },
      pos 0,
    )
    else (k, failed)

unfoldable pub sys_mkdir : ℕ → Kernel → Kernel × ℤ
sys_mkdir rdi k = elim (abs_path k rdi) [
  | none ↦ (k, failed)
  | some path ↦ let (fs', ok) = mkdir k.fs path in (record k { fs = fs' }, status ok)
]

unfoldable pub sys_unlink : ℕ → Kernel → Kernel × ℤ
sys_unlink rdi k = elim (abs_path k rdi) [
  | none ↦ (k, failed)
  | some path ↦ let (fs', ok) = unlink k.fs path in (record k { fs = fs' }, status ok)
]

unfoldable pub sys_rename : ℕ → ℕ → Kernel → Kernel × ℤ
sys_rename rdi rsi k = elim (abs_path k rdi) [
  | none ↦ (k, failed)
  | some oldp ↦ elim (abs_path k rsi) [
    | none ↦ (k, failed)
    | some newp ↦ let (fs', ok) = rename k.fs oldp newp in (record k { fs = fs' }, status ok)
  ]
]

-- What `stat` stores at its second argument: the size and the type of the node.
unfoldable pub sys_stat : ℕ → ℕ → Kernel → Option (ℕ × NodeType)
sys_stat rdi rsi k = if bad_uaddr rsi then none else elim (abs_path k rdi) [
  | none ↦ none
  | some path ↦ elim (lookup k.fs path) [
    | none ↦ none
    | some id ↦ some (node_size k.fs (some id), node_type k.fs (some id))
  ]
]

-- The working directory with its NUL, where it fits in `rsi` bytes.
unfoldable pub sys_getcwd : ℕ → ℕ → Kernel → Kernel × ℤ
sys_getcwd rdi rsi k =
    let cwd = cwd_str k.thread in
    let n = length cwd + 1 in
    if bad_uaddr rdi || (rsi == 0) || ltb rsi n
    then (k, failed)
    else (record k { mem = write_pool k.mem rdi (cwd ++ (0 ∷ [])) }, pos n)

-- The entry of a directory that `getdents` stores; `none` is the 0 of no entry, and the failures.
unfoldable pub sys_getdents : ℕ → ℕ → ℕ → Kernel → Option (List ℕ × NodeType)
sys_getdents rdi rsi rdx k = if bad_uaddr rdx then none else elim (abs_path k rdi) [
  | none ↦ none
  | some path ↦ elim (list k.fs path rsi) [
    | none ↦ none
    | some de ↦ some (take 55 (until_nul de.name), de.typ)
  ]
]

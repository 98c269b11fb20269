-- ===== src/Syscall/Reading.antt =====
-- Reads through a descriptor, `sys_read` of kernel-rs/src/syscall.rs.
use kernel_rs.Prelude.{
  ℕ, ◌+◌, ◌^◌, ◌<◌, ◌≤◌, ◌≡◌, refl, ◌∙◌, ap, ◌≢◌, some, List, length, take, drop, update_ne, arith,
  length-take, false,
}
use kernel_rs.Prelude.Int.{ℤ, pos}
use kernel_rs.Prelude.Align.{add64}
use kernel_rs.Tmpfs.{write_pool}
use kernel_rs.Tmpfs.Nodes.{node_data, node_read, slice}
use kernel_rs.Tmpfs.ReadWrite.{node_read-eq-node_data, window, slice-write_pool}
use kernel_rs.Syscall.{Kernel, fd_get, set_fd}
use kernel_rs.Syscall.Files.{range_wraps, read_file}
use kernel_rs.Syscall.Descriptors.{open_in_range, fd_get-set_fd}

-- What a read through a descriptor leaves: the bytes of the file in user memory, a position past them,
-- and all else as it was.
pub record Got (k : Kernel) (fd node at buf : ℕ) (bytes : List ℕ) (out : Kernel × ℤ) : Type 0 where
  pub count : out.1 ≡ pos (length bytes)
  pub stored : slice out.0.mem buf (length bytes) ≡ bytes
  pub position : fd_get out.0.thread fd ≡ some (node, at + length bytes)
  pub descriptors : (j : ℕ) → j ≢ fd → out.0.thread.fds j ≡ k.thread.fds j
  pub same_thread : out.0.thread ≡ record k.thread { fds = out.0.thread.fds }
  pub same_rest : out.0 ≡ record k { mem = out.0.mem; thread = out.0.thread }
  pub elsewhere :
      (a : ℕ) → (a < buf → out.0.mem a ≡ k.mem a) × (buf + length bytes ≤ a → out.0.mem a ≡ k.mem a)

read_file_eq :
    (k : Kernel) (fd node at buf len : ℕ) (bytes : List ℕ)
    → fd_get k.thread fd ≡ some (node, at)
    → node_read k.fs (some node) at len ≡ some bytes
    → range_wraps k.fs node at len ≡ false
    → read_file fd buf len k
      ≡ some (
        record k {
          mem = write_pool k.mem buf bytes;
          thread = set_fd k.thread fd (record { node = some node; pos = add64 at (length bytes) });
        },
        pos (length bytes),
      )
unfolding read_file
read_file_eq k fd node at buf len bytes e f exact = rw (e, read_file) (rw f (rw exact refl))

-- A read through a descriptor open on a file, of a length that with the position stays below 2^64,
-- stores in user memory the next bytes of the file from the position on, at most as many as asked for,
-- and returns their number; the position moves past them, so that the next read goes on from there.
-- The rest of user memory, the other descriptors, the rest of the thread, the file system, the
-- terminals, the keyboard and the serial line stay.
pub read_file-Got :
    (k : Kernel) (fd node at buf len : ℕ) (d : List ℕ)
    → fd_get k.thread fd ≡ some (node, at)
    → node_data k.fs (some node) ≡ some d
    → at + len < 2 ^ 64
    → (out : Kernel × ℤ) × (read_file fd buf len k ≡ some out)
      × Got k fd node at buf (take len (drop at d)) out
read_file-Got k fd node at buf len d open_at has small =
    let bytes = take len (drop at d) in
    let reads : node_read k.fs (some node) at len ≡ some bytes =
      node_read-eq-node_data k.fs (some node) at len ∙ ap (window at len) has in
    let exact : range_wraps k.fs node at len ≡ false = ground (arith, small) in
    let most = length-take len (drop at d) in
    let sum : add64 at (length bytes) ≡ at + length bytes = omega (arith, small, most) in
    (
      _,
      read_file_eq k fd node at buf len bytes open_at reads exact,
      record {
        count = refl;
        stored = slice-write_pool k.mem buf bytes;
        position =
            fd_get-set_fd k.thread fd node (add64 at (length bytes))
              (open_in_range k.thread fd node at open_at)
            ∙ ap (λ n. some (node, n)) sum;
        descriptors = λ j ne.
            update_ne k.thread.fds fd j (record { node = some node; pos = add64 at (length bytes) })
              ne;
        same_thread = refl;
        same_rest = refl;
        elsewhere = λ a. (λ lt. ground (arith, lt), λ ge. ground (arith, ge));
      },
    )

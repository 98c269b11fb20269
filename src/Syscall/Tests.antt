-- ===== src/Syscall/Tests.antt =====
-- Descriptors on a file system with one file.
use kernel_rs.Syscall.Reading.{Got, read_file-Got}
use kernel_rs.Prelude.{
  take, drop, ℕ, ◌≡◌, refl, ◌⊎◌, false, none, some, [], ◌∷◌, ◌++◌, update, arith,
}
use kernel_rs.Prelude.Int.{ℤ}
use kernel_rs.Syscall.Sample.{heap, levels, heap-IsShaped}
use kernel_rs.Syscall.Sbrk.{Heap, sys_sbrk}
use kernel_rs.Syscall.Heap.{HeapAfter, sys_sbrk_lem}
use kernel_rs.Ring
use kernel_rs.Sched
use kernel_rs.Syscall.Report.{sys_nextproc, nextproc_from, uproc_of}
use kernel_rs.Sched.{Sched, runnable, sched_max_threads, free_ufd, ufd_first, ufd_max}
use kernel_rs.Vterm
use kernel_rs.Tmpfs.Sample.{one_file, one_file-IsValid, contents_a, used_a, file_a}
use kernel_rs.Tmpfs.{dot_dot, skip_slashes, component, past_component}
use kernel_rs.Syscall.{Kernel, fd_get, failed}
use kernel_rs.Syscall.Files.{write_file, read_file, open_node}
use kernel_rs.Syscall.Chdir.{add_component, rebuild, rebuild_from, back_up, slash_before}
use kernel_rs.Syscall.Descriptors.{Wrote, write_file-Wrote, Opened, AllOpen, open_node_lem}
use kernel_rs.Syscall.Cwd.{back_up_twice}

-- Descriptor 3 is open on the file, at its start.
abbrev kernel : Kernel
kernel = record {
  thread = record Sched.zeroed {
    fds = update (λ i. free_ufd) 3 (record { node = some 1; pos = 0 });
  };
  fs = one_file;
  mem = λ a. 0;
  terms = record { vts = λ i. Vterm.empty; console_up = false; dirty_hook = false };
  kbd = record { ring = Ring.empty; shift = false; route_vt = none; fn_hook = false };
  serial = [];
}

open_3 : fd_get kernel.thread 3 ≡ some (1, 0)
unfolding fd_get
open_3 = refl

write_file-Wrote_example :
    Wrote kernel 3 1 0 (8 ∷ 9 ∷ []) (1 ∷ 2 ∷ 3 ∷ []) (write_file 3 (8 ∷ 9 ∷ []) kernel)
write_file-Wrote_example =
    write_file-Wrote kernel 3 1 0 (8 ∷ 9 ∷ []) (1 ∷ 2 ∷ 3 ∷ []) one_file-IsValid open_3 contents_a
      (omega arith, λ short. omega (arith, used_a)) (omega arith)

open_node_lem_example :
    ((i : ℕ) × Opened kernel 1 i (open_node kernel (some 1)))
    ⊎ (AllOpen kernel.thread ufd_first ufd_max × (open_node kernel (some 1) ≡ (kernel, failed)))
open_node_lem_example = open_node_lem kernel 1 file_a

back_up_twice_example :
    (add_component dot_dot ((b'/' ∷ b'a' ∷ []) ++ (b'/' ∷ b'b' ∷ []))
      ≡ some ((b'/' ∷ b'a' ∷ []) ++ (b'/' ∷ [])))
    × (add_component dot_dot ((b'/' ∷ b'a' ∷ []) ++ (b'/' ∷ []))
        ≡ some ((b'/' ∷ b'a' ∷ []) ++ (b'/' ∷ [])))
back_up_twice_example =
    back_up_twice (b'/' ∷ b'a' ∷ []) (b'b' ∷ []) (omega arith) (λ e. absurd (omega (arith, e)), tt)

-- The path /a/b/../.. is the root, and is rebuilt as /a/.
up_twice :
    rebuild (b'/' ∷ b'a' ∷ b'/' ∷ b'b' ∷ b'/' ∷ b'.' ∷ b'.' ∷ b'/' ∷ b'.' ∷ b'.' ∷ [])
    ≡ some (b'/' ∷ b'a' ∷ b'/' ∷ [])
unfolding rebuild rebuild_from add_component back_up slash_before skip_slashes component
    past_component
up_twice = refl

abbrev threads : Sched
threads = record {
  threads = update (λ i. Sched.zeroed) 2 (record Sched.zeroed { tid = 2; state = runnable });
  nr_threads = 3;
  current_idx = 2;
  last_slice = 0;
}

-- The one thread in use is the first to be reported, and there is no second.
reports :
    (sys_nextproc 0 4096 threads ≡ some (uproc_of (threads.threads 2)))
    × (sys_nextproc 1 4096 threads ≡ none)
unfolding sys_nextproc nextproc_from
reports = (refl, refl)

read_file-Got_example :
    (out : Kernel × ℤ) × (read_file 3 4096 2 kernel ≡ some out)
    × Got kernel 3 1 0 4096 (take 2 (drop 0 (1 ∷ 2 ∷ 3 ∷ []))) out
read_file-Got_example =
    read_file-Got kernel 3 1 0 4096 2 (1 ∷ 2 ∷ 3 ∷ []) open_3 contents_a (omega arith)

sys_sbrk_lem_example :
    (p' : Heap) × (z : ℤ) × (sys_sbrk 5000 heap ≡ some (p', z))
    × HeapAfter 0x600000000010 0x600000001398 heap levels p' z
sys_sbrk_lem_example =
    sys_sbrk_lem 5000 heap levels heap-IsShaped refl (omega arith) (omega arith) (omega arith)

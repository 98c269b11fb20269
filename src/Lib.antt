-- ===== src/Lib.antt =====
-- Models and theorems for the Shizuku kernel (kernel-rs/src) and what they show.
--
-- The parts and how they interact. The page allocator hands out frames of memory; the scheduler
-- takes kernel stacks from it and returns them, and paging takes its tables; the keyboard and the
-- terminals keep rings of bytes between an interrupt and its readers; the file system in memory
-- holds what programs read and write through the descriptors of the system calls. The window
-- manager turns the mouse's position into focus, moves and damage, and routes the keyboard to the
-- terminal of the focused window. The ramdisk fills the file system at start-up, and a program's
-- heap grows by a system call that takes pages and maps them.
--
-- Files, and the code that each one models:
--   Prelude            shared names, list, bit and integer lemmas; Prelude/Bytes is util.rs
--   Pmm                kernel-rs/src/mm/pmm.rs: `alloc_page`, `alloc_pages`, `free_page`, `init`
--     Pmm/Bitmap, Count, Alloc, Run, Hang, Init   bits, the count of free pages, one page, runs of
--                      pages, alignment, start-up
--   Vmm                kernel-rs/src/mm/vmm.rs: page tables in memory, `walk`, `map`, `unmap`,
--                      `translate`, `new_space`, `destroy_space`
--     Vmm/Entry, Tables, Hang, Walk, Store, Map, Keeps, Space   the fields of an entry, what a
--                      hierarchy of tables means, a new table, the way down, a store to a leaf, the
--                      operations, and what they keep
--   Ring               the ring of 128 bytes in kbd.rs and vterm.rs; Ring/Fifo its contents as a queue
--   Vterm              kernel-rs/src/vterm.rs; Vterm/Paper the text shown, Vterm/Isolation what one
--                      operation reaches
--   Kbd                kernel-rs/src/kbd.rs; Kbd/Layout the tables, Kbd/Typing where a key goes
--   Sched              kernel-rs/src/sched.rs and the frame of idt.rs; Sched/Pick, Fair, Switch, Slots,
--                      Create, CreateUser
--   Tmpfs              kernel-rs/src/fs/tmpfs.rs: the node table, paths, creation, removal, renaming
--     Tmpfs/Nodes      its operations by node id and the listing of a directory
--     Tmpfs/Paths, Walk, Below   the loops over paths and tables
--     Tmpfs/Invariant, Create, Reach, Contents   validity, and what a creation and a removal leave
--     Tmpfs/ReadWrite, Splice, Grow, Write       contents, reads and writes
--     Tmpfs/Names, Unique, Siblings              the names of siblings
--   Initrd             kernel-rs/src/fs/initrd.rs: the fields of a header and `tar_unpack`
--     Initrd/Octal, Names, Unpack, Makes, Archive   the fields of size and name, that the loop ends,
--                      what files and directories are made, and the loop over an archive
--   Syscall            kernel-rs/src/syscall.rs: the state, user memory and the descriptor table
--     Syscall/Files    the calls on files, one function per call; Syscall/Chdir is `sys_chdir`
--     Syscall/Report   the calls that report on threads and memory
--     Syscall/Sbrk     the call that grows the heap; Syscall/Page, Heap what it leaves
--     Syscall/Descriptors, Reading, Cwd   opening, writing and reading, and the text of the working
--                      directory
--   Dirty              kernel-rs/src/gui/dirty.rs: the damaged rectangles of the screen
--     Dirty/Rects, Clip, Merge, Add   rectangles and pixels, clipping, the merge loop, `add`, `flush`
--   Surface            kernel-rs/src/gui/surface.rs; Surface/Memory its pages, Surface/Axis
--                      clipping, Surface/Pixels filling
--   Mouse              kernel-rs/src/gui/mouse.rs; Mouse/Packet packets of three bytes
--   Wm                 kernel-rs/src/gui/wm.rs: windows, focus, hit test, dragging and damage
--     Wm/Compose       new windows, and a round of the compositor up to its list of rectangles
--     Wm/Places, Hit, Over, Focus, Press, Drag, Update, Open   footprints, the window under the mouse,
--                      the parts of `wm_update_mouse`, and a new window
--   Ulib               userspace-rs/src/ulib.rs; Ulib/Atoi reading numbers, Ulib/Malloc blocks of
--                      the heap
--   .../Tests          each theorem at a concrete input
--
-- How state is modelled. The mutable statics of a Rust module are one record, which each operation
-- takes and returns; the function of the code and the function of the model have the same name. An
-- array is a function of the index, and a -1 is `none` where the code uses it as a failure. Machine
-- words are natural numbers, with `% 2 ^ w` where the code wraps. What the code prints is left out.
--
-- Bounds and fuel. A loop that counts up to a constant is recursion on the rounds left. `alloc_pages`
-- runs on one round more than there are pages, and returns `none` if that ran out; `sys_sbrk` on more
-- rounds than a heap has pages. The loops over a path run on a round more than the path has bytes, and
-- the loop over an archive on a round more than it has blocks.
--
-- Not modelled: assembly, port accesses and the tables of the processor; the boot protocol beyond the
-- memory map; the font, the painting of windows and the copy to the display. The system calls on
-- processes, the ELF loader and the user programs have no model in this library.
pub mod Prelude
pub mod Pmm
pub mod Ring
pub mod Vterm
pub mod Initrd
pub mod Kbd
pub mod Sched
pub mod Tmpfs
pub mod Syscall
pub mod Dirty
pub mod Vmm
pub mod Surface
pub mod Mouse
pub mod Wm
pub mod Ulib

-- ===== src/Sched.antt =====
-- The round-robin scheduler, kernel-rs/src/sched.rs: a table of 32 threads, the index of the one
-- that runs, and the ticks of its slice. The table is a function of the index. What the code does
-- to the processor (the page table register, the kernel stack of the TSS) is the record `Cpu`.
pub mod Pick
pub mod Fair
pub mod Switch
pub mod Slots
pub mod Create
pub mod CreateUser
mod Tests
use kernel_rs.Prelude.{
  ℕ, zero, suc, ◌+◌, ◌-◌, ◌*◌, ◌%◌, ◌/◌, Bool, true, false, not, ◌&&◌, ◌||◌, Option, none, some,
  List, [], ◌∷◌, update, ltb, leb, ◌==◌, if◌then◌else◌, replicate,
}
use kernel_rs.Prelude.Align.{page_size, add64}
use kernel_rs.Prelude.Bytes.{buf_copy, until_nul}
use kernel_rs.Prelude.Int.{ℤ, pos}
use kernel_rs.Pmm
use kernel_rs.Pmm.{Pmm}

abbrev pub sched_max_threads : ℕ
sched_max_threads = 32

abbrev pub thread_kstack_size : ℕ
thread_kstack_size = 4 * page_size

abbrev pub timeslice_ticks : ℕ
timeslice_ticks = 5

-- The registers at an interrupt (kernel-rs/src/idt.rs).
pub record IrqFrame : Type 0 where
  pub r15 : ℕ
  pub r14 : ℕ
  pub r13 : ℕ
  pub r12 : ℕ
  pub r11 : ℕ
  pub r10 : ℕ
  pub r9 : ℕ
  pub r8 : ℕ
  pub rbp : ℕ
  pub rdi : ℕ
  pub rsi : ℕ
  pub rdx : ℕ
  pub rcx : ℕ
  pub rbx : ℕ
  pub rax : ℕ
  pub vector : ℕ
  pub err : ℕ
  pub rip : ℕ
  pub cs : ℕ
  pub rflags : ℕ
  pub rsp : ℕ
  pub ss : ℕ

abbrev pub zero_frame : IrqFrame
zero_frame = record {
  r15 = 0;
  r14 = 0;
  r13 = 0;
  r12 = 0;
  r11 = 0;
  r10 = 0;
  r9 = 0;
  r8 = 0;
  rbp = 0;
  rdi = 0;
  rsi = 0;
  rdx = 0;
  rcx = 0;
  rbx = 0;
  rax = 0;
  vector = 0;
  err = 0;
  rip = 0;
  cs = 0;
  rflags = 0;
  rsp = 0;
  ss = 0;
}

pub data ThreadState : Type 0 where
  unused runnable zombie : ThreadState

abbrev pub is_unused : ThreadState → Bool
is_unused unused = true
is_unused _ = false

abbrev pub is_runnable : ThreadState → Bool
is_runnable runnable = true
is_runnable _ = false

abbrev pub is_zombie : ThreadState → Bool
is_zombie zombie = true
is_zombie _ = false

abbrev pub ufd_max : ℕ
ufd_max = 8

abbrev pub ufd_first : ℕ
ufd_first = 3

-- `node` is `none` for the -1 of a free slot.
pub record Ufd : Type 0 where
  pub node : Option ℕ
  pub pos : ℕ

abbrev pub free_ufd : Ufd
free_ufd = record { node = none; pos = 0 }

-- `vt` is `none` for the -1 of the serial console.
pub record Thread : Type 0 where
  pub tid : ℕ
  pub name : List ℕ
  pub state : ThreadState
  pub frame : IrqFrame
  pub space : ℕ
  pub kstack_top : ℕ
  pub kstack_pa : ℕ
  pub is_user : Bool
  pub fds : ℕ → Ufd
  pub cwd : List ℕ
  pub brk : ℕ
  pub exit_status : ℤ
  pub vt : Option ℕ

abbrev pub zeroed : Thread
zeroed = record {
  tid = 0;
  name = replicate 16 0;
  state = unused;
  frame = zero_frame;
  space = 0;
  kstack_top = 0;
  kstack_pa = 0;
  is_user = false;
  fds = λ i. free_ufd;
  cwd = replicate 96 0;
  brk = 0;
  exit_status = pos 0;
  vt = none;
}

pub set_name : List ℕ → Thread → Thread
set_name name t = record t { name = buf_copy 16 name }

pub name_str : Thread → List ℕ
name_str t = until_nul t.name

unfoldable pub set_cwd : List ℕ → Thread → Thread
set_cwd cwd t = record t { cwd = buf_copy 96 cwd }

unfoldable pub cwd_str : Thread → List ℕ
cwd_str t = until_nul t.cwd

-- THREADS, NR_THREADS, CURRENT_IDX and LAST_SLICE.
pub record Sched : Type 0 where
  pub threads : ℕ → Thread
  pub nr_threads : ℕ
  pub current_idx : ℕ
  pub last_slice : ℕ

pub record Cpu : Type 0 where
  pub cr3 : ℕ
  pub rsp0 : ℕ

abbrev pub root_dir : List ℕ
root_dir = b'/' ∷ []

pub init : ℕ → Sched → Sched
unfolding set_name set_cwd
init kernel_space s =
    let boot = record zeroed {
      tid = 0;
      name = buf_copy 16 (b'k' ∷ b'e' ∷ b'r' ∷ b'n' ∷ b'e' ∷ b'l' ∷ []);
      state = runnable;
      space = kernel_space;
    } in
    record s {
      threads = update s.threads 0 (set_cwd root_dir boot);
      nr_threads = 1;
      current_idx = 0;
    }

-- The first unused slot from `i` on, with the rounds left.
pub find_unused : ℕ → ℕ → (ℕ → Thread) → Option ℕ
find_unused zero i ts = none
find_unused (suc n) i ts =
    let rest = find_unused n (i + 1) ts in if is_unused (ts i).state then some i else rest

abbrev pub grow : ℕ → Sched → ℕ
grow slot s = if leb s.nr_threads slot then slot + 1 else s.nr_threads

-- The new thread's record, with its first trap frame. `tramp`, `f` and `arg` are addresses.
kthread : List ℕ → ℕ → ℕ → ℕ → ℕ → ℕ → Pmm → ℕ → Thread
unfolding set_name
kthread name tramp f arg slot pa p kernel_space =
    let top = add64 (Pmm.pa_to_va p pa) thread_kstack_size in
    set_name name (record zeroed {
      tid = slot;
      state = runnable;
      space = kernel_space;
      kstack_top = top;
      kstack_pa = pa;
      frame = record zero_frame {
        rip = tramp;
        cs = 0x08;
        ss = 0x10;
        rflags = 0x202;
        rsp = top;
        rbx = f;
        rdi = arg;
      };
    })

-- The inner option is the thread's id, `none` for -1; the outer one is the fuel of `alloc_pages`.
pub kthread_create : List ℕ → ℕ → ℕ → ℕ → ℕ → Sched → Pmm → Option (Sched × Pmm × Option ℕ)
unfolding kthread
kthread_create name tramp f arg kernel_space s p =
    elim (find_unused sched_max_threads 0 s.threads) [
      | none ↦ some (s, p, none)
      | some slot ↦ elim (Pmm.alloc_pages 4 page_size p) [
        | none ↦ none
        | some (p', pa) ↦
            if pa == 0
            then some (s, p', none)
            else some (
              record s {
                threads = update s.threads slot (kthread name tramp f arg slot pa p kernel_space);
                nr_threads = grow slot s;
              },
              p',
              some slot,
            )
      ]
    ]

pub alloc_thread_slot : List ℕ → Sched → Sched × Option ℕ
unfolding set_name set_cwd
alloc_thread_slot name s = elim (find_unused sched_max_threads 0 s.threads) [
  | none ↦ (s, none)
  | some slot ↦ (
    record s {
      threads =
          update s.threads slot
            (set_name name (record (set_cwd root_dir zeroed) { tid = slot; state = runnable }));
      nr_threads = grow slot s;
    },
    some slot,
  )
]

-- The kernel stack and the first trap frame of the thread in a slot.
pub start_user : ℕ → ℕ → ℕ → Sched → Option ℕ → Pmm → Option (Sched × Pmm × Option ℕ)
start_user entry user_rsp space s none p = some (s, p, none)
start_user entry user_rsp space s (some slot) p = elim (Pmm.alloc_pages 4 page_size p) [
  | none ↦ none
  | some (p', pa) ↦
      if pa == 0
      then some (s, p', none)
      else (let t = s.threads slot in
          some (
            record s {
              threads = update s.threads slot (record t {
                space = space;
                is_user = true;
                kstack_top = add64 (Pmm.pa_to_va p pa) thread_kstack_size;
                kstack_pa = pa;
                frame = record t.frame {
                  rip = entry;
                  cs = 0x23;
                  ss = 0x1B;
                  rsp = user_rsp;
                  rflags = 0x202;
                };
              });
            },
            p',
            some slot,
          ))
]

-- A slot is taken before the kernel stack is allocated, and kept when that fails.
pub thread_create_user : List ℕ → ℕ → ℕ → ℕ → Sched → Pmm → Option (Sched × Pmm × Option ℕ)
thread_create_user name entry user_rsp space s p =
    let (s', r) = alloc_thread_slot name s in start_user entry user_rsp space s' r p

-- The loop of `pick_next` at the distance `i` from the current thread, with the rounds left.
pub pick_from : ℕ → ℕ → Sched → ℕ
pick_from zero i s = s.current_idx
pick_from (suc n) i s =
    let idx = (s.current_idx + i) % sched_max_threads in
    let rest = pick_from n (i + 1) s in if is_runnable (s.threads idx).state then idx else rest

unfoldable pub pick_next : Sched → ℕ
pick_next s = pick_from sched_max_threads 1 s

-- `nt.space != 0 && nt.space != threads[cur].space`, and the TSS hook.
unfoldable pub enter : Thread → Thread → Cpu → Cpu
enter from to c = record {
  cr3 = if not (to.space == 0) && not (to.space == from.space) then to.space else c.cr3;
  rsp0 = if not (to.kstack_top == 0) then to.kstack_top else c.rsp0;
}

unfoldable pub switch_to : IrqFrame → ℕ → Sched → Cpu → Sched × Cpu × IrqFrame
switch_to f to s c =
    let cur = s.current_idx in
    let saved = update s.threads cur (record (s.threads cur) { frame = f }) in
    (
      record s { threads = saved; current_idx = to },
      enter (saved cur) (saved to) c,
      (saved to).frame,
    )

-- The frame that the interrupt returns to is the last part.
unfoldable pub sched_tick : IrqFrame → Sched → Cpu → Sched × Cpu × IrqFrame
sched_tick f s c =
    if ltb (add64 s.last_slice 1) timeslice_ticks
    then (record s { last_slice = add64 s.last_slice 1 }, c, f)
    else (let s' = record s { last_slice = 0 } in
        let next = pick_next s' in
        if next == s'.current_idx then (s', c, f) else switch_to f next s' c)

-- The interrupt that `sched_yield` raises runs `sched_tick` on the slice set here.
pub yield_slice : Sched → Sched
yield_slice s = record s { last_slice = timeslice_ticks }

-- The current thread becomes a zombie and yields.
pub sched_thread_exit : IrqFrame → Sched → Cpu → Sched × Cpu × IrqFrame
unfolding yield_slice
sched_thread_exit f s c =
    let dead = record (s.threads s.current_idx) { state = zombie } in
    sched_tick f (yield_slice (record s { threads = update s.threads s.current_idx dead })) c

-- The pages of a kernel stack, freed from the lowest up.
pub free_kstack : ℕ → ℕ → Pmm → Pmm
free_kstack zero pa p = p
free_kstack (suc n) pa p = free_kstack n (pa + page_size) (Pmm.free_page pa p)

-- `destroy` is the address space's (kernel-rs/src/mm/vmm.rs).
pub sched_reap : (ℕ → Pmm → Pmm) → ℕ → ℕ → Sched → Pmm → Sched × Pmm
sched_reap destroy kernel_space tid s p =
    let t = s.threads tid in
    if not (is_zombie t.state)
    then (s, p)
    else (let p1 =
          if t.is_user && not (t.space == 0) && not (t.space == kernel_space)
          then destroy t.space p
          else p in
        let p2 = if not (t.kstack_pa == 0) then free_kstack 4 t.kstack_pa p1 else p1 in
        (record s { threads = update s.threads tid zeroed }, p2))

pub current : Sched → Thread
current s = s.threads s.current_idx

pub thread_at : ℕ → Sched → Option Thread
thread_at idx s = if leb sched_max_threads idx then none else some (s.threads idx)

pub count : Sched → ℕ
count s = s.nr_threads

-- The loop of `count_running` over the first `n` slots.
pub running_below : ℕ → (ℕ → Thread) → ℕ
running_below zero ts = 0
running_below (suc n) ts = (if is_unused (ts n).state then 0 else 1) + running_below n ts

pub count_running : Sched → ℕ
count_running s = running_below s.nr_threads s.threads

-- ===== src/Sched/Tests.antt =====
-- Three threads, of which one is a zombie, and a machine whose memory is used up.
use kernel_rs.Prelude.{
  ℕ, ◌<◌, ◌≤◌, ◌≡◌, refl, true, Option, none, some, [], ◌∷◌, ◌==◌, if◌then◌else◌, arith,
}
use mathlib.Core.Option
use kernel_rs.Pmm
use kernel_rs.Pmm.{Pmm, bm_test}
use kernel_rs.Pmm.Count
use kernel_rs.Pmm.Init.{init_lem}
use kernel_rs.Sched.{
  Sched, Cpu, Thread, IrqFrame, runnable, zombie, zeroed, zero_frame, pick_next, pick_from,
  sched_tick, sched_max_threads, kthread_create, thread_create_user, find_unused,
}
use kernel_rs.Sched.Fair.{turns, turns_reach}
use kernel_rs.Sched.Switch.{SliceEnd, sched_tick-SliceEnd}
use kernel_rs.Sched.Create.{KthreadEnd, kthread_create-KthreadEnd}
use kernel_rs.Sched.CreateUser.{UserEnd, thread_create_user-UserEnd}
use kernel_rs.Sched.Slots.{IsValid}

abbrev table : ℕ → Thread
table i =
    if i == 0
    then record zeroed { state = runnable }
    else (if i == 1
        then record zeroed { tid = 1; state = zombie }
        else (if i == 2 then record zeroed { tid = 2; state = runnable } else zeroed))

abbrev three : Sched
three = record { threads = table; nr_threads = 3; current_idx = 0; last_slice = 4 }

abbrev cpu : Cpu
cpu = record { cr3 = 0x1000; rsp0 = 0 }

abbrev other_frame : IrqFrame
other_frame = record zero_frame { rip = 0x400000 }

three-IsValid : IsValid three
three-IsValid = record {
  current_in = omega arith;
  nr_in = omega arith;
  beyond = λ i h. ground arith;
  tids = λ i h. ground arith;
}

next_is_two : pick_next three ≡ 2
unfolding pick_next pick_from
next_is_two = refl

turns_reach_example :
    (n : ℕ) × (0 < n) × (n ≤ sched_max_threads) × ((turns n three).current_idx ≡ 2)
turns_reach_example = turns_reach three 2 (omega arith) (omega arith) refl

sched_tick-SliceEnd_example : SliceEnd other_frame three cpu (sched_tick other_frame three cpu)
sched_tick-SliceEnd_example = sched_tick-SliceEnd other_frame three cpu (omega arith) (omega arith)

abbrev no_destroy : ℕ → Pmm → Pmm
no_destroy space p = p

abbrev full : Pmm
full = Pmm.init [] 0

-- Eight free pages from 0x2000 on.
abbrev memory : Pmm
memory = Pmm.init (record { base = 0x1800; len = 0x9000; usable = true } ∷ []) 0

abbrev kthread_out : Sched × Pmm × Option ℕ
kthread_out = Option.get_or (kthread_create [] 0x100 0x200 0 0 three memory) (three, memory, none)

kthread_stack : (kthread_out.0.threads 3).frame.rsp ≡ 0x6000
unfolding kthread_create find_unused Pmm.alloc_pages Pmm.alloc_pages_from Pmm.free_run Pmm.init
    Pmm.init_entries Pmm.init_entry Pmm.mark_usable Pmm.bm_set Pmm.bm_test Pmm.pa_to_va
kthread_stack = refl

memory-IsValid : Pmm.Count.IsValid memory
memory-IsValid =
    (init_lem (record { base = 0x1800; len = 0x9000; usable = true } ∷ []) 0 (omega arith)
      ((λ j h. refl), tt) refl).0

kthread_create-KthreadEnd_example :
    (out : Sched × Pmm × Option ℕ) × (kthread_create [] 0x100 0x200 0 0 three memory ≡ some out)
    × KthreadEnd 0x100 0x200 0 0 three memory out
kthread_create-KthreadEnd_example =
    kthread_create-KthreadEnd [] 0x100 0x200 0 0 three memory three-IsValid memory-IsValid

thread_create_user-UserEnd_example :
    (out : Sched × Pmm × Option ℕ) × (thread_create_user [] 0x400000 0x7000 0x5000 three memory
      ≡ some out)
    × UserEnd 0x400000 0x7000 0x5000 three memory out
thread_create_user-UserEnd_example =
    thread_create_user-UserEnd [] 0x400000 0x7000 0x5000 three memory three-IsValid memory-IsValid

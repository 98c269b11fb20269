-- ===== src/Syscall/Report.antt =====
-- The system calls that report on the system, kernel-rs/src/syscall.rs. What a call stores in the
-- user's struct is its result.
use kernel_rs.Prelude.{
  ℕ, zero, suc, ◌+◌, ◌*◌, ◌^◌, ◌%◌, ◌≡◌, refl, ◌∙◌, ap, inl, inr, true, false, not, Option, none,
  some, List, [], ◌∷◌, take, ◌==◌, if◌then◌else◌, Bool-cases, arith,
}
use kernel_rs.Prelude.Align.{page_size}
use kernel_rs.Pmm
use kernel_rs.Pmm.{Pmm}
use kernel_rs.Sched.{
  Sched, Thread, is_unused, is_zombie, name_str, sched_max_threads, current, count_running,
}
use kernel_rs.Syscall.{bad_uaddr}

abbrev pub tick_ms : ℕ
tick_ms = 10

unfoldable pub sys_getpid : Sched → ℕ
sys_getpid s = (current s).tid

-- `ticks` is TIMER_TICKS.
unfoldable pub sys_uptime : ℕ → ℕ
sys_uptime ticks = (ticks * tick_ms) % 2 ^ 64

pub record Usysinfo : Type 0 where
  pub mem_total : ℕ
  pub mem_free : ℕ
  pub nproc : ℕ
  pub uptime_ms : ℕ

unfoldable pub sys_sysinfo : ℕ → ℕ → Sched → Pmm → Option Usysinfo
sys_sysinfo rdi ticks s p =
    if bad_uaddr rdi
    then none
    else some (record {
      mem_total = (Pmm.total_count p * page_size) % 2 ^ 64;
      mem_free = (Pmm.free_count p * page_size) % 2 ^ 64;
      nproc = count_running s;
      uptime_ms = (ticks * tick_ms) % 2 ^ 64;
    })

pub record Uproc : Type 0 where
  pub tid : ℕ
  pub name : List ℕ
  pub state : ℕ

abbrev pub uproc_of : Thread → Uproc
uproc_of t = record {
  tid = t.tid;
  name = take 23 (name_str t);
  state = if is_zombie t.state then 1 else 0;
}

-- The loop over the slots from `i` on, with the rounds left; `none` is the 0 of no such thread.
unfoldable pub nextproc_from : ℕ → ℕ → ℕ → ℕ → Sched → Option Uproc
nextproc_from zero i seen want s = none
nextproc_from (suc n) i seen want s =
    let skip = nextproc_from n (i + 1) seen want s in
    let pass = nextproc_from n (i + 1) (seen + 1) want s in
    if is_unused (s.threads i).state
    then skip
    else (if not (seen == want) then pass else some (uproc_of (s.threads i)))

unfoldable pub sys_nextproc : ℕ → ℕ → Sched → Option Uproc
sys_nextproc rdi rsi s = if bad_uaddr rsi then none else nextproc_from sched_max_threads 0 0 rdi s

-- The threads in use, in the order of the table.
unfoldable pub in_use_from : ℕ → ℕ → Sched → List Thread
in_use_from zero i s = []
in_use_from (suc n) i s =
    let rest = in_use_from n (i + 1) s in
    if is_unused (s.threads i).state then rest else s.threads i ∷ rest

abbrev pub entry_at : List Thread → ℕ → Option Uproc
entry_at [] k = none
entry_at (t ∷ ts) zero = some (uproc_of t)
entry_at (t ∷ ts) (suc k) = entry_at ts k

nextproc_from_lem :
    (n i seen k : ℕ) (s : Sched)
    → nextproc_from n i seen (seen + k) s ≡ entry_at (in_use_from n i s) k
unfolding nextproc_from in_use_from
nextproc_from_lem zero i seen k s = refl
nextproc_from_lem (suc n) i seen zero s = elim (Bool-cases (is_unused (s.threads i).state)) [
  | inl empty ↦ rw empty (nextproc_from_lem n (i + 1) seen 0 s)
  | inr used ↦ let hit : (seen == seen + 0) ≡ true = ground arith in rw (used, hit) refl
]
nextproc_from_lem (suc n) i seen (suc k) s = elim (Bool-cases (is_unused (s.threads i).state)) [
  | inl empty ↦ rw empty (nextproc_from_lem n (i + 1) seen (suc k) s)
  | inr used ↦
      let miss : (seen == seen + suc k) ≡ false = ground arith in
      rw (used, miss)
        (ap (λ w. nextproc_from n (i + 1) (seen + 1) w s) {x = seen + suc k} {y = seen + 1 + k}
            (omega arith)
          ∙ nextproc_from_lem n (i + 1) (seen + 1) k s)
]

-- With a good address, call number `k` of `sys_nextproc` gives the entry of the thread that is `k`-th
-- among those in use, in the order of the table, and none past the last of them: a program that counts
-- up from 0 until there is none sees every thread in use once.
pub sys_nextproc_lem :
    (k rsi : ℕ) (s : Sched)
    → bad_uaddr rsi ≡ false
    → sys_nextproc k rsi s ≡ entry_at (in_use_from sched_max_threads 0 s) k
unfolding sys_nextproc
sys_nextproc_lem k rsi s good = rw good (from_start sched_max_threads)
  where
    from_start : (n : ℕ) → nextproc_from n 0 0 k s ≡ entry_at (in_use_from n 0 s) k
    from_start n =
        ap (λ w. nextproc_from n 0 0 w s) {x = k} {y = 0 + k} (omega arith)
        ∙ nextproc_from_lem n 0 0 k s

-- ===== src/Sched/Switch.antt =====
-- The timer tick and the switch of threads: saved frames, the address space and the kernel stack.
use kernel_rs.Prelude.{
  ℕ, zero, suc, ◌+◌, ◌^◌, ◌<◌, ◌≤◌, ◌≡◌, refl, ◌≢◌, ap, ◌∙◌, inl, inr, true, false, ◌==◌,
  if◌then◌else◌, Bool-cases, arith, ltb, ==→≢, subst, update, update_ne, update_self,
}
use kernel_rs.Prelude.Align.{add64}
use kernel_rs.Sched.{
  Sched, Thread, Cpu, IrqFrame, pick_next, enter, switch_to, sched_tick, timeslice_ticks, pick_from,
  sched_max_threads,
}

-- The processor runs the current thread: in its address space and on its kernel stack, where it
-- has them.
pub record Runs (s : Sched) (c : Cpu) : Type 0 where
  pub in_space : (s.threads s.current_idx).space ≢ 0 → c.cr3 ≡ (s.threads s.current_idx).space
  pub on_stack :
      (s.threads s.current_idx).kstack_top ≢ 0 → c.rsp0 ≡ (s.threads s.current_idx).kstack_top

-- What a switch does to the processor: it loads the space of the next thread where that has one and it
-- is not the one of the thread before, and the kernel stack of the next thread where it has one.
pub record Entered (before next : Thread) (c c' : Cpu) : Type 0 where
  pub new_space : next.space ≢ 0 → next.space ≢ before.space → c'.cr3 ≡ next.space
  pub no_space : next.space ≡ 0 → c'.cr3 ≡ c.cr3
  pub same_space : next.space ≡ before.space → c'.cr3 ≡ c.cr3
  pub new_stack : next.kstack_top ≢ 0 → c'.rsp0 ≡ next.kstack_top
  pub no_stack : next.kstack_top ≡ 0 → c'.rsp0 ≡ c.rsp0

-- What a tick at the end of a slice leaves.
pub record SliceEnd (f : IrqFrame) (s : Sched) (c : Cpu) (out : Sched × Cpu × IrqFrame)
    : Type 0 where
  pub fresh : out.0.last_slice ≡ 0
  pub next : out.0.current_idx ≡ pick_next s
  pub number : out.0.nr_threads ≡ s.nr_threads
  pub others : (j : ℕ) → j ≢ s.current_idx → out.0.threads j ≡ s.threads j
  pub stays : pick_next s ≡ s.current_idx → out ≡ (record s { last_slice = 0 }, c, f)
  pub saved :
      pick_next s ≢ s.current_idx
      → out.0.threads s.current_idx ≡ record (s.threads s.current_idx) { frame = f }
  pub resumed : pick_next s ≢ s.current_idx → out.2 ≡ (s.threads (pick_next s)).frame
  pub entered :
      pick_next s ≢ s.current_idx
      → Entered (s.threads s.current_idx) (s.threads (pick_next s)) c out.1

enter-Entered :
    (before now next : Thread) (c : Cpu)
    → now.space ≡ before.space
    → Entered before next c (enter now next c)
unfolding enter
enter-Entered before now next c at = record {
  new_space = λ some_space other. ground (arith, some_space, other, at);
  no_space = λ none_there. ground (arith, none_there);
  same_space = λ same. ground (arith, same, at);
  new_stack = λ some_stack. ground (arith, some_stack);
  no_stack = λ none_there. ground (arith, none_there);
}

pick_from-slice :
    (n i k : ℕ) (s : Sched) → pick_from n i (record s { last_slice = k }) ≡ pick_from n i s
unfolding pick_from
pick_from-slice zero i k s = refl
pick_from-slice (suc n) i k s = rw (pick_from-slice n (i + 1) k s)

pick_next-slice : (k : ℕ) (s : Sched) → pick_next (record s { last_slice = k }) ≡ pick_next s
unfolding pick_next
pick_next-slice k s = pick_from-slice sched_max_threads 1 k s

-- A tick inside the slice only counts.
pub sched_tick_inside :
    (f : IrqFrame) (s : Sched) (c : Cpu)
    → s.last_slice + 1 < timeslice_ticks
    → sched_tick f s c ≡ (record s { last_slice = s.last_slice + 1 }, c, f)
unfolding sched_tick
sched_tick_inside f s c lt =
    let counts : add64 s.last_slice 1 ≡ s.last_slice + 1 = omega arith in
    let inside : ltb (add64 s.last_slice 1) timeslice_ticks ≡ true = ground arith in
    rw inside (ap (λ (k : ℕ). with_slice k) counts)
  where
    with_slice : ℕ → Sched × Cpu × IrqFrame
    with_slice k = (record s { last_slice = k }, c, f)

-- What follows once `pick_next` has named the next thread.
abbrev slice_out : ℕ → IrqFrame → Sched → Cpu → Sched × Cpu × IrqFrame
slice_out next f s c =
    let s' = record s { last_slice = 0 } in
    if next == s'.current_idx then (s', c, f) else switch_to f next s' c

slice_out-SliceEnd :
    (next : ℕ) (f : IrqFrame) (s : Sched) (c : Cpu)
    → next ≡ pick_next s
    → SliceEnd f s c (slice_out next f s c)
unfolding switch_to
slice_out-SliceEnd next f s c e = elim (Bool-cases (next == s.current_idx)) [
  | inl same ↦ rw same (record {
    fresh = refl;
    next = ground arith;
    number = refl;
    others = λ j ne. refl;
    stays = λ h. refl;
    saved = λ ne. absurd (ne (ground arith));
    resumed = λ ne. absurd (ne (ground arith));
    entered = λ ne. absurd (ne (ground arith));
  })
  | inr other ↦
      let mine = record (s.threads s.current_idx) { frame = f } in
      let now = update s.threads s.current_idx mine s.current_idx in
      rw other (record {
        fresh = refl;
        next = e;
        number = refl;
        others = λ j ne. update_ne s.threads s.current_idx j _ ne;
        stays = λ h. absurd (==→≢ _ _ other (e ∙ h));
        saved = λ ne. update_self s.threads s.current_idx _;
        resumed = λ ne. ap (λ (x : ℕ). (s.threads x).frame) e;
        entered = λ ne.
            subst
              (λ (k : ℕ).
                Entered (s.threads s.current_idx) (s.threads k) c (enter now (s.threads next) c))
              e
              (enter-Entered (s.threads s.current_idx) now (s.threads next) c
                (ap (λ (t : Thread). t.space) (update_self s.threads s.current_idx mine)));
      })
]

slice_out-Runs :
    (next : ℕ) (f : IrqFrame) (s : Sched) (c : Cpu)
    → Runs s c
    → Runs (slice_out next f s c).0 (slice_out next f s c).1
unfolding switch_to enter
slice_out-Runs next f s c r = elim (Bool-cases (next == s.current_idx)) [
  | inl same ↦ rw same (record { in_space = r.in_space; on_stack = r.on_stack })
  | inr other ↦ rw other (record {
    in_space = λ ne. ground (arith, r.in_space);
    on_stack = λ ne. ground (arith, r.on_stack);
  })
]

-- A tick at the end of a slice, on a count of ticks that does not wrap, starts a new slice and makes
-- current the thread that `pick_next` names. If that is the current one nothing else changes. If not,
-- the frame of the interrupted thread is saved in it and the one saved in the next thread is returned
-- to; the processor gets the space and the kernel stack of the next thread where it has them, the space
-- only if it is another one, and keeps its own otherwise; and no other thread, no other field of the
-- interrupted one and not the number of threads changes.
pub sched_tick-SliceEnd :
    (f : IrqFrame) (s : Sched) (c : Cpu)
    → timeslice_ticks ≤ s.last_slice + 1
    → s.last_slice + 1 < 2 ^ 64
    → SliceEnd f s c (sched_tick f s c)
unfolding sched_tick
sched_tick-SliceEnd f s c le small =
    let full : ltb (add64 s.last_slice 1) timeslice_ticks ≡ false = ground arith in
    rw full
      (slice_out-SliceEnd (pick_next (record s { last_slice = 0 })) f s c (pick_next-slice 0 s))

-- A tick keeps the processor on the current thread.
pub sched_tick-Runs :
    (f : IrqFrame) (s : Sched) (c : Cpu) → Runs s c → Runs (sched_tick f s c).0 (sched_tick f s c).1
unfolding sched_tick
sched_tick-Runs f s c r = elim (Bool-cases (ltb (add64 s.last_slice 1) timeslice_ticks)) [
  | inl inside ↦ rw inside (record { in_space = r.in_space; on_stack = r.on_stack })
  | inr full ↦ rw full (slice_out-Runs (pick_next (record s { last_slice = 0 })) f s c r)
]

-- A thread that is switched away from and later switched back to goes on with the very frame at
-- which it was interrupted, if its record is not changed in between.
pub switch_to-switch_to :
    (f g : IrqFrame) (to : ℕ) (s : Sched) (c : Cpu)
    → to ≢ s.current_idx
    → let (s1, c1, f1) = switch_to f to s c in
      let (s2, c2, f2) = switch_to g s.current_idx s1 c1 in
      (f2 ≡ f) × (s2.current_idx ≡ s.current_idx) × ((s2.threads to).frame ≡ g)
unfolding switch_to
switch_to-switch_to f g to s c ne = ground arith

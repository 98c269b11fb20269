-- ===== src/Sched/Fair.antt =====
-- The turns of the threads under `pick_next`.
use kernel_rs.Prelude.{
  ℕ, zero, suc, ◌+◌, ◌-◌, ◌%◌, ◌<◌, ◌≤◌, ◌≡◌, subst, ◌⊎◌, inl, inr, Bool, true, false, arith,
}
use native.Mathlib.Decide.{ℕ_discrete, dec_lt}
use kernel_rs.Sched.{Sched, is_runnable, pick_next, sched_max_threads}
use kernel_rs.Sched.Pick.{ready, pick_next_lem}

-- The end of a time slice, as far as the choice of the next thread goes.
pub turn : Sched → Sched
turn s = record s { current_idx = pick_next s }

pub turns : ℕ → Sched → Sched
turns zero s = s
turns (suc n) s = turns n (turn s)

-- How far the thread `t` is after the current one, from 1 to 32.
abbrev distance_to : Sched → ℕ → ℕ
distance_to s t = (t + 31 - s.current_idx) % 32 + 1

record Reached (s : Sched) (t b : ℕ) : Type 0 where
  slices : ℕ
  some_slices : 0 < slices
  bound : slices ≤ b
  runs : (turns slices s).current_idx ≡ t

ready_at :
    (s : Sched) (t : ℕ)
    → t < 32
    → s.current_idx < 32
    → is_runnable (s.threads t).state ≡ true
    → ready s (distance_to s t) ≡ true
ready_at s t lt cur_lt r = subst (λ x. is_runnable (s.threads x).state ≡ true) (omega arith) r

-- One turn goes to the thread, or gets nearer to it.
turn_nearer :
    (s : Sched) (t : ℕ)
    → t < 32
    → s.current_idx < 32
    → is_runnable (s.threads t).state ≡ true
    → (pick_next s ≡ t) ⊎ ((pick_next s < 32) × (distance_to (turn s) t < distance_to s t))
unfolding turn
turn_nearer s t lt cur_lt r = elim (pick_next_lem s) [
  | inl e ↦
      let at = e.none_ready (distance_to s t) (omega arith) (omega arith) in
      absurd (clash (ready_at s t lt cur_lt r) at)
  | inr e ↦ elim (dec_lt (distance_to s t) e.distance) [
    | yes before ↦
        absurd (clash (ready_at s t lt cur_lt r) (e.first (distance_to s t) (omega arith) before))
    | no after ↦ elim (ℕ_discrete e.distance (distance_to s t)) [
      | yes same ↦ inl (omega (arith, e.picks))
      | no closer ↦ inr (omega (arith, e.picks), omega (arith, e.picks, e.from))
    ]
  ]
]
  where
    clash : {b : Bool} → b ≡ true → b ≡ false → ⊥
    clash p q = cc

reach :
    (b : ℕ) (s : Sched) (t : ℕ)
    → t < 32
    → s.current_idx < 32
    → is_runnable (s.threads t).state ≡ true
    → distance_to s t ≤ b
    → Reached s t b
unfolding turn turns
reach zero s t lt cur_lt r near = absurd (omega arith)
reach (suc b) s t lt cur_lt r near = elim (turn_nearer s t lt cur_lt r) [
  | inl there ↦ record { slices = 1; some_slices = omega arith; bound = omega arith; runs = there }
  | inr on ↦
      let rest = reach b (turn s) t lt on.0 r (omega (arith, on.1)) in
      record {
        slices = suc rest.slices;
        some_slices = omega arith;
        bound = omega (arith, rest.bound);
        runs = rest.runs;
      }
]

-- For every thread that can run there is a number of slices, from 1 to 32, after whose end it is the
-- one that runs, from any current thread and whatever the other threads are, as long as the states
-- of the threads stay the same.
pub turns_reach :
    (s : Sched) (t : ℕ)
    → t < sched_max_threads
    → s.current_idx < sched_max_threads
    → is_runnable (s.threads t).state ≡ true
    → (n : ℕ) × (0 < n) × (n ≤ sched_max_threads) × ((turns n s).current_idx ≡ t)
turns_reach s t lt cur_lt r =
    let e = reach 32 s t lt cur_lt r (omega arith) in (e.slices, e.some_slices, e.bound, e.runs)

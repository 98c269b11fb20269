-- ===== src/Sched/Pick.antt =====
-- `pick_next`: the first runnable thread after the current one, going round.
use kernel_rs.Prelude.{
  ℕ, zero, suc, ◌+◌, ◌%◌, ◌<◌, ◌≤◌, ◌≡◌, refl, ap, ◌⊎◌, inl, inr, Bool, true, false, Bool-cases,
  arith,
}
use kernel_rs.Sched.{Sched, is_runnable, pick_from, pick_next, sched_max_threads}

-- The thread at the distance `d` after the current one can run.
abbrev pub ready : Sched → ℕ → Bool
ready s d = is_runnable (s.threads ((s.current_idx + d) % sched_max_threads)).state

-- The thread at the distance `d` is picked, and none before it could be.
pub record Picked (s : Sched) (i n k : ℕ) : Type 0 where
  pub distance : ℕ
  pub from : i ≤ distance
  pub to : distance < i + n
  pub picks : k ≡ (s.current_idx + distance) % sched_max_threads
  pub can_run : ready s distance ≡ true
  pub first : (e : ℕ) → i ≤ e → e < distance → ready s e ≡ false

pub record Nobody (s : Sched) (i n k : ℕ) : Type 0 where
  pub stays : k ≡ s.current_idx
  pub none_ready : (e : ℕ) → i ≤ e → e < i + n → ready s e ≡ false

pick_from_lem :
    (n i : ℕ) (s : Sched) → Nobody s i n (pick_from n i s) ⊎ Picked s i n (pick_from n i s)
unfolding pick_from
pick_from_lem zero i s = inl (record { stays = refl; none_ready = λ e a b. absurd (omega arith) })
pick_from_lem (suc n) i s = elim (Bool-cases (ready s i)) [
  | inl yes_i ↦ inr (
      rw yes_i (record {
        distance = i;
        from = omega arith;
        to = omega arith;
        picks = refl;
        can_run = yes_i;
        first = λ e a b. absurd (omega arith);
      }))
  | inr no_i ↦ rw no_i (later no_i (pick_from_lem n (i + 1) s))
]
  where
    later :
        ready s i ≡ false
        → Nobody s (i + 1) n (pick_from n (i + 1) s) ⊎ Picked s (i + 1) n (pick_from n (i + 1) s)
        → Nobody s i (suc n) (pick_from n (i + 1) s) ⊎ Picked s i (suc n) (pick_from n (i + 1) s)
    later no_i (inl r) = inl (record {
      stays = r.stays;
      none_ready = λ e a b. ground (arith, no_i, r.none_ready e, ap (ready s) {x = e} {y = i});
    })
    later no_i (inr r) = inr (record {
      distance = r.distance;
      from = omega (arith, r.from);
      to = omega (arith, r.to);
      picks = r.picks;
      can_run = r.can_run;
      first = λ e a b. ground (arith, no_i, r.first e, ap (ready s) {x = e} {y = i});
    })

-- `pick_next` returns the runnable thread at the least distance from 1 to 32 after the current
-- one, going round the table (the current thread itself is at 32), or the current index when no
-- thread is runnable.
pub pick_next_lem : (s : Sched) → Nobody s 1 32 (pick_next s) ⊎ Picked s 1 32 (pick_next s)
unfolding pick_next
pick_next_lem s = pick_from_lem sched_max_threads 1 s

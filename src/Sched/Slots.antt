-- ===== src/Sched/Slots.antt =====
-- The table of threads under creation, exit and reaping.
use kernel_rs.Prelude.{
  ℕ, zero, suc, ◌+◌, ◌-◌, ◌<◌, ◌≤◌, ◌≡◌, refl, sym, ◌∙◌, ap, inl, inr, true, false, some, none,
  List, ◌==◌, if◌then◌else◌, Bool-cases, Option-cases, arith, update, update_ne, ◌≢◌,
}
use kernel_rs.Prelude.Align.{page_size}
use kernel_rs.Pmm
use kernel_rs.Pmm.{Pmm}
use kernel_rs.Sched.{
  Sched, Thread, zeroed, zero_frame, is_unused, is_runnable, is_zombie, find_unused, grow,
  alloc_thread_slot, start_user, sched_reap, sched_max_threads, running_below, count_running,
}

pub record IsValid (s : Sched) : Type 0 where
  pub current_in : s.current_idx < sched_max_threads
  pub nr_in : s.nr_threads ≤ sched_max_threads
  pub beyond : (i : ℕ) → s.nr_threads ≤ i → is_unused (s.threads i).state ≡ true
  pub tids : (i : ℕ) → is_unused (s.threads i).state ≡ false → (s.threads i).tid ≡ i

-- The first slot that is unused, from `i` on.
pub record Free (i n slot : ℕ) (ts : ℕ → Thread) : Type 0 where
  pub from : i ≤ slot
  pub to : slot < i + n
  pub was_unused : is_unused (ts slot).state ≡ true
  pub first : (j : ℕ) → i ≤ j → j < slot → is_unused (ts j).state ≡ false

pub find_unused_lem :
    (n i : ℕ) (ts : ℕ → Thread) (slot : ℕ) → find_unused n i ts ≡ some slot → Free i n slot ts
unfolding find_unused
find_unused_lem zero i ts slot e = cc
find_unused_lem (suc n) i ts slot e = elim (Bool-cases (is_unused (ts i).state)) [
  | inl vacant ↦ record {
    from = ground (arith, vacant);
    to = ground (arith, vacant);
    was_unused = ground (arith, vacant, ap (λ (x : ℕ). is_unused (ts x).state) {x = i} {y = slot});
    first = λ j a b. ground (arith, vacant);
  }
  | inr busy ↦
      let r = find_unused_lem n (i + 1) ts slot (rw busy at e) in
      record {
        from = omega (arith, r.from);
        to = omega (arith, r.to);
        was_unused = r.was_unused;
        first = λ j a b.
            ground (arith, busy, r.first j, ap (λ (x : ℕ). is_unused (ts x).state) {x = j} {y = i});
      }
]

-- A thread put into a slot of the table under its own index.
pub install-IsValid :
    (s : Sched) (slot : ℕ) (t : Thread)
    → IsValid s
    → slot < sched_max_threads
    → t.tid ≡ slot
    → IsValid (record s { threads = update s.threads slot t; nr_threads = grow slot s })
install-IsValid s slot t v lt e = record {
  current_in = v.current_in;
  nr_in = ground (arith, v.nr_in);
  beyond = λ i h. ground (arith, v.beyond i);
  tids = λ i h. ground (arith, v.tids i);
}

pub alloc_thread_slot-IsValid :
    (name : List ℕ) (s : Sched) → IsValid s → IsValid (alloc_thread_slot name s).0
unfolding alloc_thread_slot
alloc_thread_slot-IsValid name s v =
    elim (Option-cases (find_unused sched_max_threads 0 s.threads)) [
      | inl e ↦ rw (e, alloc_thread_slot) v
      | inr (slot, e) ↦
          rw (e, alloc_thread_slot)
            (install-IsValid s slot _ v (find_unused_lem 32 0 s.threads slot e).to refl)
    ]

pub update-runnable :
    (ts : ℕ → Thread) (slot : ℕ) (t : Thread)
    → is_runnable t.state ≡ true
    → is_runnable (update ts slot t slot).state ≡ true
update-runnable ts slot t h = ground arith

pub slot_record : (ts : ℕ → Thread) (slot : ℕ) (t : Thread) → update ts slot t slot ≡ t
slot_record ts slot t = ground arith

pub reuse-IsValid :
    (s : Sched) (slot : ℕ) (t : Thread)
    → IsValid s
    → is_runnable (s.threads slot).state ≡ true
    → t.state ≡ (s.threads slot).state
    → t.tid ≡ slot
    → IsValid (record s { threads = update s.threads slot t })
reuse-IsValid s slot t v run same e = record {
  current_in = v.current_in;
  nr_in = v.nr_in;
  beyond =
      λ i h. ground (arith, v.beyond i, ap (λ (x : ℕ). (s.threads x).state) {x = i} {y = slot});
  tids = λ i h. ground (arith, v.tids i);
}

pub slot_taken :
    (name : List ℕ) (s : Sched) (slot : ℕ)
    → find_unused sched_max_threads 0 s.threads ≡ some slot
    → ((alloc_thread_slot name s).1 ≡ some slot)
      × (is_runnable ((alloc_thread_slot name s).0.threads slot).state ≡ true)
      × (((alloc_thread_slot name s).0.threads slot).frame ≡ zero_frame)
unfolding alloc_thread_slot
slot_taken name s slot e =
    rw (e, alloc_thread_slot)
      (
        refl,
        update-runnable s.threads slot _ refl,
        ap (λ (x : Thread). x.frame) (slot_record s.threads slot _),
      )

pub slot_rest :
    (name : List ℕ) (s : Sched) (slot : ℕ)
    → find_unused sched_max_threads 0 s.threads ≡ some slot
    → ((j : ℕ) → j ≢ slot → (alloc_thread_slot name s).0.threads j ≡ s.threads j)
      × (((alloc_thread_slot name s).0.threads slot).tid ≡ slot)
      × ((alloc_thread_slot name s).0.current_idx ≡ s.current_idx)
unfolding alloc_thread_slot
slot_rest name s slot e =
    rw (e, alloc_thread_slot)
      (
        (λ j ne. update_ne s.threads slot j _ ne),
        ap (λ (x : Thread). x.tid) (slot_record s.threads slot _),
        refl,
      )

pub start_user-fails :
    (entry rsp space slot : ℕ) (s : Sched) (p p' : Pmm)
    → Pmm.alloc_pages 4 page_size p ≡ some (p', 0)
    → start_user entry rsp space s (some slot) p ≡ some (s, p', none)
unfolding start_user
start_user-fails entry rsp space slot s p p' g = rw (g, start_user)

running_beyond :
    (n k : ℕ) (ts : ℕ → Thread)
    → ((i : ℕ) → n ≤ i → is_unused (ts i).state ≡ true)
    → running_below (n + k) ts ≡ running_below n ts
unfolding running_below
running_beyond n zero ts h = ap (λ (x : ℕ). running_below x ts) (omega arith)
running_beyond n (suc k) ts h =
    ap (λ (x : ℕ). running_below x ts) {y = suc (n + k)} (omega arith)
    ∙ ground (arith, h (n + k), running_beyond n k ts h)

-- In a well formed table `count_running` counts every thread that is not unused.
pub count_running_lem :
    (s : Sched) → IsValid s → count_running s ≡ running_below sched_max_threads s.threads
unfolding count_running
count_running_lem s v =
    sym (running_beyond s.nr_threads (sched_max_threads - s.nr_threads) s.threads v.beyond)
    ∙ ap (λ (x : ℕ). running_below x s.threads) (omega (arith, v.nr_in))

-- `sched_reap` of a zombie frees its slot and no other; of any other thread it changes nothing; and
-- it keeps the table well formed.
pub sched_reap_lem :
    (destroy : ℕ → Pmm → Pmm) (ks tid : ℕ) (s : Sched) (p : Pmm)
    → IsValid s
    → IsValid (sched_reap destroy ks tid s p).0
      × (is_zombie (s.threads tid).state ≡ false → sched_reap destroy ks tid s p ≡ (s, p))
      × (is_zombie (s.threads tid).state ≡ true
          → (j : ℕ)
          → (sched_reap destroy ks tid s p).0.threads j
            ≡ (if j == tid then zeroed else s.threads j))
unfolding sched_reap
sched_reap_lem destroy ks tid s p v = elim (Bool-cases (is_zombie (s.threads tid).state)) [
  | inr live ↦ rw live (v, (λ h. refl), λ h. cc)
  | inl dead ↦ rw dead (
    record {
      current_in = v.current_in;
      nr_in = v.nr_in;
      beyond = λ i h. ground (arith, v.beyond i);
      tids = λ i h. ground (arith, v.tids i);
    },
    (λ h. cc),
    λ h j. refl,
  )
]

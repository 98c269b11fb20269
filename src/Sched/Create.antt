-- ===== src/Sched/Create.antt =====
-- The creation of threads, `kthread_create` and `thread_create_user` of kernel-rs/src/sched.rs.
use kernel_rs.Prelude.{
  ℕ, zero, suc, ◌+◌, ◌*◌, ◌<◌, ◌≤◌, ◌≡◌, ◌≢◌, refl, sym, ◌∙◌, ap, ◌⊎◌, inl, inr, true, false,
  Option, Bool, some, none, List, ◌==◌, Bool-cases, Option-cases, arith, update, update_self,
  update_ne,
}
use kernel_rs.Prelude.Align.{page_size, add64}
use kernel_rs.Pmm
use kernel_rs.Pmm.{Pmm, bitmap_pages}
use kernel_rs.Pmm.Count
use kernel_rs.Pmm.Count.{Takes}
use kernel_rs.Pmm.Run.{AllFree, NoRun, RunFound, alloc_pages_lem}
use kernel_rs.Sched.{
  Sched, Thread, IrqFrame, zero_frame, is_unused, is_runnable, find_unused, grow, kthread,
  kthread_create, sched_max_threads,
}
use kernel_rs.Sched.Slots.{IsValid, Free, find_unused_lem, install-IsValid, update-runnable}

-- Every slot of the table is in use.
abbrev pub AllUsed : Sched → Type 0
AllUsed s = (j : ℕ) → j < sched_max_threads → is_unused (s.threads j).state ≡ false

-- No four pages in a row are free.
abbrev pub NoStack : Pmm → Type 0
NoStack p = (k : ℕ) → k + 4 ≤ bitmap_pages → ¬ AllFree p k 4

-- A thread that was made: its slot is the first that was unused, its stack is four pages that were
-- free, and it starts from `frame`.
pub record Starts (s : Sched) (p : Pmm) (space : ℕ) (is_user : Bool) (frame : ℕ → IrqFrame)
    (slot page : ℕ) (out : Sched × Pmm × Option ℕ) : Type 0 where
  pub answer : out.2 ≡ some slot
  pub slot_free : Free 0 sched_max_threads slot s.threads
  pub takes : Takes p page 4 out.1
  pub others : (j : ℕ) → j ≢ slot → out.0.threads j ≡ s.threads j
  pub runnable : is_runnable (out.0.threads slot).state ≡ true
  pub tid : (out.0.threads slot).tid ≡ slot
  pub space_at : (out.0.threads slot).space ≡ space
  pub user : (out.0.threads slot).is_user ≡ is_user
  pub stack : (out.0.threads slot).kstack_pa ≡ page * page_size
  pub top : (out.0.threads slot).kstack_top ≡ add64 (Pmm.pa_to_va p (page * page_size)) 16384
  pub from : (out.0.threads slot).frame ≡ frame (out.0.threads slot).kstack_top
  pub current : out.0.current_idx ≡ s.current_idx

pub all_used :
    (n i : ℕ) (ts : ℕ → Thread)
    → find_unused n i ts ≡ none
    → (j : ℕ) → i ≤ j
    → j < i + n
    → is_unused (ts j).state ≡ false
unfolding find_unused
all_used zero i ts e j a b = absurd (omega (arith, a, b))
all_used (suc n) i ts e j a b = elim (Bool-cases (is_unused (ts i).state)) [
  | inl vacant ↦ let clash = rw vacant at e in cc
  | inr busy ↦ elim (Bool-cases (j == i)) [
    | inl here ↦ ap (λ k. is_unused (ts k).state) (same_of j i here) ∙ busy
    | inr later ↦
        all_used n (i + 1) ts (rw busy at e) j (ground (arith, later, a)) (omega (arith, b))
  ]
]
  where
    same_of : (j i : ℕ) → (j == i) ≡ true → j ≡ i
    same_of j i e = ground (arith, e)

pub stack_cases :
    (p : Pmm)
    → Pmm.Count.IsValid p
    → NoRun 0 4 p (Pmm.alloc_pages 4 page_size p) ⊎ RunFound 0 4 p (Pmm.alloc_pages 4 page_size p)
stack_cases p v = alloc_pages_lem p 4 page_size v (omega arith) (omega arith) (omega arith)

pub no_stack : (p : Pmm) (r : Option (Pmm × ℕ)) → NoRun 0 4 p r → NoStack p
no_stack p r none_found k fits = none_found.none_free k (omega arith) fits

-- The first frame of a kernel thread.
abbrev pub kernel_frame : ℕ → ℕ → ℕ → ℕ → IrqFrame
kernel_frame tramp f arg top = record zero_frame {
  rip = tramp;
  cs = 0x08;
  ss = 0x10;
  rflags = 0x202;
  rsp = top;
  rbx = f;
  rdi = arg;
}

-- What `kthread_create` leaves: nothing new, when the table or the memory is full, or a thread.
pub record KthreadEnd (tramp f arg ks : ℕ) (s : Sched) (p : Pmm) (out : Sched × Pmm × Option ℕ)
    : Type 0 where
  pub valid : IsValid out.0
  pub pages : Pmm.Count.IsValid out.1
  pub cases :
      (((AllUsed s ⊎ NoStack p) × (out ≡ (s, p, none)))
        ⊎ ((slot : ℕ) × (page : ℕ) × Starts s p ks false (kernel_frame tramp f arg) slot page out))

module _ (name : List ℕ) (tramp f arg ks : ℕ) (s : Sched) (p : Pmm) where
  kthread_full :
      find_unused sched_max_threads 0 s.threads ≡ none
      → kthread_create name tramp f arg ks s p ≡ some (s, p, none)
  unfolding kthread_create
  kthread_full e = rw (e, kthread_create) refl

  kthread_no_stack :
      (slot : ℕ)
      → find_unused sched_max_threads 0 s.threads ≡ some slot
      → Pmm.alloc_pages 4 page_size p ≡ some (p, 0)
      → kthread_create name tramp f arg ks s p ≡ some (s, p, none)
  unfolding kthread_create
  kthread_no_stack slot e g = rw (e, g, kthread_create) refl

  kthread_made :
      (slot pa : ℕ) (p' : Pmm)
      → find_unused sched_max_threads 0 s.threads ≡ some slot
      → Pmm.alloc_pages 4 page_size p ≡ some (p', pa)
      → (pa == 0) ≡ false
      → kthread_create name tramp f arg ks s p
        ≡ some (
          record s {
            threads = update s.threads slot (kthread name tramp f arg slot pa p ks);
            nr_threads = grow slot s;
          },
          p',
          some slot,
        )
  unfolding kthread_create
  kthread_made slot pa p' e g nz = rw (e, g, nz, kthread_create) refl

  -- With a well formed table and a valid allocator `kthread_create` ends and leaves both so. It answers
  -- -1 and changes nothing, and then every slot is in use or no four pages in a row are free; or it
  -- answers the first slot that was unused. That slot then holds a runnable thread with its index as its
  -- id, in the kernel's space, with a stack of four pages that were free and the first frame of the
  -- trampoline at its top; and no other thread changes.
  pub kthread_create-KthreadEnd :
      IsValid s
      → Pmm.Count.IsValid p
      → (out : Sched × Pmm × Option ℕ) × (kthread_create name tramp f arg ks s p ≡ some out)
        × KthreadEnd tramp f arg ks s p out
  unfolding kthread
  kthread_create-KthreadEnd v pages =
      elim (Option-cases (find_unused sched_max_threads 0 s.threads)) [
        | inl e ↦ (
          (s, p, none),
          kthread_full e,
          record {
            valid = v;
            pages = pages;
            cases =
                inl (
                  inl (λ j lt. all_used 32 0 s.threads e j (omega arith) (omega (arith, lt))),
                  refl,
                );
          },
        )
        | inr (slot, e) ↦
            let slot_free = find_unused_lem 32 0 s.threads slot e in
            elim (stack_cases p pages) [
              | inl none_found ↦ (
                (s, p, none),
                kthread_no_stack slot e none_found.returns,
                record {
                  valid = v;
                  pages = pages;
                  cases = inl (inr (no_stack p _ none_found), refl);
                },
              )
              | inr found ↦
                  let pa = found.page * page_size in
                  let t = kthread name tramp f arg slot pa p ks in
                  let row = update_self s.threads slot t in
                  (
                    _,
                    kthread_made slot pa found.after e found.returns (ground (arith, found.above)),
                    record {
                      valid = install-IsValid s slot t v slot_free.to refl;
                      pages = found.valid;
                      cases = inr (
                        slot,
                        found.page,
                        record {
                          answer = refl;
                          slot_free = slot_free;
                          takes = found.takes;
                          others = λ j ne. update_ne s.threads slot j t ne;
                          runnable = update-runnable s.threads slot t refl;
                          tid = ap (λ (x : Thread). x.tid) row;
                          space_at = ap (λ (x : Thread). x.space) row;
                          user = ap (λ (x : Thread). x.is_user) row;
                          stack = ap (λ (x : Thread). x.kstack_pa) row;
                          top = ap (λ (x : Thread). x.kstack_top) row;
                          from =
                              ap (λ (x : Thread). x.frame) row
                              ∙ ap (λ (x : Thread). kernel_frame tramp f arg x.kstack_top)
                                  (sym row);
                          current = refl;
                        },
                      );
                    },
                  )
            ]
      ]

-- ===== src/Sched/CreateUser.antt =====
-- The creation of user threads, `thread_create_user` of kernel-rs/src/sched.rs.
use kernel_rs.Prelude.{
  ℕ, ◌*◌, ◌≡◌, ◌≢◌, refl, ◌∙◌, ap, ◌⊎◌, inl, inr, true, false, Option, some, none, List, ◌==◌,
  Option-cases, arith, update, update_self, update_ne,
}
use kernel_rs.Prelude.Align.{page_size, add64}
use kernel_rs.Pmm
use kernel_rs.Pmm.{Pmm}
use kernel_rs.Pmm.Count
use kernel_rs.Sched.{
  Sched, Thread, IrqFrame, zero_frame, is_runnable, find_unused, alloc_thread_slot, start_user,
  thread_create_user, sched_max_threads,
}
use kernel_rs.Sched.Slots.{
  IsValid, Free, find_unused_lem, reuse-IsValid, alloc_thread_slot-IsValid, slot_taken, slot_rest,
  start_user-fails, update-runnable,
}
use kernel_rs.Sched.Create.{AllUsed, NoStack, Starts, all_used, stack_cases, no_stack}

-- The first frame of a user thread.
abbrev pub user_frame : ℕ → ℕ → IrqFrame
user_frame entry rsp = record zero_frame {
  rip = entry;
  cs = 0x23;
  ss = 0x1B;
  rsp = rsp;
  rflags = 0x202;
}

-- The slot is taken, by a runnable thread whose registers are all 0.
pub record Leaks (s : Sched) (p : Pmm) (slot : ℕ) (out : Sched × Pmm × Option ℕ) : Type 0 where
  pub answer : out.2 ≡ none
  pub same_pages : out.1 ≡ p
  pub slot_free : Free 0 sched_max_threads slot s.threads
  pub others : (j : ℕ) → j ≢ slot → out.0.threads j ≡ s.threads j
  pub runnable : is_runnable (out.0.threads slot).state ≡ true
  pub zeros : (out.0.threads slot).frame ≡ zero_frame

-- What `thread_create_user` leaves.
pub record UserEnd (entry rsp space : ℕ) (s : Sched) (p : Pmm) (out : Sched × Pmm × Option ℕ)
    : Type 0 where
  pub valid : IsValid out.0
  pub pages : Pmm.Count.IsValid out.1
  pub cases :
      ((AllUsed s × (out ≡ (s, p, none)))
        ⊎ (NoStack p × ((slot : ℕ) × Leaks s p slot out))
        ⊎ ((slot : ℕ) × (page : ℕ) × Starts s p space true
              (λ top. user_frame entry rsp)
              slot
              page
              out))

module _ (name : List ℕ) (entry rsp space : ℕ) (s : Sched) (p : Pmm) where
  abbrev taken : Sched
  taken = (alloc_thread_slot name s).0

  user_full :
      find_unused sched_max_threads 0 s.threads ≡ none
      → thread_create_user name entry rsp space s p ≡ some (s, p, none)
  unfolding thread_create_user alloc_thread_slot start_user
  user_full e = rw (e, alloc_thread_slot) refl

  via_slot :
      (slot : ℕ)
      → find_unused sched_max_threads 0 s.threads ≡ some slot
      → thread_create_user name entry rsp space s p ≡ start_user entry rsp space taken (some slot) p
  unfolding thread_create_user
  via_slot slot e =
      ap (λ (r : Option ℕ). start_user entry rsp space taken r p) (slot_taken name s slot e).0

  -- The thread of the slot with its stack.
  abbrev started : ℕ → ℕ → Thread
  started slot pa = record (taken.threads slot) {
    space = space;
    is_user = true;
    kstack_top = add64 (Pmm.pa_to_va p pa) 16384;
    kstack_pa = pa;
    frame = record (taken.threads slot).frame {
      rip = entry;
      cs = 0x23;
      ss = 0x1B;
      rsp = rsp;
      rflags = 0x202;
    };
  }

  user_starts :
      (slot pa : ℕ) (p' : Pmm)
      → Pmm.alloc_pages 4 page_size p ≡ some (p', pa)
      → (pa == 0) ≡ false
      → start_user entry rsp space taken (some slot) p
        ≡ some
            (record taken { threads = update taken.threads slot (started slot pa) }, p', some slot)
  unfolding start_user
  user_starts slot pa p' g nz = rw (g, nz, start_user) refl

  taken-IsValid : IsValid s → IsValid taken
  taken-IsValid v = alloc_thread_slot-IsValid name s v

  -- With a well formed table and a valid allocator `thread_create_user` ends and leaves both so. It
  -- answers -1 and changes nothing when every slot is in use. It answers -1 when no four pages in a row
  -- are free, and then the first slot that was unused holds a runnable thread whose registers are all 0.
  -- Or it answers the first slot that was unused: a runnable user thread with its index as its id, in
  -- the given space, with a stack of four pages that were free, which starts at the entry with the given
  -- stack pointer. In no case does another thread change.
  pub thread_create_user-UserEnd :
      IsValid s
      → Pmm.Count.IsValid p
      → (out : Sched × Pmm × Option ℕ) × (thread_create_user name entry rsp space s p ≡ some out)
        × UserEnd entry rsp space s p out
  thread_create_user-UserEnd v pages =
      elim (Option-cases (find_unused sched_max_threads 0 s.threads)) [
        | inl e ↦ (
          (s, p, none),
          user_full e,
          record {
            valid = v;
            pages = pages;
            cases =
                inl (λ j lt. all_used 32 0 s.threads e j (omega arith) (omega (arith, lt)), refl);
          },
        )
        | inr (slot, e) ↦
            let slot_free = find_unused_lem 32 0 s.threads slot e in
            let mine = slot_taken name s slot e in
            let rest = slot_rest name s slot e in
            elim (stack_cases p pages) [
              | inl none_found ↦ (
                (taken, p, none),
                via_slot slot e
                    ∙ start_user-fails entry rsp space slot taken p p none_found.returns,
                record {
                  valid = taken-IsValid v;
                  pages = pages;
                  cases = inr (
                      inl (
                        no_stack p _ none_found,
                        (
                          slot,
                          record {
                            answer = refl;
                            same_pages = refl;
                            slot_free = slot_free;
                            others = λ j ne. rest.0 j ne;
                            runnable = mine.1;
                            zeros = mine.2;
                          },
                        ),
                      ));
                },
              )
              | inr found ↦
                  let pa = found.page * page_size in
                  let t = started slot pa in
                  let row = update_self taken.threads slot t in
                  (
                    _,
                    via_slot slot e
                        ∙ user_starts slot pa found.after found.returns
                            (ground (arith, found.above)),
                    record {
                      valid = reuse-IsValid taken slot t (taken-IsValid v) mine.1 refl (rest.1);
                      pages = found.valid;
                      cases = inr (
                          inr (
                            slot,
                            found.page,
                            record {
                              answer = refl;
                              slot_free = slot_free;
                              takes = found.takes;
                              others = λ j ne. update_ne taken.threads slot j t ne ∙ rest.0 j ne;
                              runnable = update-runnable taken.threads slot t mine.1;
                              tid = ap (λ (x : Thread). x.tid) row ∙ rest.1;
                              space_at = ap (λ (x : Thread). x.space) row;
                              user = ap (λ (x : Thread). x.is_user) row;
                              stack = ap (λ (x : Thread). x.kstack_pa) row;
                              top = ap (λ (x : Thread). x.kstack_top) row;
                              from =
                                  ap (λ (x : Thread). x.frame) row
                                  ∙ ap
                                      (λ (x : IrqFrame). record x {
                                        rip = entry;
                                        cs = 0x23;
                                        ss = 0x1B;
                                        rsp = rsp;
                                        rflags = 0x202;
                                      })
                                      mine.2;
                              current = rest.2;
                            },
                          ));
                    },
                  )
            ]
      ]

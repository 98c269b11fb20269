-- ===== src/Syscall/Heap.antt =====
-- The heap that `sys_sbrk` of kernel-rs/src/syscall.rs leaves.
use kernel_rs.Prelude.{
  ℕ, zero, suc, ◌+◌, ◌-◌, ◌*◌, ◌/◌, ◌%◌, ◌<◌, ◌≤◌, ◌≡◌, refl, sym, ◌∙◌, ap, ◌⊎◌, inl, inr, Bool,
  true, false, some, ltb, ◌==◌, if◌then◌else◌, arith, Bool-cases, ==_iff, ==→≢,
}
use kernel_rs.Prelude.Align.{page_size, add64, sub64}
use kernel_rs.Prelude.Int.{ℤ, pos, ◌-ℤ◌, -ℤ_parts, eq_of_parts}
use kernel_rs.Vmm.Tables.{IsShaped}
use kernel_rs.Vmm.Keeps.{mapped, Keeps, Keeps-refl, Keeps-trans}
use kernel_rs.Syscall.Sbrk.{Heap, heap_base, heap_max, heap_page, heap_pages, heap_fuel, sys_sbrk}
use kernel_rs.Syscall.Page.{heap_page-Paged}

-- What the loop leaves: whether it got to the end, and then that every page is mapped.
record Grows (va newb : ℕ) (p : Heap) (levels : ℕ → ℕ) (p' : Heap) (ok : Bool) : Type 0 where
  keeps : Keeps p.vm levels p'.vm
  space : p'.space ≡ p.space
  brk : p'.brk ≡ p.brk
  all :
      ok ≡ true
      → (k : ℕ) → va + k * page_size < newb
      → mapped p'.vm p.space (va + k * page_size) ≡ true

finished :
    (f va newb : ℕ) (p : Heap) → ltb va newb ≡ false → heap_pages (suc f) va newb p ≡ some (p, true)
unfolding heap_pages
finished f va newb p done = rw done refl

nothing_more :
    (va newb : ℕ) (p : Heap) (levels : ℕ → ℕ)
    → IsShaped p.vm levels
    → ltb va newb ≡ false
    → Grows va newb p levels p true
nothing_more va newb p levels shaped done = record {
  keeps = Keeps-refl p.vm levels shaped;
  space = refl;
  brk = refl;
  all = λ e k lt. ground (arith, done, lt);
}

heap_pages-Grows :
    (f va newb : ℕ) (p : Heap) (levels : ℕ → ℕ)
    → IsShaped p.vm levels
    → levels p.space ≡ 4
    → newb ≤ va + f * page_size
    → (p' : Heap) × (ok : Bool) × (heap_pages (suc f) va newb p ≡ some (p', ok))
      × Grows va newb p levels p' ok
unfolding heap_pages
heap_pages-Grows zero va newb p levels shaped root enough = (
  p,
  true,
  finished zero va newb p (ground (arith, enough)),
  nothing_more va newb p levels shaped (ground (arith, enough)),
)
heap_pages-Grows (suc f) va newb p levels shaped root enough = elim (Bool-cases (ltb va newb)) [
  | inr done ↦ (p, true, finished (suc f) va newb p done, nothing_more va newb p levels shaped done)
  | inl more ↦
      let one = heap_page-Paged va p levels shaped root in
      let p1 = (heap_page va p).0 in
      elim (Bool-cases (heap_page va p).1) [
        | inr stops ↦ (
          p1,
          false,
          rw (more, stops) refl,
          record {
            keeps = one.keeps;
            space = one.space;
            brk = one.brk;
            all = λ e k lt. ground (arith, e);
          },
        )
        | inl ok ↦
            let l1 = one.keeps.levels_after in
            let at = one.keeps.level p.space (omega (arith, root)) ∙ root in
            let (p', whole, run, grows) =
              heap_pages-Grows f (va + page_size) newb p1 l1 one.keeps.shaped (ap l1 one.space ∙ at)
                (omega (arith, enough)) in
            (
              p',
              whole,
              rw (more, ok) run,
              record {
                keeps = Keeps-trans p.vm p1.vm p'.vm levels one.keeps grows.keeps;
                space = grows.space ∙ one.space;
                brk = grows.brk ∙ one.brk;
                all = λ e k lt. elim (Bool-cases (k == 0)) [
                  | inl first ↦
                      let start : va + k * page_size ≡ va = omega (arith, (==_iff k 0).0 first) in
                      ap (mapped p'.vm p.space) start
                      ∙ grows.keeps.stays p.space va at (one.there ok)
                  | inr later ↦
                      let next : va + k * page_size ≡ va + page_size + (k - 1) * page_size =
                        omega (arith, ==→≢ k 0 later) in
                      ap (mapped p'.vm p.space) next
                      ∙ ap (λ n. mapped p'.vm n (va + page_size + (k - 1) * page_size))
                          (sym one.space)
                      ∙ grows.all e (k - 1) (omega (arith, lt, next))
                ];
              },
            )
      ]
]

-- The call's answer: the break moved and every page from the old break to the new one is mapped, or
-- the break stays and the answer is one less than it, and no page that was mapped is lost either way.
pub record HeapAfter (old newb : ℕ) (p : Heap) (levels : ℕ → ℕ) (p' : Heap) (z : ℤ) : Type 0 where
  pub keeps : Keeps p.vm levels p'.vm
  pub space : p'.space ≡ p.space
  pub answer :
      ((z ≡ pos old)
        × (p'.brk ≡ newb)
        × ((va : ℕ) → va % page_size ≡ 0 → old ≤ va → va < newb → mapped p'.vm p.space va ≡ true))
      ⊎ ((z ≡ pos (old - 1)) × (p'.brk ≡ old))

minus_one : (n : ℕ) → 0 < n → pos n -ℤ pos 1 ≡ pos (n - 1)
minus_one n above =
    let parts = -ℤ_parts (pos n) (pos 1) in
    eq_of_parts (pos n -ℤ pos 1) (pos (n - 1)) (omega (arith, parts, above))

-- The first page that the heap gains.
abbrev first_page : ℕ → ℕ
first_page old = (old + 4095) / 4096 * 4096

sbrk_run :
    (rdi : ℕ) (p p' : Heap) (ok : Bool)
    → 0 < rdi
    → heap_base ≤ p.brk
    → p.brk + rdi ≤ heap_base + heap_max
    → heap_pages heap_fuel (first_page p.brk) (p.brk + rdi) p ≡ some (p', ok)
    → sys_sbrk rdi p
      ≡ some (if ok then (record p' { brk = p.brk + rdi }, pos p.brk) else (p', pos p.brk -ℤ pos 1))
unfolding sys_sbrk
sbrk_run rdi p p' ok some_bytes above below run =
    let newb : add64 p.brk rdi ≡ p.brk + rdi = omega (arith, below) in
    let start : add64 p.brk (page_size - 1) / page_size * page_size ≡ first_page p.brk =
      ap (λ n. n / 4096 * 4096) (omega (arith, below)) in
    let grows : (rdi == 0) ≡ false = ground (arith, some_bytes) in
    let up : ltb (p.brk + rdi) p.brk ≡ false = ground arith in
    let fits : ltb heap_max (sub64 (p.brk + rdi) heap_base) ≡ false =
      ground (arith, above, below) in
    rw (newb, start, grows, up, fits, run) refl

-- On well-formed tables, with a break not below the heap's base, a positive increment that stays within
-- the heap's greatest length ends, with well-formed tables and every page mapped that was. The answer
-- is the old break, the break has moved, and every page that starts between the two is mapped; or the
-- answer is the old break less one, and the break is as it was.
pub sys_sbrk_lem :
    (rdi : ℕ) (p : Heap) (levels : ℕ → ℕ)
    → IsShaped p.vm levels
    → levels p.space ≡ 4
    → 0 < rdi
    → heap_base ≤ p.brk
    → p.brk + rdi ≤ heap_base + heap_max
    → (p' : Heap) × (z : ℤ) × (sys_sbrk rdi p ≡ some (p', z))
      × HeapAfter p.brk (p.brk + rdi) p levels p' z
sys_sbrk_lem rdi p levels shaped root some_bytes above below =
    let from = first_page p.brk in
    let (p', ok, run, g) =
      heap_pages-Grows 16385 from (p.brk + rdi) p levels shaped root
        (omega (arith, above, below)) in
    let done = sbrk_run rdi p p' ok some_bytes above below run in
    elim (Bool-cases ok) [
      | inl whole ↦ (
        record p' { brk = p.brk + rdi },
        pos p.brk,
        done ∙ rw whole refl,
        record {
          keeps = g.keeps;
          space = g.space;
          answer = inl (
            refl,
            refl,
            λ va aligned low high.
                let k = (va - from) / 4096 in
                let here : from + k * page_size ≡ va = omega (arith, aligned, low) in
                ap (mapped p'.vm p.space) (sym here) ∙ g.all whole k (omega (arith, here, high)),
          );
        },
      )
      | inr stopped ↦ (
        p',
        pos (p.brk - 1),
        done ∙ rw stopped (ap (λ n. some (p', n)) (minus_one p.brk (omega (arith, above)))),
        record { keeps = g.keeps; space = g.space; answer = inr (refl, g.brk) },
      )
    ]

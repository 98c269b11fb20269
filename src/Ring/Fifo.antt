-- ===== src/Ring/Fifo.antt =====
-- The contents of the ring, and a queue of 127 bytes to compare it with.
use kernel_rs.Prelude.{
  ℕ, zero, suc, ◌+◌, ◌-◌, ◌%◌, ◌<◌, ◌≤◌, ◌≡◌, refl, ◌∙◌, ap, ◌≢◌, Option, none, some, false, List,
  [], ◌∷◌, ◌++◌, length, ltb, ◌==◌, if◌then◌else◌, arith, update, Bool-cases, inl, inr,
}
use mathlib.Core.Path.{ap₂}
use native.Mathlib.Decide.{dec_lt}
use kernel_rs.Ring.{Ring, ring_size, push, pop}

-- The abstract queue, oldest byte first.
abbrev pub enqueue : ℕ → List ℕ → List ℕ
enqueue c q = if ltb (length q) 127 then q ++ (c ∷ []) else q

abbrev pub dequeue : List ℕ → Option ℕ × List ℕ
dequeue [] = (none, [])
dequeue (c ∷ q) = (some c, q)

-- The `k` bytes from the index `t` on, going round.
unfoldable pub window : (ℕ → ℕ) → ℕ → ℕ → List ℕ
window buf t zero = []
window buf t (suc k) = buf t ∷ window buf ((t + 1) % ring_size) k

unfoldable pub count : Ring → ℕ
count r = (r.head + ring_size - r.tail) % ring_size

unfoldable pub contents : Ring → List ℕ
contents r = window r.buf r.tail (count r)

pub record IsValid (r : Ring) : Type 0 where
  pub head_in : r.head < ring_size
  pub tail_in : r.tail < ring_size

pub push-IsValid : (c : ℕ) (r : Ring) → IsValid r → IsValid (push c r)
unfolding push
push-IsValid c r v = ground arith

pub pop-IsValid : (r : Ring) → IsValid r → IsValid (pop r).1
unfolding pop
pop-IsValid r v = ground arith

length-window : (buf : ℕ → ℕ) (t k : ℕ) → length (window buf t k) ≡ k
unfolding window
length-window buf t zero = refl
length-window buf t (suc k) = ap suc (length-window buf ((t + 1) % ring_size) k)

window-update :
    (buf : ℕ → ℕ) (t k h c : ℕ)
    → t < ring_size
    → k < ring_size
    → h ≡ (t + k) % ring_size
    → window (update buf h c) t k ≡ window buf t k
unfolding window
window-update buf t zero h c lt small e = refl
window-update buf t (suc k) h c lt small e =
    ap₂ ◌∷◌ (ground arith)
      (window-update buf ((t + 1) % ring_size) k h c (omega arith) (omega arith) (omega arith))

window-push :
    (buf : ℕ → ℕ) (t k h c : ℕ)
    → t < ring_size
    → k < ring_size
    → h ≡ (t + k) % ring_size
    → window (update buf h c) t (suc k) ≡ window buf t k ++ (c ∷ [])
unfolding window
window-push buf t zero h c lt small e = ap₂ ◌∷◌ (ground arith) refl
window-push buf t (suc k) h c lt small e =
    ap₂ ◌∷◌ (ground arith)
      (window-push buf ((t + 1) % ring_size) k h c (omega arith) (omega arith) (omega arith))

length-contents : (r : Ring) → length (contents r) ≡ count r
unfolding contents
length-contents r = length-window r.buf r.tail (count r)

push-full : (c : ℕ) (r : Ring) → IsValid r → count r ≡ 127 → push c r ≡ r
unfolding push count
push-full c r v e = ground arith

push-room :
    (c : ℕ) (r : Ring) → IsValid r → count r < 127 → contents (push c r) ≡ contents r ++ (c ∷ [])
unfolding push contents count
push-room c r v e =
    let room : ((r.head + 1) % ring_size == r.tail) ≡ false = ground arith in
    rw room (
      ap (window (update r.buf r.head c) r.tail) {y = suc (count r)} (omega arith)
      ∙ window-push r.buf r.tail (count r) r.head c v.tail_in (omega arith) (omega arith))

-- A valid ring holds at most 127 bytes; `push` appends its byte when there is room and drops it
-- when there is none, as the bounded queue does.
pub push_refines :
    (c : ℕ) (r : Ring)
    → IsValid r
    → (contents (push c r) ≡ enqueue c (contents r)) × (length (contents r) ≤ 127)
push_refines c r v =
    let most : count r ≤ 127 = unfold count in omega arith in
    let len = length-contents r in
    elim (dec_lt (count r) 127) [
      | yes lt ↦ (push-room c r v lt ∙ ground (arith, len), omega (arith, len))
      | no ge ↦
          (ap contents (push-full c r v (omega arith)) ∙ ground (arith, len), omega (arith, len))
    ]

window-pop :
    (buf : ℕ → ℕ) (t k : ℕ)
    → k ≢ 0
    → window buf t k ≡ buf t ∷ window buf ((t + 1) % ring_size) (k - 1)
unfolding window
window-pop buf t zero ne = absurd (ne refl)
window-pop buf t (suc k) ne = ap (λ j. buf t ∷ window buf ((t + 1) % ring_size) j) (omega arith)

-- `pop` of a valid ring returns the oldest byte and leaves the others, or nothing when there is
-- none, as the queue does.
pub pop_refines : (r : Ring) → IsValid r → ((pop r).0, contents (pop r).1) ≡ dequeue (contents r)
unfolding pop contents count window
pop_refines r v = elim (Bool-cases (r.head == r.tail)) [
  | inl e ↦
      let none_left : (r.head + ring_size - r.tail) % ring_size ≡ 0 = ground arith in
      rw (e, none_left)
  | inr e ↦
      let more = window-pop r.buf r.tail (count r) (ground arith) in
      rw (e, more)
        (ap (λ k. (some (r.buf r.tail), window r.buf ((r.tail + 1) % ring_size) k)) (ground arith))
]

-- What a producer and a consumer do with a ring, in the order in which they do it.
pub data Op : Type 0 where
  put : ℕ → Op
  get : Op

-- What each `get` returns.
unfoldable pub run_ring : List Op → Ring → List (Option ℕ)
run_ring [] r = []
run_ring (put c ∷ ops) r = run_ring ops (push c r)
run_ring (get ∷ ops) r = (pop r).0 ∷ run_ring ops (pop r).1

unfoldable pub run_queue : List Op → List ℕ → List (Option ℕ)
run_queue [] q = []
run_queue (put c ∷ ops) q = run_queue ops (enqueue c q)
run_queue (get ∷ ops) q = (dequeue q).0 ∷ run_queue ops (dequeue q).1

-- No interleaving of pushes and pops tells a valid ring from the queue, bounded at 127 bytes, that
-- holds its contents.
pub run_refines :
    (ops : List Op) (r : Ring) → IsValid r → run_ring ops r ≡ run_queue ops (contents r)
unfolding run_ring run_queue
run_refines [] r v = refl
run_refines (put c ∷ ops) r v =
    run_refines ops (push c r) (push-IsValid c r v) ∙ ap (run_queue ops) (push_refines c r v).0
run_refines (get ∷ ops) r v =
    let e = pop_refines r v in
    ap₂ ◌∷◌ (ap (λ (x : Option ℕ × List ℕ). x.0) e) (
      run_refines ops (pop r).1 (pop-IsValid r v)
      ∙ ap (λ (x : Option ℕ × List ℕ). run_queue ops x.1) e)

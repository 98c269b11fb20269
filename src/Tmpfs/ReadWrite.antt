-- ===== src/Tmpfs/ReadWrite.antt =====
-- Slices of the pool, and reads by node as windows of a file's contents.
use kernel_rs.Prelude.{
  ℕ, zero, suc, ◌+◌, ◌-◌, ◌<◌, ◌≡◌, refl, sym, ◌∙◌, ap, inl, inr, true, Option, none, some, List,
  [], ◌∷◌, ◌++◌, length, get_or, take, drop, ltb, Bool-cases, arith, min,
}
use kernel_rs.Tmpfs.{Fs, write_pool}
use kernel_rs.Tmpfs.Nodes.{slice, not_file, node_data, node_read}

pub slice_ext :
    (p q : ℕ → ℕ) (a b n : ℕ)
    → ((k : ℕ) → k < n → p (a + k) ≡ q (b + k))
    → slice p a n ≡ slice q b n
unfolding slice
slice_ext p q a b zero h = refl
slice_ext p q a b (suc n) h =
    let first : p a ≡ q b = ap p (sym (omega arith)) ∙ h 0 (omega arith) ∙ ap q (omega arith) in
    let rest =
      slice_ext p q (a + 1) (b + 1) n
        (λ k lt. ap p (omega arith) ∙ h (suc k) (omega arith) ∙ ap q (omega arith)) in
    rw (first, rest)

pub slice_at : (p : ℕ → ℕ) {a b m n : ℕ} → a ≡ b → m ≡ n → slice p a m ≡ slice p b n
slice_at p {a} {b} {m} {n} e e' = ap (λ x. slice p x m) e ∙ ap (slice p b) e'

pub length-slice : (p : ℕ → ℕ) (a n : ℕ) → length (slice p a n) ≡ n
unfolding slice
length-slice p a zero = refl
length-slice p a (suc n) = ap suc (length-slice p (a + 1) n)

pub slice_append : (p : ℕ → ℕ) (a m n : ℕ) → slice p a (m + n) ≡ slice p a m ++ slice p (a + m) n
unfolding slice
slice_append p a zero n = slice_at p (omega arith) (omega arith)
slice_append p a (suc m) n =
    slice_at p {n = suc (m + n)} refl (omega arith)
    ∙ ap (λ l. p a ∷ l)
        (slice_append p (a + 1) m n
          ∙ ap (λ l. slice p (a + 1) m ++ l) (slice_at p (omega arith) refl))

pub take-slice : (p : ℕ → ℕ) (a m n : ℕ) → take m (slice p a n) ≡ slice p a (min m n)
unfolding slice
take-slice p a zero n = slice_at p {m = 0} refl (omega arith)
take-slice p a (suc m) zero = slice_at p {m = 0} refl (omega arith)
take-slice p a (suc m) (suc n) =
    ap (λ l. p a ∷ l) (take-slice p (a + 1) m n) ∙ slice_at p {m = suc (min m n)} refl (omega arith)

pub drop-slice : (p : ℕ → ℕ) (a m n : ℕ) → drop m (slice p a n) ≡ slice p (a + m) (n - m)
unfolding slice
drop-slice p a zero n = slice_at p (omega arith) (omega arith)
drop-slice p a (suc m) zero = slice_at p {m = 0} refl (omega arith)
drop-slice p a (suc m) (suc n) = drop-slice p (a + 1) m n ∙ slice_at p (omega arith) (omega arith)

slice_is :
    (p : ℕ → ℕ) (a : ℕ) (bytes : List ℕ)
    → ((k : ℕ) → k < length bytes → p (a + k) ≡ get_or bytes k 0)
    → slice p a (length bytes) ≡ bytes
unfolding slice
slice_is p a [] h = refl
slice_is p a (b ∷ bs) h =
    let first : p a ≡ b = ap p (sym (omega arith)) ∙ h 0 (omega arith) in
    let rest = slice_is p (a + 1) bs (λ k lt. ap p (omega arith) ∙ h (suc k) (omega arith)) in
    rw (first, rest)

-- A write read back from where it went.
pub slice-write_pool :
    (p : ℕ → ℕ) (a : ℕ) (bytes : List ℕ) → slice (write_pool p a bytes) a (length bytes) ≡ bytes
slice-write_pool p a bytes =
    slice_is (write_pool p a bytes) a bytes
      (λ k lt. ground (arith, ap (λ x. get_or bytes x 0) {x = a + k - a} {y = k}))

-- The `len` bytes from `off` on, or fewer at the end.
abbrev pub window : ℕ → ℕ → Option (List ℕ) → Option (List ℕ)
window off len none = none
window off len (some d) = some (take len (drop off d))

-- For every node id, position and buffer length, `node_read` gives the window of the contents of the
-- file that `node_data` shows: at most `len` bytes from `off` on, fewer or none at the end of the
-- file, and -1 exactly where `node_data` has no file.
pub node_read-eq-node_data :
    (fs : Fs) (id : Option ℕ) (off len : ℕ)
    → node_read fs id off len ≡ window off len (node_data fs id)
unfolding node_read node_data slice
node_read-eq-node_data fs none off len = refl
node_read-eq-node_data fs (some id) off len = elim (Bool-cases (not_file fs id)) [
  | inl bad ↦ rw bad refl
  | inr ok ↦ elim (Bool-cases (ltb (fs.nodes id).size off)) [
    | inl past ↦ rw (ok, past) (ap some (sym (window_past past)))
    | inr inside ↦ elim (Bool-cases (ltb (fs.nodes id).size (off + len))) [
      | inl cut ↦ rw (ok, inside, cut) (ap some (sym (window_of _ (ground (arith, cut, inside)))))
      | inr whole ↦
          rw (ok, inside, whole) (ap some (sym (window_of _ (ground (arith, whole, inside)))))
    ]
  ]
]
  where
    contents : List ℕ
    contents = slice fs.pool (fs.nodes id).off (fs.nodes id).size

    window_of :
        (n : ℕ)
        → min len ((fs.nodes id).size - off) ≡ n
        → take len (drop off contents) ≡ slice fs.pool ((fs.nodes id).off + off) n
    window_of n e =
        ap (take len) (drop-slice fs.pool (fs.nodes id).off off (fs.nodes id).size)
        ∙ take-slice fs.pool ((fs.nodes id).off + off) len ((fs.nodes id).size - off)
        ∙ ap (slice fs.pool ((fs.nodes id).off + off)) e

    window_past : ltb (fs.nodes id).size off ≡ true → take len (drop off contents) ≡ []
    window_past past = window_of 0 (ground (arith, past))

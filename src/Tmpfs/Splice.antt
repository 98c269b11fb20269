-- ===== src/Tmpfs/Splice.antt =====
-- Bytes put over a part of a text, and when a node shows the same contents in two file systems.
use kernel_rs.Prelude.{
  ℕ, ◌+◌, ◌-◌, ◌<◌, ◌≤◌, ◌≡◌, refl, sym, ◌∙◌, ap, ◌≢◌, inl, inr, true, false, Option, none, some,
  List, ◌++◌, length, take, drop, Bool-cases, arith, min,
}
use kernel_rs.Tmpfs.{Fs, TNode, is_file, tn_max}
use kernel_rs.Tmpfs.Nodes.{slice, not_file, node_data}
use kernel_rs.Tmpfs.ReadWrite.{slice_ext, slice_at, slice_append, take-slice, drop-slice}
use kernel_rs.Tmpfs.Invariant.{IsValid}

-- Contents with `bytes` put over what is at `off`, and grown where they reach past the end.
abbrev pub splice : ℕ → List ℕ → List ℕ → List ℕ
splice off bytes d = take off d ++ (bytes ++ drop (off + length bytes) d)

-- The slice of a stretch that keeps what is before the written bytes and what is after them.
pub splice-slice :
    (p q : ℕ → ℕ) (a b off n m : ℕ) (bytes : List ℕ)
    → off ≤ n
    → ((k : ℕ) → k < off → q (b + k) ≡ p (a + k))
    → slice q (b + off) (length bytes) ≡ bytes
    → ((k : ℕ)
        → k < n - (off + length bytes)
        → q (b + off + length bytes + k) ≡ p (a + (off + length bytes) + k))
    → off + length bytes + (n - (off + length bytes)) ≡ m
    → slice q b m ≡ splice off bytes (slice p a n)
splice-slice p q a b off n m bytes inside before mid after total =
    let l = length bytes in
    let left : slice q b off ≡ take off (slice p a n) =
      slice_ext q p b a off before
      ∙ slice_at p {n = min off n} refl (omega arith)
      ∙ sym (take-slice p a off n) in
    let right : slice q (b + off + l) (n - (off + l)) ≡ drop (off + l) (slice p a n) =
      slice_ext q p (b + off + l) (a + (off + l)) (n - (off + l)) after
      ∙ sym (drop-slice p a (off + l) n) in
    let parts : slice q b m
        ≡ slice q b off ++ (slice q (b + off) l ++ slice q (b + off + l) (n - (off + l))) =
      slice_at q {n = off + (l + (n - (off + l)))} refl (omega (arith, total))
      ∙ slice_append q b off (l + (n - (off + l)))
      ∙ ap (λ x. slice q b off ++ x) (slice_append q (b + off) l (n - (off + l))) in
    parts ∙ rw (left, mid, right) refl

-- What a successful write leaves: the contents of the written file, those of every other file, and
-- the names, types and parents of all nodes.
pub record Written (fs : Fs) (id off : ℕ) (bytes d : List ℕ) (out : Fs × Option ℕ) : Type 0 where
  pub count : out.1 ≡ some (length bytes)
  pub contents : node_data out.0 (some id) ≡ some (splice off bytes d)
  pub others : (j : ℕ) → j ≢ id → node_data out.0 (some j) ≡ node_data fs (some j)
  pub names : (j : ℕ) → (out.0.nodes j).name ≡ (fs.nodes j).name
  pub types : (j : ℕ) → (out.0.nodes j).typ ≡ (fs.nodes j).typ
  pub parents : (j : ℕ) → (out.0.nodes j).parent ≡ (fs.nodes j).parent
  pub valid : IsValid out.0

pub node_data_of :
    (fs : Fs) (id : ℕ)
    → not_file fs id ≡ false
    → node_data fs (some id) ≡ some (slice fs.pool (fs.nodes id).off (fs.nodes id).size)
unfolding node_data
node_data_of fs id ok = rw ok refl

pub missing_data : (fs : Fs) (id : ℕ) → not_file fs id ≡ true → node_data fs (some id) ≡ none
unfolding node_data
missing_data fs id bad = rw bad refl

-- A file whose node and whose bytes stay as they are keeps its contents.
pub node_data_same :
    (fs fs' : Fs) (j : ℕ)
    → fs'.nodes j ≡ fs.nodes j
    → (is_file (fs.nodes j).typ ≡ true
        → j < tn_max
        → (k : ℕ) → k < (fs.nodes j).size
        → fs'.pool ((fs.nodes j).off + k) ≡ fs.pool ((fs.nodes j).off + k))
    → node_data fs' (some j) ≡ node_data fs (some j)
node_data_same fs fs' j same bytes = elim (Bool-cases (not_file fs j)) [
  | inl bad ↦
      let bad' : not_file fs' j ≡ true = rw same bad in
      missing_data fs' j bad' ∙ sym (missing_data fs j bad)
  | inr ok ↦
      let ok' : not_file fs' j ≡ false = rw same ok in
      let is : is_file (fs.nodes j).typ ≡ true = ground (arith, ok) in
      let below : j < tn_max = ground (arith, ok) in
      node_data_of fs' j ok'
      ∙ ap some (
          ap (λ (n : TNode). slice fs'.pool n.off n.size) same
          ∙ slice_ext fs'.pool fs.pool (fs.nodes j).off (fs.nodes j).off (fs.nodes j).size
              (bytes is below))
      ∙ sym (node_data_of fs j ok)
]

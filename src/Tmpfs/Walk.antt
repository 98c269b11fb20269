-- ===== src/Tmpfs/Walk.antt =====
-- What the searches through the node table find.
use kernel_rs.Prelude.{
  ℕ, zero, suc, ◌+◌, ◌<◌, ◌≤◌, ◌≡◌, ◌∙◌, ap, inl, inr, Bool, true, false, Option, none, some, List,
  ◌==◌, Bool-cases, arith,
}
use kernel_rs.Tmpfs.{Fs, is_free, is_child, child_from, child_of, free_from}

-- The first index from `i` on that passes a test.
pub record First (test : ℕ → Bool) (i n k : ℕ) : Type 0 where
  pub from : i ≤ k
  pub to : k < i + n
  pub passes : test k ≡ true
  pub before : (j : ℕ) → i ≤ j → j < k → test j ≡ false

abbrev pub NoneFrom : (ℕ → Bool) → ℕ → ℕ → Type 0
NoneFrom test i n = (j : ℕ) → i ≤ j → j < i + n → test j ≡ false

-- A search returns the first index that passes, or `none` when none does.
abbrev pub Searches : (ℕ → Bool) → ℕ → ℕ → Option ℕ → Type 0
Searches test i n none = NoneFrom test i n
Searches test i n (some k) = First test i n k

the_same : (j i : ℕ) → (j == i) ≡ true → j ≡ i
the_same j i e = ground (arith, e)

extend :
    (test : ℕ → Bool) (i n : ℕ) (r : Option ℕ)
    → test i ≡ false
    → Searches test (i + 1) n r
    → Searches test i (suc n) r
extend test i n none skip s = λ j a b. elim (Bool-cases (j == i)) [
  | inl e ↦ ap test (the_same j i e) ∙ skip
  | inr e ↦ s j (ground (arith, e)) (omega (arith, b))
]
extend test i n (some k) skip s = record {
  from = omega (arith, s.from);
  to = omega (arith, s.to);
  passes = s.passes;
  before = λ j a b. elim (Bool-cases (j == i)) [
    | inl e ↦ ap test (the_same j i e) ∙ skip
    | inr e ↦ s.before j (ground (arith, e)) b
  ];
}

here : (test : ℕ → Bool) (i n : ℕ) → test i ≡ true → First test i (suc n) i
here test i n hit = record {
  from = omega arith;
  to = omega arith;
  passes = hit;
  before = λ j a b. absurd (omega arith);
}

child_from-Searches :
    (n i : ℕ) (fs : Fs) (parent : ℕ) (name : List ℕ)
    → Searches (is_child fs parent name) i n (child_from n i fs parent name)
unfolding child_from
child_from-Searches zero i fs parent name = λ j a b. absurd (omega arith)
child_from-Searches (suc n) i fs parent name = elim (Bool-cases (is_child fs parent name i)) [
  | inl hit ↦ rw hit (here (is_child fs parent name) i n hit)
  | inr skip ↦ rw skip (
      extend (is_child fs parent name) i n (child_from n (i + 1) fs parent name) skip
        (child_from-Searches n (i + 1) fs parent name))
]

-- `child_of` searches the nodes 1 to 191.
pub child_of-Searches :
    (fs : Fs) (parent : ℕ) (name : List ℕ)
    → Searches (is_child fs parent name) 1 191 (child_of fs parent name)
unfolding child_of
child_of-Searches fs parent name = child_from-Searches 191 1 fs parent name

abbrev pub vacant : Fs → ℕ → Bool
vacant fs i = is_free (fs.nodes i).typ

pub free_from-Searches : (n i : ℕ) (fs : Fs) → Searches (vacant fs) i n (free_from n i fs)
unfolding free_from
free_from-Searches zero i fs = λ j a b. absurd (omega arith)
free_from-Searches (suc n) i fs = elim (Bool-cases (vacant fs i)) [
  | inl hit ↦ rw hit (here (vacant fs) i n hit)
  | inr skip ↦
      rw skip
        (extend (vacant fs) i n (free_from n (i + 1) fs) skip (free_from-Searches n (i + 1) fs))
]

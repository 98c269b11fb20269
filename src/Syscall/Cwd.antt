-- ===== src/Syscall/Cwd.antt =====
-- What ".." does to the text of the working directory.
use kernel_rs.Prelude.{
  ℕ, zero, suc, ◌+◌, ◌-◌, ◌<◌, ◌≤◌, ◌≡◌, refl, sym, ◌∙◌, ap, ◌≢◌, inl, inr, true, false, some, List,
  [], ◌∷◌, ◌++◌, length, take, get_or, ◌==◌, Bool-cases, arith, length-append,
}
use kernel_rs.Tmpfs.{dot_dot}
use kernel_rs.Syscall.Chdir.{slash_before, back_up, add_component}

abbrev pub NoSlash : List ℕ → Type 0
NoSlash [] = Unit {0}
NoSlash (c ∷ cs) = (c ≢ b'/') × NoSlash cs

slash_before_lem :
    (n m : ℕ) (out : List ℕ)
    → 0 < m
    → m ≤ n
    → get_or out m 0 ≡ b'/'
    → ((i : ℕ) → m < i → i ≤ n → get_or out i 0 ≢ b'/')
    → slash_before n out ≡ m
unfolding slash_before
slash_before_lem zero m out pos_m le is none_after = absurd (omega (arith, pos_m, le))
slash_before_lem (suc n) m out pos_m le is none_after = elim (Bool-cases (m == suc n)) [
  | inl last ↦
      let same : m ≡ suc n = ground (arith, last) in
      let slash : (get_or out (suc n) 0 == b'/') ≡ true =
        ground (arith, is, ap (λ i. get_or out i 0) same) in
      rw slash (sym same)
  | inr before ↦
      let other : (get_or out (suc n) 0 == b'/') ≡ false =
        ground (arith, none_after (suc n) (ground (arith, le, before)) (omega arith)) in
      rw other (
        slash_before_lem n m out pos_m (ground (arith, le, before)) is
          (λ i lt le'. none_after i lt (omega (arith, le'))))
]

get_or-at : (pre rest : List ℕ) (k : ℕ) → get_or (pre ++ rest) (length pre + k) 0 ≡ get_or rest k 0
get_or-at [] rest k = ap (λ i. get_or rest i 0) (omega arith)
get_or-at (x ∷ pre) rest k =
    ap (λ i. get_or (x ∷ (pre ++ rest)) i 0) {x = suc (length pre) + k} {y = suc (length pre + k)}
      (omega arith)
    ∙ get_or-at pre rest k

NoSlash-at : (b : List ℕ) (k : ℕ) → NoSlash b → get_or b k 0 ≢ b'/'
NoSlash-at [] k h = λ e. absurd (omega (arith, e))
NoSlash-at (c ∷ cs) zero h = h.0
NoSlash-at (c ∷ cs) (suc k) h = NoSlash-at cs k h.1

take-to :
    (pre : List ℕ) (c : ℕ) (rest : List ℕ)
    → take (length pre + 1) (pre ++ (c ∷ rest)) ≡ pre ++ (c ∷ [])
take-to [] c rest = refl
take-to (x ∷ pre) c rest =
    ap (λ n. take n (x ∷ (pre ++ (c ∷ rest)))) {x = suc (length pre) + 1} {y = suc (length pre + 1)}
      (omega arith)
    ∙ ap (λ l. x ∷ l) (take-to pre c rest)

back_up_lem :
    (pre b : List ℕ) → 0 < length pre → NoSlash b → back_up (pre ++ (b'/' ∷ b)) ≡ pre ++ (b'/' ∷ [])
unfolding back_up
back_up_lem pre b long h =
    let out = pre ++ (b'/' ∷ b) in
    let len : length out - 1 ≡ length pre + length b =
      omega (arith, length-append pre (b'/' ∷ b)) in
    let is : get_or out (length pre) 0 ≡ b'/' =
      ap (λ i. get_or out i 0) {x = length pre} {y = length pre + 0} (omega arith)
      ∙ get_or-at pre (b'/' ∷ b) 0 in
    let found : slash_before (length out - 1) out ≡ length pre =
      ap (λ n. slash_before n out) len
      ∙ slash_before_lem (length pre + length b) (length pre) out long (omega arith) is after in
    let inner : (length pre == 0) ≡ false = ground (arith, long) in
    rw (found, inner) (take-to pre b'/' b)
  where
    after :
        (i : ℕ) → length pre < i → i ≤ length pre + length b → get_or (pre ++ (b'/' ∷ b)) i 0 ≢ b'/'
    after i lt le e = NoSlash-at b (i - length pre - 1) h (
        sym (get_or-at pre (b'/' ∷ b) (suc (i - length pre - 1)))
        ∙ ap (λ j. get_or (pre ++ (b'/' ∷ b)) j 0) (omega (arith, lt))
        ∙ e)

-- In `sys_chdir`, the first ".." after the name of a directory below the top takes that name off the
-- text, but not the slash before it, and every further ".." straight after it then changes nothing:
-- "../.." goes up one level only.
pub back_up_twice :
    (pre b : List ℕ)
    → 0 < length pre
    → NoSlash b
    → (add_component dot_dot (pre ++ (b'/' ∷ b)) ≡ some (pre ++ (b'/' ∷ [])))
      × (add_component dot_dot (pre ++ (b'/' ∷ [])) ≡ some (pre ++ (b'/' ∷ [])))
unfolding add_component
back_up_twice pre b long h = (
  ap (λ (l : List ℕ). some l) (back_up_lem pre b long h),
  ap (λ (l : List ℕ). some l) (back_up_lem pre [] long tt),
)

-- ===== src/Initrd/Names.antt =====
-- The path that a header names, kernel-rs/src/fs/initrd.rs.
use kernel_rs.Prelude.{
  ℕ, zero, suc, ◌-◌, ◌<◌, ◌≤◌, ◌≡◌, refl, sym, ◌∙◌, ap, ◌==◌, true, false, List, [], ◌∷◌, ◌++◌,
  length, take, get_or, arith, Bool-cases, inl, inr, ltb,
}
use kernel_rs.Initrd.{utf8_from, is_utf8, trim_nuls, name_of, rooted, entry_path}

-- Bytes of one-byte characters, and none of them is a NUL.
abbrev pub IsPlain : List ℕ → Type 0
IsPlain [] = Unit
IsPlain (b ∷ rest) = (0 < b) × (b < 0x80) × IsPlain rest

abbrev pub nuls : ℕ → List ℕ
nuls zero = []
nuls (suc n) = 0 ∷ nuls n

is_utf8-nuls : (k : ℕ) → is_utf8 (nuls k) ≡ true
unfolding utf8_from
is_utf8-nuls zero = refl
is_utf8-nuls (suc k) = is_utf8-nuls k

is_utf8-plain : (name : List ℕ) (k : ℕ) → IsPlain name → is_utf8 (name ++ nuls k) ≡ true
unfolding utf8_from
is_utf8-plain [] k plain = is_utf8-nuls k
is_utf8-plain (b ∷ rest) k (above, small, plain) =
    let one : ltb b 0x80 ≡ true = ground (arith, small) in
    rw (is_utf8, utf8_from, one) (is_utf8-plain rest k plain)

trim_nuls-nuls : (k : ℕ) → trim_nuls (nuls k) ≡ []
unfolding trim_nuls
trim_nuls-nuls zero = refl
trim_nuls-nuls (suc k) = rw (trim_nuls-nuls k) refl

trim_nuls-plain : (name : List ℕ) (k : ℕ) → IsPlain name → trim_nuls (name ++ nuls k) ≡ name
unfolding trim_nuls
trim_nuls-plain [] k plain = trim_nuls-nuls k
trim_nuls-plain (b ∷ []) k (above, small, plain) =
    let nonzero : (b == 0) ≡ false = ground (arith, above) in
    rw (trim_nuls, trim_nuls-nuls k, nonzero) refl
trim_nuls-plain (b ∷ c ∷ rest) k (above, small, plain) =
    rw (trim_nuls, trim_nuls-plain (c ∷ rest) k plain) refl

take_all : (n : ℕ) (xs : List ℕ) → length xs ≤ n → take n xs ≡ xs
take_all zero [] short = refl
take_all zero (x ∷ xs) short = absurd (omega (arith, short))
take_all (suc n) [] short = refl
take_all (suc n) (x ∷ xs) short = ap (λ t. x ∷ t) (take_all n xs (omega (arith, short)))

name_of-plain :
    (blk name : List ℕ) (k : ℕ) → IsPlain name → take 100 blk ≡ name ++ nuls k → name_of blk ≡ name
name_of-plain blk name k plain field =
    rw (field, is_utf8-plain name k plain) (trim_nuls-plain name k plain)

-- The last byte of the path is no slash.
abbrev pub NoSlashAtEnd : List ℕ → Type 0
NoSlashAtEnd name = (get_or (b'/' ∷ name) (length name) 0 == b'/') ≡ false

rooted_short : (name : List ℕ) → length name ≤ 126 → NoSlashAtEnd name → rooted name ≡ b'/' ∷ name
unfolding rooted
rooted_short name short no_slash =
    let last : suc (length name) - 1 ≡ length name = omega arith in
    rw (take_all 126 name short) (elim (Bool-cases (ltb 1 (suc (length name)))) [
      | inl long ↦ rw (long, last, no_slash) refl
      | inr empty ↦ rw empty refl
    ])

pub entry_path-file :
    (blk name : List ℕ) (k : ℕ)
    → IsPlain name
    → length name ≤ 100
    → NoSlashAtEnd name
    → take 100 blk ≡ name ++ nuls k
    → entry_path blk ≡ b'/' ∷ name
entry_path-file blk name k plain short no_slash field =
    ap rooted (name_of-plain blk name k plain field)
    ∙ rooted_short name (omega (arith, short)) no_slash

append_nil : (xs : List ℕ) → xs ++ [] ≡ xs
append_nil [] = refl
append_nil (x ∷ xs) = ap (λ t. x ∷ t) (append_nil xs)

pub is_utf8-path : (name : List ℕ) → IsPlain name → is_utf8 (b'/' ∷ name) ≡ true
unfolding utf8_from
is_utf8-path name plain = ap is_utf8 (sym (append_nil name)) ∙ is_utf8-plain name 0 plain

-- The path of a directory that a name wants: everything before a slash.
pub is_utf8-own : (seen : List ℕ) → IsPlain seen → is_utf8 seen ≡ true
is_utf8-own seen plain = ap is_utf8 (sym (append_nil seen)) ∙ is_utf8-plain seen 0 plain

pub IsPlain-append : (xs ys : List ℕ) → IsPlain xs → IsPlain ys → IsPlain (xs ++ ys)
IsPlain-append [] ys plain more = more
IsPlain-append (x ∷ xs) ys (above, small, plain) more =
    (above, small, IsPlain-append xs ys plain more)

pub append_assoc : (xs ys zs : List ℕ) → (xs ++ ys) ++ zs ≡ xs ++ (ys ++ zs)
append_assoc [] ys zs = refl
append_assoc (x ∷ xs) ys zs = ap (λ t. x ∷ t) (append_assoc xs ys zs)

pub take-append : (xs ys : List ℕ) → take (length xs) (xs ++ ys) ≡ xs
take-append [] ys = refl
take-append (x ∷ xs) ys = ap (λ t. x ∷ t) (take-append xs ys)

pub get_or-append : (xs : List ℕ) (b : ℕ) (ys : List ℕ) → get_or (xs ++ (b ∷ ys)) (length xs) 0 ≡ b
get_or-append [] b ys = refl
get_or-append (x ∷ xs) b ys = get_or-append xs b ys

-- ===== src/Initrd/Archive.antt =====
-- An archive of files, and what `tar_unpack`, kernel-rs/src/fs/initrd.rs, makes of it.
use kernel_rs.Prelude.{
  ℕ, zero, suc, ◌+◌, ◌-◌, ◌*◌, ◌/◌, ◌^◌, ◌<◌, ◌≤◌, ◌≡◌, refl, ◌∙◌, ap, ◌==◌, true, false, List, [],
  ◌∷◌, ◌++◌, length, length-drop, take, drop, get_or, Option, none, some, arith, inl, inr, leb,
  Bool-cases,
}
use kernel_rs.Tmpfs.{Fs}
use kernel_rs.Initrd.{
  Unpacked, unpack_file, unpack_entry, entry_path, file_type, file_size, octal, is_utf8,
  entry_length, tar_from, tar_unpack,
}
use kernel_rs.Tmpfs.Invariant.{IsValid}
use kernel_rs.Initrd.Makes.{Entry, AllPlain, Makes, make_all, make_all-Made}
use kernel_rs.Initrd.Unpack.{stops, finished}
use kernel_rs.Initrd.Octal.{octal_digits, octal-octal_digits}
use kernel_rs.Initrd.Names.{IsPlain, NoSlashAtEnd, nuls, entry_path-file, is_utf8-path}

-- The bytes start with a header and the contents of the file.
pub record Holds (blk : List ℕ) (e : Entry) : Type 0 where
  pub long : 512 + length e.bytes ≤ length blk
  pub named : take 100 blk ≡ e.name ++ nuls (100 - length e.name)
  pub size : take 12 (drop 124 blk) ≡ octal_digits 11 (length e.bytes) (0 ∷ [])
  pub small : length e.bytes < 8 ^ 11
  pub plain_file : file_type blk ≡ b'0'
  pub contents : take (length e.bytes) (drop 512 blk) ≡ e.bytes
  pub short : length e.name ≤ 100
  pub plain : IsPlain e.name
  pub no_slash : NoSlashAtEnd e.name
  pub begins : (get_or blk 0 0 == 0) ≡ false

-- A header and the contents, in whole blocks.
abbrev pub blocks : Entry → ℕ
blocks e = 512 + (length e.bytes + 511) / 512 * 512

-- The archive from an offset on: one file after the other, then a block of zeros or too few bytes.
pub data IsArchive (base : List ℕ) : ℕ → List Entry → Type 0 where
  ends :
      (p : ℕ)
      → (leb (p + 512) (length base) ≡ true → get_or (drop p base) 0 0 ≡ 0)
      → IsArchive base p []
  follows :
      (p : ℕ) (e : Entry) (rest : List Entry)
      → Holds (drop p base) e
      → IsArchive base (p + blocks e) rest
      → IsArchive base p (e ∷ rest)

file_size-Holds : (blk : List ℕ) (e : Entry) → Holds blk e → file_size blk ≡ length e.bytes
file_size-Holds blk e h =
    let small = h.small in
    ap octal h.size ∙ octal-octal_digits 11 (length e.bytes) [] h.small (omega (arith, small))

unpack_entry-Holds :
    (blk : List ℕ) (e : Entry) (u : Unpacked)
    → Holds blk e
    → unpack_entry blk u ≡ unpack_file (b'/' ∷ e.name) e.bytes u
unfolding unpack_entry
unpack_entry-Holds blk e u h =
    let path =
      entry_path-file blk e.name (100 - length e.name) h.plain h.short h.no_slash h.named in
    let valid : is_utf8 (entry_path blk) ≡ true = ap is_utf8 path ∙ is_utf8-path e.name h.plain in
    let no_dir : (file_type blk == b'5') ≡ false = ap (λ t. t == b'5') h.plain_file in
    let is_plain : (file_type blk == b'0') ≡ true = ap (λ t. t == b'0') h.plain_file in
    let sized = file_size-Holds blk e h in
    rw (valid, no_dir, is_plain)
      (ap (λ p. unpack_file p (take (file_size blk) (drop 512 blk)) u) path
        ∙ ap (λ n. unpack_file (b'/' ∷ e.name) (take n (drop 512 blk)) u) sized
        ∙ ap (λ c. unpack_file (b'/' ∷ e.name) c u) h.contents)

stops-last :
    (p : ℕ) (base : List ℕ)
    → (leb (p + 512) (length base) ≡ true → get_or (drop p base) 0 0 ≡ 0)
    → stops p base ≡ true
stops-last p base last = elim (Bool-cases (leb (p + 512) (length base))) [
  | inl room ↦
      let zeros : (get_or (drop p base) 0 0 == 0) ≡ true = ap (λ b. b == 0) (last room) in
      rw (room, zeros) refl
  | inr little ↦ rw little refl
]

leb-true : (a b : ℕ) → a ≤ b → leb a b ≡ true
leb-true a b le = ground (arith, le)

tar_from-make_all :
    (base : List ℕ) (f p : ℕ) (es : List Entry) (u : Unpacked)
    → IsArchive base p es
    → length base < p + f * 512 + 512
    → tar_from (suc f) p base u ≡ some (make_all es u)
unfolding tar_from
tar_from-make_all base f _ _ u (ends p last) enough = finished f p base u (stops-last p base last)
tar_from-make_all base zero _ _ u (follows p e rest h a) enough =
    absurd (omega (arith, enough, h.long, length-drop p base))
tar_from-make_all base (suc f) _ _ u (follows p e rest h a) enough =
    let blk = drop p base in
    let room : leb (p + 512) (length base) ≡ true =
      leb-true (p + 512) (length base) (omega (arith, h.long, length-drop p base)) in
    let starts = h.begins in
    let step : entry_length blk ≡ blocks e =
      ap (λ n. (512 + (n + 511)) / 512 * 512) (file_size-Holds blk e h) ∙ omega arith in
    rw (room, starts)
      (ap (λ n. tar_from (suc f) (p + n) base (unpack_entry blk u)) step
        ∙ ap (tar_from (suc f) (p + blocks e) base) (unpack_entry-Holds blk e u h)
        ∙ tar_from-make_all base f (p + blocks e) rest _ a (omega (arith, enough)))

all_plain : (base : List ℕ) (p : ℕ) (es : List Entry) → IsArchive base p es → AllPlain es
all_plain base _ _ (ends p last) = tt
all_plain base _ _ (follows p e rest h a) = (h.plain, all_plain base (p + blocks e) rest a)

-- On a valid file system, unpacking an archive of files ends. It creates each of them in turn at "/" and
-- its name, after the directories that stand before the slashes of the name and are missing, and a file
-- that is created then has the bytes of the archive; the answer is the number of those created.
pub tar_unpack-Makes :
    (fs : Fs) (base : List ℕ) (es : List Entry)
    → IsValid fs
    → IsArchive base 0 es
    → (fs' : Fs) × (n : ℕ) × (tar_unpack fs base ≡ some (fs', n)) × Makes es fs n fs'
unfolding tar_unpack
tar_unpack-Makes fs base es v a =
    let start : Unpacked = record { fs = fs; files = 0; dirs = 0 } in
    let made = make_all-Made es start (all_plain base 0 es a) v in
    let counts : (make_all es start).files + (make_all es start).dirs ≡ made.number =
      omega (arith, made.files, made.dirs) in
    (
      (make_all es start).fs,
      made.number,
      ap
            (λ o. elim o as (λ x. Option (Fs × ℕ)) [
              | none ↦ none
              | some u ↦ some (u.fs, u.files + u.dirs)
            ])
            (tar_from-make_all base (length base / 512) 0 es _ a (omega arith))
          ∙ ap (λ n. some ((make_all es start).fs, n)) counts,
      made.makes,
    )

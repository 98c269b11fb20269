-- ===== src/Initrd/Unpack.antt =====
-- `tar_unpack`, kernel-rs/src/fs/initrd.rs, ends, and works by the operations of the file system.
use kernel_rs.Prelude.{
  ℕ, zero, suc, ◌+◌, ◌-◌, ◌*◌, ◌/◌, ◌<◌, ◌≤◌, ◌≡◌, refl, ap, not, ◌&&◌, ◌||◌, ◌==◌, true, List,
  length, take, drop, get_or, Option, none, some, arith, inl, inr, Bool, leb, Bool-cases,
}
use kernel_rs.Tmpfs.{Fs, mkdir, create}
use kernel_rs.Tmpfs.Reach.{Reaches, creates, makes}
use kernel_rs.Initrd.{
  Unpacked, missing, make_parents, unpack_dir, counted, unpack_file, unpack_entry, entry_path,
  file_type, file_size, is_utf8, entry_length, tar_from, tar_unpack,
}

-- The loop ends here: too few bytes are left, or a block of zeros.
abbrev pub stops : ℕ → List ℕ → Bool
stops p base = not (leb (p + 512) (length base)) || (get_or (drop p base) 0 0 == 0)

pub finished :
    (f p : ℕ) (base : List ℕ) (u : Unpacked)
    → stops p base ≡ true
    → tar_from (suc f) p base u ≡ some u
unfolding tar_from
finished f p base u stop = rw stop refl

-- Every path is of the kind that the runs allow.
module _ (ok : List ℕ → Type 0) (all : (path : List ℕ) → ok path) where
  -- At most one entry is made, by the operations of the file system.
  record Unpacks (u u' : Unpacked) : Type 0 where
    reached : Reaches ok u.fs → Reaches ok u'.fs
    made : u'.files + u'.dirs ≤ u.files + u.dirs + 1

  make_parents-Reaches :
      (rounds q : ℕ) (path : List ℕ) (fs : Fs)
      → Reaches ok fs
      → Reaches ok (make_parents rounds q path fs)
  unfolding make_parents
  make_parents-Reaches zero q path fs r = r
  make_parents-Reaches (suc rounds) q path fs r =
      let sub = take q path in
      elim (Bool-cases ((get_or path q 0 == b'/') && (is_utf8 sub && missing fs sub))) [
        | inl wanted ↦
            rw wanted
              (make_parents-Reaches rounds (suc q) path (mkdir fs sub).0 (makes fs sub (all sub) r))
        | inr no_need ↦ rw no_need (make_parents-Reaches rounds (suc q) path fs r)
      ]

  unpack_dir-Unpacks : (path : List ℕ) (u : Unpacked) → Unpacks u (unpack_dir path u)
  unfolding unpack_dir
  unpack_dir-Unpacks path u = record {
    reached = makes u.fs path (all path);
    made = elim (Bool-cases (mkdir u.fs path).1) [
      | inl new ↦ rw new (omega arith)
      | inr old ↦ rw old (omega arith)
    ];
  }

  one_more : (d a : ℕ) (r : Option ℕ) → counted r a + d ≤ a + d + 1
  one_more d a none = omega arith
  one_more d a (some id) = omega arith

  unpack_file-Unpacks : (path bytes : List ℕ) (u : Unpacked) → Unpacks u (unpack_file path bytes u)
  unfolding unpack_file
  unpack_file-Unpacks path bytes u =
      let fs = make_parents (length path - 1) 1 path u.fs in
      record {
        reached = λ r.
            creates fs path bytes (all path) (make_parents-Reaches (length path - 1) 1 path u.fs r);
        made = one_more u.dirs u.files (create fs path bytes).1;
      }

  unpack_entry-Unpacks : (blk : List ℕ) (u : Unpacked) → Unpacks u (unpack_entry blk u)
  unfolding unpack_entry
  unpack_entry-Unpacks blk u =
      let none_made : Unpacks u u = record { reached = λ r. r; made = omega arith } in
      let path = entry_path blk in
      elim (Bool-cases (not (is_utf8 path))) [
        | inl bad ↦ rw bad none_made
        | inr good ↦ elim (Bool-cases (file_type blk == b'5')) [
          | inl directory ↦ rw (good, directory) (unpack_dir-Unpacks path u)
          | inr other ↦ elim (Bool-cases ((file_type blk == b'0') || (file_type blk == 0))) [
            | inl plain ↦
                rw (good, other, plain)
                  (unpack_file-Unpacks path (take (file_size blk) (drop 512 blk)) u)
            | inr ignored ↦ rw (good, other, ignored) none_made
          ]
        ]
      ]

  -- What the loop leaves.
  record Ends (p : ℕ) (base : List ℕ) (u u' : Unpacked) : Type 0 where
    reached : Reaches ok u.fs → Reaches ok u'.fs
    made : (u'.files + u'.dirs) * 512 ≤ (u.files + u.dirs) * 512 + (length base - p)

  tar_from-Ends :
      (f p : ℕ) (base : List ℕ) (u : Unpacked)
      → length base < p + f * 512 + 512
      → (u' : Unpacked) × (tar_from (suc f) p base u ≡ some u') × Ends p base u u'
  unfolding tar_from
  tar_from-Ends zero p base u enough = (
    u,
    finished zero p base u (ground (arith, enough)),
    record { reached = λ r. r; made = omega arith },
  )
  tar_from-Ends (suc f) p base u enough = elim (Bool-cases (stops p base)) [
    | inl stop ↦
        (u, finished (suc f) p base u stop, record { reached = λ r. r; made = omega arith })
    | inr goes_on ↦
        let blk = drop p base in
        let one = unpack_entry-Unpacks blk u in
        let room : p + 512 ≤ length base = ground (arith, goes_on) in
        let (u', run, ends) =
          tar_from-Ends f (p + entry_length blk) base (unpack_entry blk u)
            (omega (arith, enough)) in
        (
          u',
          rw goes_on run,
          record {
            reached = λ r. ends.reached (one.reached r);
            made = omega (arith, ends.made, one.made, room);
          },
        )
  ]

  -- Unpacking any bytes ends, with a file system that a run of its operations reaches, and with no
  -- more entries than the bytes have blocks of 512.
  pub tar_unpack-Reaches :
      (fs : Fs) (base : List ℕ)
      → Reaches ok fs
      → (fs' : Fs) × (n : ℕ) × (tar_unpack fs base ≡ some (fs', n))
        × Reaches ok fs'
        × (n * 512 ≤ length base)
  unfolding tar_unpack
  tar_unpack-Reaches fs base r =
      let (u', run, ends) =
        tar_from-Ends (length base / 512) 0 base (record { fs = fs; files = 0; dirs = 0 })
          (omega arith) in
      (
        u'.fs,
        u'.files + u'.dirs,
        ap
            (λ o. elim o as (λ x. Option (Fs × ℕ)) [
              | none ↦ none
              | some u ↦ some (u.fs, u.files + u.dirs)
            ])
            run,
        ends.reached r,
        omega (arith, ends.made),
      )

-- ===== src/Initrd/Tests.antt =====
-- An archive with one entry, the file "a".
use kernel_rs.Prelude.{ℕ, zero, suc, ◌*◌, ◌≤◌, ◌≡◌, refl, some, List, [], ◌∷◌, length, arith}
use kernel_rs.Tmpfs.{Fs, init, free_node}
use kernel_rs.Tmpfs.Reach.{Reaches, booted}
use kernel_rs.Initrd.{octal, octal_from, tar_unpack}
use kernel_rs.Tmpfs.Invariant.{init-IsValid}
use kernel_rs.Initrd.Makes.{Makes}
use kernel_rs.Initrd.Archive.{IsArchive, ends, follows, tar_unpack-Makes}
use kernel_rs.Initrd.Octal.{octal_digits}
use kernel_rs.Initrd.Unpack.{tar_unpack-Reaches}

-- Fields end in a NUL, or in a space.
octal_space : octal (b'6' ∷ b'4' ∷ b'4' ∷ b' ' ∷ 0 ∷ []) ≡ 420
unfolding octal_from
octal_space = refl

abbrev nuls : ℕ → List ℕ → List ℕ
nuls zero rest = rest
nuls (suc n) rest = 0 ∷ nuls n rest

-- A header of 512 bytes, a block of data and two blocks of zeros.
abbrev archive : List ℕ
archive =
    b'a' ∷ nuls 123 (octal_digits 11 2 (nuls 21 (b'0' ∷ nuls 355 (b'h' ∷ b'i' ∷ nuls 1534 []))))

empty_fs : Fs
empty_fs = init (record { nodes = λ i. free_node; pool = λ i. 0; pool_used = 0 })

tar_unpack-Reaches_example :
    (fs' : Fs) × (n : ℕ) × (tar_unpack empty_fs archive ≡ some (fs', n))
    × Reaches (λ path. Unit) fs'
    × (n * 512 ≤ length archive)
unfolding empty_fs
tar_unpack-Reaches_example =
    tar_unpack-Reaches (λ path. Unit) (λ path. tt) empty_fs archive (booted _)

-- The archive as a whole is one file and then zeros.
archive-IsArchive : IsArchive archive 0 (record { name = b'a' ∷ []; bytes = b'h' ∷ b'i' ∷ [] } ∷ [])
unfolding octal_digits
archive-IsArchive =
    follows 0 _ []
      (record {
        long = omega arith;
        named = refl;
        size = refl;
        small = omega arith;
        plain_file = refl;
        contents = refl;
        short = omega arith;
        plain = (omega arith, omega arith, tt);
        no_slash = refl;
        begins = refl;
      })
      (ends 1024 (λ room. refl))

tar_unpack-Makes_example :
    (fs' : Fs) × (n : ℕ) × (tar_unpack empty_fs archive ≡ some (fs', n))
    × Makes (record { name = b'a' ∷ []; bytes = b'h' ∷ b'i' ∷ [] } ∷ []) empty_fs n fs'
unfolding empty_fs
tar_unpack-Makes_example = tar_unpack-Makes empty_fs archive _ (init-IsValid _) archive-IsArchive

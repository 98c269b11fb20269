-- ===== src/Initrd.antt =====
-- kernel-rs/src/fs/initrd.rs: an archive in the ustar format is unpacked into the file system. A
-- `str` is a list of bytes that passes `is_utf8`, which is the test of the language's `from_utf8`.
pub mod Octal
pub mod Names
pub mod Makes
pub mod Archive
pub mod Unpack
mod Tests
use kernel_rs.Prelude.{
  ℕ, zero, suc, ◌+◌, ◌-◌, ◌*◌, ◌/◌, ◌%◌, ◌^◌, Bool, true, false, not, ◌&&◌, ◌||◌, Option, none,
  some, List, [], ◌∷◌, ◌++◌, length, take, drop, get_or, ltb, leb, ◌==◌, if◌then◌else◌, min,
}
use kernel_rs.Tmpfs.{Fs, is_free, path_type, mkdir, create}

abbrev pub is_octal_digit : ℕ → Bool
is_octal_digit b = leb b'0' b && leb b b'7'

-- A NUL is no digit, so that it stops the loop either way.
unfoldable pub octal_from : ℕ → List ℕ → ℕ
octal_from v [] = v
octal_from v (b ∷ rest) =
    let more = octal_from ((v * 8 + (b - b'0')) % 2 ^ 64) rest in
    if (b == 0) || not (is_octal_digit b) then v else more

abbrev pub octal : List ℕ → ℕ
octal s = octal_from 0 s

-- How many bytes follow a first byte, and the bounds of the one that comes next.
abbrev pub utf8_lead : ℕ → Option (ℕ × ℕ × ℕ)
utf8_lead b =
    if ltb b 0x80
    then some (0, 0x80, 0xbf)
    else (if ltb b 0xc2
        then none
        else (if leb b 0xdf
            then some (1, 0x80, 0xbf)
            else (if b == 0xe0
                then some (2, 0xa0, 0xbf)
                else (if b == 0xed
                    then some (2, 0x80, 0x9f)
                    else (if leb b 0xef
                        then some (2, 0x80, 0xbf)
                        else (if b == 0xf0
                            then some (3, 0x90, 0xbf)
                            else (if leb b 0xf3
                                then some (3, 0x80, 0xbf)
                                else (if b == 0xf4 then some (3, 0x80, 0x8f) else none))))))))

unfoldable pub utf8_from : ℕ → ℕ → ℕ → List ℕ → Bool
utf8_from n lo hi [] = n == 0
utf8_from zero lo hi (b ∷ rest) = elim (utf8_lead b) [
  | none ↦ false
  | some (n, l, h) ↦ utf8_from n l h rest
]
utf8_from (suc n) lo hi (b ∷ rest) = (leb lo b && leb b hi) && utf8_from n 0x80 0xbf rest

abbrev pub is_utf8 : List ℕ → Bool
is_utf8 s = utf8_from 0 0x80 0xbf s

-- `trim_end_matches('\0')`.
unfoldable pub trim_nuls : List ℕ → List ℕ
trim_nuls [] = []
trim_nuls (b ∷ rest) = elim (trim_nuls rest) [
  | [] ↦ (if b == 0 then [] else (b ∷ []))
  | c ∷ more ↦ b ∷ c ∷ more
]

abbrev pub name_of : List ℕ → List ℕ
name_of blk = if is_utf8 (take 100 blk) then trim_nuls (take 100 blk) else []

-- "/" and the name, without a slash at its end.
unfoldable pub rooted : List ℕ → List ℕ
rooted name =
    let path = b'/' ∷ take 126 name in
    let plen = length path in
    if ltb 1 plen && (get_or path (plen - 1) 0 == b'/') then take (plen - 1) path else path

abbrev pub entry_path : List ℕ → List ℕ
entry_path blk = rooted (name_of blk)

abbrev pub missing : Fs → List ℕ → Bool
missing fs path = elim (path_type fs path) [ none ↦ true | some t ↦ is_free t ]

-- Directories for the slashes from `q` on.
unfoldable pub make_parents : ℕ → ℕ → List ℕ → Fs → Fs
make_parents zero q path fs = fs
make_parents (suc rounds) q path fs =
    let sub = take q path in
    let wanted = (get_or path q 0 == b'/') && (is_utf8 sub && missing fs sub) in
    make_parents rounds (suc q) path (if wanted then (mkdir fs sub).0 else fs)

abbrev pub file_size : List ℕ → ℕ
file_size blk = octal (take 12 (drop 124 blk))

abbrev pub file_type : List ℕ → ℕ
file_type blk = get_or blk 156 0

-- The files and directories made so far.
pub record Unpacked : Type 0 where
  pub fs : Fs
  pub files : ℕ
  pub dirs : ℕ

unfoldable pub unpack_dir : List ℕ → Unpacked → Unpacked
unpack_dir path u =
    let (fs', ok) = mkdir u.fs path in
    record { fs = fs'; files = u.files; dirs = if ok then u.dirs + 1 else u.dirs }

-- `create` answers a node.
abbrev pub counted : Option ℕ → ℕ → ℕ
counted none files = files
counted (some id) files = files + 1

unfoldable pub unpack_file : List ℕ → List ℕ → Unpacked → Unpacked
unpack_file path bytes u =
    let (fs', r) = create (make_parents (length path - 1) 1 path u.fs) path bytes in
    record { fs = fs'; files = counted r u.files; dirs = u.dirs }

-- The entry whose header starts the bytes `blk`.
unfoldable pub unpack_entry : List ℕ → Unpacked → Unpacked
unpack_entry blk u =
    let path = entry_path blk in
    let typ = file_type blk in
    if not (is_utf8 path)
    then u
    else (if typ == b'5'
        then unpack_dir path u
        else (if (typ == b'0') || (typ == 0)
            then unpack_file path (take (file_size blk) (drop 512 blk)) u
            else u))

-- `512 + (fsize + 511) & !511`: the sum comes before the mask.
abbrev pub entry_length : List ℕ → ℕ
entry_length blk = (512 + (file_size blk + 511)) / 512 * 512

-- The loop, on fuel, from the offset `p` of the archive.
unfoldable pub tar_from : ℕ → ℕ → List ℕ → Unpacked → Option Unpacked
tar_from zero p base u = none
tar_from (suc f) p base u =
    let blk = drop p base in
    let rest = tar_from f (p + entry_length blk) base (unpack_entry blk u) in
    if not (leb (p + 512) (length base)) || (get_or blk 0 0 == 0) then some u else rest

abbrev pub tar_fuel : List ℕ → ℕ
tar_fuel base = suc (length base / 512)

-- The number of entries made.
unfoldable pub tar_unpack : Fs → List ℕ → Option (Fs × ℕ)
tar_unpack fs base =
    elim (tar_from (tar_fuel base) 0 base (record { fs = fs; files = 0; dirs = 0 })) [
      | none ↦ none
      | some u ↦ some (u.fs, u.files + u.dirs)
    ]

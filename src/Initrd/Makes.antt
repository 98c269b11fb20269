-- ===== src/Initrd/Makes.antt =====
-- What the files of an archive make of a file system, by its operations: the files that `tar_unpack`,
-- kernel-rs/src/fs/initrd.rs, creates, and the directories before them.
use kernel_rs.Prelude.{
  ℕ, suc, ◌+◌, ◌≡◌, refl, sym, ◌∙◌, ap, subst, ◌==◌, ◌&&◌, List, [], ◌∷◌, ◌++◌, length,
  length-append, take, get_or, none, some, arith, inl, inr, Bool-cases, Option-cases, if◌then◌else◌,
}
use kernel_rs.Tmpfs.{Fs, create, mkdir}
use kernel_rs.Tmpfs.Nodes.{node_data}
use kernel_rs.Tmpfs.Invariant.{IsValid}
use kernel_rs.Tmpfs.Reach.{create-IsValid, mkdir-IsValid}
use kernel_rs.Tmpfs.Contents.{create-Created}
use kernel_rs.Initrd.{Unpacked, counted, missing, make_parents, is_utf8, unpack_file}
use kernel_rs.Initrd.Names.{
  IsPlain, is_utf8-own, IsPlain-append, append_assoc, take-append, get_or-append,
}

pub record Entry : Type 0 where
  pub name : List ℕ
  pub bytes : List ℕ

abbrev pub file_path : Entry → List ℕ
file_path e = b'/' ∷ e.name

-- For every slash that follows `seen`, the directory of what stands before the slash, unless there is
-- something already.
pub with_dirs : List ℕ → List ℕ → Fs → Fs
with_dirs seen [] fs = fs
with_dirs seen (b ∷ rest) fs =
    with_dirs (seen ++ (b ∷ [])) rest
      (if b == b'/' then (if missing fs seen then (mkdir fs seen).0 else fs) else fs)

-- The directories for a file.
abbrev pub prepared : Entry → Fs → Fs
prepared e fs = with_dirs (b'/' ∷ []) e.name fs

-- The files are created in turn, each after its directories; the number is that of the files that could
-- be created, which then have their bytes.
pub data Makes : List Entry → Fs → ℕ → Fs → Type 0 where
  done : (fs : Fs) → Makes [] fs 0 fs
  created :
      (e : Entry) (rest : List Entry) (fs fs1 fs2 : Fs) (id n : ℕ)
      → create (prepared e fs) (file_path e) e.bytes ≡ (fs1, some id)
      → node_data fs1 (some id) ≡ some e.bytes
      → Makes rest fs1 n fs2
      → Makes (e ∷ rest) fs (suc n) fs2
  refused :
      (e : Entry) (rest : List Entry) (fs fs1 fs2 : Fs) (n : ℕ)
      → create (prepared e fs) (file_path e) e.bytes ≡ (fs1, none)
      → Makes rest fs1 n fs2
      → Makes (e ∷ rest) fs n fs2

with_dirs-IsValid : (seen rest : List ℕ) (fs : Fs) → IsValid fs → IsValid (with_dirs seen rest fs)
unfolding with_dirs
with_dirs-IsValid seen [] fs v = v
with_dirs-IsValid seen (b ∷ rest) fs v =
    with_dirs-IsValid (seen ++ (b ∷ [])) rest _ (elim (Bool-cases (b == b'/')) [
      | inr other ↦ rw other v
      | inl slash ↦ elim (Bool-cases (missing fs seen)) [
        | inl wanted ↦ rw (slash, wanted) (mkdir-IsValid fs seen v)
        | inr there ↦ rw (slash, there) v
      ]
    ])

step : (seen rest : List ℕ) (b : ℕ) (fs : Fs) → Fs
step seen rest b fs =
    let path = seen ++ (b ∷ rest) in
    let sub = take (length seen) path in
    if (get_or path (length seen) 0 == b'/') && (is_utf8 sub && missing fs sub)
    then (mkdir fs sub).0
    else fs

step_lem :
    (seen rest : List ℕ) (b : ℕ) (fs : Fs)
    → IsPlain seen
    → step seen rest b fs
      ≡ (if b == b'/' then (if missing fs seen then (mkdir fs seen).0 else fs) else fs)
unfolding step
step_lem seen rest b fs plain =
    ap
      (λ c.
        if (c == b'/')
          && (is_utf8 (take (length seen) (seen ++ (b ∷ rest)))
              && missing fs (take (length seen) (seen ++ (b ∷ rest))))
        then (mkdir fs (take (length seen) (seen ++ (b ∷ rest)))).0
        else fs)
      (get_or-append seen b rest)
    ∙ ap (λ t. if (b == b'/') && (is_utf8 t && missing fs t) then (mkdir fs t).0 else fs)
        (take-append seen (b ∷ rest))
    ∙ ap (λ v. if (b == b'/') && (v && missing fs seen) then (mkdir fs seen).0 else fs)
        (is_utf8-own seen plain)
    ∙ elim (Bool-cases (b == b'/')) [ inl slash ↦ rw slash refl | inr other ↦ rw other refl ]

-- The loop of the code over the indices of the path makes the same directories.
make_parents-with_dirs :
    (seen rest : List ℕ) (fs : Fs)
    → IsPlain seen
    → IsPlain rest
    → make_parents (length rest) (length seen) (seen ++ rest) fs ≡ with_dirs seen rest fs
unfolding make_parents with_dirs step
make_parents-with_dirs seen [] fs plain more = refl
make_parents-with_dirs seen (b ∷ rest) fs plain (above, small, more) =
    let next = seen ++ (b ∷ []) in
    let fs1 = if b == b'/' then (if missing fs seen then (mkdir fs seen).0 else fs) else fs in
    ap (λ g. make_parents (length rest) (suc (length seen)) (seen ++ (b ∷ rest)) g)
      (step_lem seen rest b fs plain)
    ∙ ap (λ q. make_parents (length rest) q (seen ++ (b ∷ rest)) fs1) {y = length next}
        (omega (arith, length-append seen (b ∷ [])))
    ∙ ap (λ path. make_parents (length rest) (length next) path fs1)
        (sym (append_assoc seen (b ∷ []) rest))
    ∙ make_parents-with_dirs next rest fs1 (IsPlain-append seen (b ∷ []) plain (above, small, tt))
        more

unpack_file-created :
    (e : Entry) (u : Unpacked)
    → IsPlain e.name
    → unpack_file (file_path e) e.bytes u ≡ record {
      fs = (create (prepared e u.fs) (file_path e) e.bytes).0;
      files = counted (create (prepared e u.fs) (file_path e) e.bytes).1 u.files;
      dirs = u.dirs;
    }
unfolding unpack_file
unpack_file-created e u plain =
    ap
      (λ fs. record {
        fs = (create fs (file_path e) e.bytes).0;
        files = counted (create fs (file_path e) e.bytes).1 u.files;
        dirs = u.dirs;
      })
      (ap (λ n. make_parents n 1 (file_path e) u.fs) {y = length e.name} (omega arith)
        ∙ make_parents-with_dirs (b'/' ∷ []) e.name u.fs (omega arith, omega arith, tt) plain)

-- The files of an archive one after the other.
abbrev pub make_all : List Entry → Unpacked → Unpacked
make_all [] u = u
make_all (e ∷ rest) u = make_all rest (unpack_file (file_path e) e.bytes u)

abbrev pub AllPlain : List Entry → Type 0
AllPlain [] = Unit
AllPlain (e ∷ rest) = IsPlain e.name × AllPlain rest

-- The files created from a state on, and their number.
pub record Made (es : List Entry) (u : Unpacked) (fs : Fs) (out : Unpacked) : Type 0 where
  pub number : ℕ
  pub makes : Makes es fs number out.fs
  pub files : out.files ≡ u.files + number
  pub dirs : out.dirs ≡ u.dirs

pub make_all-Made :
    (es : List Entry) (u : Unpacked) → AllPlain es → IsValid u.fs → Made es u u.fs (make_all es u)
make_all-Made [] u plain v = record {
  number = 0;
  makes = done u.fs;
  files = omega arith;
  dirs = refl;
}
make_all-Made (e ∷ rest) u (plain, more) v =
    let ready = prepared e u.fs in
    let ready-IsValid = with_dirs-IsValid (b'/' ∷ []) e.name u.fs v in
    let r = create ready (file_path e) e.bytes in
    let u1 : Unpacked = record { fs = r.0; files = counted r.1 u.files; dirs = u.dirs } in
    let later =
      make_all-Made rest u1 more (create-IsValid ready (file_path e) e.bytes ready-IsValid) in
    subst (λ (w : Unpacked). Made (e ∷ rest) u u.fs (make_all rest w))
      (sym (unpack_file-created e u plain))
      (elim (Option-cases r.1) [
        | inl failed ↦ record {
          number = later.number;
          makes =
              refused e rest u.fs r.0 (make_all rest u1).fs later.number (ap (λ o. (r.0, o)) failed)
                later.makes;
          files = later.files ∙ ap (λ o. counted o u.files + later.number) failed;
          dirs = later.dirs;
        }
        | inr (id, new) ↦ record {
          number = suc later.number;
          makes =
              created e rest u.fs r.0 (make_all rest u1).fs id later.number (ap (λ o. (r.0, o)) new)
                (create-Created ready (file_path e) e.bytes id ready-IsValid new).contents
                later.makes;
          files = later.files ∙ ap (λ o. counted o u.files + later.number) new ∙ omega arith;
          dirs = later.dirs;
        }
      ])

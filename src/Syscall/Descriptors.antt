-- ===== src/Syscall/Descriptors.antt =====
-- Descriptors: which one `sys_open` gives, and writes and reads through one.
use kernel_rs.Prelude.{
  ℕ, zero, suc, ◌+◌, ◌-◌, ◌^◌, ◌<◌, ◌≤◌, ◌≡◌, refl, sym, ◌∙◌, ap, ◌≢◌, ◌⊎◌, inl, inr, Bool, true,
  false, Option, none, some, List, length, update_self, update_ne, ◌==◌, Bool-cases, Option-cases,
  arith, subst,
}
use kernel_rs.Prelude.Int.{ℤ, pos}
use kernel_rs.Prelude.Align.{add64}
use kernel_rs.Sched.{Thread, Ufd, ufd_first, ufd_max}
use kernel_rs.Tmpfs.{Fs, is_file}
use kernel_rs.Tmpfs.Nodes.{node_data, node_write, node_type}
use kernel_rs.Tmpfs.Invariant.{IsValid}
use kernel_rs.Tmpfs.Splice.{splice}
use kernel_rs.Tmpfs.Write.{Fits, node_write-Written}
use kernel_rs.Syscall.{Kernel, failed, in_range, fd_get, set_fd}
use kernel_rs.Syscall.Files.{write_file, closed_from, open_node}

-- What a write through a descriptor leaves: the contents of its file and a position past the bytes;
-- all else as it was but for where the pool holds the file.
pub record Wrote (k : Kernel) (fd node at : ℕ) (bytes d : List ℕ) (out : Kernel × ℤ) : Type 0 where
  pub count : out.1 ≡ pos (length bytes)
  pub contents : node_data out.0.fs (some node) ≡ some (splice at bytes d)
  pub position : fd_get out.0.thread fd ≡ some (node, at + length bytes)
  pub files : (j : ℕ) → j ≢ node → node_data out.0.fs (some j) ≡ node_data k.fs (some j)
  pub names : (j : ℕ) → (out.0.fs.nodes j).name ≡ (k.fs.nodes j).name
  pub types : (j : ℕ) → (out.0.fs.nodes j).typ ≡ (k.fs.nodes j).typ
  pub parents : (j : ℕ) → (out.0.fs.nodes j).parent ≡ (k.fs.nodes j).parent
  pub descriptors : (j : ℕ) → j ≢ fd → out.0.thread.fds j ≡ k.thread.fds j
  pub same_thread : out.0.thread ≡ record k.thread { fds = out.0.thread.fds }
  pub same_rest : out.0 ≡ record k { fs = out.0.fs; thread = out.0.thread }
  pub valid : IsValid out.0.fs

write_file_eq :
    (k : Kernel) (fd node at n : ℕ) (bytes : List ℕ) (fs' : Fs)
    → fd_get k.thread fd ≡ some (node, at)
    → node_write k.fs (some node) at bytes ≡ (fs', some n)
    → write_file fd bytes k ≡ (
      record k {
        fs = fs';
        thread = set_fd k.thread fd (record { node = some node; pos = add64 at n });
      },
      pos n,
    )
unfolding write_file
write_file_eq k fd node at n bytes fs' e f = rw (e, write_file) (rw f (rw f refl))

abbrev is_open : Option (ℕ × ℕ) → Bool
is_open none = false
is_open (some u) = true

pub open_in_range :
    (t : Thread) (fd node at : ℕ) → fd_get t fd ≡ some (node, at) → in_range fd ≡ true
unfolding fd_get
open_in_range t fd node at e = elim (Bool-cases (in_range fd)) [
  | inl inside ↦ inside
  | inr outside ↦ let clash = ap (λ (o : Option (ℕ × ℕ)). is_open o) (rw outside at e) in cc
]

pub fd_get-set_fd :
    (t : Thread) (fd node at : ℕ)
    → in_range fd ≡ true
    → fd_get (set_fd t fd (record { node = some node; pos = at })) fd ≡ some (node, at)
unfolding fd_get
fd_get-set_fd t fd node at inside =
    let u : Ufd = record { node = some node; pos = at } in
    rw (inside, update_self t.fds fd u) (rw (update_self t.fds fd u) refl)

-- In a valid file system, a write through a descriptor open on a file, at a position where the
-- bytes fit and after which it stays below 2^64, returns their number; the contents of the file
-- become the old ones with the bytes put over them at the position, and the position moves past
-- them. Every other file, the names, types and parents of all nodes, every other descriptor, the
-- rest of the thread, user memory, the terminals, the keyboard and the serial line stay, and the
-- file system stays valid.
pub write_file-Wrote :
    (k : Kernel) (fd node at : ℕ) (bytes d : List ℕ)
    → IsValid k.fs
    → fd_get k.thread fd ≡ some (node, at)
    → node_data k.fs (some node) ≡ some d
    → Fits k.fs node at bytes
    → at + length bytes < 2 ^ 64
    → Wrote k fd node at bytes d (write_file fd bytes k)
write_file-Wrote k fd node at bytes d v open_at has fits small =
    let w = node_write-Written k.fs node at bytes d v has fits in
    let fs' = (node_write k.fs (some node) at bytes).0 in
    let sum : add64 at (length bytes) ≡ at + length bytes = omega (arith, small) in
    rw
      (
        write_file_eq k fd node at (length bytes) bytes fs' open_at
            (ap (λ (r : Option ℕ). (fs', r)) w.count),
        sum,
      )
      (record {
        count = refl;
        contents = w.contents;
        position =
            fd_get-set_fd k.thread fd node (at + length bytes)
              (open_in_range k.thread fd node at open_at);
        files = w.others;
        names = w.names;
        types = w.types;
        parents = w.parents;
        same_thread = refl;
        same_rest = refl;
        descriptors = λ j ne.
            update_ne k.thread.fds fd j (record { node = some node; pos = at + length bytes }) ne;
        valid = w.valid;
      })

-- The descriptors below `i`, from `from` on, are open.
abbrev pub AllOpen : Thread → ℕ → ℕ → Type 0
AllOpen t from i = (j : ℕ) → from ≤ j → j < i → (t.fds j).node ≢ none

-- What a search for a closed descriptor finds.
abbrev pub ClosedFrom : Thread → ℕ → ℕ → Option ℕ → Type 0
ClosedFrom t i n none = AllOpen t i (i + n)
ClosedFrom t i n (some j) = ((i ≤ j) × (j < i + n)) × ((t.fds j).node ≡ none) × AllOpen t i j

one_more :
    (t : Thread) (i n : ℕ) (r : Option ℕ)
    → (t.fds i).node ≢ none
    → ClosedFrom t (i + 1) n r
    → ClosedFrom t i (suc n) r
one_more t i n none here rest = λ j a b. elim (Bool-cases (j == i)) [
  | inl same ↦ λ e. here (ap (λ x. (t.fds x).node) (sym (same_of j i same)) ∙ e)
  | inr other ↦ rest j (ground (arith, other, a)) (omega (arith, b))
]
  where
    same_of : (j i : ℕ) → (j == i) ≡ true → j ≡ i
    same_of j i e = ground (arith, e)
one_more t i n (some m) here rest = (
  (omega (arith, rest.0.0), omega (arith, rest.0.1)),
  rest.1,
  λ j a b. elim (Bool-cases (j == i)) [
    | inl same ↦ λ e. here (ap (λ x. (t.fds x).node) (sym (same_at j i same)) ∙ e)
    | inr other ↦ rest.2 j (ground (arith, other, a)) b
  ],
)
  where
    same_at : (j i : ℕ) → (j == i) ≡ true → j ≡ i
    same_at j i e = ground (arith, e)

closed_from-ClosedFrom : (n i : ℕ) (t : Thread) → ClosedFrom t i n (closed_from n i t)
unfolding closed_from
closed_from-ClosedFrom zero i t = λ j a b. absurd (omega (arith, a, b))
closed_from-ClosedFrom (suc n) i t = elim (Option-cases (t.fds i).node) [
  | inl e ↦
      rw (e, closed_from, ClosedFrom)
        ((omega arith, omega arith), e, λ j a b. absurd (omega (arith, a, b)))
  | inr (node, e) ↦
      rw (e, closed_from)
        (one_more t i n (closed_from n (i + 1) t)
          (λ f. let clash : some node ≡ none = sym e ∙ f in cc)
          (closed_from-ClosedFrom n (i + 1) t))
]

-- What a successful open leaves: the lowest closed descriptor, at the start of the file.
pub record Opened (k : Kernel) (id i : ℕ) (out : Kernel × ℤ) : Type 0 where
  pub answers : out.1 ≡ pos i
  pub from : ufd_first ≤ i
  pub to : i < ufd_max
  pub was_closed : (k.thread.fds i).node ≡ none
  pub lowest : AllOpen k.thread ufd_first i
  pub opens : fd_get out.0.thread i ≡ some (id, 0)
  pub others : (j : ℕ) → j ≢ i → out.0.thread.fds j ≡ k.thread.fds j
  pub same_fs : out.0.fs ≡ k.fs

open_node_eq :
    (k : Kernel) (id i : ℕ)
    → is_file (node_type k.fs (some id)) ≡ true
    → closed_from (ufd_max - ufd_first) ufd_first k.thread ≡ some i
    → open_node k (some id)
      ≡ (record k { thread = set_fd k.thread i (record { node = some id; pos = 0 }) }, pos i)
unfolding open_node
open_node_eq k id i f e = rw (f, e) refl

-- The opening of a file gives the lowest descriptor of 3 to 7 that is closed, at position 0 of that
-- file, and changes no other descriptor and not the file system; when all five are open it fails and
-- changes nothing.
pub open_node_lem :
    (k : Kernel) (id : ℕ)
    → is_file (node_type k.fs (some id)) ≡ true
    → ((i : ℕ) × Opened k id i (open_node k (some id)))
      ⊎ (AllOpen k.thread ufd_first ufd_max × (open_node k (some id) ≡ (k, failed)))
unfolding open_node
open_node_lem k id f =
    let search = closed_from-ClosedFrom (ufd_max - ufd_first) ufd_first k.thread in
    elim (Option-cases (closed_from (ufd_max - ufd_first) ufd_first k.thread)) [
      | inl e ↦
          inr (subst (ClosedFrom k.thread ufd_first (ufd_max - ufd_first)) e search, rw (f, e) refl)
      | inr (i, e) ↦
          let found = subst (ClosedFrom k.thread ufd_first (ufd_max - ufd_first)) e search in
          let inside : in_range i ≡ true = ground (arith, found.0.0, found.0.1) in
          inl (
            i,
            rw (open_node_eq k id i f e) (record {
              answers = refl;
              from = found.0.0;
              to = found.0.1;
              was_closed = found.1;
              lowest = found.2;
              opens = fd_get-set_fd k.thread i id 0 inside;
              others = λ j ne. update_ne k.thread.fds i j (record { node = some id; pos = 0 }) ne;
              same_fs = refl;
            }),
          )
    ]

-- ===== src/Tmpfs/Below.antt =====
-- The paths of the file system against the size of its table.
use kernel_rs.Prelude.{
  ℕ, ◌<◌, inl, inr, Bool, ◌||◌, Option, none, some, List, [], ◌∷◌, length, leb, ◌==◌, Bool-cases,
  Option-cases, arith, bytes_eq, subst,
}
use kernel_rs.Tmpfs.{
  Fs, is_dir, tn_max, child_of, resolve, resolve_parent, enter, leaf_of, vfs_name_max, is_empty,
  dot, dot_dot,
}
use kernel_rs.Tmpfs.Paths.{walk, walk_parent, split, resolve-eq-walk}
use kernel_rs.Tmpfs.Walk.{Searches, child_of-Searches}
use kernel_rs.Tmpfs.Invariant.{IsValid}

abbrev pub Below : Option ℕ → Type 0
Below none = Unit {0}
Below (some i) = i < tn_max

abbrev pub ParentBelow : Option (ℕ × List ℕ) → Type 0
ParentBelow none = Unit {0}
ParentBelow (some (parent, leaf)) = parent < tn_max

pub Searches-Below : (test : ℕ → Bool) (r : Option ℕ) → Searches test 1 191 r → Below r
Searches-Below test none s = tt
Searches-Below test (some k) s = omega (arith, s.to)

pub child_of-Below : (fs : Fs) (parent : ℕ) (name : List ℕ) → Below (child_of fs parent name)
child_of-Below fs parent name =
    Searches-Below _ (child_of fs parent name) (child_of-Searches fs parent name)

enter-Below : (fs : Fs) (cur : ℕ) (c : List ℕ) → IsValid fs → cur < tn_max → Below (enter fs cur c)
unfolding enter
enter-Below fs cur c v below = elim (Bool-cases (bytes_eq c (b'.' ∷ []))) [
  | inl here ↦ rw here below
  | inr d ↦ elim (Bool-cases (bytes_eq c (b'.' ∷ b'.' ∷ []))) [
    | inl up ↦ elim (Bool-cases (cur == 0)) [
      | inl root ↦ rw (d, up, root) below
      | inr inner ↦ rw (d, up, inner) (v.parent_in cur below)
    ]
    | inr dd ↦ elim (Bool-cases (leb vfs_name_max (length c))) [
      | inl long ↦ rw (d, dd, long) tt
      | inr short ↦ elim (Bool-cases (is_dir (fs.nodes cur).typ)) [
        | inl directory ↦ rw (d, dd, short, directory) (child_of-Below fs cur c)
        | inr other ↦ rw (d, dd, short, other) tt
      ]
    ]
  ]
]

walk-Below :
    (fs : Fs) (cur : ℕ) (cs : List (List ℕ)) → IsValid fs → cur < tn_max → Below (walk fs cur cs)
unfolding walk
walk-Below fs cur [] v below = below
walk-Below fs cur (c ∷ cs) v below = elim (Option-cases (enter fs cur c)) [
  | inl e ↦ rw (e, walk, Below) tt
  | inr (next, e) ↦
      rw (e, walk, Below) (walk-Below fs next cs v (subst Below e (enter-Below fs cur c v below)))
]

leaf_of-ParentBelow : (cur : ℕ) (c : List ℕ) → cur < tn_max → ParentBelow (leaf_of cur c)
leaf_of-ParentBelow cur c below = elim (Bool-cases (is_empty c || leb vfs_name_max (length c))) [
  | inl bad ↦ rw bad tt
  | inr ok ↦ elim (Bool-cases (bytes_eq c dot || bytes_eq c dot_dot)) [
    | inl special ↦ rw (ok, special) tt
    | inr proper ↦ rw (ok, proper) below
  ]
]

walk_parent-ParentBelow :
    (fs : Fs) (cur : ℕ) (cs : List (List ℕ))
    → IsValid fs
    → cur < tn_max
    → ParentBelow (walk_parent fs cur cs)
unfolding walk_parent
walk_parent-ParentBelow fs cur [] v below = tt
walk_parent-ParentBelow fs cur (c ∷ []) v below = leaf_of-ParentBelow cur c below
walk_parent-ParentBelow fs cur (c ∷ d ∷ cs) v below = elim (Option-cases (enter fs cur c)) [
  | inl e ↦ rw (e, walk_parent, ParentBelow) tt
  | inr (next, e) ↦
      rw (e, walk_parent, ParentBelow)
        (walk_parent-ParentBelow fs next (d ∷ cs) v (subst Below e (enter-Below fs cur c v below)))
]

pub resolve-Below : (fs : Fs) (p : List ℕ) → IsValid fs → Below (resolve fs p)
resolve-Below fs [] v = rw ((resolve-eq-walk fs 0 []).2) tt
resolve-Below fs (c ∷ p) v = elim (Bool-cases (c == b'/')) [
  | inl slash ↦
      rw ((resolve-eq-walk fs c p).0, slash) (walk-Below fs 0 (split [] p) v (omega arith))
  | inr other ↦ rw ((resolve-eq-walk fs c p).0, other) tt
]

pub resolve_parent-ParentBelow :
    (fs : Fs) (p : List ℕ) → IsValid fs → ParentBelow (resolve_parent fs p)
resolve_parent-ParentBelow fs [] v = rw ((resolve-eq-walk fs 0 []).3) tt
resolve_parent-ParentBelow fs (c ∷ p) v = elim (Bool-cases (c == b'/')) [
  | inl slash ↦
      rw ((resolve-eq-walk fs c p).1, slash)
        (walk_parent-ParentBelow fs 0 (split [] p) v (omega arith))
  | inr other ↦ rw ((resolve-eq-walk fs c p).1, other) tt
]

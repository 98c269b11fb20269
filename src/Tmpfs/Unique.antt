-- ===== src/Tmpfs/Unique.antt =====
-- The name that the last component of a path gives, and the steps of a creation, for the names.
use kernel_rs.Prelude.{
  ℕ, ◌-◌, ◌<◌, ◌≡◌, refl, sym, ◌∙◌, ap, ◌≢◌, ◌⊎◌, inl, inr, true, false, ◌||◌, Option, none, some,
  List, [], ◌∷◌, ◌++◌, length, leb, ◌==◌, Bool-cases, Option-cases, arith, subst, bytes_eq,
  take_all,
}
use kernel_rs.Prelude.Bytes.{NoNul, buf_copy, until_nul, until_nul-buf_copy}
use kernel_rs.Tmpfs.{
  Fs, TNode, NodeType, is_free, put_data, resolve_parent, is_child, child_of, new_node, leaf_of,
  vfs_name_max, dot, dot_dot, is_empty, enter,
}
use kernel_rs.Tmpfs.Paths.{walk_parent, emit, split, resolve-eq-walk}
use kernel_rs.Tmpfs.Walk.{Searches, NoneFrom, child_of-Searches}
use kernel_rs.Tmpfs.Create.{put, put_data-cases, added}
use kernel_rs.Tmpfs.Names.{Distinct, place-Distinct, keep-Distinct}

-- A last component that fits a name and has no NUL.
abbrev pub NameOk : Option (ℕ × List ℕ) → Type 0
NameOk none = Unit {0}
NameOk (some (parent, leaf)) = NoNul leaf × (length leaf < vfs_name_max)

abbrev AllNoNul : List (List ℕ) → Type 0
AllNoNul [] = Unit {0}
AllNoNul (c ∷ cs) = NoNul c × AllNoNul cs

emit-AllNoNul :
    (acc : List ℕ) (rest : List (List ℕ)) → NoNul acc → AllNoNul rest → AllNoNul (emit acc rest)
emit-AllNoNul [] rest a r = r
emit-AllNoNul (x ∷ acc) rest a r = (a, r)

snoc-NoNul : (acc : List ℕ) (c : ℕ) → NoNul acc → c ≢ 0 → NoNul (acc ++ (c ∷ []))
snoc-NoNul [] c a h = (h, tt)
snoc-NoNul (x ∷ acc) c a h = (a.0, snoc-NoNul acc c a.1 h)

split-AllNoNul : (acc p : List ℕ) → NoNul acc → NoNul p → AllNoNul (split acc p)
unfolding split
split-AllNoNul acc [] a h = emit-AllNoNul acc [] a tt
split-AllNoNul acc (c ∷ cs) a h = elim (Bool-cases (c == b'/')) [
  | inl slash ↦ rw slash (emit-AllNoNul acc (split [] cs) a (split-AllNoNul [] cs tt h.1))
  | inr other ↦ rw other (split-AllNoNul (acc ++ (c ∷ [])) cs (snoc-NoNul acc c a h.0) h.1)
]

leaf_of-NameOk : (cur : ℕ) (c : List ℕ) → NoNul c → NameOk (leaf_of cur c)
leaf_of-NameOk cur c h = elim (Bool-cases (is_empty c || leb vfs_name_max (length c))) [
  | inl bad ↦ rw bad tt
  | inr ok ↦ elim (Bool-cases (bytes_eq c dot || bytes_eq c dot_dot)) [
    | inl special ↦ rw (ok, special) tt
    | inr proper ↦ rw (ok, proper) (h, ground (arith, ok))
  ]
]

walk_parent-NameOk :
    (fs : Fs) (cur : ℕ) (cs : List (List ℕ)) → AllNoNul cs → NameOk (walk_parent fs cur cs)
unfolding walk_parent
walk_parent-NameOk fs cur [] h = tt
walk_parent-NameOk fs cur (c ∷ []) h = leaf_of-NameOk cur c h.0
walk_parent-NameOk fs cur (c ∷ d ∷ cs) h = elim (Option-cases (enter fs cur c)) [
  | inl e ↦ rw (e, walk_parent, NameOk) tt
  | inr (next, e) ↦ rw (e, walk_parent, NameOk) (walk_parent-NameOk fs next (d ∷ cs) h.1)
]

pub resolve_parent-NameOk : (fs : Fs) (p : List ℕ) → NoNul p → NameOk (resolve_parent fs p)
resolve_parent-NameOk fs [] h = rw ((resolve-eq-walk fs 0 []).3) tt
resolve_parent-NameOk fs (c ∷ p) h = elim (Bool-cases (c == b'/')) [
  | inl slash ↦
      rw ((resolve-eq-walk fs c p).1, slash)
        (walk_parent-NameOk fs 0 (split [] p) (split-AllNoNul [] p tt h.1))
  | inr other ↦ rw ((resolve-eq-walk fs c p).1, other) tt
]

-- The name of a node reads back as the component it was made from.
until_nul-name :
    (leaf : List ℕ)
    → NoNul leaf
    → length leaf < vfs_name_max
    → until_nul (buf_copy vfs_name_max leaf) ≡ leaf
until_nul-name leaf h short =
    until_nul-buf_copy vfs_name_max leaf h ∙ take_all (vfs_name_max - 1) leaf (omega (arith, short))

pub fresh_name :
    (fs : Fs) (parent : ℕ) (leaf : List ℕ)
    → NoNul leaf × (length leaf < vfs_name_max)
    → child_of fs parent leaf ≡ none
    → NoneFrom (is_child fs parent (until_nul (buf_copy vfs_name_max leaf))) 1 191
fresh_name fs parent leaf ok e =
    rw (until_nul-name leaf ok.0 ok.1)
      (subst (Searches _ 1 191) e (child_of-Searches fs parent leaf))

pub put_data-Distinct :
    (fs : Fs) (id : ℕ) (bytes : List ℕ) → Distinct fs → Distinct (put_data fs id bytes).0
put_data-Distinct fs id bytes d = elim (put_data-cases fs id bytes) [
  | inl full ↦ rw full d
  | inr (room, is) ↦
      rw is (keep-Distinct fs (put fs id bytes) d (λ j u. kept j u (Bool-cases (j == id))))
]
  where
    kept :
        (j : ℕ)
        → is_free ((put fs id bytes).nodes j).typ ≡ false
        → ((j == id) ≡ true) ⊎ ((j == id) ≡ false)
        → (is_free (fs.nodes j).typ ≡ false)
          × (((put fs id bytes).nodes j).parent ≡ (fs.nodes j).parent)
          × (((put fs id bytes).nodes j).name ≡ (fs.nodes j).name)
    kept j u (inl same) =
        let is : j ≡ id = ground (arith, same) in
        let here : fs.nodes id ≡ fs.nodes j = ap fs.nodes (sym is) in
        rw same
          (rw here (subst (λ (n : TNode). is_free n.typ ≡ false) here (rw same at u), refl, refl))
    kept j u (inr other) = rw other (rw other at u, refl, refl)

pub added-Distinct :
    (fs : Fs) (i parent : ℕ) (leaf : List ℕ) (typ : NodeType)
    → Distinct fs
    → NoNul leaf × (length leaf < vfs_name_max)
    → child_of fs parent leaf ≡ none
    → Distinct (added fs i parent leaf typ)
added-Distinct fs i parent leaf typ d ok e =
    place-Distinct fs i fs.pool_used (new_node fs parent leaf typ) fs.pool d
      (fresh_name fs parent leaf ok e)

-- ===== src/Tmpfs/Paths.antt =====
-- A path as the list of its components: the specification of the byte loops of `resolve` and
-- `resolve_parent`.
use kernel_rs.Prelude.{
  ℕ, zero, suc, ◌<◌, ◌≤◌, ◌≡◌, refl, sym, ◌∙◌, ap, ◌⊎◌, inl, inr, true, false, Option, none, some,
  List, [], ◌∷◌, ◌++◌, length, ◌==◌, if◌then◌else◌, Bool-cases, Option-cases, arith,
}
use mathlib.Core.List.{append_assoc, append-nil}
use kernel_rs.Tmpfs.{
  Fs, skip_slashes, component, past_component, enter, resolve, resolve_from, resolve_parent,
  resolve_parent_from, is_empty, leaf_of,
}

-- A component that is not empty.
abbrev pub emit : List ℕ → List (List ℕ) → List (List ℕ)
emit [] rest = rest
emit (a ∷ bs) rest = (a ∷ bs) ∷ rest

-- The components of a text, with `acc` read of the present one.
unfoldable pub split : List ℕ → List ℕ → List (List ℕ)
split acc [] = emit acc []
split acc (c ∷ cs) =
    let ended = split [] cs in
    let longer = split (acc ++ (c ∷ [])) cs in if c == b'/' then emit acc ended else longer

-- From node to node along the components.
unfoldable pub walk : Fs → ℕ → List (List ℕ) → Option ℕ
walk fs cur [] = some cur
walk fs cur (c ∷ cs) = elim (enter fs cur c) [ none ↦ none | some next ↦ walk fs next cs ]

-- As `walk`, up to the last component.
unfoldable pub walk_parent : Fs → ℕ → List (List ℕ) → Option (ℕ × List ℕ)
walk_parent fs cur [] = none
walk_parent fs cur (c ∷ []) = leaf_of cur c
walk_parent fs cur (c ∷ d ∷ cs) = elim (enter fs cur c) [
  | none ↦ none
  | some next ↦ walk_parent fs next (d ∷ cs)
]

split_skip : (p : List ℕ) → split [] p ≡ split [] (skip_slashes p)
unfolding split skip_slashes
split_skip [] = refl
split_skip (c ∷ cs) = elim (Bool-cases (c == b'/')) [
  | inl slash ↦ rw slash (split_skip cs)
  | inr other ↦ rw other (rw other)
]

split_more :
    (a : ℕ) (bs p : List ℕ)
    → split (a ∷ bs) p ≡ (a ∷ (bs ++ component p)) ∷ split [] (past_component p)
unfolding split component past_component
split_more a bs [] = rw append-nil
split_more a bs (c ∷ cs) = elim (Bool-cases (c == b'/')) [
  | inl slash ↦ rw (slash, append-nil) (rw slash)
  | inr other ↦ rw other (
      split_more a (bs ++ (c ∷ [])) cs
      ∙ ap (λ l. (a ∷ l) ∷ split [] (past_component cs)) (append_assoc bs (c ∷ []) (component cs)))
]

-- What the slashes are followed by: nothing, or a component.
record Next (p : List ℕ) : Type 0 where
  here : is_empty (skip_slashes p) ≡ false
  splits : split [] p ≡ component (skip_slashes p) ∷ split [] (past_component (skip_slashes p))
  shorter : length (past_component (skip_slashes p)) < length p

length-past_component : (p : List ℕ) → length (past_component p) ≤ length p
unfolding past_component
length-past_component [] = omega arith
length-past_component (c ∷ cs) = ground (arith, length-past_component cs)

first_component :
    (c : ℕ) (cs : List ℕ)
    → (c == b'/') ≡ false
    → (split [] (c ∷ cs) ≡ component (c ∷ cs) ∷ split [] (past_component (c ∷ cs)))
      × (length (past_component (c ∷ cs)) < length (c ∷ cs))
unfolding split component past_component
first_component c cs other =
    (rw (other, split_more c [] cs) refl, rw other (omega (arith, length-past_component cs)))

split_cases : (p : List ℕ) → ((is_empty (skip_slashes p) ≡ true) × (split [] p ≡ [])) ⊎ Next p
unfolding skip_slashes
split_cases [] = inl (refl, unfold split in refl)
split_cases (c ∷ cs) = elim (Bool-cases (c == b'/')) [
  | inr other ↦
      let e = first_component c cs other in
      inr (record { here = rw other refl; splits = rw other e.0; shorter = rw other e.1 })
  | inl slash ↦ elim (split_cases cs) [
    | inl r ↦ inl (rw slash r.0, unfold split in rw slash r.1)
    | inr r ↦ inr (record {
      here = rw slash r.here;
      splits = unfold split in rw slash r.splits;
      shorter = rw slash (omega (arith, r.shorter));
    })
  ]
]

-- The loop of `resolve` walks along the components of what is left.
resolve_from-eq-walk :
    (f : ℕ) (fs : Fs) (cur : ℕ) (p : List ℕ)
    → length p < f
    → resolve_from f fs cur p ≡ walk fs cur (split [] p)
unfolding resolve_from walk
resolve_from-eq-walk zero fs cur p h = elim h [ ]
resolve_from-eq-walk (suc f) fs cur p h = elim (split_cases p) [
  | inl r ↦ rw (r.0, r.1)
  | inr r ↦
      rw (r.here, r.splits)
        (elim (Option-cases (enter fs cur (component (skip_slashes p)))) [
          | inl e ↦ rw (e, walk)
          | inr (next, e) ↦
              rw (e, walk)
                (resolve_from-eq-walk f fs next (past_component (skip_slashes p))
                  (omega (arith, r.shorter)))
        ])
]

length-skip_slashes : (p : List ℕ) → length (skip_slashes p) ≤ length p
unfolding skip_slashes
length-skip_slashes [] = omega arith
length-skip_slashes (c ∷ cs) = ground (arith, length-skip_slashes cs)

walk_parent-cons :
    (fs : Fs) (cur next : ℕ) (c : List ℕ) (rest : List (List ℕ)) (d : List ℕ) (ds : List (List ℕ))
    → rest ≡ d ∷ ds
    → enter fs cur c ≡ some next
    → walk_parent fs cur (c ∷ rest) ≡ walk_parent fs next rest
unfolding walk_parent
walk_parent-cons fs cur next c rest d ds e g = rw (e, g, walk_parent)

walk_parent-none :
    (fs : Fs) (cur : ℕ) (c : List ℕ) (rest : List (List ℕ)) (d : List ℕ) (ds : List (List ℕ))
    → rest ≡ d ∷ ds
    → enter fs cur c ≡ none
    → walk_parent fs cur (c ∷ rest) ≡ none
unfolding walk_parent
walk_parent-none fs cur c rest d ds e g = rw (e, g, walk_parent)

resolve_parent_from-eq-walk :
    (f : ℕ) (fs : Fs) (cur : ℕ) (p : List ℕ)
    → length p < f
    → resolve_parent_from f fs cur p ≡ walk_parent fs cur (split [] p)
unfolding resolve_parent_from walk_parent
resolve_parent_from-eq-walk zero fs cur p h = elim h [ ]
resolve_parent_from-eq-walk (suc f) fs cur p h = elim (split_cases p) [
  | inl r ↦ rw (r.0, r.1)
  | inr r ↦
      let q = skip_slashes p in
      let past = past_component q in
      elim (split_cases past) [
        | inl last ↦ rw (r.here, last.0, r.splits, last.1)
        | inr more ↦ elim (Option-cases (enter fs cur (component q))) [
          | inl e ↦
              rw (r.here, more.here, r.splits)
                (rw (e, resolve_parent_from)
                  (sym (walk_parent-none fs cur (component q) (split [] past) _ _ more.splits e)))
          | inr (next, e) ↦
              rw (r.here, more.here, r.splits)
                (rw (e, resolve_parent_from)
                  (resolve_parent_from-eq-walk f fs next (skip_slashes past)
                      (omega (arith, r.shorter, length-skip_slashes past))
                    ∙ ap (walk_parent fs next) (sym (split_skip past))
                    ∙ sym (
                        walk_parent-cons fs cur next (component q) (split [] past) _ _ more.splits
                          e)))
        ]
      ]
]

-- The byte loops of `resolve` and `resolve_parent` end, and follow the components of the path, those
-- between its slashes, one by one from the root: `resolve` to the end, and `resolve_parent` up to
-- the last component, which it returns beside the node reached before it. A path that does not
-- begin with a slash is refused by both.
pub resolve-eq-walk :
    (fs : Fs) (c : ℕ) (p : List ℕ)
    → (resolve fs (c ∷ p) ≡ (if c == b'/' then walk fs 0 (split [] p) else none))
      × (resolve_parent fs (c ∷ p) ≡ (if c == b'/' then walk_parent fs 0 (split [] p) else none))
      × (resolve fs [] ≡ none)
      × (resolve_parent fs [] ≡ none)
unfolding resolve resolve_parent
resolve-eq-walk fs c p = (
  rw (resolve_from-eq-walk (suc (length p)) fs 0 p (omega arith)) refl,
  rw (resolve_parent_from-eq-walk (suc (length p)) fs 0 p (omega arith)) refl,
  refl,
  refl,
)

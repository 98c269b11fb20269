-- ===== src/Tmpfs/Names.antt =====
-- The names of nodes, and the steps that put a node or keep its name.
use kernel_rs.Prelude.{
  ℕ, ◌<◌, ◌≡◌, sym, ◌∙◌, ap, ◌≢◌, ◌⊎◌, inl, inr, true, false, update, ◌==◌, Bool-cases, arith,
  bytes_eq, bytes_eq_refl,
}
use kernel_rs.Prelude.Bytes.{until_nul}
use kernel_rs.Tmpfs.{Fs, TNode, is_free, tn_max, name_bytes, is_child}
use kernel_rs.Tmpfs.Walk.{NoneFrom}

-- No two nodes in use, other than the root, have the same parent and the same name.
pub record Distinct (fs : Fs) : Type 0 where
  pub differ :
      (i j : ℕ)
      → 0 < i
      → i < tn_max
      → 0 < j
      → j < tn_max
      → i ≢ j
      → is_free (fs.nodes i).typ ≡ false
      → is_free (fs.nodes j).typ ≡ false
      → (fs.nodes i).parent ≡ (fs.nodes j).parent
      → name_bytes (fs.nodes i) ≢ name_bytes (fs.nodes j)

-- A node put where no child of that name is.
pub place-Distinct :
    (fs : Fs) (id used : ℕ) (n : TNode) (pool : ℕ → ℕ)
    → Distinct fs
    → NoneFrom (is_child fs n.parent (name_bytes n)) 1 191
    → Distinct (record { nodes = update fs.nodes id n; pool = pool; pool_used = used })
place-Distinct fs id used n pool d fresh = record {
  differ = λ i j pi hi pj hj ne ui uj ep en.
      place_differ i j pi hi pj hj ne ui uj ep en (Bool-cases (i == id)) (Bool-cases (j == id));
}
  where
    clash :
        (j : ℕ)
        → 0 < j
        → j < tn_max
        → is_free (fs.nodes j).typ ≡ false
        → (fs.nodes j).parent ≡ n.parent
        → name_bytes (fs.nodes j) ≢ name_bytes n
    clash j pj hj uj ep en =
        let no_child = fresh j (omega (arith, pj)) (omega (arith, hj)) in
        let same : bytes_eq (name_bytes (fs.nodes j)) (name_bytes n) ≡ true =
          rw en (bytes_eq_refl (name_bytes n)) in
        absurd (ground (arith, no_child, same, uj, ep))

    place_differ :
        (i j : ℕ)
        → 0 < i
        → i < tn_max
        → 0 < j
        → j < tn_max
        → i ≢ j
        → is_free (update fs.nodes id n i).typ ≡ false
        → is_free (update fs.nodes id n j).typ ≡ false
        → (update fs.nodes id n i).parent ≡ (update fs.nodes id n j).parent
        → name_bytes (update fs.nodes id n i) ≡ name_bytes (update fs.nodes id n j)
        → ((i == id) ≡ true) ⊎ ((i == id) ≡ false)
        → ((j == id) ≡ true) ⊎ ((j == id) ≡ false)
        → ⊥
    place_differ i j pi hi pj hj ne ui uj ep en (inl a) (inl b) = ne (ground (arith, a, b))
    place_differ i j pi hi pj hj ne ui uj ep en (inl a) (inr b) =
        clash j pj hj (rw b at uj) (sym (rw (a, b) at ep)) (sym (rw (a, b) at en))
    place_differ i j pi hi pj hj ne ui uj ep en (inr a) (inl b) =
        clash i pi hi (rw a at ui) (rw (a, b) at ep) (rw (a, b) at en)
    place_differ i j pi hi pj hj ne ui uj ep en (inr a) (inr b) =
        d.differ i j pi hi pj hj ne (rw a at ui) (rw b at uj) (rw (a, b) at ep) (rw (a, b) at en)

-- Nodes that keep their parent and name, or are free.
pub keep-Distinct :
    (fs fs' : Fs)
    → Distinct fs
    → ((j : ℕ)
        → is_free (fs'.nodes j).typ ≡ false
        → (is_free (fs.nodes j).typ ≡ false)
          × ((fs'.nodes j).parent ≡ (fs.nodes j).parent)
          × ((fs'.nodes j).name ≡ (fs.nodes j).name))
    → Distinct fs'
keep-Distinct fs fs' d same = record {
  differ = λ i j pi hi pj hj ne ui uj ep en.
      let si = same i ui in
      let sj = same j uj in
      d.differ i j pi hi pj hj ne si.0 sj.0 (sym si.1 ∙ ep ∙ sj.1)
        (sym (ap until_nul si.2) ∙ en ∙ ap until_nul sj.2);
}

-- ===== src/Tmpfs/Invariant.antt =====
-- The invariant of the node table and the pool, and that the steps on nodes keep it.
use kernel_rs.Prelude.{
  ℕ, ◌+◌, ◌<◌, ◌≤◌, ◌≡◌, refl, ◌≢◌, ◌⊎◌, inl, inr, true, false, update, ◌==◌, Bool-cases, arith,
}
use kernel_rs.Tmpfs.{Fs, TNode, is_file, is_dir, tn_max, tn_pool, init}

-- Two stretches of the pool do not overlap.
abbrev pub Apart : TNode → TNode → Type 0
Apart m n = (m.off + m.size ≤ n.off) ⊎ (n.off + n.size ≤ m.off)

pub record IsValid (fs : Fs) : Type 0 where
  pub root_is_dir : is_dir (fs.nodes 0).typ ≡ true
  pub root_parent : (fs.nodes 0).parent ≡ 0
  pub used_in : fs.pool_used ≤ tn_pool
  pub parent_in : (i : ℕ) → i < tn_max → (fs.nodes i).parent < tn_max
  pub extent_in :
      (i : ℕ)
      → i < tn_max
      → is_file (fs.nodes i).typ ≡ true
      → (fs.nodes i).off + (fs.nodes i).size ≤ fs.pool_used
  pub apart :
      (i j : ℕ)
      → i < tn_max
      → j < tn_max
      → i ≢ j
      → is_file (fs.nodes i).typ ≡ true
      → is_file (fs.nodes j).typ ≡ true
      → Apart (fs.nodes i) (fs.nodes j)

pub init-IsValid : (fs : Fs) → IsValid (init fs)
unfolding init
init-IsValid fs = record {
  root_is_dir = refl;
  root_parent = refl;
  used_in = omega arith;
  parent_in = λ i h. ground arith;
  extent_in = λ i h u. ground arith;
  apart = λ i j hi hj ne fi fj. ground arith;
}

-- A file put at the end of the pool, which grows by at least its size.
pub place-IsValid :
    (fs : Fs) (id used : ℕ) (n : TNode) (pool : ℕ → ℕ)
    → IsValid fs
    → 0 < id
    → n.parent < tn_max
    → fs.pool_used ≤ n.off
    → n.off + n.size ≤ used
    → used ≤ tn_pool
    → IsValid (record { nodes = update fs.nodes id n; pool = pool; pool_used = used })
place-IsValid fs id used n pool v pos_id parent_lt above below cap = record {
  root_is_dir = ground (arith, v.root_is_dir);
  root_parent = ground (arith, v.root_parent);
  used_in = cap;
  parent_in = λ i h. ground (arith, v.parent_in i h);
  extent_in = λ i h u. ground (arith, v.extent_in i h);
  apart = λ i j hi hj ne fi fj.
      place_apart i j hi hj ne fi fj (Bool-cases (i == id)) (Bool-cases (j == id));
}
  where
    place_apart :
        (i j : ℕ)
        → i < tn_max
        → j < tn_max
        → i ≢ j
        → is_file (update fs.nodes id n i).typ ≡ true
        → is_file (update fs.nodes id n j).typ ≡ true
        → ((i == id) ≡ true) ⊎ ((i == id) ≡ false)
        → ((j == id) ≡ true) ⊎ ((j == id) ≡ false)
        → Apart (update fs.nodes id n i) (update fs.nodes id n j)
    place_apart i j hi hj ne fi fj (inl a) (inl b) = absurd (ne (ground arith))
    place_apart i j hi hj ne fi fj (inl a) (inr b) =
        rw (a, b) (inr (omega (arith, v.extent_in j hj (rw b at fj))))
    place_apart i j hi hj ne fi fj (inr a) (inl b) =
        rw (a, b) (inl (omega (arith, v.extent_in i hi (rw a at fi))))
    place_apart i j hi hj ne fi fj (inr a) (inr b) =
        rw (a, b) (v.apart i j hi hj ne (rw a at fi) (rw b at fj))

-- A node that keeps its stretch of the pool, or is no file any more.
pub keep-IsValid :
    (fs : Fs) (id : ℕ) (n : TNode)
    → IsValid fs
    → 0 < id
    → id < tn_max
    → n.parent < tn_max
    → (is_file n.typ ≡ true
        → (is_file (fs.nodes id).typ ≡ true)
          × (n.off ≡ (fs.nodes id).off)
          × (n.size ≡ (fs.nodes id).size))
    → IsValid (record fs { nodes = update fs.nodes id n })
keep-IsValid fs id n v pos_id id_lt parent_lt same = record {
  root_is_dir = ground (arith, v.root_is_dir);
  root_parent = ground (arith, v.root_parent);
  used_in = v.used_in;
  parent_in = λ i h. ground (arith, v.parent_in i h);
  extent_in = λ i h u. ground (arith, v.extent_in i h, v.extent_in id id_lt, same);
  apart = λ i j hi hj ne fi fj.
      kept_apart i j hi hj ne fi fj (Bool-cases (i == id)) (Bool-cases (j == id));
}
  where
    kept_apart :
        (i j : ℕ)
        → i < tn_max
        → j < tn_max
        → i ≢ j
        → is_file (update fs.nodes id n i).typ ≡ true
        → is_file (update fs.nodes id n j).typ ≡ true
        → ((i == id) ≡ true) ⊎ ((i == id) ≡ false)
        → ((j == id) ≡ true) ⊎ ((j == id) ≡ false)
        → Apart (update fs.nodes id n i) (update fs.nodes id n j)
    kept_apart i j hi hj ne fi fj (inl a) (inl b) = absurd (ne (ground arith))
    kept_apart i j hi hj ne fi fj (inl a) (inr b) =
        let s = same (rw a at fi) in
        rw (a, b) (omega (arith, s.1, s.2, v.apart id j id_lt hj (ground arith) s.0 (rw b at fj)))
    kept_apart i j hi hj ne fi fj (inr a) (inl b) =
        let s = same (rw b at fj) in
        rw (a, b) (omega (arith, s.1, s.2, v.apart i id hi id_lt (ground arith) (rw a at fi) s.0))
    kept_apart i j hi hj ne fi fj (inr a) (inr b) =
        rw (a, b) (v.apart i j hi hj ne (rw a at fi) (rw b at fj))

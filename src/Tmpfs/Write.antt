-- ===== src/Tmpfs/Write.antt =====
-- Writes by node: the contents of the written file, of every other file, and the node table.
use kernel_rs.Prelude.{
  ℕ, zero, suc, ◌+◌, ◌<◌, ◌≤◌, ◌≡◌, refl, sym, ◌∙◌, ap, ◌⊎◌, inl, inr, true, false, ◌||◌, Option,
  none, some, List, [], ◌∷◌, ◌++◌, length, take, drop, ltb, Bool-cases, arith,
}
use kernel_rs.Tmpfs.{Fs, TNode, tn_pool}
use kernel_rs.Tmpfs.Nodes.{slice, not_file, node_data, node_read, node_write, relocate, overwrite}
use kernel_rs.Tmpfs.ReadWrite.{length-slice, window, node_read-eq-node_data}
use kernel_rs.Tmpfs.Invariant.{IsValid}
use kernel_rs.Tmpfs.Splice.{splice, Written, node_data_of, missing_data}
use kernel_rs.Tmpfs.Grow.{overwrite-relocate, field_same, grown-Written, within-Written}

abbrev pub Fits : Fs → ℕ → ℕ → List ℕ → Type 0
Fits fs id off bytes =
    (off ≤ (fs.nodes id).size)
    × ((fs.nodes id).size < off + length bytes → fs.pool_used + (off + length bytes) ≤ tn_pool)

-- In a valid file system, `node_write` to a file at a position no later than its end, which the pool
-- has room for when the file has to grow, returns the number of bytes given; the contents of the file
-- become the old ones with the bytes put over them at that position, the contents of every other file
-- and the names, types and parents of all nodes stay, and the file system stays valid.
pub node_write-Written :
    (fs : Fs) (id off : ℕ) (bytes d : List ℕ)
    → IsValid fs
    → node_data fs (some id) ≡ some d
    → Fits fs id off bytes
    → Written fs id off bytes d (node_write fs (some id) off bytes)
unfolding node_write
node_write-Written fs id off bytes d v has fits = elim (Bool-cases (not_file fs id)) [
  | inl bad ↦ let clash = sym has ∙ missing_data fs id bad in cc
  | inr ok ↦
      let reaches : ltb (fs.nodes id).size off ≡ false = ground (arith, fits) in
      let is_d : d ≡ slice fs.pool (fs.nodes id).off (fs.nodes id).size =
        same_of (sym has ∙ node_data_of fs id ok) in
      elim (Bool-cases (ltb (fs.nodes id).size (off + length bytes))) [
        | inl short ↦
            let small : (fs.nodes id).size < off + length bytes = ground (arith, short) in
            let room : ltb tn_pool (fs.pool_used + (off + length bytes)) ≡ false =
              ground (arith, fits, small) in
            rw (ok, reaches, short, room, overwrite-relocate fs id off bytes, is_d)
              (grown-Written fs id off bytes v ok fits.0 small (fits.1 small))
        | inr long ↦
            rw (ok, reaches, long, is_d)
              (within-Written fs id off bytes v ok (ground (arith, long)))
      ]
]
  where
    same_of : {a b : List ℕ} → some a ≡ some b → a ≡ b
    same_of e = ap (λ (o : Option (List ℕ)). elim o [ none ↦ [] | some x ↦ x ]) e

-- A write moves no node, and frees none.
pub node_write-names :
    (fs : Fs) (id : Option ℕ) (off : ℕ) (bytes : List ℕ) (j : ℕ)
    → (((node_write fs id off bytes).0.nodes j).name ≡ (fs.nodes j).name)
      × (((node_write fs id off bytes).0.nodes j).typ ≡ (fs.nodes j).typ)
      × (((node_write fs id off bytes).0.nodes j).parent ≡ (fs.nodes j).parent)
unfolding node_write overwrite relocate
node_write-names fs none off bytes j = (refl, refl, refl)
node_write-names fs (some id) off bytes j =
    elim (Bool-cases (not_file fs id || ltb (fs.nodes id).size off)) [
      | inl bad ↦ rw bad (refl, refl, refl)
      | inr ok ↦ elim (Bool-cases (ltb (fs.nodes id).size (off + length bytes))) [
        | inl short ↦ elim (Bool-cases (ltb tn_pool (fs.pool_used + (off + length bytes)))) [
          | inl full ↦ rw (ok, short, full) (refl, refl, refl)
          | inr room ↦
              let n = record (fs.nodes id) { off = fs.pool_used; size = off + length bytes } in
              rw (ok, short, room)
                (
                  field_same fs id j n (λ (m : TNode). m.name) refl,
                  field_same fs id j n (λ (m : TNode). m.typ) refl,
                  field_same fs id j n (λ (m : TNode). m.parent) refl,
                )
        ]
        | inr long ↦ rw (ok, long) (refl, refl, refl)
      ]
    ]

-- Whatever is asked of it, a write keeps the file system valid.
pub node_write-IsValid :
    (fs : Fs) (id : Option ℕ) (off : ℕ) (bytes : List ℕ)
    → IsValid fs
    → IsValid (node_write fs id off bytes).0
unfolding node_write
node_write-IsValid fs none off bytes v = v
node_write-IsValid fs (some id) off bytes v = elim (Bool-cases (not_file fs id)) [
  | inl bad ↦ rw bad v
  | inr ok ↦ elim (Bool-cases (ltb (fs.nodes id).size off)) [
    | inl past ↦ rw (ok, past) v
    | inr reaches ↦ elim (Bool-cases (ltb (fs.nodes id).size (off + length bytes))) [
      | inl short ↦ elim (Bool-cases (ltb tn_pool (fs.pool_used + (off + length bytes)))) [
        | inl full ↦ rw (ok, reaches, short, full) v
        | inr room ↦
            rw (ok, reaches, short, room, overwrite-relocate fs id off bytes)
              ((grown-Written fs id off bytes v ok (ground (arith, reaches)) (ground (arith, short))
                (ground (arith, room))).valid)
      ]
      | inr long ↦
          rw (ok, reaches, long)
            ((within-Written fs id off bytes v ok (ground (arith, long))).valid)
    ]
  ]
]

-- Without a file, with a position past the end of the file, or with no room in the pool for the file
-- to grow, `node_write` returns -1 and changes nothing.
pub node_write_fails :
    (fs : Fs) (id off : ℕ) (bytes : List ℕ)
    → (node_data fs (some id) ≡ none) ⊎ ¬ (Fits fs id off bytes)
    → node_write fs (some id) off bytes ≡ (fs, none)
unfolding node_write
node_write_fails fs id off bytes (inl no_file) = elim (Bool-cases (not_file fs id)) [
  | inl bad ↦ rw bad refl
  | inr ok ↦ let clash = sym no_file ∙ node_data_of fs id ok in cc
]
node_write_fails fs id off bytes (inr unfit) = elim (Bool-cases (not_file fs id)) [
  | inl bad ↦ rw bad refl
  | inr ok ↦ elim (Bool-cases (ltb (fs.nodes id).size off)) [
    | inl past ↦ rw (ok, past) refl
    | inr reaches ↦ elim (Bool-cases (ltb (fs.nodes id).size (off + length bytes))) [
      | inl short ↦ elim (Bool-cases (ltb tn_pool (fs.pool_used + (off + length bytes)))) [
        | inl full ↦ rw (ok, reaches, short, full) refl
        | inr room ↦ absurd (unfit (ground (arith, reaches), λ s. ground (arith, room)))
      ]
      | inr long ↦ absurd (unfit (ground (arith, reaches), λ s. ground (arith, long)))
    ]
  ]
]

window-splice :
    (off : ℕ) (bytes d : List ℕ)
    → off ≤ length d
    → take (length bytes) (drop off (splice off bytes d)) ≡ bytes
window-splice off bytes d inside = at off d inside (drop (off + length bytes) d)
  where
    front : (b r : List ℕ) → take (length b) (b ++ r) ≡ b
    front [] r = refl
    front (x ∷ b) r = ap (λ l. x ∷ l) (front b r)

    at :
        (off : ℕ) (d : List ℕ)
        → off ≤ length d
        → (r : List ℕ) → take (length bytes) (drop off (take off d ++ (bytes ++ r))) ≡ bytes
    at zero d h r = front bytes r
    at (suc k) [] h r = elim h [ ]
    at (suc k) (x ∷ d) h r = at k d (omega (arith, h)) r

-- In a valid file system, a read of as many bytes at the same position of the same file as were
-- written by a successful `node_write` gives the bytes written.
pub node_read-node_write :
    (fs : Fs) (id off : ℕ) (bytes d : List ℕ)
    → IsValid fs
    → node_data fs (some id) ≡ some d
    → Fits fs id off bytes
    → node_read (node_write fs (some id) off bytes).0 (some id) off (length bytes) ≡ some bytes
node_read-node_write fs id off bytes d v has fits =
    let w = node_write-Written fs id off bytes d v has fits in
    node_read-eq-node_data _ (some id) off (length bytes)
    ∙ ap (window off (length bytes)) w.contents
    ∙ ap some (window-splice off bytes d (reaches (Bool-cases (not_file fs id))))
  where
    reaches : ((not_file fs id ≡ true) ⊎ (not_file fs id ≡ false)) → off ≤ length d
    reaches (inl bad) = let clash = sym has ∙ missing_data fs id bad in cc
    reaches (inr ok) =
        let is_d : some d ≡ some (slice fs.pool (fs.nodes id).off (fs.nodes id).size) =
          sym has ∙ node_data_of fs id ok in
        let same : d ≡ slice fs.pool (fs.nodes id).off (fs.nodes id).size =
          ap (λ (o : Option (List ℕ)). elim o [ none ↦ [] | some x ↦ x ]) is_d in
        let long =
          ap (λ (l : List ℕ). length l) same
          ∙ length-slice fs.pool (fs.nodes id).off (fs.nodes id).size in
        omega (arith, long, fits.0)

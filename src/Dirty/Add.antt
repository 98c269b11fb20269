-- ===== src/Dirty/Add.antt =====
-- `add` and `flush`: no damage is lost.
use kernel_rs.Prelude.{
  ℕ, zero, suc, ◌+◌, ◌<◌, ◌≤◌, ◌≡◌, refl, sym, ◌∙◌, ◌⊎◌, inl, inr, true, false, some, update,
  update_self, update_ne, ltb, ◌==◌, arith, Bool-cases, subst, List, [], ◌∷◌, min,
}
use kernel_rs.Prelude.Int.{pos}
use kernel_rs.Dirty.{
  Rect, DirtyRegion, union, touching, dirty_max_rects, add, collapse, store, merge_fuel, flush,
  rects_from, init,
}
use kernel_rs.Dirty.Rects.{
  Inside, OnScreen, union-OnScreen, union-Inside_left, union-Inside_right, touching_comm,
}
use kernel_rs.Dirty.Clip.{Sane, clip-cases}
use kernel_rs.Dirty.Merge.{Covered, IsValid, merge_from-Merged}

module _ (sw sh : ℕ) where
  pub init-IsValid : (d : DirtyRegion) → IsValid sw sh (init d (pos sw) (pos sh))
  unfolding init
  init-IsValid d = record {
    screen_w = refl;
    screen_h = refl;
    few = omega arith;
    on_screen = λ i h. elim h [ ];
    apart = λ i j h. elim h [ ];
  }

  module _ (sw_fits : sw < 2147483648) (sh_fits : sh < 2147483648) where
    -- The bounding box holds what it was made from.
    record Holds (k i : ℕ) (r : ℕ → Rect) (q out : Rect) : Type 0 where
      on : OnScreen sw sh out
      keeps : (px py : ℕ) → Inside q px py → Inside out px py
      all : (j px py : ℕ) → i ≤ j → j < i + k → Inside (r j) px py → Inside out px py

    collapse-Holds :
        (k i : ℕ) (r : ℕ → Rect) (q : Rect)
        → ((j : ℕ) → i ≤ j → j < i + k → OnScreen sw sh (r j))
        → OnScreen sw sh q
        → Holds k i r q (collapse k i r q)
    unfolding collapse
    collapse-Holds zero i r q each on = record {
      on = on;
      keeps = λ px py c. c;
      all = λ j px py a b. absurd (omega (arith, a, b));
    }
    collapse-Holds (suc k) i r q each on =
        let on_i = each i (omega arith) (omega arith) in
        let ih =
          collapse-Holds k (i + 1) r (union (r i) q)
            (λ j a b. each j (omega (arith, a)) (omega (arith, b)))
            (union-OnScreen sw sh sw_fits sh_fits (r i) q on_i on) in
        record {
          on = ih.on;
          keeps = λ px py c.
              ih.keeps px py (union-Inside_right sw sh sw_fits sh_fits (r i) q px py on_i on c);
          all = λ j px py a b c. elim (Bool-cases (j == i)) [
            | inl same ↦
                let is : j ≡ i = ground (arith, same) in
                ih.keeps px py (
                  union-Inside_left sw sh sw_fits sh_fits (r i) q px py on_i on
                    (subst (λ x. Inside (r x) px py) is c))
            | inr other ↦ ih.all j px py (ground (arith, other, a)) (omega (arith, b)) c
          ];
        }

    -- What putting a rectangle into the region leaves.
    record Stored (d : DirtyRegion) (q : Rect) (d' : DirtyRegion) : Type 0 where
      valid : IsValid sw sh d'
      keeps : (px py : ℕ) → Covered d px py → Covered d' px py
      keeps_new : (px py : ℕ) → Inside q px py → Covered d' px py

    put-Stored :
        (d : DirtyRegion) (q : Rect)
        → IsValid sw sh d
        → OnScreen sw sh q
        → d.n < dirty_max_rects
        → ((i : ℕ) → i < d.n → touching (d.r i) q ≡ false)
        → Stored d q (record d { r = update d.r d.n q; n = d.n + 1 })
    put-Stored d q v on room clear_of = record {
      valid = record {
        screen_w = v.screen_w;
        screen_h = v.screen_h;
        few = omega (arith, room);
        on_screen = λ i hi. elim (Bool-cases (i == d.n)) [
          | inl last ↦ rw last on
          | inr inner ↦ rw inner (v.on_screen i (ground (arith, inner, hi)))
        ];
        apart = λ i j hi hj ne. elim (Bool-cases (i == d.n)) [
          | inl li ↦ elim (Bool-cases (j == d.n)) [
            | inl lj ↦ absurd (ne (ground (arith, li, lj)))
            | inr ij ↦ rw (li, ij) (touching_comm q (d.r j) ∙ clear_of j (ground (arith, ij, hj)))
          ]
          | inr ii ↦ elim (Bool-cases (j == d.n)) [
            | inl lj ↦ rw (ii, lj) (clear_of i (ground (arith, ii, hi)))
            | inr ij ↦
                rw (ii, ij) (v.apart i j (ground (arith, ii, hi)) (ground (arith, ij, hj)) ne)
          ]
        ];
      };
      keeps = λ px py c. (
        c.0,
        omega (arith, c.1),
        subst (λ (p : Rect). Inside p px py)
            (sym (update_ne d.r d.n c.0 q (λ e. absurd (omega (arith, e, c.1))))) c.2,
      );
      keeps_new = λ px py c.
          (d.n, omega arith, subst (λ (p : Rect). Inside p px py) (sym (update_self d.r d.n q)) c);
    }

    full-Stored :
        (d : DirtyRegion) (q : Rect)
        → IsValid sw sh d
        → OnScreen sw sh q
        → Stored d q (record d { r = update d.r 0 (collapse d.n 0 d.r q); n = 1 })
    full-Stored d q v on =
        let box = collapse-Holds d.n 0 d.r q (λ j a b. v.on_screen j (omega (arith, b))) on in
        record {
          valid = record {
            screen_w = v.screen_w;
            screen_h = v.screen_h;
            few = omega arith;
            on_screen = λ i hi. let z : (i == 0) ≡ true = ground (arith, hi) in rw z box.on;
            apart = λ i j hi hj ne. absurd (ne (omega (arith, hi, hj)));
          };
          keeps =
              λ px py c. (0, omega arith, box.all c.0 px py (omega arith) (omega (arith, c.1)) c.2);
          keeps_new = λ px py c. (0, omega arith, box.keeps px py c);
        }

    store-Stored :
        (d : DirtyRegion) (q : Rect)
        → IsValid sw sh d
        → OnScreen sw sh q
        → ((i : ℕ) → i < d.n → touching (d.r i) q ≡ false)
        → Stored d q (store d q)
    unfolding store
    store-Stored d q v on clear_of = elim (Bool-cases (ltb d.n dirty_max_rects)) [
      | inl room ↦ rw room (put-Stored d q v on (ground (arith, room)) clear_of)
      | inr full ↦ rw full (full-Stored d q v on)
    ]

    -- What an added rectangle leaves.
    pub record Added (d : DirtyRegion) (q : Rect) (d' : DirtyRegion) : Type 0 where
      pub valid : IsValid sw sh d'
      pub keeps : (px py : ℕ) → Covered d px py → Covered d' px py
      pub covers : (px py : ℕ) → px < sw → py < sh → Inside q px py → Covered d' px py

    -- On a screen of at most 2^31 - 1 pixels either way, for a valid region and a rectangle of any
    -- position whose size is not negative and whose right and lower ends are `i32` values: the merge
    -- loop of `add` ends within its fuel; every pixel damaged before stays covered, and every pixel of
    -- the screen that lies in the rectangle becomes covered; and the region is valid again: at most 16
    -- rectangles, all with an area and within the screen, no two of which overlap or touch.
    pub add-Added :
        (d : DirtyRegion) (q : Rect)
        → IsValid sw sh d
        → Sane q
        → (d' : DirtyRegion) × (add d q ≡ some d') × Added d q d'
    unfolding add
    add-Added d q v sane = elim (clip-cases sw sh sw_fits sh_fits d q v.screen_w v.screen_h sane) [
      | inl (off, outside) ↦ (
        d,
        rw (off, add) refl,
        record {
          valid = v;
          keeps = λ px py c. c;
          covers = λ px py lx ly c. absurd (outside px py lx ly c);
        },
      )
      | inr (q1, on, on_screen, inside) ↦
          let m =
            merge_from-Merged sw sh sw_fits sh_fits merge_fuel d 0 q1 (omega (arith, v.few)) v
              on_screen (omega arith) (λ j lt. elim lt [ ]) in
          let s = store-Stored m.0 m.1 m.3.valid m.3.grown m.3.clear_of in
          (
            store m.0 m.1,
            rw (on, add, m.2) refl,
            record {
              valid = s.valid;
              keeps = λ px py c. elim (m.3.keeps px py c) [
                | inl old ↦ s.keeps px py old
                | inr new ↦ s.keeps_new px py new
              ];
              covers =
                  λ px py lx ly c. s.keeps_new px py (m.3.keeps_new px py (inside px py lx ly c));
            },
          )
    ]

-- Some rectangle of the list has the pixel inside.
abbrev pub AnyInside : List Rect → ℕ → ℕ → Type 0
AnyInside [] px py = ⊥
AnyInside (q ∷ qs) px py = Inside q px py ⊎ AnyInside qs px py

rects_from-AnyInside :
    (k i j : ℕ) (r : ℕ → Rect) (px py : ℕ)
    → i ≤ j
    → j < i + k
    → Inside (r j) px py
    → AnyInside (rects_from k i r) px py
unfolding rects_from
rects_from-AnyInside zero i j r px py a b c = absurd (omega (arith, a, b))
rects_from-AnyInside (suc k) i j r px py a b c = elim (Bool-cases (j == i)) [
  | inl same ↦ let is : j ≡ i = ground (arith, same) in inl (subst (λ x. Inside (r x) px py) is c)
  | inr other ↦
      inr (rects_from-AnyInside k (i + 1) j r px py (ground (arith, other, a)) (omega (arith, b)) c)
]

-- `flush` of a valid region into a slice of 16 or more hands out a rectangle for every covered pixel,
-- and leaves no damage.
pub flush_lem :
    (sw sh : ℕ) (d : DirtyRegion) (len : ℕ)
    → IsValid sw sh d
    → dirty_max_rects ≤ len
    → ((px py : ℕ) → Covered d px py → AnyInside (flush d len).1 px py)
      × ((px py : ℕ) → Covered (flush d len).0 px py → ⊥)
unfolding flush
flush_lem sw sh d len v enough = (
  λ px py c.
      rects_from-AnyInside (min d.n len) 0 c.0 d.r px py (omega arith)
        (omega (arith, c.1, v.few, enough)) c.2,
  λ px py c. elim c.1 [ ],
)

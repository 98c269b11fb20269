-- ===== src/Dirty/Merge.antt =====
-- The invariant of the dirty region, and the loop that merges a rectangle with those that touch it.
use kernel_rs.Prelude.{
  ℕ, zero, suc, ◌+◌, ◌-◌, ◌*◌, ◌<◌, ◌≤◌, ◌≡◌, refl, sym, ◌∙◌, ap, ◌≢◌, ◌⊎◌, inl, inr, true, false,
  some, update, update_self, update_ne, ltb, ◌==◌, arith, Bool-cases, subst, ==→≢,
}
use kernel_rs.Prelude.Int.{pos}
use kernel_rs.Dirty.{Rect, DirtyRegion, union, touching, merge_from, dirty_max_rects}
use kernel_rs.Dirty.Rects.{Inside, OnScreen, union-OnScreen, union-Inside_left, union-Inside_right}

-- A pixel lies in a live rectangle.
abbrev pub Covered : DirtyRegion → ℕ → ℕ → Type 0
Covered d px py = (i : ℕ) × (i < d.n) × Inside (d.r i) px py

module _ (sw sh : ℕ) where
  pub record IsValid (d : DirtyRegion) : Type 0 where
    pub screen_w : d.bw ≡ pos sw
    pub screen_h : d.bh ≡ pos sh
    pub few : d.n ≤ dirty_max_rects
    pub on_screen : (i : ℕ) → i < d.n → OnScreen sw sh (d.r i)
    pub apart : (i j : ℕ) → i < d.n → j < d.n → i ≢ j → touching (d.r i) (d.r j) ≡ false

  -- What the loop leaves of the region `d` and the rectangle `q`.
  pub record Merged (d : DirtyRegion) (q : Rect) (d' : DirtyRegion) (q' : Rect) : Type 0 where
    pub valid : IsValid d'
    pub grown : OnScreen sw sh q'
    pub clear_of : (i : ℕ) → i < d'.n → touching (d'.r i) q' ≡ false
    pub keeps : (px py : ℕ) → Covered d px py → Covered d' px py ⊎ Inside q' px py
    pub keeps_new : (px py : ℕ) → Inside q px py → Inside q' px py

  -- The region without its rectangle `i`, in whose place the last one comes.
  abbrev pub removed : DirtyRegion → ℕ → DirtyRegion
  removed d i = record d { r = update d.r i (d.r (d.n - 1)); n = d.n - 1 }

  module _ (sw_fits : sw < 2147483648) (sh_fits : sh < 2147483648) where
    removed_at :
        (d : DirtyRegion) (i j : ℕ)
        → i < d.n
        → j < d.n - 1
        → (k : ℕ) × (k < d.n)
          × ((removed d i).r j ≡ d.r k)
          × ((j ≡ i) ⊎ (k ≡ j))
          × ((j ≡ i) → k ≡ d.n - 1)
    removed_at d i j hi hj = elim (Bool-cases (j == i)) [
      | inl same ↦
          let is : j ≡ i = ground (arith, same) in
          (d.n - 1, omega (arith, hi), rw same refl, inl is, λ e. refl)
      | inr other ↦ (j, omega (arith, hj), rw other refl, inr refl, λ e. absurd (==→≢ j i other e))
    ]

    removed-IsValid : (d : DirtyRegion) (i : ℕ) → i < d.n → IsValid d → IsValid (removed d i)
    removed-IsValid d i hi v = record {
      screen_w = v.screen_w;
      screen_h = v.screen_h;
      few = omega (arith, v.few);
      on_screen = λ j hj.
          let a = removed_at d i j hi hj in subst (OnScreen sw sh) (sym a.2) (v.on_screen a.0 a.1);
      apart = λ j k hj hk ne.
          let a = removed_at d i j hi hj in
          let b = removed_at d i k hi hk in
          rw (a.2, b.2)
            (v.apart a.0 b.0 a.1 b.1 (λ e. differ j k hj hk ne a.0 b.0 a.3 a.4 b.3 b.4 e));
    }
      where
        differ :
            (j k : ℕ)
            → j < d.n - 1
            → k < d.n - 1
            → j ≢ k
            → (a b : ℕ) → (j ≡ i) ⊎ (a ≡ j)
            → (j ≡ i → a ≡ d.n - 1)
            → (k ≡ i) ⊎ (b ≡ k)
            → (k ≡ i → b ≡ d.n - 1)
            → a ≢ b
        differ j k hj hk ne a b (inl ji) la (inl ki) lb e = ne (ji ∙ sym ki)
        differ j k hj hk ne a b (inl ji) la (inr bk) lb e = absurd (omega (arith, la ji, bk, e, hk))
        differ j k hj hk ne a b (inr aj) la (inl ki) lb e = absurd (omega (arith, lb ki, aj, e, hj))
        differ j k hj hk ne a b (inr aj) la (inr bk) lb e = ne (sym aj ∙ e ∙ bk)

    -- A pixel of the region is in the rest of it or in the rectangle taken out.
    removed-Covered :
        (d : DirtyRegion) (i px py : ℕ)
        → i < d.n
        → Covered d px py
        → Covered (removed d i) px py ⊎ Inside (d.r i) px py
    removed-Covered d i px py hi (k, hk, inside) = elim (Bool-cases (k == i)) [
      | inl same ↦
          let is : k ≡ i = ground (arith, same) in inr (subst (λ x. Inside (d.r x) px py) is inside)
      | inr other ↦ elim (Bool-cases (k == d.n - 1)) [
        | inl last ↦
            let is : k ≡ d.n - 1 = ground (arith, last) in
            inl (
              i,
              ground (arith, other, last, hk, hi),
              subst (λ (q : Rect). Inside q px py)
                  (ap d.r is ∙ sym (update_self d.r i (d.r (d.n - 1)))) inside,
            )
        | inr inner ↦ inl (
          k,
          ground (arith, inner, hk),
          subst (λ (q : Rect). Inside q px py)
              (sym (update_ne d.r i k (d.r (d.n - 1)) (==→≢ k i other))) inside,
        )
      ]
    ]

    pub merge_from-Merged :
        (f : ℕ) (d : DirtyRegion) (i : ℕ) (q : Rect)
        → d.n * 17 + (d.n - i) < f
        → IsValid d
        → OnScreen sw sh q
        → i ≤ d.n
        → ((j : ℕ) → j < i → touching (d.r j) q ≡ false)
        → (d' : DirtyRegion) × (q' : Rect) × (merge_from f d i q ≡ some (d', q')) × Merged d q d' q'
    unfolding merge_from
    merge_from-Merged zero d i q fuel v on le clear_to = elim fuel [ ]
    merge_from-Merged (suc f) d i q fuel v on le clear_to = elim (Bool-cases (ltb i d.n)) [
      | inr ended ↦ (
        d,
        q,
        rw ended refl,
        record {
          valid = v;
          grown = on;
          clear_of = λ j hj. clear_to j (ground (arith, ended, hj));
          keeps = λ px py c. inl c;
          keeps_new = λ px py c. c;
        },
      )
      | inl more ↦
          let hi : i < d.n = ground (arith, more) in
          elim (Bool-cases (touching (d.r i) q)) [
            | inl hit ↦
                let on_i = v.on_screen i hi in
                let q1 = union (d.r i) q in
                let on1 = union-OnScreen sw sh sw_fits sh_fits (d.r i) q on_i on in
                let ih =
                  merge_from-Merged f (removed d i) 0 q1 (omega (arith, fuel, hi, v.few))
                    (removed-IsValid d i hi v) on1 (omega arith) (λ j lt. elim lt [ ]) in
                let m = ih.3 in
                (
                  ih.0,
                  ih.1,
                  rw (more, hit) ih.2,
                  record {
                    valid = m.valid;
                    grown = m.grown;
                    clear_of = m.clear_of;
                    keeps = λ px py c. elim (removed-Covered d i px py hi c) [
                      | inl rest ↦ m.keeps px py rest
                      | inr gone ↦ inr (
                          m.keeps_new px py
                            (union-Inside_left sw sh sw_fits sh_fits (d.r i) q px py on_i on gone))
                    ];
                    keeps_new = λ px py c.
                        m.keeps_new px py
                          (union-Inside_right sw sh sw_fits sh_fits (d.r i) q px py on_i on c);
                  },
                )
            | inr miss ↦
                let ih =
                  merge_from-Merged f d (i + 1) q (omega (arith, fuel, hi)) v on (omega (arith, hi))
                    (λ j lt. clear_next j lt (Bool-cases (j == i)) miss) in
                (ih.0, ih.1, rw (more, miss) ih.2, ih.3)
          ]
    ]
      where
        clear_next :
            (j : ℕ)
            → j < i + 1
            → ((j == i) ≡ true) ⊎ ((j == i) ≡ false)
            → touching (d.r i) q ≡ false
            → touching (d.r j) q ≡ false
        clear_next j lt (inl same) miss =
            let is : j ≡ i = ground (arith, same) in
            subst (λ x. touching (d.r x) q ≡ false) (sym is) miss
        clear_next j lt (inr other) miss = clear_to j (ground (arith, other, lt))

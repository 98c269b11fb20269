-- ===== src/Dirty/Clip.antt =====
-- What clipping does to a rectangle, one axis at a time.
use kernel_rs.Prelude.{
  ℕ, ◌+◌, ◌<◌, ◌≤◌, ◌≡◌, refl, ◌⊎◌, inl, inr, ◌&&◌, none, some, arith, Bool-cases,
}
use kernel_rs.Prelude.Int.{
  ℤ, pos, negsuc, pos_part, neg_part, ◌+ℤ◌, ◌-ℤ◌, ◌≤ℤ◌, ◌<ℤ◌, ltb_ℤ, +ℤ_parts, -ℤ_parts,
}
use kernel_rs.Prelude.Signed.{add_i32, sub_i32, InI32, add_i32_exact, sub_i32_exact}
use kernel_rs.Dirty.{Rect, DirtyRegion, clip, clamp_low, clamp_high}
use kernel_rs.Dirty.Rects.{Inside, OnScreen, rect}

-- A position and a size that is not negative, with an end that is an `i32`.
pub record SaneAxis (a w : ℤ) : Type 0 where
  pub at : InI32 a
  pub size : pos 0 ≤ℤ w
  pub end : a +ℤ w <ℤ pos 2147483648

-- The part of an axis that is below `s`: where it begins, and its size, which may be negative.
record Axis (a w : ℤ) (s : ℕ) : Type 0 where
  low : ℕ
  size : ℤ
  low_is : clamp_low a ≡ pos low
  size_is : sub_i32 (clamp_high (pos s) (add_i32 a w)) (clamp_low a) ≡ size
  within : low + pos_part size ≤ s + neg_part size
  covers :
      (p : ℕ)
      → p < s
      → a ≤ℤ pos p
      → pos p <ℤ a +ℤ w
      → (low ≤ p) × (p + 1 + neg_part size ≤ low + pos_part size)

clamp_low_is : (a : ℤ) → clamp_low a ≡ pos (pos_part a)
clamp_low_is (pos n) = ground arith
clamp_low_is (negsuc n) = ground arith

-- One of the parts is zero.
one_part : (a : ℤ) → (pos_part a ≡ 0) ⊎ (neg_part a ≡ 0)
one_part (pos n) = inr refl
one_part (negsuc n) = inl refl

clamped_range :
    (a w : ℤ) (s : ℕ) (hi : ℤ)
    → clamp_high (pos s) (add_i32 a w) ≡ hi
    → hi ≤ℤ pos s
    → InI32 (hi -ℤ pos (pos_part a))
    → ((p : ℕ) → p < s → pos p <ℤ a +ℤ w → pos p <ℤ hi)
    → Axis a w s
clamped_range a w s hi e most in_range reach = record {
  low = pos_part a;
  size = hi -ℤ pos (pos_part a);
  low_is = clamp_low_is a;
  size_is = rw (e, clamp_low_is a) (sub_i32_exact hi (pos (pos_part a)) in_range);
  within = omega (arith, -ℤ_parts, most);
  covers = λ p lt from to. elim (one_part a) [
    | inl z ↦ omega (arith, -ℤ_parts, from, reach p lt to, z)
    | inr z ↦ omega (arith, -ℤ_parts, from, reach p lt to, z)
  ];
}

-- How far the end of an axis is from its clamped start.
end_InI32 :
    (a hi : ℤ)
    → InI32 a
    → hi <ℤ pos 2147483648
    → (a ≤ℤ hi) ⊎ (pos 0 ≤ℤ hi)
    → InI32 (hi -ℤ pos (pos_part a))
end_InI32 (pos n) hi in_range small (inl h) =
    (omega (arith, -ℤ_parts, in_range, h), omega (arith, -ℤ_parts, small))
end_InI32 (pos n) hi in_range small (inr h) =
    (omega (arith, -ℤ_parts, in_range, h), omega (arith, -ℤ_parts, small))
end_InI32 (negsuc n) hi in_range small (inl h) =
    (omega (arith, -ℤ_parts, in_range, h), omega (arith, -ℤ_parts, small))
end_InI32 (negsuc n) hi in_range small (inr h) =
    (omega (arith, -ℤ_parts, in_range, h), omega (arith, -ℤ_parts, small))

axis : (a w : ℤ) (s : ℕ) → s < 2147483648 → SaneAxis a w → Axis a w s
axis a w s small sane = elim (Bool-cases (ltb_ℤ (pos s) (a +ℤ w))) [
  | inl beyond ↦
      clamped_range a w s (pos s) (rw (exact, beyond) refl) (omega arith)
        (end_InI32 a (pos s) sane.at (omega (arith, small)) (inr (omega arith)))
        (λ p lt to. omega (arith, lt))
  | inr short ↦
      clamped_range a w s (a +ℤ w) (rw (exact, short) refl) (ground (arith, short))
        (end_InI32 a (a +ℤ w) sane.at sane.end (inl (omega (arith, +ℤ_parts, sane.size))))
        (λ p lt to. to)
]
  where
    exact : add_i32 a w ≡ a +ℤ w
    exact = add_i32_exact a w (omega (arith, +ℤ_parts, sane.at, sane.size), sane.end)

positive : (z : ℤ) → 0 < pos_part z → z ≡ pos (pos_part z)
positive (pos n) h = refl
positive (negsuc n) h = elim h [ ]

no_neg : (z : ℤ) → 0 < pos_part z → neg_part z ≡ 0
no_neg (pos n) h = refl
no_neg (negsuc n) h = elim h [ ]

pub record Sane (q : Rect) : Type 0 where
  pub across : SaneAxis q.x q.w
  pub down : SaneAxis q.y q.h

module _ (sw sh : ℕ) (sw_fits : sw < 2147483648) (sh_fits : sh < 2147483648) where
  pub clip-cases :
      (d : DirtyRegion) (q : Rect)
      → d.bw ≡ pos sw
      → d.bh ≡ pos sh
      → Sane q
      → ((clip d q ≡ none) × ((px py : ℕ) → px < sw → py < sh → Inside q px py → ⊥))
        ⊎ ((q' : Rect) × (clip d q ≡ some q')
            × OnScreen sw sh q'
            × ((px py : ℕ) → px < sw → py < sh → Inside q px py → Inside q' px py))
  unfolding clip
  clip-cases d q ew eh sane =
      let h = axis q.x q.w sw sw_fits sane.across in
      let v = axis q.y q.h sh sh_fits sane.down in
      elim (Bool-cases (ltb_ℤ (pos 0) h.size && ltb_ℤ (pos 0) v.size)) [
        | inl area ↦
            let wide : 0 < pos_part h.size = ground (arith, area) in
            let high : 0 < pos_part v.size = ground (arith, area) in
            let we = positive h.size wide in
            let he = positive v.size high in
            inr (
              rect h.low v.low (pos_part h.size) (pos_part v.size),
              rw (ew, eh, h.size_is, v.size_is, area, h.low_is, v.low_is) (rw (← we, ← he) refl),
              record {
                left = h.low;
                top = v.low;
                width = pos_part h.size;
                height = pos_part v.size;
                is = refl;
                wide = wide;
                high = high;
                right_in = omega (arith, h.within, no_neg h.size wide);
                bottom_in = omega (arith, v.within, no_neg v.size high);
              },
              λ px py lx ly i.
                  let ch = h.covers px lx i.0.0 i.0.1 in
                  let cv = v.covers py ly i.1.0 i.1.1 in
                  omega (arith, +ℤ_parts, ch, cv, no_neg h.size wide, no_neg v.size high),
            )
        | inr blank ↦ inl (
          rw (ew, eh, h.size_is, v.size_is, blank) refl,
          λ px py lx ly i.
              let ch = h.covers px lx i.0.0 i.0.1 in
              let cv = v.covers py ly i.1.0 i.1.1 in absurd (ground (arith, blank, ch, cv)),
        )
      ]

-- ===== src/Surface/Axis.antt =====
-- What `clip_to_surface` of kernel-rs/src/gui/surface.rs leaves of one axis of a rectangle.
use kernel_rs.Prelude.{
  ℕ, ◌+◌, ◌-◌, ◌<◌, ◌≤◌, ◌≡◌, refl, sym, ◌∙◌, ap, subst, inl, inr, Bool, true, false, ◌&&◌, ltb,
  leb, arith, Bool-cases,
}
use kernel_rs.Prelude.Int.{
  ℤ, pos, negsuc, pos_part, ltb_ℤ, leb_ℤ, ◌+ℤ◌, ◌-ℤ◌, ◌≤ℤ◌, ◌<ℤ◌, +ℤ_parts, -ℤ_parts,
}
use kernel_rs.Prelude.Signed.{sub_i32, add_i32, add_i32_exact, sub_i32_exact}
use kernel_rs.Dirty.{Rect}
use kernel_rs.Dirty.Clip.{SaneAxis}
use kernel_rs.Surface.{clip_start, clip_end}

-- The coordinate lies in the `w` from `a` on.
abbrev pub in_axis : ℤ → ℤ → ℕ → Bool
in_axis a w p = leb_ℤ a (pos p) && ltb_ℤ (pos p) (a +ℤ w)

abbrev pub in_rect : Rect → ℕ → ℕ → Bool
in_rect q px py = in_axis q.x q.w px && in_axis q.y q.h py

-- What is left of an axis: the `n` coordinates from `low` on.
pub record Left (a w : ℤ) (s : ℕ) (start size : ℤ) : Type 0 where
  pub low : ℕ
  pub start_is : start ≡ pos low
  pub within : 0 < pos_part size → low + pos_part size ≤ s
  pub same : (p : ℕ) → p < s → in_axis a w p ≡ (leb low p && ltb p (low + pos_part size))

diff_part : (s low : ℕ) → pos_part (pos s -ℤ pos low) ≡ s - low
unfolding ◌-ℤ◌
diff_part s low = ground arith

plain : (low p : ℕ) (w : ℤ) → in_axis (pos low) w p ≡ (leb low p && ltb p (low + pos_part w))
unfolding ◌+ℤ◌
plain low p (pos n) = ground arith
plain low p (negsuc n) = ground arith

beyond_lem : (s low : ℕ) (w : ℤ) → ltb_ℤ (pos s) (pos low +ℤ w) ≡ true → s < low + pos_part w
unfolding ◌+ℤ◌
beyond_lem s low (pos n) h = ground (arith, h)
beyond_lem s low (negsuc n) h = ground (arith, h)

inside_lem :
    (s low : ℕ) (w : ℤ)
    → ltb_ℤ (pos s) (pos low +ℤ w) ≡ false
    → 0 < pos_part w
    → low + pos_part w ≤ s
unfolding ◌+ℤ◌
inside_lem s low (pos n) h k = ground (arith, h)
inside_lem s low (negsuc n) h k = absurd (omega (arith, k))

end_Left :
    (a w : ℤ) (s low : ℕ) (w' : ℤ)
    → s < 2147483648
    → pos low +ℤ w' <ℤ pos 2147483648
    → negsuc 2147483647 ≤ℤ w'
    → low < 2147483648
    → ((p : ℕ) → in_axis a w p ≡ in_axis (pos low) w' p)
    → Left a w s (pos low) (clip_end (pos s) (pos low) w')
end_Left a w s low w' small fits least low_fits same =
    let exact : add_i32 (pos low) w' ≡ pos low +ℤ w' =
      add_i32_exact (pos low) w' (omega (arith, +ℤ_parts, fits, least), fits) in
    elim (Bool-cases (ltb_ℤ (pos s) (pos low +ℤ w'))) [
      | inl beyond ↦
          let rest : sub_i32 (pos s) (pos low) ≡ pos s -ℤ pos low =
            sub_i32_exact (pos s) (pos low) (omega (arith, -ℤ_parts), omega (arith, -ℤ_parts)) in
          rw (exact, beyond, rest)
            (record {
              low = low;
              start_is = refl;
              within = λ h. omega (arith, h, diff_part s low);
              same = λ p lt.
                  same p
                  ∙ plain low p w'
                  ∙ ground (arith, lt, diff_part s low, beyond_lem s low w' beyond);
            })
      | inr inside ↦
          rw (exact, inside)
            (record {
              low = low;
              start_is = refl;
              within = λ h. inside_lem s low w' inside h;
              same = λ p lt. same p ∙ plain low p w';
            })
    ]

clip_start-pos : (n : ℕ) (w : ℤ) → clip_start (pos n) w ≡ (pos n, w)
clip_start-pos n w = let low : ltb_ℤ (pos n) (pos 0) ≡ false = ground arith in rw low refl

clip_start-negsuc : (n : ℕ) (w : ℤ) → clip_start (negsuc n) w ≡ (pos 0, add_i32 w (negsuc n))
clip_start-negsuc n w = let low : ltb_ℤ (negsuc n) (pos 0) ≡ true = ground arith in rw low refl

moved_left : (n : ℕ) (w : ℤ) (p : ℕ) → in_axis (negsuc n) w p ≡ in_axis (pos 0) (w +ℤ negsuc n) p
unfolding ◌+ℤ◌
moved_left n (pos k) p = ground arith
moved_left n (negsuc k) p = ground arith

-- Clipping an axis that is sane leaves its part on the surface.
pub axis_Left :
    (a w : ℤ) (s : ℕ)
    → s < 2147483648
    → SaneAxis a w
    → Left a w s (clip_start a w).0 (clip_end (pos s) (clip_start a w).0 (clip_start a w).1)
axis_Left (pos n) w s small sane =
    subst (λ c. Left (pos n) w s c.0 (clip_end (pos s) c.0 c.1)) (sym (clip_start-pos n w))
      (end_Left (pos n) w s n w small sane.end (omega (arith, sane.size)) (omega (arith, sane.at))
        (λ p. refl))
axis_Left (negsuc n) w s small sane =
    let sum : add_i32 w (negsuc n) ≡ w +ℤ negsuc n =
      add_i32_exact w (negsuc n)
        (omega (arith, +ℤ_parts, sane.size, sane.at), omega (arith, +ℤ_parts, sane.end)) in
    subst (λ c. Left (negsuc n) w s c.0 (clip_end (pos s) c.0 c.1))
      (sym (clip_start-negsuc n w ∙ ap (λ k. (pos 0, k)) sum))
      (end_Left (negsuc n) w s 0 (w +ℤ negsuc n) small (omega (arith, +ℤ_parts, sane.end))
        (omega (arith, +ℤ_parts, sane.size, sane.at)) (omega arith) (moved_left n w))

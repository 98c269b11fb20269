-- ===== src/Vterm/Isolation.antt =====
-- Which terminals an operation touches, and which terminal `create` hands out.
use kernel_rs.Prelude.{
  ℕ, zero, suc, ◌+◌, ◌<◌, ◌≤◌, ◌≡◌, refl, ◌≢◌, ap, ◌⊎◌, inl, inr, true, false, Option, none, some,
  ◌==◌, if◌then◌else◌, Bool-cases, arith,
}
use kernel_rs.Vterm.{
  Vterm, Terms, empty, create, create_from, putc, putc_vt, push, getc, absent, vt_max,
}

-- Only the terminal `id` may differ, and it stays in use or free.
pub record Touches (id : ℕ) (t t' : Terms) : Type 0 where
  pub others : (j : ℕ) → j ≢ id → t'.vts j ≡ t.vts j
  pub in_use : (j : ℕ) → (t'.vts j).used ≡ (t.vts j).used
  pub console : t'.console_up ≡ t.console_up
  pub hook : t'.dirty_hook ≡ t.dirty_hook

putc-used : (c : ℕ) (v : Vterm) → (putc c v).used ≡ v.used
unfolding putc
putc-used c v = ground arith

putc-inq : (c : ℕ) (v : Vterm) → (putc c v).inq ≡ v.inq
unfolding putc
putc-inq c v = ground arith

-- Output to a terminal touches that terminal only and none of its typed input; on a number that is
-- out of range or free it changes nothing, and then calls no hook.
pub putc_vt-Touches :
    (id c : ℕ) (t : Terms)
    → Touches id t (putc_vt id c t).0
      × (((putc_vt id c t).0.vts id).inq ≡ (t.vts id).inq)
      × (absent id t ≡ true → putc_vt id c t ≡ (t, none))
unfolding putc_vt
putc_vt-Touches id c t = (
  record {
    others = λ j ne. ground arith;
    in_use = λ j. ground (arith, putc-used c (t.vts id));
    console = ground arith;
    hook = ground arith;
  },
  ground (arith, putc-inq c (t.vts id)),
  λ a. rw a,
)

-- Typed input to a terminal, and reading it back, touch that terminal only and none of the text
-- that it shows.
pub push-getc-Touches :
    (id c : ℕ) (t : Terms)
    → Touches id t (push (some id) c t)
      × Touches id t (getc id t).1
      × (((push (some id) c t).vts id).grid ≡ (t.vts id).grid)
      × (((getc id t).1.vts id).grid ≡ (t.vts id).grid)
unfolding push getc
push-getc-Touches id c t = (
  record {
    others = λ j ne. ground arith;
    in_use = λ j. ground arith;
    console = ground arith;
    hook = ground arith;
  },
  record {
    others = λ j ne. ground arith;
    in_use = λ j. ground arith;
    console = ground arith;
    hook = ground arith;
  },
  ground arith,
  ground arith,
)

pub record Created (from : ℕ) (t : Terms) (out : Terms × Option ℕ) : Type 0 where
  pub slot : ℕ
  pub fits : slot < vt_max
  pub returns : out.1 ≡ some slot
  pub was_free : (t.vts slot).used ≡ false
  pub first : (j : ℕ) → from ≤ j → j < slot → (t.vts j).used ≡ true
  pub now : (j : ℕ) → out.0.vts j ≡ (if j == slot then record empty { used = true } else t.vts j)
  pub console : out.0.console_up ≡ (if slot == 0 then true else t.console_up)

create_from_lem :
    (n i : ℕ) (t : Terms)
    → i + n ≡ vt_max
    → ((create_from n i t ≡ (t, none)) × ((j : ℕ) → i ≤ j → j < vt_max → (t.vts j).used ≡ true))
      ⊎ Created i t (create_from n i t)
unfolding create_from
create_from_lem zero i t e = inl (refl, λ j a b. absurd (omega arith))
create_from_lem (suc n) i t e = elim (Bool-cases (t.vts i).used) [
  | inr vacant ↦ inr (
      rw vacant (record {
        slot = i;
        fits = omega arith;
        returns = refl;
        was_free = vacant;
        first = λ j a b. absurd (omega arith);
        now = λ j. refl;
        console = refl;
      }))
  | inl busy ↦ rw busy (later busy (create_from_lem n (i + 1) t (omega arith)))
]
  where
    later :
        (t.vts i).used ≡ true
        → ((create_from n (i + 1) t ≡ (t, none))
            × ((j : ℕ) → i + 1 ≤ j → j < vt_max → (t.vts j).used ≡ true))
          ⊎ Created (i + 1) t (create_from n (i + 1) t)
        → ((create_from n (i + 1) t ≡ (t, none))
            × ((j : ℕ) → i ≤ j → j < vt_max → (t.vts j).used ≡ true))
          ⊎ Created i t (create_from n (i + 1) t)
    later busy (inl r) =
        inl (
          r.0,
          λ j a b. ground (arith, r.1 j, busy, ap (λ (x : ℕ). (t.vts x).used) {x = j} {y = i}),
        )
    later busy (inr r) = inr (record {
      slot = r.slot;
      fits = r.fits;
      returns = r.returns;
      was_free = r.was_free;
      first =
          λ j a b. ground (arith, r.first j, busy, ap (λ (x : ℕ). (t.vts x).used) {x = j} {y = i});
      now = r.now;
      console = r.console;
    })

-- `create` refuses and changes nothing exactly when all four terminals are in use; otherwise it
-- takes the first that is free, makes it blank, and raises the console flag for number 0.
pub create_lem :
    (t : Terms)
    → ((create t ≡ (t, none)) × ((j : ℕ) → 0 ≤ j → j < vt_max → (t.vts j).used ≡ true))
      ⊎ Created 0 t (create t)
unfolding create
create_lem t = create_from_lem vt_max 0 t refl

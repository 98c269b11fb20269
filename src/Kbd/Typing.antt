-- ===== src/Kbd/Typing.antt =====
-- What a scan code does: a release, a typed character without a route and with one.
use kernel_rs.Prelude.{
  ℕ, ◌<◌, ◌≤◌, ◌≡◌, refl, ◌≢◌, ap, false, ◌||◌, Option, some, none, arith, leb, ◌==◌, if◌then◌else◌,
  inl, inr, Option-cases,
}
use kernel_rs.Ring.Fifo.{IsValid, contents, enqueue, push_refines}
use kernel_rs.Vterm
use kernel_rs.Vterm.{Terms}
use kernel_rs.Kbd.{Kbd, kbd_on_scancode, key_press, type_char, key_char, push_char}
use kernel_rs.Kbd.Layout.{IsPlain, key_char-IsPlain, release-bit}

-- The release of a key types nothing and calls no hook: it ends the shift state if the key is a
-- shift key, and otherwise changes nothing.
pub release_lem :
    (sc : ℕ) (k : Kbd) (t : Terms)
    → 128 ≤ sc
    → sc < 256
    → kbd_on_scancode sc k t
      ≡ (record k { shift = if sc == 0xAA || sc == 0xB6 then false else k.shift }, t, none)
unfolding kbd_on_scancode
release_lem sc k t lo hi = ground (arith, release-bit sc lo hi)

-- A key with a character does what `key_press` does.
plain_press :
    (sc : ℕ) (k : Kbd) (t : Terms) → IsPlain sc → kbd_on_scancode sc k t ≡ key_press sc k t
unfolding kbd_on_scancode
plain_press sc k t p =
    let low : leb 128 sc ≡ false = ground (arith, p.below) in
    let not_aa : (sc == 0xAA) ≡ false = ground (arith, p.below) in
    let not_b6 : (sc == 0xB6) ≡ false = ground (arith, p.below) in
    rw (p.not_left, p.not_right, not_aa, not_b6, p.not_release, low)

-- The character `c` goes to one place.
pub record Types (c : ℕ) (k : Kbd) (t : Terms) (out : Kbd × Terms × Option ℕ) : Type 0 where
  pub shift_kept : out.0.shift ≡ k.shift
  pub no_call : out.2 ≡ none
  pub to_queue :
      k.route_vt ≡ none → (contents out.0.ring ≡ enqueue c (contents k.ring)) × (out.1 ≡ t)
  pub to_terminal :
      (id : ℕ)
      → k.route_vt ≡ some id
      → (contents out.0.ring ≡ contents k.ring) × (out.1 ≡ Vterm.push (some id) c t)

type_char-Types : (c : ℕ) (k : Kbd) (t : Terms) → IsValid k.ring → Types c k t (type_char c k t)
unfolding type_char push_char
type_char-Types c k t v = elim (Option-cases k.route_vt) [
  | inl e ↦
      rw (e, type_char)
        (record {
          shift_kept = refl;
          no_call = refl;
          to_queue = λ h. ((push_refines c k.ring v).0, refl);
          to_terminal = λ id h. cc;
        })
  | inr (id, e) ↦
      rw (e, type_char)
        (record {
          shift_kept = refl;
          no_call = refl;
          to_queue = λ h. cc;
          to_terminal = λ j h. (refl, ap (λ (x : Option ℕ). Vterm.push x c t) h);
        })
]

-- A key whose character under the present shift state is not 0 types that character: into the
-- keyboard's queue, which drops it only when it is full, or, with a route set, into the input of
-- that terminal and nowhere else. The shift state stays, and no hook is called.
pub typed_lem :
    (sc : ℕ) (k : Kbd) (t : Terms)
    → IsValid k.ring
    → key_char k.shift sc ≢ 0
    → Types (key_char k.shift sc) k t (kbd_on_scancode sc k t)
unfolding key_press
typed_lem sc k t v ne =
    let plain = key_char-IsPlain k.shift sc ne in
    let has_char : (key_char k.shift sc == 0) ≡ false = ground arith in
    rw (plain_press sc k t plain, plain.not_f1, has_char)
      (type_char-Types (key_char k.shift sc) k t v)

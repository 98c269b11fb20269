-- ===== src/Kbd/Layout.antt =====
-- What the two scan code tables have in common.
use Prim.Native.Nat.{bit_and}
use kernel_rs.Prelude.{
  ℕ, ◌+◌, ◌<◌, ◌≤◌, ◌≡◌, refl, ◌≢◌, ◌↔◌, Bool, true, false, not, ◌&&◌, arith, ltb, leb, ◌==◌,
  if◌then◌else◌, holds_below, holds_below_at, get_or, inl, inr, Bool-cases,
}
use kernel_rs.Kbd.{key_char, unshifted, shifted}

same_key : ℕ → ℕ → Bool
same_key lo up =
    (if lo == 0 then up == 0 else not (up == 0))
    && (if leb b'a' lo && leb lo b'z' then up + 32 == lo else true)

same_keys : ℕ → Bool
unfolding same_key
same_keys sc = same_key (get_or unshifted sc 0) (get_or shifted sc 0)

keys_table : holds_below same_keys 64 ≡ true
unfolding holds_below same_keys
keys_table = refl

abbrev SameKey : ℕ → ℕ → Type 0
SameKey lo up = ((up ≡ 0) ↔ (lo ≡ 0)) × (b'a' ≤ lo → lo ≤ b'z' → up + 32 ≡ lo)

same_key_sound : (lo up : ℕ) → same_key lo up ≡ true → SameKey lo up
unfolding same_key
same_key_sound lo up h = (((λ e. ground arith), (λ e. ground arith)), λ a b. ground arith)

-- A key has a character with shift exactly when it has one without, and shift turns a lower-case
-- letter into the same upper-case letter.
pub key_char_shift :
    (sc : ℕ)
    → ((key_char true sc ≡ 0) ↔ (key_char false sc ≡ 0))
      × (b'a' ≤ key_char false sc
          → key_char false sc ≤ b'z'
          → key_char true sc + 32 ≡ key_char false sc)
unfolding key_char same_keys
key_char_shift sc = elim (Bool-cases (ltb sc 64)) [
  | inr far ↦ rw far (((λ e. e), (λ e. e)), λ a b. absurd (omega arith))
  | inl near ↦ rw near (
      same_key_sound (get_or unshifted sc 0) (get_or shifted sc 0)
        (holds_below_at same_keys 64 sc (ground arith) keys_table))
]

-- The keys that the code treats apart have no character.
special_key : ℕ → ℕ → ℕ → Bool
special_key lo up sc =
    if lo == 0 && up == 0
    then true
    else (not (sc == 0x2A) && not (sc == 0x36) && not (sc == 0x3B) && (bit_and sc 0x80 == 0))

special_keys : ℕ → Bool
unfolding special_key
special_keys sc = special_key (get_or unshifted sc 0) (get_or shifted sc 0) sc

special_table : holds_below special_keys 64 ≡ true
unfolding holds_below special_keys
special_table = refl

-- A key with a character is neither shift, nor F1, nor a release.
pub record IsPlain (sc : ℕ) : Type 0 where
  pub below : sc < 64
  pub not_left : (sc == 0x2A) ≡ false
  pub not_right : (sc == 0x36) ≡ false
  pub not_f1 : (sc == 0x3B) ≡ false
  pub not_release : (bit_and sc 0x80 == 0) ≡ true

IsPlain-row :
    (shift : Bool) (lo up sc : ℕ)
    → sc < 64
    → special_key lo up sc ≡ true
    → (if shift then up else lo) ≢ 0
    → IsPlain sc
unfolding special_key
IsPlain-row true lo up sc lt row ne = record {
  below = lt;
  not_left = ground arith;
  not_right = ground arith;
  not_f1 = ground arith;
  not_release = ground arith;
}
IsPlain-row false lo up sc lt row ne = record {
  below = lt;
  not_left = ground arith;
  not_right = ground arith;
  not_f1 = ground arith;
  not_release = ground arith;
}

pub key_char-IsPlain : (shift : Bool) (sc : ℕ) → key_char shift sc ≢ 0 → IsPlain sc
unfolding key_char special_keys
key_char-IsPlain shift sc ne = elim (Bool-cases (ltb sc 64)) [
  | inr far ↦ absurd (ne (rw far))
  | inl near ↦
      IsPlain-row shift (get_or unshifted sc 0) (get_or shifted sc 0) sc (ground arith)
        (holds_below_at special_keys 64 sc (ground arith) special_table) (rw near at ne)
]

-- A code with the release bit, among the bytes.
marked : ℕ → Bool
marked sc = if ltb sc 128 then true else not (bit_and sc 0x80 == 0)

release_table : holds_below marked 256 ≡ true
unfolding holds_below marked
release_table = refl

pub release-bit : (sc : ℕ) → 128 ≤ sc → sc < 256 → (bit_and sc 0x80 == 0) ≡ false
unfolding marked
release-bit sc lo hi = ground (arith, holds_below_at marked 256 sc hi release_table)

-- ===== src/Kbd.antt =====
-- The keyboard, kernel-rs/src/kbd.rs: scan codes of set 1 to ASCII, the shift state, and the ring.
-- With a route set, a typed byte goes to that terminal instead (kernel-rs/src/vterm.rs).
pub mod Layout
pub mod Typing
mod Tests
use Prim.Native.Nat.{bit_and}
use kernel_rs.Prelude.{
  ℕ, zero, suc, ◌+◌, ◌-◌, Bool, true, false, not, ◌||◌, Option, none, some, List, [], ◌∷◌, get_or,
  ltb, leb, ◌==◌, if◌then◌else◌,
}
use kernel_rs.Ring
use kernel_rs.Ring.{Ring}
use kernel_rs.Vterm
use kernel_rs.Vterm.{Terms}

-- BUF, HEAD and TAIL, SHIFT, ROUTE_VT (`none` when it is negative), and whether FN_HOOK is set.
pub record Kbd : Type 0 where
  pub ring : Ring
  pub shift : Bool
  pub route_vt : Option ℕ
  pub fn_hook : Bool

-- The 64 entries of the table; the padding to 128 is 0 everywhere.
abbrev pub unshifted : List ℕ
unshifted =
    0 ∷ 27 ∷ b'1' ∷ b'2' ∷ b'3' ∷ b'4' ∷ b'5' ∷ b'6' ∷ b'7' ∷ b'8' ∷ b'9' ∷ b'0' ∷ b'-' ∷ b'=' ∷ 8
    ∷ 9 ∷ b'q' ∷ b'w' ∷ b'e' ∷ b'r' ∷ b't' ∷ b'y' ∷ b'u' ∷ b'i' ∷ b'o' ∷ b'p' ∷ b'[' ∷ b']' ∷ 10 ∷ 0
    ∷ b'a' ∷ b's' ∷ b'd' ∷ b'f' ∷ b'g' ∷ b'h' ∷ b'j' ∷ b'k' ∷ b'l' ∷ b';' ∷ 39 ∷ b'`' ∷ 0 ∷ 92
    ∷ b'z' ∷ b'x' ∷ b'c' ∷ b'v' ∷ b'b' ∷ b'n' ∷ b'm' ∷ b',' ∷ b'.' ∷ b'/' ∷ 0 ∷ b'*' ∷ 0 ∷ b' ' ∷ 0
    ∷ 0 ∷ 0 ∷ 0 ∷ 0 ∷ 0 ∷ []

abbrev pub shifted : List ℕ
shifted =
    0 ∷ 27 ∷ b'!' ∷ b'@' ∷ b'#' ∷ b'$' ∷ b'%' ∷ b'^' ∷ b'&' ∷ b'*' ∷ b'(' ∷ b')' ∷ b'_' ∷ b'+' ∷ 8
    ∷ 9 ∷ b'Q' ∷ b'W' ∷ b'E' ∷ b'R' ∷ b'T' ∷ b'Y' ∷ b'U' ∷ b'I' ∷ b'O' ∷ b'P' ∷ b'{' ∷ b'}' ∷ 10 ∷ 0
    ∷ b'A' ∷ b'S' ∷ b'D' ∷ b'F' ∷ b'G' ∷ b'H' ∷ b'J' ∷ b'K' ∷ b'L' ∷ b':' ∷ 34 ∷ b'~' ∷ 0 ∷ b'|'
    ∷ b'Z' ∷ b'X' ∷ b'C' ∷ b'V' ∷ b'B' ∷ b'N' ∷ b'M' ∷ b'<' ∷ b'>' ∷ b'?' ∷ 0 ∷ b'*' ∷ 0 ∷ b' ' ∷ 0
    ∷ 0 ∷ 0 ∷ 0 ∷ 0 ∷ 0 ∷ []

pub push_char : ℕ → Kbd → Kbd
push_char c k = record k { ring = Ring.push c k.ring }

pub getchar : Kbd → Option ℕ × Kbd
getchar k = let (c, r) = Ring.pop k.ring in (c, record k { ring = r })

-- The character of a key, 0 for none.
unfoldable pub key_char : Bool → ℕ → ℕ
key_char shift sc =
    if ltb sc 64 then (if shift then get_or shifted sc 0 else get_or unshifted sc 0) else 0

-- A typed character goes to the routed terminal, or else into the ring.
pub type_char : ℕ → Kbd → Terms → Kbd × Terms × Option ℕ
type_char c k t = elim k.route_vt [
  | some id ↦ (k, Vterm.push (some id) c t, none)
  | none ↦ (push_char c k, t, none)
]

-- A key that is neither shift nor a release: F1, nothing, or a character.
key_press : ℕ → Kbd → Terms → Kbd × Terms × Option ℕ
key_press sc k t =
    if sc == 0x3B
    then (k, t, if k.fn_hook then some 1 else none)
    else (let c = key_char k.shift sc in if c == 0 then (k, t, none) else type_char c k t)

-- The third part is the argument of a call of the function-key hook.
unfoldable pub kbd_on_scancode : ℕ → Kbd → Terms → Kbd × Terms × Option ℕ
unfolding key_press
kbd_on_scancode sc k t =
    if sc == 0x2A || sc == 0x36
    then (record k { shift = true }, t, none)
    else (if sc == 0xAA || sc == 0xB6
        then (record k { shift = false }, t, none)
        else (if not (bit_and sc 0x80 == 0)
            then (k, t, none)
            else (if leb 128 sc then (k, t, none) else key_press sc k t)))

-- ===== src/Kbd/Tests.antt =====
-- Keys on a keyboard with no route, and with one.
use kernel_rs.Prelude.{◌≡◌, refl, true, false, none, some}
use kernel_rs.Ring
use kernel_rs.Vterm
use kernel_rs.Vterm.{Terms}
use kernel_rs.Kbd.{Kbd, kbd_on_scancode, key_char}

abbrev idle : Kbd
idle = record { ring = Ring.empty; shift = false; route_vt = none; fn_hook = true }

abbrev terms : Terms
terms = record { vts = λ i. Vterm.empty; console_up = false; dirty_hook = false }

types_f : key_char false 0x21 ≡ b'f'
unfolding key_char
types_f = refl

f1_calls_hook : (kbd_on_scancode 0x3B idle terms).2 ≡ some 1
unfolding kbd_on_scancode
f1_calls_hook = refl

-- ===== src/Mouse.antt =====
-- The mouse, kernel-rs/src/gui/mouse.rs: packets of three bytes, and the position on the screen. The
-- set-up of the controller, which is port accesses, is left out but for the position it starts at.
pub mod Packet
mod Tests
use Prim.Native.Nat.{bit_and}
use kernel_rs.Prelude.{
  ℕ, zero, suc, ◌+◌, ◌-◌, ◌%◌, Bool, true, false, not, ◌&&◌, update, ltb, ◌==◌, if◌then◌else◌,
}
use kernel_rs.Prelude.Int.{ℤ, pos, negsuc, ltb_ℤ, leb_ℤ}
use kernel_rs.Prelude.Signed.{add_i32, sub_i32}

-- X, Y, BUTTONS, CYCLE and PACKET.
pub record Mouse : Type 0 where
  pub x : ℤ
  pub y : ℤ
  pub buttons : ℕ
  pub cycle : ℕ
  pub packet : ℕ → ℕ

-- The position after `init`.
abbrev pub started : Mouse
started = record { x = pos 640; y = pos 400; buttons = 0; cycle = 0; packet = λ i. 0 }

-- `b as i8 as i32`.
unfoldable pub signed_byte : ℕ → ℤ
signed_byte b = if ltb b 128 then pos b else negsuc (255 - b)

-- A coordinate that the screen of `size` pixels has.
unfoldable pub onto_screen : ℕ → ℤ → ℤ
onto_screen size a =
    let low = if ltb_ℤ a (pos 0) then pos 0 else a in
    if leb_ℤ (pos size) low then sub_i32 (pos size) (pos 1) else low

-- The move of a whole packet, on a screen of `width` and `height`.
unfoldable pub move : ℕ → ℕ → Mouse → Mouse
move width height m =
    let dx = if not (bit_and (m.packet 0) 64 == 0) then pos 0 else signed_byte (m.packet 1) in
    let dy = if not (bit_and (m.packet 0) 128 == 0) then pos 0 else signed_byte (m.packet 2) in
    record m {
      x = onto_screen width (add_i32 m.x dx);
      y = onto_screen height (sub_i32 m.y dy);
      buttons = bit_and (m.packet 0) 7;
    }

-- The byte `b` has come in.
unfoldable pub irq_handler : ℕ → ℕ → ℕ → Mouse → Mouse
irq_handler width height b m =
    let idx = m.cycle % 3 in
    let stored = record m { packet = update m.packet idx b } in
    if idx == 0 && (bit_and b 8 == 0)
    then record stored { cycle = 0 }
    else (let next = (m.cycle + 1) % 256 in
        if ltb next 3
        then record stored { cycle = next }
        else move width height (record stored { cycle = 0 }))

-- ===== src/Mouse/Packet.antt =====
-- What the mouse does with a byte and with three of them.
use Prim.Native.Nat.{bit_and}
use kernel_rs.Prelude.{
  ℕ, ◌+◌, ◌-◌, ◌%◌, ◌<◌, ◌≡◌, ◌≢◌, refl, ◌∙◌, ap, inl, inr, Bool, true, false, not, ◌&&◌, ltb, leb,
  ◌==◌, if◌then◌else◌, arith, Bool-cases,
}
use kernel_rs.Prelude.Int.{
  ℤ, pos, negsuc, ◌≤ℤ◌, ◌<ℤ◌, ◌+ℤ◌, ◌-ℤ◌, min_ℤ, max_ℤ, +ℤ_parts, -ℤ_parts, eq_of_parts,
}
use kernel_rs.Prelude.Signed.{add_i32, sub_i32, sub_i32-pos, add_i32_exact, sub_i32_exact}
use kernel_rs.Mouse.{Mouse, signed_byte, onto_screen, move, irq_handler}

-- The position is a pixel of the screen, and the packet is not yet whole.
pub record IsOnScreen (width height : ℕ) (m : Mouse) : Type 0 where
  pub x : (pos 0 ≤ℤ m.x) × (m.x <ℤ pos width)
  pub y : (pos 0 ≤ℤ m.y) × (m.y <ℤ pos height)
  pub cycle : m.cycle < 3

onto_screen-within :
    (size : ℕ) (a : ℤ)
    → 0 < size
    → size < 2147483648
    → (pos 0 ≤ℤ onto_screen size a) × (onto_screen size a <ℤ pos size)
unfolding onto_screen
onto_screen-within size a some_pixel small =
    let last : sub_i32 (pos size) (pos 1) ≡ pos (size - 1) =
      sub_i32-pos size 1 (omega arith) (omega arith) in
    rw last (ground arith)

-- On a screen with at least a pixel, whatever bytes come in, the position stays a pixel of the screen
-- and at most two bytes of a packet are kept.
pub irq_handler-IsOnScreen :
    (width height b : ℕ) (m : Mouse)
    → 0 < width
    → width < 2147483648
    → 0 < height
    → height < 2147483648
    → IsOnScreen width height m
    → IsOnScreen width height (irq_handler width height b m)
unfolding irq_handler move
irq_handler-IsOnScreen width height b m w0 w h0 h on =
    elim (Bool-cases (m.cycle % 3 == 0 && (bit_and b 8 == 0))) [
      | inl resync ↦ rw resync (record { x = on.x; y = on.y; cycle = omega arith })
      | inr fine ↦ elim (Bool-cases (ltb ((m.cycle + 1) % 256) 3)) [
        | inl more ↦ rw (fine, more) (record { x = on.x; y = on.y; cycle = ground (arith, more) })
        | inr whole ↦
            rw (fine, whole)
              (record {
                x = onto_screen-within width _ w0 w;
                y = onto_screen-within height _ h0 h;
                cycle = omega arith;
              })
      ]
    ]

-- The nearest coordinate on the screen, in integers without a bound.
abbrev pub nearest : ℕ → ℤ → ℤ
nearest size a = max_ℤ (pos 0) (min_ℤ (pos size -ℤ pos 1) a)

-- A movement of the packet, in integers: 0 where the overflow bit is set.
abbrev pub movement : Bool → ℕ → ℤ
movement overflow b = if overflow then pos 0 else (pos b -ℤ (if leb 128 b then pos 256 else pos 0))

signed_byte_range : (b : ℕ) → b < 256 → (negsuc 127 ≤ℤ signed_byte b) × (signed_byte b ≤ℤ pos 127)
unfolding signed_byte
signed_byte_range b h = ground arith

signed_byte_lem :
    (b : ℕ) → b < 256 → signed_byte b ≡ pos b -ℤ (if leb 128 b then pos 256 else pos 0)
unfolding signed_byte ◌-ℤ◌
signed_byte_lem b h = ground arith

onto_screen-nearest :
    (size : ℕ) (a : ℤ) → 0 < size → size < 2147483648 → onto_screen size a ≡ nearest size a
unfolding onto_screen min_ℤ max_ℤ
onto_screen-nearest size a some_pixel small =
    let last : sub_i32 (pos size) (pos 1) ≡ pos (size - 1) =
      sub_i32-pos size 1 (omega arith) (omega arith) in
    let end : pos size -ℤ pos 1 ≡ pos (size - 1) = omega (arith, -ℤ_parts, eq_of_parts) in
    rw (last, end) (ground arith)

-- The byte of a movement, as the handler reads it.
abbrev byte_move : Bool → ℕ → ℤ
byte_move overflow b = if overflow then pos 0 else signed_byte b

byte_move_lem :
    (overflow : Bool) (b : ℕ)
    → b < 256
    → (byte_move overflow b ≡ movement overflow b)
      × (negsuc 127 ≤ℤ byte_move overflow b)
      × (byte_move overflow b ≤ℤ pos 127)
byte_move_lem true b h = (refl, omega arith, omega arith)
byte_move_lem false b h =
    let (least, most) = signed_byte_range b h in (signed_byte_lem b h, least, most)

right :
    (size : ℕ) (x : ℤ) (overflow : Bool) (b : ℕ)
    → 0 < size
    → size < 2147483520
    → pos 0 ≤ℤ x
    → x <ℤ pos size
    → b < 256
    → onto_screen size (add_i32 x (byte_move overflow b)) ≡ nearest size (x +ℤ movement overflow b)
right size x overflow b some_pixel small low high byte =
    let (same, least, most) = byte_move_lem overflow b byte in
    let exact : add_i32 x (byte_move overflow b) ≡ x +ℤ byte_move overflow b =
      add_i32_exact x (byte_move overflow b) (
        omega (arith, +ℤ_parts, least, most, low, high),
        omega (arith, +ℤ_parts, least, most, low, high),
      ) in
    ap (onto_screen size) (exact ∙ ap (λ d. x +ℤ d) same)
    ∙ onto_screen-nearest size (x +ℤ movement overflow b) some_pixel (omega arith)

down :
    (size : ℕ) (y : ℤ) (overflow : Bool) (b : ℕ)
    → 0 < size
    → size < 2147483520
    → pos 0 ≤ℤ y
    → y <ℤ pos size
    → b < 256
    → onto_screen size (sub_i32 y (byte_move overflow b)) ≡ nearest size (y -ℤ movement overflow b)
down size y overflow b some_pixel small low high byte =
    let (same, least, most) = byte_move_lem overflow b byte in
    let exact : sub_i32 y (byte_move overflow b) ≡ y -ℤ byte_move overflow b =
      sub_i32_exact y (byte_move overflow b) (
        omega (arith, -ℤ_parts, least, most, low, high),
        omega (arith, -ℤ_parts, least, most, low, high),
      ) in
    ap (onto_screen size) (exact ∙ ap (λ d. y -ℤ d) same)
    ∙ onto_screen-nearest size (y -ℤ movement overflow b) some_pixel (omega arith)

-- On a screen of at least a pixel and of less than 2^31 - 128 either way, with no byte of a packet
-- kept: three bytes of which the first has bit 3 set move the position by the two signed numbers in
-- the other two, upwards for the second, with 0 for one whose overflow bit is set; a position off the
-- screen becomes the nearest one on it, the buttons are the low three bits of the first byte, and the
-- next byte begins a packet.
pub irq_handler_packet :
    (width height b0 b1 b2 : ℕ) (m : Mouse)
    → 0 < width
    → width < 2147483520
    → 0 < height
    → height < 2147483520
    → IsOnScreen width height m
    → m.cycle ≡ 0
    → bit_and b0 8 ≢ 0
    → b1 < 256
    → b2 < 256
    → let step = irq_handler width height in
      let m' = step b2 (step b1 (step b0 m)) in
      (m'.x ≡ nearest width (m.x +ℤ movement (not (bit_and b0 64 == 0)) b1))
      × (m'.y ≡ nearest height (m.y -ℤ movement (not (bit_and b0 128 == 0)) b2))
      × (m'.buttons ≡ bit_and b0 7)
      × (m'.cycle ≡ 0)
unfolding irq_handler move
irq_handler_packet width height b0 b1 b2 m w0 w h0 h on start sync r1 r2 =
    let bit : (bit_and b0 8 == 0) ≡ false = ground (arith, sync) in
    rw (start, bit)
      (
        right width m.x (not (bit_and b0 64 == 0)) b1 w0 w on.x.0 on.x.1 r1,
        down height m.y (not (bit_and b0 128 == 0)) b2 h0 h on.y.0 on.y.1 r2,
        refl,
        refl,
      )

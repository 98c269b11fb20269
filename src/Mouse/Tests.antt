-- ===== src/Mouse/Tests.antt =====
-- The mouse on a screen of 1280 by 800.
use Prim.Native.Nat.{bit_and}
use kernel_rs.Prelude.{◌≡◌, refl, not, ◌==◌, arith}
use kernel_rs.Prelude.Int.{pos, ◌+ℤ◌, ◌-ℤ◌}
use kernel_rs.Mouse.{started, irq_handler}
use kernel_rs.Mouse.Packet.{IsOnScreen, irq_handler_packet, nearest, movement}

started-IsOnScreen : IsOnScreen 1280 800 started
started-IsOnScreen = record {
  x = (omega arith, omega arith);
  y = (omega arith, omega arith);
  cycle = omega arith;
}

-- Five to the right and six down, with the left button.
irq_handler_packet_example :
    let step = irq_handler 1280 800 in
    let m' = step 250 (step 5 (step 9 started)) in
    (m'.x ≡ nearest 1280 (pos 640 +ℤ movement (not (bit_and 9 64 == 0)) 5))
    × (m'.y ≡ nearest 800 (pos 400 -ℤ movement (not (bit_and 9 128 == 0)) 250))
    × (m'.buttons ≡ bit_and 9 7)
    × (m'.cycle ≡ 0)
irq_handler_packet_example =
    irq_handler_packet 1280 800 9 5 250 started (omega arith) (omega arith) (omega arith)
      (omega arith) started-IsOnScreen refl (λ h. absurd (omega (arith, h))) (omega arith)
      (omega arith)

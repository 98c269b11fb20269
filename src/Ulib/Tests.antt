-- ===== src/Ulib/Tests.antt =====
-- `atoi` of "  -42" and a newline, and a block of 5000 bytes.
use kernel_rs.Prelude.{◌≡◌, refl, [], ◌∷◌, arith}
use kernel_rs.Prelude.Int.{pos, negsuc}
use kernel_rs.Syscall.Sbrk.{Heap}
use kernel_rs.Syscall.Sample.{heap}
use kernel_rs.Ulib.{atoi, skip_spaces, digits_from, as_i32, after_spaces}
use kernel_rs.Ulib.Atoi.{print, spaces, atoi-print}

atoi-print_example : atoi (spaces 2 (print 2 (negsuc 41) (10 ∷ []))) ≡ negsuc 41
atoi-print_example =
    atoi-print 2 1 (negsuc 41) (10 ∷ []) (omega arith, omega arith) (omega arith) refl

-- A number from 2^31 on goes round.
atoi_wraps : atoi (b'4' ∷ b'2' ∷ b'9' ∷ b'4' ∷ b'9' ∷ b'6' ∷ b'7' ∷ b'2' ∷ b'9' ∷ b'8' ∷ []) ≡ pos 2
unfolding skip_spaces digits_from as_i32 after_spaces
atoi_wraps = refl

-- The heap of a program that starts.
abbrev fresh_heap : Heap
fresh_heap = record heap { brk = 0x600000000000 }

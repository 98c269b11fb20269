-- ===== src/Ring.antt =====
-- The 128-byte ring that the keyboard and each terminal keep, kernel-rs/src/kbd.rs and
-- kernel-rs/src/vterm.rs: an array, the index of the next write and the index of the next read.
-- The array is a function of the index; only indices below the size are used.
pub mod Fifo
mod Tests
use kernel_rs.Prelude.{ℕ, ◌+◌, ◌%◌, Option, none, some, update, ◌==◌, if◌then◌else◌}

abbrev pub ring_size : ℕ
ring_size = 128

pub record Ring : Type 0 where
  pub buf : ℕ → ℕ
  pub head : ℕ
  pub tail : ℕ

abbrev pub empty : Ring
empty = record { buf = λ i. 0; head = 0; tail = 0 }

-- A byte that does not fit is dropped.
unfoldable pub push : ℕ → Ring → Ring
push c r =
    let next = (r.head + 1) % ring_size in
    if next == r.tail then r else record r { buf = update r.buf r.head c; head = next }

-- `none` is the -1 of an empty ring.
unfoldable pub pop : Ring → Option ℕ × Ring
pop r =
    if r.head == r.tail
    then (none, r)
    else (some (r.buf r.tail), record r { tail = (r.tail + 1) % ring_size })

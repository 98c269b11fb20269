-- ===== src/Vterm/Tests.antt =====
-- Text on a terminal, and a table with one terminal in use.
use kernel_rs.Prelude.{ℕ, ◌≢◌, ◌≡◌, refl, true, List, [], ◌∷◌, ◌==◌, if◌then◌else◌}
use kernel_rs.Vterm.{Terms, empty, putc, putc_vt}
use kernel_rs.Vterm.Paper.{Shows, blank, write_all, puts, puts_refines}

abbrev terms : Terms
terms = record {
  vts = λ i. if i == 0 then record empty { used = true } else empty;
  console_up = true;
  dirty_hook = true;
}

abbrev hello : List ℕ
hello = b'h' ∷ b'i' ∷ b'\r' ∷ b'\n' ∷ b'!' ∷ []

hello_shown : ((puts 0 hello terms).vts 0).grid 1 0 ≡ b'!'
unfolding puts putc_vt putc
hello_shown = refl

puts_refines_example :
    (top : ℕ) × Shows (write_all hello blank) top ((puts 0 hello terms).vts 0)
    × ((j : ℕ) → j ≢ 0 → (puts 0 hello terms).vts j ≡ terms.vts j)
puts_refines_example = puts_refines 0 hello terms refl refl

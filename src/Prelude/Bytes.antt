-- ===== src/Prelude/Bytes.antt =====
-- Text in fixed buffers: bytes up to the first NUL. Texts are ASCII, so the checks for UTF-8 in the
-- source succeed.
use kernel_rs.Prelude.Tests.{◌==◌, if◌then◌else◌}
use kernel_rs.Prelude.Lists.{length, take, replicate}
use Prim.Native.Nat.{ℕ, zero, suc, ◌-◌, min}
use mathlib.Core.Path.{◌≡◌, refl}
use mathlib.Core.Logic.{◌≢◌}
use mathlib.Core.List.{List, [], ◌∷◌, ◌++◌}
use native.Mathlib.Omega.{arith}

-- The bytes before the first NUL.
abbrev pub until_nul : List ℕ → List ℕ
until_nul [] = []
until_nul (b ∷ bs) = if b == 0 then [] else b ∷ until_nul bs

-- A buffer of `n` bytes that holds `s`, cut to leave room for a NUL, and padded with NULs.
abbrev pub buf_copy : ℕ → List ℕ → List ℕ
buf_copy n s = take (n - 1) s ++ replicate (n - min (n - 1) (length s)) 0

abbrev pub NoNul : List ℕ → Type 0
NoNul [] = Unit {0}
NoNul (b ∷ bs) = (b ≢ 0) × NoNul bs

until_nul-pad : (k : ℕ) → until_nul (replicate k 0) ≡ []
until_nul-pad zero = refl
until_nul-pad (suc k) = refl

pub until_nul-append : (s : List ℕ) (k : ℕ) → NoNul s → until_nul (s ++ replicate k 0) ≡ s
until_nul-append [] k h = until_nul-pad k
until_nul-append (b ∷ bs) k h = ground (arith, h.0, until_nul-append bs k h.1)

pub take-NoNul : (n : ℕ) (s : List ℕ) → NoNul s → NoNul (take n s)
take-NoNul zero s h = tt
take-NoNul (suc n) [] h = tt
take-NoNul (suc n) (b ∷ bs) h = (h.0, take-NoNul n bs h.1)

-- What a buffer reads back.
pub until_nul-buf_copy : (n : ℕ) (s : List ℕ) → NoNul s → until_nul (buf_copy n s) ≡ take (n - 1) s
until_nul-buf_copy n s h = until_nul-append (take (n - 1) s) _ (take-NoNul (n - 1) s h)

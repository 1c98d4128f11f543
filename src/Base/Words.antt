-- ===== src/Base/Words.antt =====
-- Unsigned machine words as native numbers, with the wrap-around written out.
use Prim.Native.Nat.{ℕ, ◌+◌, ◌-◌, ◌%◌, ◌^◌, ◌<◌}
use mathlib.Core.Path.{◌≡◌}
use native.Mathlib.Omega.{arith}

abbrev pub u16_mod : ℕ
u16_mod = 2 ^ 16

abbrev pub u32_mod : ℕ
u32_mod = 2 ^ 32

-- uint16 addition and subtraction
abbrev pub add16 : ℕ → ℕ → ℕ
add16 a b = (a + b) % u16_mod

abbrev pub sub16 : ℕ → ℕ → ℕ
sub16 a b = (a + (u16_mod - b)) % u16_mod

-- uint32 addition and subtraction
abbrev pub add32 : ℕ → ℕ → ℕ
add32 a b = (a + b) % u32_mod

abbrev pub sub32 : ℕ → ℕ → ℕ
sub32 a b = (a + (u32_mod - b % u32_mod)) % u32_mod

pub add16-sub16 : (a b : ℕ) → a < u16_mod → b < u16_mod → add16 b (sub16 a b) ≡ a
add16-sub16 a b ha hb = omega arith

pub sub16-add16 : (a b : ℕ) → a < u16_mod → b < u16_mod → sub16 (add16 b a) b ≡ a
sub16-add16 a b ha hb = omega arith

pub sub32-add32 : (a b : ℕ) → sub32 (add32 b a) b ≡ a % u32_mod
sub32-add32 a b = omega arith

-- ===== src/Base/Bits.antt =====
-- Single bits of a number, and the union of two bit sets.
use Prim.Native.Nat.{
  ℕ, zero, suc, ◌+◌, ◌*◌, ◌/◌, ◌%◌, ◌≤◌, ◌<◌, max, min, bit_or, bit_and, digits, bitwise,
  bit_or-bitwise, bit_and-bitwise,
}
use mathlib.Core.Path.{◌≡◌, refl, sym, ◌∙◌, ap}
use mathlib.Core.Bool.{Bool, true, ◌&&◌}
use native.Mathlib.Omega.{arith}

-- `(n >> k) & 1`
abbrev pub bit_at : ℕ → ℕ → ℕ
bit_at n zero = n % 2
bit_at n (suc k) = bit_at (n / 2) k

-- The native operations go by their digits. One law for all of them: the digits above the lowest one
-- are combined apart from it, if that is so where the first number has run out.
module _ (z : ℕ → ℕ) (f : ℕ → ℕ → ℕ) where
  digits-fuel : (n m a b : ℕ) → a ≤ n → a ≤ m → digits z f n a b ≡ digits z f m a b
  digits-fuel n m zero b h k = run_out n b ∙ sym (run_out m b)
    where
      run_out : (fuel b : ℕ) → digits z f fuel 0 b ≡ z b
      run_out zero b = refl
      run_out (suc fuel) b = refl
  digits-fuel zero m (suc a) b h k = absurd (omega arith)
  digits-fuel (suc n) zero (suc a) b h k = absurd (omega arith)
  digits-fuel (suc n) (suc m) (suc a) b h k =
      ap (λ high. high * 2 + f (suc a % 2) (b % 2))
        (digits-fuel n m (suc a / 2) (b / 2) (omega arith) (omega arith))

  bitwise-halves :
      ((b : ℕ) → z b ≡ z (b / 2) * 2 + f 0 (b % 2))
      → (a b : ℕ) → bitwise z f a b ≡ bitwise z f (a / 2) (b / 2) * 2 + f (a % 2) (b % 2)
  bitwise-halves out zero b = out b
  bitwise-halves out (suc a) b =
      ap (λ high. high * 2 + f (suc a % 2) (b % 2))
        (digits-fuel a (suc a / 2) (suc a / 2) (b / 2) (omega arith) (omega arith))

bit_or_step : (a b : ℕ) → bit_or a b ≡ bit_or (a / 2) (b / 2) * 2 + max (a % 2) (b % 2)
bit_or_step a b = omega (
  arith,
  bit_or-bitwise a b,
  bit_or-bitwise (a / 2) (b / 2),
  bitwise-halves (λ b. b) max (λ b. omega arith) a b,
)

bit_and_step : (a b : ℕ) → bit_and a b ≡ bit_and (a / 2) (b / 2) * 2 + min (a % 2) (b % 2)
bit_and_step a b = omega (
  arith,
  bit_and-bitwise a b,
  bit_and-bitwise (a / 2) (b / 2),
  bitwise-halves (λ b. 0) min (λ b. omega arith) a b,
)

bit_and-zero : (k a : ℕ) → a ≤ k → bit_and a 0 ≡ 0
bit_and-zero k zero h = bit_and-bitwise 0 0
bit_and-zero zero (suc a) h = absurd (omega arith)
bit_and-zero (suc k) (suc a) h =
    omega (arith, bit_and_step (suc a) 0, bit_and-zero k (suc a / 2) (omega arith))

-- `n & 0x1F`
pub bit_and_low5 : (a : ℕ) → bit_and a 0x1F ≡ a % 32
bit_and_low5 a =
    let h2 = a / 2 in
    let h4 = h2 / 2 in
    let h8 = h4 / 2 in
    let h16 = h8 / 2 in
    omega (
      arith,
      bit_and_step a 31,
      bit_and_step h2 15,
      bit_and_step h4 7,
      bit_and_step h8 3,
      bit_and_step h16 1,
      bit_and-zero (h16 / 2) (h16 / 2) (omega arith),
    )

half-bit_or : (a b : ℕ) → bit_or a b / 2 ≡ bit_or (a / 2) (b / 2)
half-bit_or a b = omega (arith, bit_or_step a b)

-- The bits of a union.
pub bit_at-bit_or : (k a b : ℕ) → bit_at (bit_or a b) k ≡ max (bit_at a k) (bit_at b k)
bit_at-bit_or zero a b = omega (arith, bit_or_step a b)
bit_at-bit_or (suc k) a b = ap (λ n. bit_at n k) (half-bit_or a b) ∙ bit_at-bit_or k (a / 2) (b / 2)

pub bit_at-zero : (k : ℕ) → bit_at 0 k ≡ 0
bit_at-zero zero = refl
bit_at-zero (suc k) = bit_at-zero k

-- Whether a test passes for every number under a bound; it is evaluated.
abbrev pub holds_below : ℕ → (ℕ → Bool) → Bool
holds_below zero test = true
holds_below (suc n) test = holds_below n test && test n

pub holds_below-at :
    (n : ℕ) (test : ℕ → Bool) (i : ℕ) → holds_below n test ≡ true → i < n → test i ≡ true
holds_below-at zero test i h lt = absurd (omega arith)
holds_below-at (suc n) test i h lt = ground (arith, holds_below-at n test i)

pub bit_at-le-one : (n k : ℕ) → bit_at n k ≤ 1
bit_at-le-one n zero = omega arith
bit_at-le-one n (suc k) = bit_at-le-one (n / 2) k

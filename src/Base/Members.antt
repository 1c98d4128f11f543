-- ===== src/Base/Members.antt =====
-- Membership in lists of numbers, and lists without repetition.
use Prim.Native.Nat.{ℕ, ◌+◌}
use mathlib.Core.Path.{◌≡◌, refl}
use mathlib.Core.Bool.{Bool, false, ◌&&◌, ◌||◌, not}
use mathlib.Core.List.{List, [], ◌∷◌, ◌++◌}
use native.Mathlib.Omega.{arith}
use mistlink.Base.Tests.{◌==◌, if◌then◌else◌}
use mistlink.Base.Lists.{any, length}

-- Whether a number stands in a list.
abbrev pub member : ℕ → List ℕ → Bool
member x = any (λ y. y == x)

abbrev pub Distinct : List ℕ → Type 0
Distinct [] = Unit
Distinct (x ∷ xs) = (member x xs ≡ false) × Distinct xs

pub member-append : (x : ℕ) (xs ys : List ℕ) → member x (xs ++ ys) ≡ (member x xs || member x ys)
member-append x [] ys = refl
member-append x (y ∷ xs) ys = ground (arith, member-append x xs ys)

pub Distinct-snoc :
    (xs : List ℕ) (y : ℕ) → Distinct xs → member y xs ≡ false → Distinct (xs ++ (y ∷ []))
Distinct-snoc [] y d h = (refl, tt)
Distinct-snoc (x ∷ xs) y d h =
    (ground (arith, member-append x xs (y ∷ [])), Distinct-snoc xs y d.1 (ground arith))

-- The first occurrence of a number leaves the list.
unfoldable pub remove_first : ℕ → List ℕ → List ℕ
remove_first n [] = []
remove_first n (x ∷ rest) = if x == n then rest else x ∷ remove_first n rest

pub member-remove_first :
    (n x : ℕ) (xs : List ℕ)
    → Distinct xs
    → member x (remove_first n xs) ≡ (member x xs && not (n == x))
unfolding remove_first
member-remove_first n x [] d = refl
member-remove_first n x (y ∷ xs) d = ground (arith, member-remove_first n x xs d.1)

pub Distinct-remove_first : (n : ℕ) (xs : List ℕ) → Distinct xs → Distinct (remove_first n xs)
unfolding remove_first
Distinct-remove_first n [] d = tt
Distinct-remove_first n (y ∷ xs) d =
    ground (arith, Distinct-remove_first n xs d.1, member-remove_first n y xs d.1)

pub length-remove_first :
    (n : ℕ) (xs : List ℕ) → length (remove_first n xs) + (if member n xs then 1 else 0) ≡ length xs
unfolding remove_first
length-remove_first n [] = refl
length-remove_first n (y ∷ xs) = ground (arith, length-remove_first n xs)

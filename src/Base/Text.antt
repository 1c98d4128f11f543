-- ===== src/Base/Text.antt =====
-- Texts as lists of ASCII codes, with the functions of Go's strings package that the program calls.
use Prim.Native.Char.{code}
use Prim.Native.String.{String}
use Prim.Native.Nat.{ℕ, ◌+◌}
use mathlib.Core.Bool.{Bool, true, false, ◌&&◌, ◌||◌}
use mathlib.Core.Option.{Option, none, some}
use mathlib.Core.List.{List, [], ◌∷◌, map}
use mistlink.Base.Tests.{leb, ◌==◌, if◌then◌else◌}
use mistlink.Base.Lists.{is_empty, length, drop}

abbrev pub codes : String → List ℕ
codes String.[] = []
codes (String.◌∷◌ c s) = code c ∷ codes s

abbrev pub same_text : List ℕ → List ℕ → Bool
same_text [] [] = true
same_text [] (y ∷ ys) = false
same_text (x ∷ xs) [] = false
same_text (x ∷ xs) (y ∷ ys) = x == y && same_text xs ys

-- `strings.ToLower`
abbrev pub to_lower : List ℕ → List ℕ
to_lower = map (λ c. if leb b'A' c && leb c b'Z' then c + 32 else c)

-- `strings.EqualFold`
abbrev pub equal_fold : List ℕ → List ℕ → Bool
equal_fold s t = same_text (to_lower s) (to_lower t)

-- `strings.HasPrefix`
abbrev pub has_prefix : List ℕ → List ℕ → Bool
has_prefix s [] = true
has_prefix [] (p ∷ ps) = false
has_prefix (c ∷ s) (p ∷ ps) = c == p && has_prefix s ps

-- `strings.Contains`
abbrev pub contains : List ℕ → List ℕ → Bool
contains [] sub = has_prefix [] sub
contains (c ∷ s) sub = has_prefix (c ∷ s) sub || contains s sub

-- The bytes that `strings.TrimSpace` takes off an ASCII text.
abbrev pub is_space : ℕ → Bool
is_space c = c == 32 || leb 9 c && leb c 13

abbrev trim_left : List ℕ → List ℕ
trim_left [] = []
trim_left (c ∷ s) = let rest = trim_left s in if is_space c then rest else c ∷ s

abbrev trim_right : List ℕ → List ℕ
trim_right [] = []
trim_right (c ∷ s) = let rest = trim_right s in if is_space c && is_empty rest then [] else c ∷ rest

-- `strings.TrimSpace`
abbrev pub trim_space : List ℕ → List ℕ
trim_space s = trim_right (trim_left s)

-- `strings.Split` by one byte: the first part and the others.
abbrev pub split_byte : ℕ → List ℕ → List ℕ × List (List ℕ)
split_byte b [] = ([], [])
split_byte b (c ∷ s) =
    let (first, rest) = split_byte b s in if c == b then ([], first ∷ rest) else (c ∷ first, rest)

-- The text up to the next `sep`, and what follows it where there is one.
abbrev pub cut : List ℕ → List ℕ → List ℕ × Option (List ℕ)
cut sep [] = ([], if is_empty sep then some [] else none)
cut sep (c ∷ s) =
    let (before, after) = cut sep s in
    if has_prefix (c ∷ s) sep then ([], some (drop (length sep) (c ∷ s))) else (c ∷ before, after)

-- ===== src/StapA/Units.antt =====
-- A STAP-A payload as the list of its units, and what the loops find in it.
use mistlink.Base.{
  ℕ, zero, suc, ◌+◌, ◌*◌, ◌/◌, ◌%◌, ◌≤◌, ◌<◌, ◌≡◌, refl, true, false, ◌&&◌, List, [], ◌∷◌, ◌++◌,
  none, some, if◌then◌else◌, length, length-append, take-append_self, drop-append_self, is_empty,
  any, All, arith,
}
use mistlink.RtpUtils.{nal_type_idr, nal_type_sps, nal_type_pps}
use mistlink.StapA.{next_unit, has_type, idr_loop, first_loop, last_loop, keep_first, keep_last}

-- RFC 6184, 5.7.1: each unit behind its size in two bytes.
abbrev pub aggregate : List (List ℕ) → List ℕ
aggregate [] = []
aggregate (unit ∷ units) = (length unit / 256) ∷ (length unit % 256) ∷ (unit ++ aggregate units)

abbrev pub IsUnit : List ℕ → Type 0
IsUnit unit = length unit < 65536

next_unit-aggregate :
    (unit rest : List ℕ)
    → IsUnit unit
    → next_unit ((length unit / 256) ∷ (length unit % 256) ∷ (unit ++ rest)) ≡ some (unit, rest)
unfolding next_unit
next_unit-aggregate unit rest h =
    let size : length unit / 256 * 256 + length unit % 256 ≡ length unit = omega arith in
    rw (size, length-append unit rest, take-append_self unit rest, drop-append_self unit rest)
      (ground arith)

-- The first unit of a type, or else the one that is at hand.
abbrev pub first_of_type : ℕ → List ℕ → List (List ℕ) → List ℕ
first_of_type t found [] = found
first_of_type t found (unit ∷ units) =
    first_of_type t (if has_type t unit && is_empty found then unit else found) units

abbrev pub last_of_type : ℕ → List ℕ → List (List ℕ) → List ℕ
last_of_type t found [] = found
last_of_type t found (unit ∷ units) = last_of_type t (if has_type t unit then unit else found) units

two_types : (unit : List ℕ) → has_type nal_type_sps unit ≡ true → has_type nal_type_pps unit ≡ false
unfolding has_type
two_types [] h = refl
two_types (b ∷ bs) h = ground arith

pub length-aggregate : (units : List (List ℕ)) → 2 * length units ≤ length (aggregate units)
length-aggregate [] = omega arith
length-aggregate (unit ∷ units) =
    omega (arith, length-aggregate units, length-append unit (aggregate units))

next_unit-nil : next_unit [] ≡ none
unfolding next_unit
next_unit-nil = refl

pub idr_loop-units :
    (fuel : ℕ) (units : List (List ℕ))
    → length units < fuel
    → All IsUnit units
    → idr_loop fuel (aggregate units) ≡ any (has_type nal_type_idr) units
unfolding idr_loop
idr_loop-units zero units h v = absurd (omega arith)
idr_loop-units (suc fuel) [] h v = rw (next_unit-nil, idr_loop)
idr_loop-units (suc fuel) (unit ∷ units) h v =
    rw (next_unit-aggregate unit (aggregate units) v.0, idr_loop)
      (ground (arith, idr_loop-units fuel units (omega arith) v.1))

keep_first_lem :
    (unit sps pps : List ℕ)
    → keep_first unit (sps, pps) ≡ (
      if has_type nal_type_sps unit && is_empty sps then unit else sps,
      if has_type nal_type_pps unit && is_empty pps then unit else pps,
    )
unfolding keep_first
keep_first_lem unit sps pps = ground (arith, two_types unit)

keep_last_lem :
    (unit sps pps : List ℕ)
    → keep_last unit (sps, pps) ≡ (
      if has_type nal_type_sps unit then unit else sps,
      if has_type nal_type_pps unit then unit else pps,
    )
unfolding keep_last
keep_last_lem unit sps pps = ground (arith, two_types unit)

pub first_loop-units :
    (fuel : ℕ) (units : List (List ℕ)) (sps pps : List ℕ)
    → length units < fuel
    → All IsUnit units
    → first_loop fuel (aggregate units) (sps, pps)
      ≡ (first_of_type nal_type_sps sps units, first_of_type nal_type_pps pps units)
unfolding first_loop
first_loop-units zero units sps pps h v = absurd (omega arith)
first_loop-units (suc fuel) [] sps pps h v = rw (next_unit-nil, first_loop)
first_loop-units (suc fuel) (unit ∷ units) sps pps h v =
    rw (next_unit-aggregate unit (aggregate units) v.0, first_loop)
      (rw (keep_first_lem unit sps pps) (first_loop-units fuel units _ _ (omega arith) v.1))

pub last_loop-units :
    (fuel : ℕ) (units : List (List ℕ)) (sps pps : List ℕ)
    → length units < fuel
    → All IsUnit units
    → last_loop fuel (aggregate units) (sps, pps)
      ≡ (last_of_type nal_type_sps sps units, last_of_type nal_type_pps pps units)
unfolding last_loop
last_loop-units zero units sps pps h v = absurd (omega arith)
last_loop-units (suc fuel) [] sps pps h v = rw (next_unit-nil, last_loop)
last_loop-units (suc fuel) (unit ∷ units) sps pps h v =
    rw (next_unit-aggregate unit (aggregate units) v.0, last_loop)
      (rw (keep_last_lem unit sps pps) (last_loop-units fuel units _ _ (omega arith) v.1))

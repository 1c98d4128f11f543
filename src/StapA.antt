-- ===== src/StapA.antt =====
-- The walk over the units of a STAP-A payload, which internal/receiver/rtp_handler.go,
-- internal/receiver/sps_pps.go and internal/stream/broadcaster.go each contain. Three loops with one
-- header: a list stands for `payload[pos:]`.
pub mod Units
use Prim.Native.Nat.{bit_and}
use mistlink.Base.{
  ℕ, zero, suc, ◌+◌, ◌*◌, Bool, true, false, ◌&&◌, List, [], ◌∷◌, Option, none, some, ltb, ◌==◌,
  if◌then◌else◌, length, take, drop, is_empty,
}
use mistlink.RtpUtils.{nal_mask, nal_type_idr, nal_type_sps, nal_type_pps, get_nal_type}

-- `pos+2 <= len(payload)`, the size of two bytes, high first, and the bounds check of the unit: the
-- unit and what follows it.
unfoldable pub next_unit : List ℕ → Option (List ℕ × List ℕ)
next_unit [] = none
next_unit (hi ∷ []) = none
next_unit (hi ∷ lo ∷ rest) =
    let size = hi * 256 + lo in
    if ltb (length rest) size then none else some (take size rest, drop size rest)

-- `len(unit) > 0 && unit[0]&NALMask == t`
unfoldable pub has_type : ℕ → List ℕ → Bool
has_type t [] = false
has_type t (b ∷ bs) = bit_and b nal_mask == t

-- `ProcessVideoPacket`: whether some unit is an IDR slice.
unfoldable pub idr_loop : ℕ → List ℕ → Bool
idr_loop zero rest = false
idr_loop (suc fuel) rest = elim (next_unit rest) [
  | none ↦ false
  | some (unit, later) ↦
      let more = idr_loop fuel later in if has_type nal_type_idr unit then true else more
]

-- A unit is kept as the parameter set that it is, unless there is one.
unfoldable pub keep_first : List ℕ → List ℕ × List ℕ → List ℕ × List ℕ
keep_first unit (sps, pps) =
    if has_type nal_type_sps unit && is_empty sps
    then (unit, pps)
    else if has_type nal_type_pps unit && is_empty pps
    then (sps, unit)
    else (sps, pps)

-- A unit replaces the parameter set that it is.
unfoldable pub keep_last : List ℕ → List ℕ × List ℕ → List ℕ × List ℕ
keep_last unit (sps, pps) =
    if has_type nal_type_sps unit
    then (unit, pps)
    else if has_type nal_type_pps unit
    then (sps, unit)
    else (sps, pps)

-- `ExtractSPSPPS`: the first units of either type; an empty list is a nil slice.
unfoldable pub first_loop : ℕ → List ℕ → List ℕ × List ℕ → List ℕ × List ℕ
first_loop zero rest found = found
first_loop (suc fuel) rest found = elim (next_unit rest) [
  | none ↦ found
  | some (unit, later) ↦ first_loop fuel later (keep_first unit found)
]

-- `TrackBroadcaster.extractSPSPPS`: the last units of either type.
unfoldable pub last_loop : ℕ → List ℕ → List ℕ × List ℕ → List ℕ × List ℕ
last_loop zero rest found = found
last_loop (suc fuel) rest found = elim (next_unit rest) [
  | none ↦ found
  | some (unit, later) ↦ last_loop fuel later (keep_last unit found)
]

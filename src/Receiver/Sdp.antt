-- ===== src/Receiver/Sdp.antt =====
-- internal/receiver/sdp.go: the parameter sets that a session description carries. The decoder of
-- encoding/base64 is a parameter.
pub mod Lines
use mistlink.Base.{
  ℕ, Bool, ◌&&◌, ◌||◌, not, List, [], ◌∷◌, Option, none, some, is_empty, if◌then◌else◌,
}
use mistlink.Base.Text.{codes, has_prefix, contains, trim_space, split_byte, cut}
use mistlink.Receiver.Bridge.{Bridge, Start, set_sps_pps}

abbrev pub fmtp : List ℕ
fmtp = codes "a=fmtp:"

abbrev pub sprop : List ℕ
sprop = codes "sprop-parameter-sets="

-- The first two of the values that commas separate, where there are two.
unfoldable pub first_two : List ℕ × List (List ℕ) → Option (List ℕ × List ℕ)
first_two (sps, []) = none
first_two (sps, pps ∷ rest) = some (sps, pps)

-- `parts[1]` up to its first semicolon, split at its commas.
unfoldable pub sets_of : Option (List ℕ) → Option (List ℕ × List ℕ)
sets_of none = none
sets_of (some after) = first_two (split_byte b',' (split_byte b';' (cut sprop after).0).0)

-- What a line names as SPS and PPS, after `TrimSpace`.
unfoldable pub line_sets : List ℕ → Option (List ℕ × List ℕ)
line_sets line =
    if not (has_prefix line fmtp) || not (contains line sprop)
    then none
    else sets_of (cut sprop line).1

module _ {C : Type 0} (decode : List ℕ → Option (List ℕ)) (ctx : C) (start : Start C) where
  unfoldable pub set_decoded : Bridge C → Option (List ℕ) → Option (List ℕ) → Bridge C
  set_decoded b none pps = b
  set_decoded b (some sps) none = b
  set_decoded b (some sps) (some pps) =
      if is_empty sps || is_empty pps then b else set_sps_pps ctx start b sps pps

  unfoldable pub set_from : Bridge C → Option (List ℕ × List ℕ) → Bridge C
  set_from b none = b
  set_from b (some (sps, pps)) = set_decoded b (decode sps) (decode pps)

  unfoldable pub read_lines : Bridge C → List (List ℕ) → Bridge C
  read_lines b [] = b
  read_lines b (line ∷ lines) = read_lines (set_from b (line_sets (trim_space line))) lines

  unfoldable pub extract_sps_pps_from_sdp : Bridge C → List ℕ → Bridge C
  extract_sps_pps_from_sdp b sdp =
      let (first, rest) = split_byte b'\n' sdp in read_lines b (first ∷ rest)

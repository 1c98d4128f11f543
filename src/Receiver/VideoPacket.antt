-- ===== src/Receiver/VideoPacket.antt =====
-- internal/receiver/rtp_handler.go, ProcessVideoPacket, and internal/receiver/sps_pps.go,
-- ExtractSPSPPS: what a video packet says of key frames and of parameter sets.
pub mod Aggregates
use Prim.Native.Nat.{bit_and, bit_or}
use mistlink.Base.{
  ℕ, ◌+◌, Bool, true, false, ◌&&◌, ◌||◌, not, List, [], ◌∷◌, Option, ◌==◌, if◌then◌else◌, length,
  is_empty,
}
use mistlink.RtpUtils.{
  nal_mask, fu_start_mask, nal_type_idr, nal_type_sps, nal_type_pps, nal_type_stap_a, nal_type_fu_a,
}
use mistlink.StapA.{idr_loop, first_loop}
use mistlink.Receiver.Bridge.{Bridge, TrackId, Start, same_id, set_sps_pps}

-- `(payload[1] & FUStartMask) != 0`
abbrev pub is_start : ℕ → Bool
is_start header = not (bit_and header fu_start_mask == 0)

-- A fragmentation unit that starts an IDR slice.
unfoldable pub fu_idr : List ℕ → Bool
fu_idr [] = false
fu_idr (header ∷ rest) = bit_and header nal_mask == nal_type_idr && is_start header

-- `isIDR`, for a payload of first byte `b`.
unfoldable pub is_idr : ℕ → List ℕ → Bool
is_idr b rest =
    let nal_type = bit_and b nal_mask in
    if nal_type == nal_type_idr
    then true
    else if nal_type == nal_type_fu_a
    then fu_idr rest
    else if nal_type == nal_type_stap_a
    then idr_loop (length rest + 1) rest
    else false

-- The parameter set that a starting fragment belongs to, behind its rebuilt NAL header.
unfoldable pub fu_sets : ℕ → List ℕ → List ℕ × List ℕ
fu_sets b [] = ([], [])
fu_sets b (header ∷ rest) =
    let orig = bit_and header nal_mask in
    let unit = bit_or (bit_and b 0xE0) orig ∷ rest in
    if is_start header
    then (if orig == nal_type_sps
        then (unit, [])
        else if orig == nal_type_pps
        then ([], unit)
        else ([], []))
    else ([], [])

-- `foundSPS` and `foundPPS`, for a payload of first byte `b`.
unfoldable pub find_sets : ℕ → List ℕ → List ℕ × List ℕ
find_sets b rest =
    let nal_type = bit_and b nal_mask in
    if nal_type == nal_type_sps
    then (b ∷ rest, [])
    else if nal_type == nal_type_pps
    then ([], b ∷ rest)
    else if nal_type == nal_type_stap_a
    then first_loop (length rest + 1) rest ([], [])
    else if nal_type == nal_type_fu_a
    then fu_sets b rest
    else ([], [])

-- `ExtractSPSPPS`: only the active video track's packets count.
unfoldable pub extract_sps_pps : {C : Type 0} → C → Start C → Bridge C → List ℕ → TrackId → Bridge C
extract_sps_pps ctx start b [] id = b
extract_sps_pps ctx start b (first ∷ rest) id =
    let (sps, pps) = find_sets first rest in
    if same_id id b.active_video_track_id && not (is_empty sps && is_empty pps)
    then set_sps_pps ctx start b sps pps
    else b

-- `ProcessVideoPacket`: the bridge, the NAL type, and whether the packet begins an IDR frame.
unfoldable pub process_video_packet :
    {C : Type 0} → C → Start C → Bridge C → List ℕ → TrackId → Bridge C × ℕ × Bool
process_video_packet ctx start b [] id = (b, 0, false)
process_video_packet ctx start b (first ∷ rest) id =
    (extract_sps_pps ctx start b (first ∷ rest) id, bit_and first nal_mask, is_idr first rest)

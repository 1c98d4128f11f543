-- ===== src/Receiver/VideoPacket/Aggregates.antt =====
-- Aggregation packets (STAP-A): key frames and parameter sets of the units inside.
use Prim.Native.Nat.{bit_and}
use mistlink.Base.{ℕ, ◌+◌, ◌<◌, ◌≡◌, List, [], length, any, All, arith}
use mistlink.RtpUtils.{nal_mask, nal_type_idr, nal_type_sps, nal_type_pps, nal_type_stap_a}
use mistlink.StapA.{has_type}
use mistlink.StapA.Units.{
  aggregate, IsUnit, first_of_type, idr_loop-units, first_loop-units, length-aggregate,
}
use mistlink.Receiver.VideoPacket.{is_idr, find_sets}

-- A packet that aggregates units of less than 65536 bytes each is taken for a key frame exactly
-- when some unit is an IDR slice, and the parameter sets found in it are its first SPS and its
-- first PPS unit (none where there is no such unit).
is_idr-aggregate :
    (b : ℕ) (units : List (List ℕ))
    → bit_and b nal_mask ≡ nal_type_stap_a
    → All IsUnit units
    → (is_idr b (aggregate units) ≡ any (has_type nal_type_idr) units)
      × (find_sets b (aggregate units)
          ≡ (first_of_type nal_type_sps [] units, first_of_type nal_type_pps [] units))
unfolding is_idr find_sets
is_idr-aggregate b units h v =
    let fuel : length units < length (aggregate units) + 1 =
      omega (arith, length-aggregate units) in
    (
      rw (h, is_idr) (idr_loop-units (length (aggregate units) + 1) units fuel v),
      rw (h, find_sets) (first_loop-units (length (aggregate units) + 1) units [] [] fuel v),
    )

-- ===== src/Stream/Broadcaster/Joining.antt =====
-- What a receiver that joins is sent first.
use Prim.Native.Nat.{bit_and}
use mathlib.Core.Path.{ap₂}
use mistlink.Base.{
  ℕ, ◌+◌, ◌<◌, ◌≡◌, refl, ap, ◌∙◌, Bool, false, ◌&&◌, List, [], ◌∷◌, ◌++◌, length, All, arith, leb,
  if◌then◌else◌,
}
use mistlink.RtpUtils.{nal_mask, nal_type_sps, nal_type_pps, nal_type_stap_a}
use mistlink.StapA.Units.{aggregate, IsUnit, last_of_type, last_loop-units, length-aggregate}
use mistlink.Stream.Broadcaster.{
  TrackBroadcaster, add_receiver, extract_sps_pps, write_unless_empty,
}

-- The length of a fixed RTP header.
abbrev pub header_size : ℕ
header_size = 12

module _ (takes : List ℕ → Bool) where
  -- Of the calls of `Write` those that the library takes; the others reach nobody.
  unfoldable pub sent : List (ℕ × List ℕ) → List (ℕ × List ℕ)
  sent [] = []
  sent (call ∷ calls) = let rest = sent calls in if takes call.1 then call ∷ rest else rest

  -- A unit that the library takes for a packet, which it does not below the size of a header.
  abbrev pub sent_unit : ℕ → List ℕ → List (ℕ × List ℕ)
  sent_unit local_track unit =
      if leb header_size (length unit) && takes unit then (local_track, unit) ∷ [] else []

  sent-append : (xs ys : List (ℕ × List ℕ)) → sent (xs ++ ys) ≡ sent xs ++ sent ys
  unfolding sent
  sent-append [] ys = refl
  sent-append (x ∷ xs) ys = ground (arith, sent-append xs ys)

  module _ (short : (bytes : List ℕ) → length bytes < header_size → takes bytes ≡ false) where
    sent-write_unless_empty :
        (local_track : ℕ) (unit : List ℕ)
        → sent (write_unless_empty local_track unit) ≡ sent_unit local_track unit
    unfolding sent
    sent-write_unless_empty local_track [] = refl
    sent-write_unless_empty local_track (x ∷ unit) = ground (arith, short (x ∷ unit))

    -- If the library refuses to write fewer than 12 bytes: for a receiver that joins after an
    -- aggregation packet of units of less than 65536 bytes each, `Write` is called with the
    -- packet's last SPS unit and then with its last PPS unit; where it has no such unit, with what
    -- was cached before, and not at all where nothing was. Each of the two is sent where it has 12
    -- bytes or more and the library takes it, whatever becomes of the other.
    pub add_receiver-aggregate :
        (b : TrackBroadcaster) (first : ℕ) (units : List (List ℕ)) (id local_track : ℕ)
        → bit_and first nal_mask ≡ nal_type_stap_a
        → All IsUnit units
        → let calls =
            (add_receiver (extract_sps_pps b (first ∷ aggregate units)) id local_track).1 in
          let sps = last_of_type nal_type_sps b.sps units in
          let pps = last_of_type nal_type_pps b.pps units in
          (calls ≡ write_unless_empty local_track sps ++ write_unless_empty local_track pps)
          × (sent calls ≡ sent_unit local_track sps ++ sent_unit local_track pps)
    unfolding add_receiver extract_sps_pps
    add_receiver-aggregate b first units id local_track h v =
        let sps = last_of_type nal_type_sps b.sps units in
        let pps = last_of_type nal_type_pps b.pps units in
        let fuel : length units < length (aggregate units) + 1 =
          omega (arith, length-aggregate units) in
        let calls = add_receiver (extract_sps_pps b (first ∷ aggregate units)) id local_track in
        let called : calls.1
            ≡ write_unless_empty local_track sps ++ write_unless_empty local_track pps =
          rw (h, last_loop-units (length (aggregate units) + 1) units b.sps b.pps fuel v) refl in
        (
          called,
          ap sent called
              ∙ sent-append (write_unless_empty local_track sps)
                  (write_unless_empty local_track pps)
              ∙ ap₂ (λ xs ys. xs ++ ys) (sent-write_unless_empty local_track sps)
                  (sent-write_unless_empty local_track pps),
        )

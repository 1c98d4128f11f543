-- ===== src/Stream/Broadcaster/Tests.antt =====
-- A broadcaster of one track.
use mistlink.Base.{ℕ, ◌≡◌, ◌<◌, refl, Bool, true, false, leb, length, List, [], ◌∷◌, ◌++◌, arith}
use mistlink.Base.Members.{member}
use mistlink.Base.Words.{add16, sub16}
use mistlink.RtpUtils.{nal_type_sps, nal_type_pps}
use mistlink.StapA.Units.{aggregate, last_of_type}
use mistlink.Stream.Broadcaster.{
  TrackBroadcaster, TrackStats, add_receiver, extract_sps_pps, write_unless_empty,
  check_sequence_gap,
}
use mistlink.Stream.Broadcaster.Gaps.{late-reported}
use mistlink.Stream.Broadcaster.Joining.{header_size, sent, sent_unit, add_receiver-aggregate}

abbrev units : List (List ℕ)
units =
    (0x67 ∷ 1 ∷ []) ∷ (0x68 ∷ 2 ∷ []) ∷ (0x67 ∷ 3 ∷ 3 ∷ 3 ∷ 3 ∷ 3 ∷ 3 ∷ 3 ∷ 3 ∷ 3 ∷ 3 ∷ 3 ∷ []) ∷ []

abbrev track : TrackBroadcaster
track = record { ssrc = 5; has_writer = true; receivers = []; sps = []; pps = [] }

-- A library that takes what is long enough.
abbrev long_enough : List ℕ → Bool
long_enough bytes = leb header_size (length bytes)

short-refused : (bytes : List ℕ) → length bytes < header_size → long_enough bytes ≡ false
short-refused bytes h = ground arith

add_receiver-aggregate_example :
    let calls = (add_receiver (extract_sps_pps track (0x78 ∷ aggregate units)) 1 2).1 in
    let sps = last_of_type nal_type_sps track.sps units in
    let pps = last_of_type nal_type_pps track.pps units in
    (calls ≡ write_unless_empty 2 sps ++ write_unless_empty 2 pps)
    × (sent long_enough calls ≡ sent_unit long_enough 2 sps ++ sent_unit long_enough 2 pps)
add_receiver-aggregate_example =
    add_receiver-aggregate long_enough short-refused track 0x78 units 1 2 refl
      (omega arith, (omega arith, (omega arith, tt)))

abbrev seen : TrackStats
seen = record { last_seq = 65534; initialized = true; packet_count = 1; last_log_time = 0 }

late-reported_example :
    member 65534 (check_sequence_gap (check_sequence_gap seen (sub16 65534 3)).0 (add16 65534 1)).1
    ≡ true
late-reported_example = late-reported seen 3 refl (omega arith) (omega arith) (omega arith)

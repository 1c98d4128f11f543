-- ===== src/Receiver/Stats/Tests.antt =====
-- A gap over the end of the sequence numbers.
use mistlink.Base.{◌^◌, ◌≡◌, refl, false, not, ◌&&◌, [], ◌∷◌, ltb, arith}
use mistlink.Base.Members.{member}
use mistlink.Receiver.Stats.{TrackStats, new_track_stats, missing_from, check_sequence_gap}
use mistlink.Receiver.Stats.Gaps.{ahead, member-check_sequence_gap}

abbrev at_the_end : TrackStats
at_the_end = record (new_track_stats 0) { last_sequence_number = 65534; first_packet = false }

gap_at_the_end : (check_sequence_gap at_the_end 2).1 ≡ 65535 ∷ 0 ∷ 1 ∷ []
unfolding check_sequence_gap new_track_stats missing_from
gap_at_the_end = refl

member-check_sequence_gap_example : member 0 (check_sequence_gap at_the_end 2).1 ≡ (
    not false
    && ltb (ahead 65534 2) (2 ^ 15)
    && ltb 0 (ahead 65534 0)
    && ltb (ahead 65534 0) (ahead 65534 2))
member-check_sequence_gap_example =
    member-check_sequence_gap at_the_end 2 0 (omega arith) (omega arith) (omega arith)

-- ===== src/Receiver/Stats.antt =====
-- internal/receiver/stats.go: the sequence gaps and the statistics of one remote track.
pub mod Gaps
mod Tests
use mistlink.Base.{
  ℕ, zero, suc, ◌+◌, ◌-◌, ◌^◌, Bool, true, false, List, [], ◌∷◌, Option, none, some, ltb, leb, ◌==◌,
  if◌then◌else◌, is_empty, not, ◌&&◌,
}
use mistlink.Base.Maps.{lookup, insert}
use mistlink.Base.Words.{add16, sub16}
use mistlink.RtpUtils.{nal_type_idr}

-- `trackStats`; times are in nanoseconds.
pub record TrackStats : Type 0 where
  pub packet_count : ℕ
  pub last_log_time : ℕ
  pub nal_type_stats : List (ℕ × ℕ)
  pub last_sequence_number : ℕ
  pub sequence_gaps : ℕ
  pub first_packet : Bool

unfoldable pub new_track_stats : ℕ → TrackStats
new_track_stats now = record {
  packet_count = 0;
  last_log_time = now;
  nal_type_stats = [];
  last_sequence_number = 0;
  sequence_gaps = 0;
  first_packet = true;
}

-- Whether `int16(d)` is negative, for a uint16 `d`.
abbrev pub is_negative16 : ℕ → Bool
is_negative16 d = leb (2 ^ 15) d

-- `for i := uint16(1); i <= uint16(gap); i++` from round `i`, with the rounds that are left: as the
-- gap is at most 32766, `i` does not wrap.
unfoldable pub missing_from : ℕ → ℕ → ℕ → List ℕ
missing_from last i zero = []
missing_from last i (suc n) = add16 last i ∷ missing_from last (i + 1) n

advance : TrackStats → ℕ → ℕ → TrackStats × List ℕ
advance s current_seq gap = (
  record s { sequence_gaps = s.sequence_gaps + gap; last_sequence_number = current_seq },
  missing_from s.last_sequence_number 1 gap,
)

-- The subtraction of `sequenceGaps--` runs only above 0.
late : TrackStats → TrackStats
late s = if ltb 0 s.sequence_gaps then record s { sequence_gaps = s.sequence_gaps - 1 } else s

unfoldable pub check_sequence_gap : TrackStats → ℕ → TrackStats × List ℕ
unfolding advance late
check_sequence_gap s current_seq =
    if s.first_packet
    then (record s { last_sequence_number = current_seq; first_packet = false }, [])
    else let diff = sub16 current_seq s.last_sequence_number in
      if diff == 1
      then (record s { last_sequence_number = current_seq }, [])
      else if diff == 0
      then (s, [])
      else if is_negative16 diff
      then (late s, [])
      else advance s current_seq (diff - 1)

-- `m[k]++`
increment : ℕ → List (ℕ × ℕ) → List (ℕ × ℕ)
increment k m = elim (lookup k m) [ none ↦ insert k 1 m | some n ↦ insert k (n + 1) m ]

unfoldable pub update_nal_stats : TrackStats → ℕ → Bool → TrackStats
unfolding increment
update_nal_stats s nal_type has_idr =
    let stats = if nal_type == 0 then s.nal_type_stats else increment nal_type s.nal_type_stats in
    record s { nal_type_stats = if has_idr then increment nal_type_idr stats else stats }

abbrev pub log_interval : ℕ
log_interval = 5_000_000_000

-- What is reset beside the packet count and the time; the log line itself is output only.
reset_reported : TrackStats → Bool → TrackStats
reset_reported s is_video =
    if is_video && not (is_empty s.nal_type_stats)
    then record s { nal_type_stats = []; sequence_gaps = 0 }
    else if not is_video
    then record s { sequence_gaps = 0 }
    else s

-- `now` is what `time.Since` and `time.Now` read.
unfoldable pub log_if_time : TrackStats → Bool → ℕ → TrackStats
unfolding reset_reported
log_if_time s is_video now =
    if leb (now - s.last_log_time) log_interval
    then s
    else record (reset_reported s is_video) { packet_count = 0; last_log_time = now }

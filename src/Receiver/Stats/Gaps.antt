-- ===== src/Receiver/Stats/Gaps.antt =====
-- Which sequence numbers `checkSequenceGap` reports.
use mistlink.Base.{ℕ, zero, suc, ◌+◌, ◌-◌, ◌≤◌, ◌<◌, ◌^◌, ◌≡◌, refl, ◌&&◌, not, arith, ltb, length}
use mistlink.Base.Members.{member}
use mistlink.Base.Words.{sub16, u16_mod}
use mistlink.Receiver.Stats.{TrackStats, missing_from, check_sequence_gap}

-- How far behind `last` a sequence number comes, going forward and round at 2 ^ 16.
abbrev pub ahead : ℕ → ℕ → ℕ
ahead last x = sub16 x last

pub member-missing_from :
    (last i n x : ℕ)
    → last < u16_mod
    → x < u16_mod
    → 0 < i
    → i + n ≤ u16_mod
    → member x (missing_from last i n) ≡ (not (ltb (ahead last x) i) && ltb (ahead last x) (i + n))
unfolding missing_from
member-missing_from last i zero x hl hx hi hn = ground arith
member-missing_from last i (suc n) x hl hx hi hn =
    ground (arith, member-missing_from last (i + 1) n x hl hx (omega arith) (omega arith))

pub length-missing_from : (last i n : ℕ) → length (missing_from last i n) ≡ n
unfolding missing_from
length-missing_from last i zero = refl
length-missing_from last i (suc n) = omega (arith, length-missing_from last (i + 1) n)

-- After the first packet, a packet that comes n ≤ 32767 steps ahead of the last one makes
-- `checkSequenceGap` report exactly the sequence numbers strictly between the two, round at 2 ^
-- 16; the first packet, a repeated one and a late one make it report nothing.
pub member-check_sequence_gap :
    (s : TrackStats) (current_seq x : ℕ)
    → s.last_sequence_number < u16_mod
    → current_seq < u16_mod
    → x < u16_mod
    → let steps = ahead s.last_sequence_number current_seq in
      let behind = ahead s.last_sequence_number x in
      member x (check_sequence_gap s current_seq).1
      ≡ (not s.first_packet && ltb steps (2 ^ 15) && ltb 0 behind && ltb behind steps)
unfolding check_sequence_gap
member-check_sequence_gap s current_seq x hl hc hx =
    let steps = ahead s.last_sequence_number current_seq in
    ground (arith, member-missing_from s.last_sequence_number 1 (steps - 1) x hl hx (omega arith))

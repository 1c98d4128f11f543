-- ===== src/Stream/Broadcaster/Gaps.antt =====
-- Which sequence numbers `checkSequenceGap` of a broadcaster reports.
use mistlink.Base.{ℕ, ◌-◌, ◌≤◌, ◌<◌, ◌≡◌, ◌∙◌, true, ◌&&◌, arith, ltb, leb}
use mistlink.Base.Members.{member}
use mistlink.Base.Words.{add16, sub16, u16_mod}
use mistlink.Receiver.Stats.Gaps.{ahead, member-missing_from}
use mistlink.Stream.Broadcaster.{TrackStats, check_sequence_gap}

-- Once it has seen a packet, a track's statistics report for the next one, if it comes at most
-- 100 steps ahead of the last one round at 2 ^ 16, exactly the sequence numbers strictly between
-- the two, and nothing for any other or for the first one.
check_sequence_gap_lem :
    (s : TrackStats) (seq x : ℕ)
    → s.last_seq < u16_mod
    → seq < u16_mod
    → x < u16_mod
    → member x (check_sequence_gap s seq).1 ≡ (
        s.initialized
        && leb (ahead s.last_seq seq) 100
        && ltb 0 (ahead s.last_seq x)
        && ltb (ahead s.last_seq x) (ahead s.last_seq seq))
unfolding check_sequence_gap
check_sequence_gap_lem s seq x hl hc hx =
    ground
      (arith, member-missing_from s.last_seq 1 (ahead s.last_seq seq - 1) x hl hx (omega arith))

moved-last_seq : (s : TrackStats) (seq : ℕ) → (check_sequence_gap s seq).0.last_seq ≡ seq
unfolding check_sequence_gap
moved-last_seq s seq = ground arith

moved-initialized : (s : TrackStats) (seq : ℕ) → (check_sequence_gap s seq).0.initialized ≡ true
unfolding check_sequence_gap
moved-initialized s seq = ground arith

-- After a packet that comes k steps late, with 1 ≤ k ≤ 99, the next packet in order makes the
-- statistics report the last packet before the late one, though it has been received: with n the
-- sequence number received last, n is reported missing when n + 1 comes.
pub late-reported :
    (s : TrackStats) (k : ℕ)
    → s.initialized ≡ true
    → s.last_seq < u16_mod
    → 0 < k
    → k ≤ 99
    → member s.last_seq
        (check_sequence_gap (check_sequence_gap s (sub16 s.last_seq k)).0 (add16 s.last_seq 1)).1
      ≡ true
late-reported s k i hl hk h =
    let late : TrackStats = (check_sequence_gap s (sub16 s.last_seq k)).0 in
    let next : ℕ = add16 s.last_seq 1 in
    check_sequence_gap_lem late next s.last_seq
      (rw (moved-last_seq s (sub16 s.last_seq k)) (omega arith)) (omega arith) hl
    ∙ rw (moved-last_seq s (sub16 s.last_seq k), moved-initialized s (sub16 s.last_seq k))
        (ground arith)

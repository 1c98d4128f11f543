-- ===== src/Receiver/RtspBuffer/Numbering.antt =====
-- The numbering of what leaves the whole buffer, under any sequence of calls.
use mistlink.Base.{
  ==→eq, ℕ, ◌≡◌, refl, false, List, [], ◌∷◌, none, arith, ◌==◌, inl, inr, if◌then◌else◌, Bool-cases,
}
use mistlink.RtpUtils.{Packet, payload_type_h264, payload_type_opus}
use mistlink.Receiver.RtspBuffer.{RtspBuffer, new_rtsp_buffer, add, cleanup, with_lane}
use mistlink.Receiver.RtspBuffer.Flushing.{collect, flush_fuel, flush_start, flush_end}
use mistlink.Receiver.RtspBuffer.Lanes.{flush_loop-Stream, flush_loop-other}
use mistlink.Receiver.RtspBuffer.Rewrite.{
  Stream, Stream-append, newest, last_mark, lane_ssrc, IsMedia, Mark,
}
use mistlink.Receiver.RtspBuffer.History.{
  Event, arrive, flush_video, flush_audio, clean_up, step, run, collect_cases,
}

abbrev mark_of : RtspBuffer → ℕ → Mark
mark_of b pt = last_mark b.rewriter pt

-- A flush of `from` continues the numbering of `from` and leaves that of others.
collect-Stream :
    (clock : ℕ → ℕ) (b : RtspBuffer) (pt : ℕ)
    → IsMedia pt
    → let (b', out) = collect clock b pt in
      Stream (lane_ssrc pt) (mark_of b pt) out × (mark_of b' pt ≡ newest (mark_of b pt) out)
collect-Stream clock b pt m =
    collect_cases
      (λ r. Stream (lane_ssrc pt) (mark_of b pt) r.1 × (mark_of r.0 pt ≡ newest (mark_of b pt) r.1))
      clock b pt (tt, refl)
      λ first.
        unfold flush_start flush_end in
        flush_loop-Stream clock pt flush_fuel 0 (flush_start b pt first) m

collect-other :
    (clock : ℕ → ℕ) (b : RtspBuffer) (pt other : ℕ)
    → (pt == other) ≡ false
    → mark_of (collect clock b pt).0 other ≡ mark_of b other
collect-other clock b pt other h =
    collect_cases (λ r. mark_of r.0 other ≡ mark_of b other) clock b pt refl
      λ first.
        unfold flush_start flush_end in
        flush_loop-other clock pt other flush_fuel 0 (flush_start b pt first) h

add-mark : (b : RtspBuffer) (pkt : Packet) (now pt : ℕ) → mark_of (add b pkt now) pt ≡ mark_of b pt
unfolding add with_lane
add-mark b pkt now pt = ground arith

cleanup-mark : (b : RtspBuffer) (pt : ℕ) → mark_of (cleanup b) pt ≡ mark_of b pt
unfolding cleanup
cleanup-mark b pt = refl

abbrev outputs : ℕ → RtspBuffer → Event → List Packet
outputs pt b e = let (b', from, out) = step b e in if from == pt then out else []

collected-Stream :
    (clock : ℕ → ℕ) (b : RtspBuffer) (from pt : ℕ)
    → IsMedia from
    → let (b', out) = collect clock b from in
      let out' = if from == pt then out else [] in
      Stream (lane_ssrc pt) (mark_of b pt) out' × (mark_of b' pt ≡ newest (mark_of b pt) out')
collected-Stream clock b from pt m = elim (Bool-cases (from == pt)) [
  | inl e ↦ rw (e, ← ==→eq from pt e) (collect-Stream clock b from m)
  | inr e ↦ rw e (tt, collect-other clock b from pt e)
]

zero-ne_media : (pt : ℕ) → IsMedia pt → (0 == pt) ≡ false
zero-ne_media pt m = ground arith

step-Stream :
    (b : RtspBuffer) (e : Event) (pt : ℕ)
    → IsMedia pt
    → Stream (lane_ssrc pt) (mark_of b pt) (outputs pt b e)
      × (mark_of (step b e).0 pt ≡ newest (mark_of b pt) (outputs pt b e))
unfolding step
step-Stream b (arrive pkt now) pt m = rw (zero-ne_media pt m) (tt, add-mark b pkt now pt)
step-Stream b (flush_video clock) pt m = collected-Stream clock b payload_type_h264 pt (inl refl)
step-Stream b (flush_audio clock) pt m = collected-Stream clock b payload_type_opus pt (inr refl)
step-Stream b clean_up pt m = rw (zero-ne_media pt m) (tt, cleanup-mark b pt)

run-Stream :
    (pt : ℕ) (b : RtspBuffer) (es : List Event)
    → IsMedia pt
    → Stream (lane_ssrc pt) (mark_of b pt) (run pt b es).1
unfolding run
run-Stream pt b [] m = tt
run-Stream pt b (e ∷ es) m =
    let (stream, last) = step-Stream b e pt m in
    Stream-append (lane_ssrc pt) (mark_of b pt) (outputs pt b e) _ stream
      (rw (← last) (run-Stream pt (step b e).0 es m))

-- Whatever arrives, in whatever order and with whatever losses, the packets of H.264, and those
-- of Opus, leave a new buffer numbered without a gap (round at 2 ^ 16), each at most
-- `MaxTimestampDelta` after the one before it, and all from one source.
pub run-new-Stream :
    (pt size : ℕ) (es : List Event)
    → IsMedia pt
    → Stream (lane_ssrc pt) none (run pt (new_rtsp_buffer size) es).1
unfolding new_rtsp_buffer last_mark
run-new-Stream pt size es m = run-Stream pt (new_rtsp_buffer size) es m

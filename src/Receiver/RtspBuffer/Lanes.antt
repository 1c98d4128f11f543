-- ===== src/Receiver/RtspBuffer/Lanes.antt =====
-- What a flush does to its lane, and to the numbering of the other one.
use mistlink.Base.{ℕ, ◌+◌, ◌-◌, ◌≡◌, refl, ◌∙◌, true, false, List, ◌∷◌, some, arith, ◌==◌, length}
use mistlink.Base.Members.{member, length-remove_first}
use mistlink.RtpUtils.{Packet}
use mistlink.Receiver.RtspBuffer.{BufferedPacket}
use mistlink.Receiver.RtspBuffer.Flushing.{FlushState, after_send, flush_loop}
use mistlink.Receiver.RtspBuffer.Invariant.{LaneInv, release-LaneInv, widen-LaneInv}
use mistlink.Receiver.RtspBuffer.Flush.{flush_loop_rule}
use mistlink.Receiver.RtspBuffer.Rewrite.{
  Stream, newest, last_mark, lane_ssrc, IsMedia, rewrite-ssrc, rewrite-Follows, last_mark-rewrite,
  last_mark-rewrite_ne,
}

abbrev Drains : ℕ → FlushState → FlushState → List Packet → Type 0
Drains limit s end pkts =
    LaneInv limit s.lane
    → LaneInv limit end.lane × (length end.lane.order + length pkts ≡ length s.lane.order)

sent-Drains :
    (limit pt : ℕ) (s end : FlushState) (b : BufferedPacket) (pkts : List Packet)
    → s.lane.slots s.next ≡ some b
    → Drains limit (after_send s pt b).0 end pkts
    → Drains limit s end ((after_send s pt b).1 ∷ pkts)
unfolding after_send
sent-Drains limit pt s end b pkts e rest v =
    let filled : member s.next s.lane.order ≡ true = ground (arith, v.held s.next) in
    let (w, count) = rest (
      widen-LaneInv (limit - 1) limit _ (omega arith)
        (release-LaneInv limit s.lane.slots s.lane.order s.next v filled)) in
    (w, ground (arith, count, length-remove_first s.next s.lane.order))

-- The flush loop keeps the lane's representation, and hands on as many packets as leave the
-- lane's order.
pub flush_loop-LaneInv :
    (clock : ℕ → ℕ) (pt limit fuel i : ℕ) (s : FlushState)
    → LaneInv limit s.lane
    → let (end, pkts) = flush_loop clock pt fuel i s in
      LaneInv limit end.lane × (length end.lane.order + length pkts ≡ length s.lane.order)
flush_loop-LaneInv clock pt limit =
    flush_loop_rule clock pt (Drains limit) (λ s v. (v, omega arith)) (λ s end o pkts rest. rest)
      (λ s end b pkts e lt rest. sent-Drains limit pt s end b pkts e rest)

abbrev Numbers : ℕ → FlushState → FlushState → List Packet → Type 0
Numbers pt s end pkts =
    Stream (lane_ssrc pt) (last_mark s.rewriter pt) pkts
    × (last_mark end.rewriter pt ≡ newest (last_mark s.rewriter pt) pkts)

sent-Numbers :
    (pt : ℕ) (s end : FlushState) (b : BufferedPacket) (pkts : List Packet)
    → IsMedia pt
    → Numbers pt (after_send s pt b).0 end pkts
    → Numbers pt s end ((after_send s pt b).1 ∷ pkts)
unfolding after_send
sent-Numbers pt s end b pkts m rest =
    let (stream, last) = rw (last_mark-rewrite s.rewriter pt b.pkt) at rest in
    ((rewrite-ssrc s.rewriter pt b.pkt m, rewrite-Follows s.rewriter pt b.pkt, stream), last)

-- The packets of a flush continue the numbering, and the rewriter remembers the last of them.
pub flush_loop-Stream :
    (clock : ℕ → ℕ) (pt fuel i : ℕ) (s : FlushState)
    → IsMedia pt
    → let (end, pkts) = flush_loop clock pt fuel i s in
      Stream (lane_ssrc pt) (last_mark s.rewriter pt) pkts
      × (last_mark end.rewriter pt ≡ newest (last_mark s.rewriter pt) pkts)
flush_loop-Stream clock pt fuel i s m =
    flush_loop_rule clock pt (Numbers pt) (λ s. (tt, refl)) (λ s end o pkts rest. rest)
      (λ s end b pkts e lt rest. sent-Numbers pt s end b pkts m rest) fuel i s

sent_other :
    (pt other : ℕ) (s : FlushState) (b : BufferedPacket)
    → (pt == other) ≡ false
    → last_mark (after_send s pt b).0.rewriter other ≡ last_mark s.rewriter other
unfolding after_send
sent_other pt other s b h = last_mark-rewrite_ne s.rewriter pt other b.pkt h

-- The numbering of the other payload type stays.
pub flush_loop-other :
    (clock : ℕ → ℕ) (pt other fuel i : ℕ) (s : FlushState)
    → (pt == other) ≡ false
    → last_mark (flush_loop clock pt fuel i s).0.rewriter other ≡ last_mark s.rewriter other
flush_loop-other clock pt other fuel i s h =
    flush_loop_rule clock pt
      (λ s end pkts. last_mark end.rewriter other ≡ last_mark s.rewriter other) (λ s. refl)
      (λ s end o pkts rest. rest) (λ s end b pkts e lt rest. rest ∙ sent_other pt other s b h) fuel
      i s

-- ===== src/Receiver/RtspBuffer/Tests.antt =====
-- Runs of the reordering buffer: three packets that come out of order, and a lost one.
use mistlink.Base.{
  ℕ, suc, ◌+◌, ◌≡◌, refl, List, [], ◌∷◌, ◌++◌, map, Option, none, true, ◌==◌, if◌then◌else◌,
  if_rule, length, inl, arith,
}
use mistlink.RtpUtils.{Packet, payload_type_h264}
use mistlink.Receiver.RtspBuffer.{
  BufferedPacket, Lane, empty_lane, empty_rewriter, new_rtsp_buffer, lane_add, cleanup, evict,
  store,
}
use mistlink.Receiver.RtspBuffer.Flushing.{FlushState, flush_loop}
use mistlink.Receiver.RtspBuffer.Invariant.{LaneInv, lane_add-LaneInv}
use mistlink.Receiver.RtspBuffer.Rewrite.{Stream, lane_ssrc}
use mistlink.Receiver.RtspBuffer.Flush.{flush_loop-fuel}
use mistlink.Receiver.RtspBuffer.Delivery.{Filled, payloads, flush_loop-in_order}
use mistlink.Receiver.RtspBuffer.History.{
  Event, arrive, flush_video, run, BufferInv, run-new-BufferInv,
}
use mistlink.Receiver.RtspBuffer.Numbering.{run-new-Stream}
use mistlink.Receiver.RtspBuffer.Waiting.{after_arrival, payloads_of, is_late, flush_loop-late}
use mistlink.Receiver.RtspBuffer.Progress.{AllStale, is_stale, least, flush_loop-progress}
use mistlink.Receiver.RtspBuffer.Pool
use mistlink.Receiver.RtspBuffer.Pool.{cleanup-run-pool, arrivals, held}

abbrev video : ℕ → ℕ → Packet
video seq time = record {
  ssrc = 7;
  payload_type = payload_type_h264;
  sequence_number = seq;
  timestamp = time;
  marker = 0;
  payload = seq ∷ [];
}

abbrev clock : ℕ → ℕ
clock i = 1000

-- 65535 is flushed first, then 1 waits for 0, which comes late.
abbrev wrapping : List Event
wrapping =
    arrive (video 65535 10) 0
    ∷ arrive (video 1 30) 0
    ∷ flush_video clock
    ∷ arrive (video 0 20) 1
    ∷ flush_video clock
    ∷ []

run-new-Stream_example :
    Stream (lane_ssrc payload_type_h264) none (run payload_type_h264 (new_rtsp_buffer 0) wrapping).1
run-new-Stream_example = run-new-Stream payload_type_h264 0 wrapping (inl refl)

run-new-BufferInv_example : BufferInv (run payload_type_h264 (new_rtsp_buffer 0) wrapping).0
run-new-BufferInv_example = run-new-BufferInv payload_type_h264 0 wrapping

abbrev slot : ℕ → BufferedPacket
slot seq = record { pkt = video seq 10; received = 0; payload_type = payload_type_h264 }

-- Number 1 came before number 0.
abbrev swapped : Lane
swapped = (lane_add 10 (lane_add 10 empty_lane (video 1 10) 0).0 (video 0 10) 0).0

empty-LaneInv : LaneInv 10 empty_lane
empty-LaneInv = record {
  distinct = tt;
  held = λ i. refl;
  numbered = λ i. tt;
  bounded = omega arith;
}

swapped-LaneInv : LaneInv 10 swapped
swapped-LaneInv =
    lane_add-LaneInv 10 (lane_add 10 empty_lane (video 1 10) 0).0 (video 0 10) 0 (omega arith)
      (lane_add-LaneInv 10 empty_lane (video 1 10) 0 (omega arith) empty-LaneInv)

abbrev swapped_start : FlushState
swapped_start = record { lane = swapped; rewriter = empty_rewriter; next = 0; sent_in_batch = 0 }

swapped-Filled : Filled swapped.slots 0 (slot 0 ∷ slot 1 ∷ [])
unfolding lane_add store evict
swapped-Filled = (refl, (refl, tt))

flush_loop-in_order_example :
    (rest : List (List ℕ)) × (payloads (flush_loop clock payload_type_h264 1001 0 swapped_start).1
      ≡ map (λ b. b.pkt.payload) (slot 0 ∷ slot 1 ∷ []) ++ rest)
flush_loop-in_order_example =
    flush_loop-in_order clock payload_type_h264 10 1001 0 swapped_start (slot 0 ∷ slot 1 ∷ [])
      swapped-LaneInv (omega arith) swapped-Filled (omega arith) (omega arith)

flush_loop-fuel_example :
    flush_loop clock payload_type_h264 1001 0 swapped_start
    ≡ flush_loop clock payload_type_h264 2000 0 swapped_start
flush_loop-fuel_example =
    flush_loop-fuel clock payload_type_h264 1001 2000 0 swapped_start (omega arith) (omega arith)

-- Number 3 is awaited, and 2 comes late.
abbrev late : FlushState
late = record {
  lane = (lane_add 10 empty_lane (video 2 10) 0).0;
  rewriter = empty_rewriter;
  next = 3;
  sent_in_batch = 0;
}

abbrev late_clock : ℕ → ℕ
late_clock i = 200_000_000

-- Nothing is held, 5 is awaited, and 2 comes.
abbrev idle : FlushState
idle = record { lane = empty_lane; rewriter = empty_rewriter; next = 5; sent_in_batch = 0 }

flush_loop-late_example :
    let first =
      flush_loop late_clock payload_type_h264
        (suc (suc (suc 998)))
        0
        (after_arrival idle (video 2 10) 0) in
    let second =
      flush_loop late_clock payload_type_h264
        (suc (suc (suc 998)))
        0
        (after_arrival first.0 (video 5 20) 150_000_000) in
    let without =
      flush_loop late_clock payload_type_h264
        (suc (suc (suc 998)))
        0
        (after_arrival idle (video 5 20) 150_000_000) in
    (payloads_of first.1 ≡ (2 ∷ []) ∷ [])
    × (payloads_of second.1 ≡ (if is_late (late_clock 0) 150_000_000 then (5 ∷ []) ∷ [] else []))
    × (payloads_of without.1 ≡ (5 ∷ []) ∷ [])
flush_loop-late_example =
    flush_loop-late late_clock late_clock payload_type_h264 998 idle (video 2 10) (video 5 20) 0
      150_000_000 (record { no_order = refl; no_slots = λ k. refl }) refl refl refl (omega arith)

late-AllStale : AllStale late_clock late.lane
unfolding lane_add store evict
late-AllStale = λ k i.
    if_rule (λ (slot : Option BufferedPacket). is_stale 200_000_000 slot ≡ true) (2 == k) refl refl

late-LaneInv : LaneInv 10 late.lane
late-LaneInv = lane_add-LaneInv 10 empty_lane (video 2 10) 0 (omega arith) empty-LaneInv

flush_loop-progress_example :
    length (flush_loop late_clock payload_type_h264 1001 0 late).1
    ≡ least (length late.lane.order) 500
flush_loop-progress_example =
    flush_loop-progress late_clock payload_type_h264 10 1001 0 late late-LaneInv late-AllStale
      (omega arith)

abbrev keep : ℕ → Packet → ℕ × Packet
keep s pkt = (s + 1, pkt)

abbrev calls : List (Pool.Call keep)
calls =
    Pool.arrive (video 5 10) 0
    ∷ Pool.arrive (video 7 10) 0
    ∷ Pool.flush_set payload_type_h264 clock
    ∷ []

cleanup-run-pool_example :
    let b = cleanup (Pool.run keep (new_rtsp_buffer 0, 0) calls).0 in
    (length b.pool ≡ arrivals keep calls) × (held b ≡ 0)
cleanup-run-pool_example = cleanup-run-pool keep 0 0 calls

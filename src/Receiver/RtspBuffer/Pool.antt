-- ===== src/Receiver/RtspBuffer/Pool.antt =====
-- The payload pool: every payload that was buffered is held by a lane, or was put back once.
use mistlink.Base.{
  ℕ, suc, ◌+◌, ◌≡◌, refl, ap, true, List, [], ◌∷◌, ◌++◌, none, arith, length, length-append, inl,
  inr, Option-cases, is_some,
}
use mistlink.Base.Members.{member, Distinct}
use mistlink.RtpUtils.{Packet}
use mistlink.Receiver.RtspBuffer.{
  RtspBuffer, Lane, Slots, new_rtsp_buffer, add, cleanup, clear_slots, cleanup_buffer, select,
  with_lane, max_buffer_size, lane_add, evict, store, update,
}
use mistlink.Receiver.RtspBuffer.Flushing.{
  FlushState, collect, flush_loop, flush_fuel, flush_start, flush_end, send_all, flush_buffer_set,
}
use mistlink.Receiver.RtspBuffer.Invariant.{LaneInv, lane_of}
use mistlink.Receiver.RtspBuffer.Lanes.{flush_loop-LaneInv}
use mistlink.Receiver.RtspBuffer.History.{
  BufferInv, collect_cases, select-LaneInv, flush_start-LaneInv, add-BufferInv, collect-BufferInv,
  new-BufferInv,
}

evict-puts :
    (limit : ℕ) (slots : Slots) (order : List ℕ)
    → LaneInv limit (lane_of slots order)
    → let (lane, puts) = evict limit (lane_of slots order) order in
      length puts + length lane.order ≡ length order
unfolding evict
evict-puts limit slots [] v = refl
evict-puts limit slots (oldest ∷ rest) v = ground (arith, v.held oldest)

store-puts :
    (lane : Lane) (pkt : Packet) (now : ℕ)
    → let (lane', puts) = store lane pkt now in
      length puts + length lane'.order ≡ length lane.order + 1
unfolding store
store-puts lane pkt now = ground (arith, length-append lane.order (pkt.sequence_number ∷ []))

lane_add-puts :
    (limit : ℕ) (lane : Lane) (pkt : Packet) (now : ℕ)
    → LaneInv limit lane
    → let (lane', puts) = lane_add limit lane pkt now in
      length puts + length lane'.order ≡ length lane.order + 1
unfolding lane_add
lane_add-puts limit lane pkt now v =
    let (kept, evicted) = evict limit lane lane.order in
    let (stored, replaced) = store kept pkt now in
    omega (
      arith,
      evict-puts limit lane.slots lane.order v,
      store-puts kept pkt now,
      length-append evicted replaced,
    )

-- All filled, and none twice: each gives its payload.
clear_slots-puts :
    (slots : Slots) (order : List ℕ)
    → Distinct order
    → ((i : ℕ) → member i order ≡ true → is_some (slots i) ≡ true)
    → length (clear_slots slots order).1 ≡ length order
unfolding clear_slots
clear_slots-puts slots [] d h = refl
clear_slots-puts slots (seq ∷ rest) d h = elim (Option-cases (slots seq)) [
  | inl e ↦ ground (arith, h seq)
  | inr (b, e) ↦
      rw (e, clear_slots)
        (ap suc (clear_slots-puts (update slots seq none) rest d.1 λ i m. ground (arith, h i)))
]

cleanup_buffer-puts :
    (limit : ℕ) (lane : Lane)
    → LaneInv limit lane
    → let (lane', puts) = cleanup_buffer lane in
      (length puts ≡ length lane.order) × (lane'.order ≡ [])
unfolding cleanup_buffer
cleanup_buffer-puts limit lane v =
    (clear_slots-puts lane.slots lane.order v.distinct (λ i m. ground (arith, v.held i)), refl)

-- How many packets the buffer holds.
abbrev pub held : RtspBuffer → ℕ
held b = length b.video.order + length b.audio.order

held-with_lane :
    (b : RtspBuffer) (pt : ℕ) (lane : Lane)
    → held (with_lane b pt lane) + length (select b pt).order ≡ held b + length lane.order
unfolding with_lane select
held-with_lane b pt lane = ground arith

pool-with_lane : (b : RtspBuffer) (pt : ℕ) (lane : Lane) → (with_lane b pt lane).pool ≡ b.pool
unfolding with_lane
pool-with_lane b pt lane = ground arith

add-pool :
    (b : RtspBuffer) (pkt : Packet) (now : ℕ)
    → BufferInv b
    → let b' = add b pkt now in length b'.pool + held b' ≡ length b.pool + held b + 1
unfolding add
add-pool b pkt now v =
    let pt = pkt.payload_type in
    let limit = max_buffer_size b.buffer_size in
    let (lane, puts) = lane_add limit (select b pt) pkt now in
    omega (
      arith,
      lane_add-puts limit (select b pt) pkt now (select-LaneInv b pt v),
      held-with_lane b pt lane,
      ap length (pool-with_lane b pt lane),
      length-append (with_lane b pt lane).pool puts,
    )

cleanup-pool :
    (b : RtspBuffer)
    → BufferInv b
    → let b' = cleanup b in (length b'.pool ≡ length b.pool + held b) × (held b' ≡ 0)
unfolding cleanup
cleanup-pool b v =
    let limit = max_buffer_size b.buffer_size in
    let video = cleanup_buffer-puts limit b.video v.video in
    let audio = cleanup_buffer-puts limit b.audio v.audio in
    let puts = (cleanup_buffer b.video).1 in
    let more = (cleanup_buffer b.audio).1 in
    (
      omega (arith, video.0, audio.0, length-append b.pool (puts ++ more), length-append puts more),
      omega (arith, ap length video.1, ap length audio.1),
    )

flush_end-held :
    (b : RtspBuffer) (pt first : ℕ) (s : FlushState)
    → held (flush_end b pt s) + length (flush_start b pt first).lane.order
      ≡ held b + length s.lane.order
unfolding flush_start flush_end
flush_end-held b pt first s = held-with_lane b pt s.lane

flush_end-pool : (b : RtspBuffer) (pt : ℕ) (s : FlushState) → (flush_end b pt s).pool ≡ b.pool
unfolding flush_end
flush_end-pool b pt s = pool-with_lane b pt s.lane

-- What a flush hands on is what the buffer no longer holds.
collect-held :
    (clock : ℕ → ℕ) (b : RtspBuffer) (pt : ℕ)
    → BufferInv b
    → let (b', out) = collect clock b pt in (held b' + length out ≡ held b) × (b'.pool ≡ b.pool)
collect-held clock b pt v =
    collect_cases (λ r. (held r.0 + length r.1 ≡ held b) × (r.0.pool ≡ b.pool)) clock b pt
      (omega arith, refl)
      λ first.
        let start = flush_start b pt first in
        let end = (flush_loop clock pt flush_fuel 0 start).0 in
        (
          omega (
            arith,
            (flush_loop-LaneInv clock pt (max_buffer_size b.buffer_size) flush_fuel 0 start
                (flush_start-LaneInv b pt first v)).1,
            flush_end-held b pt first end,
          ),
          flush_end-pool b pt end,
        )

module _ {S : Type 0} (write : S → Packet → S × Packet) where
  length-send_all :
      (server : S) (pkts : List Packet) → length (send_all write server pkts).1 ≡ length pkts
  unfolding send_all
  length-send_all server [] = refl
  length-send_all server (pkt ∷ rest) = omega (arith, length-send_all (write server pkt).0 rest)

  flush_buffer_set-pool :
      (clock : ℕ → ℕ) (b : RtspBuffer) (pt : ℕ) (server : S)
      → BufferInv b
      → let b' = (flush_buffer_set write clock b pt server).0 in
        BufferInv b' × (length b'.pool + held b' ≡ length b.pool + held b)
  unfolding flush_buffer_set
  flush_buffer_set-pool clock b pt server v =
      let (b', out) = collect clock b pt in
      let puts = (send_all write server out).1 in
      let w = collect-BufferInv clock b pt v in
      let (count, same) = collect-held clock b pt v in
      (
        record { video = w.video; audio = w.audio },
        omega
            (arith, count, ap length same, length-append b'.pool puts, length-send_all server out),
      )

  -- The calls that the sender loop makes, with the server's state and the clock's readings.
  pub data Call : Type 0 where
    arrive : Packet → ℕ → Call
    flush_set : ℕ → (ℕ → ℕ) → Call

  unfoldable pub run : RtspBuffer × S → List Call → RtspBuffer × S
  run (b, server) [] = (b, server)
  run (b, server) (arrive pkt now ∷ cs) = run (add b pkt now, server) cs
  run (b, server) (flush_set pt clock ∷ cs) = run (flush_buffer_set write clock b pt server) cs

  abbrev pub arrivals : List Call → ℕ
  arrivals [] = 0
  arrivals (arrive pkt now ∷ cs) = suc (arrivals cs)
  arrivals (flush_set pt clock ∷ cs) = arrivals cs

  run-pool :
      (b : RtspBuffer) (server : S) (cs : List Call)
      → BufferInv b
      → let b' = (run (b, server) cs).0 in
        BufferInv b' × (length b'.pool + held b' ≡ length b.pool + held b + arrivals cs)
  unfolding run
  run-pool b server [] v = (v, omega arith)
  run-pool b server (arrive pkt now ∷ cs) v =
      let (w, count) = run-pool (add b pkt now) server cs (add-BufferInv b pkt now v) in
      (w, omega (arith, count, add-pool b pkt now v))
  run-pool b server (flush_set pt clock ∷ cs) v =
      let (v', same) = flush_buffer_set-pool clock b pt server v in
      let (b', server') = flush_buffer_set write clock b pt server in
      let (w, count) = run-pool b' server' cs v' in (w, omega (arith, count, same))

  -- From a new buffer, after any arrivals and flushes and a final `Cleanup`, as many payloads
  -- were put back to the pool as packets arrived, and the buffer holds none.
  pub cleanup-run-pool :
      (size : ℕ) (server : S) (cs : List Call)
      → let b = cleanup (run (new_rtsp_buffer size, server) cs).0 in
        (length b.pool ≡ arrivals cs) × (held b ≡ 0)
  unfolding new_rtsp_buffer
  cleanup-run-pool size server cs =
      let (v, count) = run-pool (new_rtsp_buffer size) server cs (new-BufferInv size) in
      let (puts, empty) = cleanup-pool (run (new_rtsp_buffer size, server) cs).0 v in
      (omega (arith, count, puts), empty)

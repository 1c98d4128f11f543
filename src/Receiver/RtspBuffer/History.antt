-- ===== src/Receiver/RtspBuffer/History.antt =====
-- The whole buffer under any sequence of calls.
use mistlink.Base.{
  List-cases, ℕ, ◌<◌, refl, List, [], ◌∷◌, ◌++◌, arith, ◌==◌, inl, inr, if◌then◌else◌, Bool-cases,
}
use mistlink.RtpUtils.{Packet, payload_type_h264, payload_type_opus}
use mistlink.Receiver.RtspBuffer.{
  RtspBuffer, Lane, new_rtsp_buffer, add, cleanup, select, with_lane, max_buffer_size,
}
use mistlink.Receiver.RtspBuffer.Flushing.{
  FlushState, collect, flush_loop, flush_fuel, flush_start, flush_end,
}
use mistlink.Receiver.RtspBuffer.Invariant.{LaneInv, lane_add-LaneInv, cleanup_buffer-LaneInv}
use mistlink.Receiver.RtspBuffer.Lanes.{flush_loop-LaneInv}

-- A call of the buffer, with what it reads of the clock.
pub data Event : Type 0 where
  arrive : Packet → ℕ → Event
  flush_video : (ℕ → ℕ) → Event
  flush_audio : (ℕ → ℕ) → Event
  clean_up : Event

-- The payload type of a flush, and 0 for the other calls, which hand nothing on.
unfoldable pub step : RtspBuffer → Event → RtspBuffer × ℕ × List Packet
step b (arrive pkt now) = (add b pkt now, 0, [])
step b (flush_video clock) =
    let (b', out) = collect clock b payload_type_h264 in (b', payload_type_h264, out)
step b (flush_audio clock) =
    let (b', out) = collect clock b payload_type_opus in (b', payload_type_opus, out)
step b clean_up = (cleanup b, 0, [])

-- The buffer after the calls, and what the flushes of one payload type handed on.
unfoldable pub run : ℕ → RtspBuffer → List Event → RtspBuffer × List Packet
run pt b [] = (b, [])
run pt b (e ∷ es) =
    let (b', from, out) = step b e in
    let (b'', later) = run pt b' es in (b'', (if from == pt then out else []) ++ later)

-- Both lanes are in order, within the limit that `Add` keeps.
pub record BufferInv (b : RtspBuffer) : Type 0 where
  pub video : LaneInv (max_buffer_size b.buffer_size) b.video
  pub audio : LaneInv (max_buffer_size b.buffer_size) b.audio

pub limit-pos : (size : ℕ) → 0 < max_buffer_size size
unfolding max_buffer_size
limit-pos size = ground arith

-- Either lane, whatever the payload type.
pub select-LaneInv :
    (b : RtspBuffer) (pt : ℕ) → BufferInv b → LaneInv (max_buffer_size b.buffer_size) (select b pt)
unfolding select
select-LaneInv b pt v = elim (Bool-cases (pt == payload_type_opus)) [
  | inl e ↦ rw e v.audio
  | inr e ↦ rw e v.video
]

with_lane-BufferInv :
    (b : RtspBuffer) (pt : ℕ) (lane : Lane)
    → BufferInv b
    → LaneInv (max_buffer_size b.buffer_size) lane
    → BufferInv (with_lane b pt lane)
unfolding with_lane
with_lane-BufferInv b pt lane v w = elim (Bool-cases (pt == payload_type_opus)) [
  | inl e ↦ rw e (record { video = v.video; audio = w })
  | inr e ↦ rw e (record { video = w; audio = v.audio })
]

pub add-BufferInv :
    (b : RtspBuffer) (pkt : Packet) (now : ℕ) → BufferInv b → BufferInv (add b pkt now)
unfolding add
add-BufferInv b pkt now v =
    let pt = pkt.payload_type in
    let limit = max_buffer_size b.buffer_size in
    let w = with_lane-BufferInv b pt _ v (
      lane_add-LaneInv limit (select b pt) pkt now (limit-pos b.buffer_size)
        (select-LaneInv b pt v)) in
    record { video = w.video; audio = w.audio }

-- A flush does nothing, or runs its loop from the head of the order.
pub collect_cases {ℓ} :
    (P : RtspBuffer × List Packet → Type ℓ) (clock : ℕ → ℕ) (b : RtspBuffer) (pt : ℕ)
    → P (b, [])
    → ((first : ℕ)
        → let (s, out) = flush_loop clock pt flush_fuel 0 (flush_start b pt first) in
          P (flush_end b pt s, out))
    → P (collect clock b pt)
unfolding collect
collect_cases P clock b pt nothing loop = elim (List-cases (select b pt).order) [
  | inl e ↦ rw (e, collect) nothing
  | inr (first, rest, e) ↦ rw (e, collect) (loop first)
]

flush_end-BufferInv :
    (b : RtspBuffer) (pt : ℕ) (s : FlushState)
    → BufferInv b
    → LaneInv (max_buffer_size b.buffer_size) s.lane
    → BufferInv (flush_end b pt s)
unfolding flush_end
flush_end-BufferInv b pt s v w =
    let u = with_lane-BufferInv b pt s.lane v w in record { video = u.video; audio = u.audio }

pub flush_start-LaneInv :
    (b : RtspBuffer) (pt first : ℕ)
    → BufferInv b
    → LaneInv (max_buffer_size b.buffer_size) (flush_start b pt first).lane
unfolding flush_start
flush_start-LaneInv b pt first v = select-LaneInv b pt v

pub collect-BufferInv :
    (clock : ℕ → ℕ) (b : RtspBuffer) (pt : ℕ) → BufferInv b → BufferInv (collect clock b pt).0
collect-BufferInv clock b pt v =
    collect_cases (λ r. BufferInv r.0) clock b pt v
      λ first.
        flush_end-BufferInv b pt _ v
          (flush_loop-LaneInv clock pt (max_buffer_size b.buffer_size) flush_fuel 0
            (flush_start b pt first) (flush_start-LaneInv b pt first v)).0

pub cleanup-BufferInv : (b : RtspBuffer) → BufferInv b → BufferInv (cleanup b)
unfolding cleanup
cleanup-BufferInv b v =
    let limit = max_buffer_size b.buffer_size in
    record {
      video = cleanup_buffer-LaneInv limit b.video v.video;
      audio = cleanup_buffer-LaneInv limit b.audio v.audio;
    }

step-BufferInv : (b : RtspBuffer) (e : Event) → BufferInv b → BufferInv (step b e).0
unfolding step
step-BufferInv b (arrive pkt now) v = add-BufferInv b pkt now v
step-BufferInv b (flush_video clock) v = collect-BufferInv clock b payload_type_h264 v
step-BufferInv b (flush_audio clock) v = collect-BufferInv clock b payload_type_opus v
step-BufferInv b clean_up v = cleanup-BufferInv b v

run-BufferInv :
    (pt : ℕ) (b : RtspBuffer) (es : List Event) → BufferInv b → BufferInv (run pt b es).0
unfolding run
run-BufferInv pt b [] v = v
run-BufferInv pt b (e ∷ es) v = run-BufferInv pt (step b e).0 es (step-BufferInv b e v)

pub new-BufferInv : (size : ℕ) → BufferInv (new_rtsp_buffer size)
unfolding new_rtsp_buffer
new-BufferInv size = record {
  video = record { distinct = tt; held = λ i. refl; numbered = λ i. tt; bounded = omega arith };
  audio = record { distinct = tt; held = λ i. refl; numbered = λ i. tt; bounded = omega arith };
}

-- After any sequence of calls on a new buffer, each lane's order lists exactly its filled slots,
-- each once, every packet stands in the slot of its number, and no lane exceeds its limit.
pub run-new-BufferInv :
    (pt size : ℕ) (es : List Event) → BufferInv (run pt (new_rtsp_buffer size) es).0
run-new-BufferInv pt size es = run-BufferInv pt _ es (new-BufferInv size)

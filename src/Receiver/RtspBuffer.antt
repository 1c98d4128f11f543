-- ===== src/Receiver/RtspBuffer.antt =====
-- internal/receiver/rtsp_buffer.go: the reordering buffer before the RTSP server. A lane is one of
-- the pairs videoBuffer/videoOrder and audioBuffer/audioOrder; a map from payload types is a
-- function; `packetPool.Put` is a list of the payloads that were put back.
pub mod Flushing
pub mod Progress
pub mod Rewrite
pub mod Invariant
pub mod Flush
pub mod Lanes
pub mod Delivery
pub mod History
pub mod Numbering
pub mod Waiting
pub mod Pool
mod Tests
use mistlink.Base.{
  ℕ, zero, suc, ◌+◌, ◌-◌, ◌/◌, Bool, true, false, ◌&&◌, not, List, [], ◌∷◌, ◌++◌, Option, none,
  some, ltb, leb, ◌==◌, if◌then◌else◌, length, is_empty,
}
use mistlink.Base.Members.{remove_first}
use mistlink.Base.Words.{add16, add32, sub32}
use mistlink.RtpUtils.{
  Packet, payload_type_opus, payload_type_h264, video_ssrc, audio_ssrc, max_timestamp_delta,
}

abbrev pub min_max_buffer_size : ℕ
min_max_buffer_size = 1000

abbrev pub max_flush_batch : ℕ
max_flush_batch = 500

-- nanoseconds
abbrev pub max_stale_packet_age : ℕ
max_stale_packet_age = 100_000_000

pub record BufferedPacket : Type 0 where
  pub pkt : Packet
  pub received : ℕ
  pub payload_type : ℕ

abbrev pub Slots : Type 0
Slots = ℕ → Option BufferedPacket

pub record Lane : Type 0 where
  pub slots : Slots
  pub order : List ℕ

abbrev pub Table : Type 0
Table = ℕ → Option ℕ

-- `m[k] = v` on a map or an array
abbrev pub update : {A : Type 0} → (ℕ → Option A) → ℕ → Option A → ℕ → Option A
update m k v j = if k == j then v else m j

-- `m[k]` with the zero value for a missing key
abbrev pub value : Option ℕ → ℕ
value none = 0
value (some v) = v

-- The numbering that the packets leave with.
pub record Rewriter : Type 0 where
  pub outgoing_seq : Table
  pub last_input_timestamp : Table
  pub last_output_timestamp : Table

pub record RtspBuffer : Type 0 where
  pub buffer_size : ℕ
  pub video : Lane
  pub audio : Lane
  pub next_seq : Table
  pub rewriter : Rewriter
  pub pool : List (List ℕ)

abbrev pub empty_lane : Lane
empty_lane = record { slots = λ i. none; order = [] }

abbrev pub empty_rewriter : Rewriter
empty_rewriter = record {
  outgoing_seq = λ pt. none;
  last_input_timestamp = λ pt. none;
  last_output_timestamp = λ pt. none;
}

-- A negative size counts as 0 here.
unfoldable pub new_rtsp_buffer : ℕ → RtspBuffer
new_rtsp_buffer size = record {
  buffer_size = if leb size 0 then 2000 else size;
  video = empty_lane;
  audio = empty_lane;
  next_seq = λ pt. none;
  rewriter = empty_rewriter;
  pool = [];
}

unfoldable pub select : RtspBuffer → ℕ → Lane
select b pt = if pt == payload_type_opus then b.audio else b.video

unfoldable pub with_lane : RtspBuffer → ℕ → Lane → RtspBuffer
with_lane b pt lane =
    if pt == payload_type_opus then record b { audio = lane } else record b { video = lane }

unfoldable pub max_buffer_size : ℕ → ℕ
max_buffer_size size =
    let half = size / 2 in if ltb half min_max_buffer_size then min_max_buffer_size else half

-- The oldest number leaves a full lane, with its packet.
unfoldable pub evict : ℕ → Lane → List ℕ → Lane × List (List ℕ)
evict limit lane [] = (lane, [])
evict limit lane (oldest ∷ rest) =
    if leb limit (length (oldest ∷ rest))
    then elim (lane.slots oldest) [
      | none ↦ (record lane { order = rest }, [])
      | some bpkt ↦
          (record { slots = update lane.slots oldest none; order = rest }, bpkt.pkt.payload ∷ [])
    ]
    else (lane, [])

-- A packet of the same number is replaced in place.
unfoldable pub store : Lane → Packet → ℕ → Lane × List (List ℕ)
store lane pkt now =
    let slot : BufferedPacket = record {
      pkt = pkt;
      received = now;
      payload_type = pkt.payload_type;
    } in
    let slots = update lane.slots pkt.sequence_number (some slot) in
    elim (lane.slots pkt.sequence_number) [
      | some old ↦ (record lane { slots = slots }, old.pkt.payload ∷ [])
      | none ↦ (record { slots = slots; order = lane.order ++ (pkt.sequence_number ∷ []) }, [])
    ]

unfoldable pub lane_add : ℕ → Lane → Packet → ℕ → Lane × List (List ℕ)
lane_add limit lane pkt now =
    let (kept, evicted) = evict limit lane lane.order in
    let (stored, replaced) = store kept pkt now in (stored, evicted ++ replaced)

-- `now` is the reading of `time.Now`.
unfoldable pub add : RtspBuffer → Packet → ℕ → RtspBuffer
add b pkt now =
    let pt = pkt.payload_type in
    let (lane, puts) = lane_add (max_buffer_size b.buffer_size) (select b pt) pkt now in
    let b' = with_lane b pt lane in record b' { pool = b'.pool ++ puts }

-- The loop of `cleanupBuffer`.
clear_slots : Slots → List ℕ → Slots × List (List ℕ)
clear_slots slots [] = (slots, [])
clear_slots slots (seq ∷ rest) =
    let (cleared, puts) = clear_slots (update slots seq none) rest in
    elim (slots seq) [
      | none ↦ clear_slots slots rest
      | some bpkt ↦ (cleared, bpkt.pkt.payload ∷ puts)
    ]

unfoldable pub cleanup_buffer : Lane → Lane × List (List ℕ)
unfolding clear_slots
cleanup_buffer lane =
    let (slots, puts) = clear_slots lane.slots lane.order in
    (record { slots = slots; order = [] }, puts)

unfoldable pub cleanup : RtspBuffer → RtspBuffer
unfolding cleanup_buffer
cleanup b =
    let (video, puts) = cleanup_buffer b.video in
    let (audio, more) = cleanup_buffer b.audio in
    record b { video = video; audio = audio; pool = b.pool ++ (puts ++ more) }

with_ssrc : ℕ → Packet → Packet
with_ssrc pt pkt =
    if pt == payload_type_h264
    then record pkt { ssrc = video_ssrc }
    else if pt == payload_type_opus
    then record pkt { ssrc = audio_ssrc }
    else pkt

-- The rewriting of one packet: the first keeps its number and time, the next ones continue them.
unfoldable pub rewrite : Rewriter → ℕ → Packet → Rewriter × Packet
unfolding with_ssrc
rewrite r pt original =
    let pkt = with_ssrc pt original in
    let original_ts = original.timestamp in
    elim (r.last_output_timestamp pt) [
      | none ↦ (
        record {
          outgoing_seq = update r.outgoing_seq pt (some original.sequence_number);
          last_input_timestamp = update r.last_input_timestamp pt (some original_ts);
          last_output_timestamp = update r.last_output_timestamp pt (some original_ts);
        },
        pkt,
      )
      | some last_out_ts ↦
          let gap = sub32 original_ts (value (r.last_input_timestamp pt)) in
          let delta = if ltb max_timestamp_delta gap then 0 else gap in
          let new_ts = add32 last_out_ts delta in
          let out_seq = add16 (value (r.outgoing_seq pt)) 1 in
          (
            record {
              outgoing_seq = update r.outgoing_seq pt (some out_seq);
              last_input_timestamp = update r.last_input_timestamp pt (some original_ts);
              last_output_timestamp = update r.last_output_timestamp pt (some new_ts);
            },
            record pkt { timestamp = new_ts; sequence_number = out_seq },
          )
    ]

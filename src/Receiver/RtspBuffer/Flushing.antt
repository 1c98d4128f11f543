-- ===== src/Receiver/RtspBuffer/Flushing.antt =====
-- internal/receiver/rtsp_buffer.go, Flush and flushBufferSet: what leaves the buffer, and to whom.
use mistlink.Base.{
  ℕ, zero, suc, ◌+◌, ◌-◌, true, false, ◌&&◌, not, List, [], ◌∷◌, ◌++◌, Option, none, some, ltb,
  if◌then◌else◌, is_empty,
}
use mistlink.Base.Members.{remove_first}
use mistlink.Base.Words.{add16}
use mistlink.RtpUtils.{Packet, payload_type_opus, payload_type_h264}
use mistlink.Receiver.RtspBuffer.{
  BufferedPacket, Lane, Rewriter, RtspBuffer, max_flush_batch, max_stale_packet_age, rewrite,
  select, update, with_lane,
}

-- What one round of the flush loop does.
pub data Round : Type 0 where
  -- `break`
  stop : Round
  -- `nextSeq = oldestSeq; continue`
  jump : ℕ → Round
  send : BufferedPacket → Round

-- A missing packet is waited for until the oldest one held is stale; `now` is what `time.Since`
-- reads in this round.
unfoldable pub next_round : Lane → ℕ → ℕ → Round
next_round lane next now = elim (lane.slots next) [
  | some bpkt ↦ send bpkt
  | none ↦ elim lane.order [
    | [] ↦ stop
    | oldest ∷ rest ↦ elim (lane.slots oldest) [
      | none ↦ stop
      | some old ↦ if ltb max_stale_packet_age (now - old.received) then jump oldest else stop
    ]
  ]
]

-- The variables of the loop; `next` is also what `b.nextSeq` holds for the payload type.
pub record FlushState : Type 0 where
  pub lane : Lane
  pub rewriter : Rewriter
  pub next : ℕ
  pub sent_in_batch : ℕ

unfoldable pub after_send : FlushState → ℕ → BufferedPacket → FlushState × Packet
after_send s pt bpkt =
    let (rewriter, pkt) = rewrite s.rewriter pt bpkt.pkt in
    (
      record {
        lane = record {
          slots = update s.lane.slots s.next none;
          order = remove_first s.next s.lane.order;
        };
        rewriter = rewriter;
        next = add16 s.next 1;
        sent_in_batch = s.sent_in_batch + 1;
      },
      pkt,
    )

-- The loop of `flushBufferSet` on fuel, with the packets that it appends to `toSend`. Round i reads
-- the clock as `clock i`.
unfoldable pub flush_loop : (ℕ → ℕ) → ℕ → ℕ → ℕ → FlushState → FlushState × List Packet
flush_loop clock pt zero i s = (s, [])
flush_loop clock pt (suc fuel) i s =
    elim (ltb s.sent_in_batch max_flush_batch && not (is_empty s.lane.order)) [
      | false ↦ (s, [])
      | true ↦ elim (next_round s.lane s.next (clock i)) [
        | stop ↦ (s, [])
        | jump oldest ↦ flush_loop clock pt fuel (i + 1) (record s { next = oldest })
        | send bpkt ↦
            let (s', pkt) = after_send s pt bpkt in
            let (end, pkts) = flush_loop clock pt fuel (i + 1) s' in (end, pkt ∷ pkts)
      ]
    ]

-- Two rounds for each packet of a batch, and one.
abbrev pub flush_fuel : ℕ
flush_fuel = 1001

-- The loop's variables at its start; `first` is the head of the order.
unfoldable pub flush_start : RtspBuffer → ℕ → ℕ → FlushState
flush_start b pt first = record {
  lane = select b pt;
  rewriter = b.rewriter;
  next = elim (b.next_seq pt) [ none ↦ first | some n ↦ n ];
  sent_in_batch = 0;
}

unfoldable pub flush_end : RtspBuffer → ℕ → FlushState → RtspBuffer
flush_end b pt s = record (with_lane b pt s.lane) {
  next_seq = update b.next_seq pt (some s.next);
  rewriter = s.rewriter;
}

-- `flushBufferSet` up to `Unlock`.
unfoldable pub collect : (ℕ → ℕ) → RtspBuffer → ℕ → RtspBuffer × List Packet
collect clock b pt = elim (select b pt).order [
  | [] ↦ (b, [])
  | first ∷ rest ↦
      let (s, to_send) = flush_loop clock pt flush_fuel 0 (flush_start b pt first) in
      (flush_end b pt s, to_send)
]

-- The server writes a packet, and may change it; an error is logged only.
module _ {S : Type 0} (write : S → Packet → S × Packet) where
  -- The loop over `toSend`, with the payloads that go back to the pool.
  unfoldable pub send_all : S → List Packet → S × List (List ℕ)
  send_all server [] = (server, [])
  send_all server (pkt ∷ rest) =
      let (server', pkt') = write server pkt in
      let (server'', puts) = send_all server' rest in (server'', pkt'.payload ∷ puts)

  unfoldable pub flush_buffer_set : (ℕ → ℕ) → RtspBuffer → ℕ → S → RtspBuffer × S
  flush_buffer_set clock b pt server =
      let (b', to_send) = collect clock b pt in
      let (server', puts) = send_all server to_send in
      (record b' { pool = b'.pool ++ puts }, server')

  -- A nil server flushes nothing.
  unfoldable pub flush : (ℕ → ℕ) → (ℕ → ℕ) → RtspBuffer → Option S → RtspBuffer × Option S
  flush clock clock' b none = (b, none)
  flush clock clock' b (some server) =
      let (b', server') = flush_buffer_set clock b payload_type_h264 server in
      let (b'', server'') = flush_buffer_set clock' b' payload_type_opus server' in
      (b'', some server'')

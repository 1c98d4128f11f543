-- ===== src/Receiver/Bridge/Packets.antt =====
-- internal/receiver/rtp_sender.go: packets into the channel, to the listeners, and from the channel
-- through the buffer to the server.
use mistlink.Base.{
  ◌≤◌, ◌<◌, ◌≡◌, ◌⊎◌, inl, inr, refl, arith, ℕ, zero, suc, ◌+◌, ◌*◌, ◌/◌, Bool, ◌&&◌, ◌||◌, not,
  List, [], ◌∷◌, ◌++◌, map, ltb, if◌then◌else◌, length,
}
use native.Mathlib.Nat.{div-div-eq-div-mul, mul-div-le, lt-mul-div-succ, mul-le-mul_left}
use mistlink.Base.Maps.{insert, erase}
use mistlink.RtpUtils.{Packet}
use mistlink.Rtsp.Aac.{Transcode}
use mistlink.Rtsp.Server.{Server}
use mistlink.Rtsp.Server.Writing.{Accepts, write_packet_rtp}
use mistlink.Receiver.RtspBuffer.{add, cleanup}
use mistlink.Receiver.RtspBuffer.Flushing.{flush}
use mistlink.Receiver.Bridge.{Bridge, TrackId, blank, same_id}

abbrev pub is_blank : TrackId → Bool
is_blank id = same_id id blank

-- Whether a track is the active one of either kind.
unfoldable pub is_allowed : {C : Type 0} → Bridge C → TrackId → Bool
is_allowed b id =
    (not (is_blank b.active_video_track_id) && same_id id b.active_video_track_id)
    || (not (is_blank b.active_audio_track_id) && same_id id b.active_audio_track_id)

-- `Broadcast`: the listeners that are called.
unfoldable pub broadcast : {C : Type 0} → Bridge C → List ℕ
broadcast b = map (λ entry. entry.1) b.packet_listeners

-- The send on `rtpChan`, which drops the packet where the channel is full.
unfoldable pub enqueue : {C : Type 0} → Bridge C → Packet → Bridge C
enqueue b pkt =
    if ltb (length b.rtp_chan) b.chan_capacity
    then record b { rtp_chan = b.rtp_chan ++ (pkt ∷ []) }
    else b

-- `WriteRTP`: the bridge, and the listeners that get the packet.
unfoldable pub write_rtp : {C : Type 0} → Bridge C → Packet → TrackId → Bridge C × List ℕ
write_rtp b pkt id =
    if is_allowed b id then (if b.started then enqueue b pkt else b, broadcast b) else (b, [])

unfoldable pub add_listener : {C : Type 0} → Bridge C → ℕ → Bridge C × ℕ
add_listener b listener =
    let id = b.next_listener_id in
    (
      record b {
        next_listener_id = id + 1;
        packet_listeners = insert id listener b.packet_listeners;
      },
      id,
    )

unfoldable pub remove_listener : {C : Type 0} → Bridge C → ℕ → Bridge C
remove_listener b id = record b { packet_listeners = erase id b.packet_listeners }

-- `currentInterval` in milliseconds, and the packets counted since the last check.
pub record SenderLoop : Type 0 where
  pub interval : ℕ
  pub packet_count : ℕ

abbrev pub new_sender_loop : SenderLoop
new_sender_loop = record { interval = 50; packet_count = 0 }

-- `newInterval` for the packets of one second.
unfoldable pub adapt : ℕ → ℕ
adapt zero = 100
adapt (suc n) =
    let calculated = 1000 / suc n / 2 in
    if ltb calculated 10 then 10 else if ltb 100 calculated then 100 else calculated

-- No longer interval in the range has two flushes for each of the `n` packets of a second.
abbrev pub IsLongest : ℕ → ℕ → Type 0
IsLongest n i = ((i ≡ 10) ⊎ (n * 2 * i ≤ 1000)) × ((i ≡ 100) ⊎ (1000 < n * 2 * (i + 1)))

adapt_bounds : (n : ℕ) → (10 ≤ adapt n) × (adapt n ≤ 100)
unfolding adapt
adapt_bounds zero = omega arith
adapt_bounds (suc n) = ground arith

calculated_upper : (n : ℕ) → suc n * 2 * (1000 / suc n / 2) ≤ 1000
calculated_upper n = rw div-div-eq-div-mul (mul-div-le 1000 (suc n * 2))

calculated_lower : (n : ℕ) → 1000 < suc n * 2 * (1000 / suc n / 2 + 1)
calculated_lower n = rw div-div-eq-div-mul (lt-mul-div-succ 1000 (omega arith))

clamp : ℕ → ℕ
clamp c = if ltb c 10 then 10 else if ltb 100 c then 100 else c

clamp-IsLongest : (n c : ℕ) → n * 2 * c ≤ 1000 → 1000 < n * 2 * (c + 1) → IsLongest n (clamp c)
unfolding clamp
clamp-IsLongest n c upper lower =
    let below : c + 1 ≤ 11 → n * 2 * (c + 1) ≤ n * 2 * 11 = mul-le-mul_left (n * 2) in
    let above : 100 ≤ c → n * 2 * 100 ≤ n * 2 * c = mul-le-mul_left (n * 2) in ground arith

adapt-IsLongest : (n : ℕ) → IsLongest n (adapt n)
unfolding adapt clamp
adapt-IsLongest zero = (inr (omega arith), inl refl)
adapt-IsLongest (suc n) =
    clamp-IsLongest (suc n) (1000 / suc n / 2) (calculated_upper n) (calculated_lower n)

-- What the `select` of `rtpSenderLoop` takes, with the readings of the clock.
pub data Wake : Type 0 where
  received : ℕ → (ℕ → ℕ) → (ℕ → ℕ) → Wake
  checked : Wake
  ticked : (ℕ → ℕ) → (ℕ → ℕ) → Wake

module _ {C : Type 0} (transcode : Transcode C) (accepts : Accepts) where
  abbrev pub write_to : Server C → Packet → Server C × Packet
  write_to s pkt = let (s', pkt', err) = write_packet_rtp transcode accepts s pkt in (s', pkt')

  -- `flushBufferedPackets`
  unfoldable pub flush_buffered_packets : (ℕ → ℕ) → (ℕ → ℕ) → Bridge C → Bridge C
  flush_buffered_packets clock clock' b =
      let (buffer, server) = flush write_to clock clock' b.rtsp_buffer b.server in
      record b { rtsp_buffer = buffer; server = server }

  -- A packet out of the channel; an empty channel does not wake the loop.
  unfoldable pub receive :
      List Packet → ℕ → (ℕ → ℕ) → (ℕ → ℕ) → Bridge C × SenderLoop → Bridge C × SenderLoop
  receive [] now clock clock' s = s
  receive (pkt ∷ rest) now clock clock' (b, l) = (
    flush_buffered_packets clock clock'
        (record b { rtp_chan = rest; rtsp_buffer = add b.rtsp_buffer pkt now }),
    record l { packet_count = l.packet_count + 1 },
  )

  -- One round of `rtpSenderLoop`.
  unfoldable pub sender_round : Bridge C × SenderLoop → Wake → Bridge C × SenderLoop
  unfolding receive
  sender_round (b, l) (received now clock clock') = receive b.rtp_chan now clock clock' (b, l)
  sender_round (b, l) checked = (b, record { interval = adapt l.packet_count; packet_count = 0 })
  sender_round (b, l) (ticked clock clock') = (flush_buffered_packets clock clock' b, l)

  unfoldable pub sender_loop : Bridge C × SenderLoop → List Wake → Bridge C × SenderLoop
  sender_loop s [] = s
  sender_loop s (w ∷ ws) = sender_loop (sender_round s w) ws

  -- The last round, on `stopChan`.
  unfoldable pub sender_stop : (ℕ → ℕ) → (ℕ → ℕ) → Bridge C → Bridge C
  sender_stop clock clock' b =
      let b' = flush_buffered_packets clock clock' b in
      record b' { rtsp_buffer = cleanup b'.rtsp_buffer }

  abbrev InRange : Bridge C × SenderLoop → Type 0
  InRange (b, l) = (10 ≤ l.interval) × (l.interval ≤ 100)

  receive-InRange :
      (pkts : List Packet) (now : ℕ) (clock clock' : ℕ → ℕ) (s : Bridge C × SenderLoop)
      → InRange s
      → InRange (receive pkts now clock clock' s)
  unfolding receive
  receive-InRange [] now clock clock' s h = h
  receive-InRange (pkt ∷ rest) now clock clock' (b, l) h = h

  sender_round-InRange :
      (s : Bridge C × SenderLoop) (w : Wake) → InRange s → InRange (sender_round s w)
  unfolding sender_round
  sender_round-InRange (b, l) (received now clock clock') h =
      receive-InRange b.rtp_chan now clock clock' (b, l) h
  sender_round-InRange (b, l) checked h = adapt_bounds l.packet_count
  sender_round-InRange (b, l) (ticked clock clock') h = h

  sender_loop-InRange :
      (s : Bridge C × SenderLoop) (ws : List Wake) → InRange s → InRange (sender_loop s ws)
  unfolding sender_loop
  sender_loop-InRange s [] h = h
  sender_loop-InRange s (w ∷ ws) h =
      sender_loop-InRange (sender_round s w) ws (sender_round-InRange s w h)

  -- The interval of the flush ticker is between 10 and 100 milliseconds at any time, and the next
  -- check, for n packets counted, sets it to the longest with two flushes or more for each packet,
  -- kept in this range: the interval i is 10 or 2 * n * i is at most 1000, and i is 100 or
  -- 2 * n * (i + 1) is more.
  pub sender_loop-interval :
      (b : Bridge C) (ws : List Wake)
      → let s = sender_loop (b, new_sender_loop) ws in
        InRange s
        × InRange (sender_round s checked)
        × IsLongest s.1.packet_count (sender_round s checked).1.interval
  unfolding sender_round
  sender_loop-interval b ws =
      let s = sender_loop (b, new_sender_loop) ws in
      (
        sender_loop-InRange (b, new_sender_loop) ws (omega arith),
        adapt_bounds s.1.packet_count,
        adapt-IsLongest s.1.packet_count,
      )

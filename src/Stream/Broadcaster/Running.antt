-- ===== src/Stream/Broadcaster/Running.antt =====
-- internal/stream/broadcaster.go, Start and run: the loop of a track's goroutine, while receivers come
-- and go. A round of the loop is one step.
pub mod Life
mod Receivers
pub mod Release
mod Tests
mod Writes
use mistlink.Base.{
  ℕ, Bool, true, false, List, [], ◌∷◌, ◌++◌, map, Option, none, some, ◌==◌, if◌then◌else◌,
}
use mistlink.Base.Text.{equal_fold}
use mistlink.RtpUtils.{Packet, payload_type_h264, payload_type_opus}
use mistlink.Receiver.Bridge.{Bridge, TrackId, blank, Start, track_started, track_stopped}
use mistlink.Receiver.TrackLoop.{mime_h264, mime_opus}
use mistlink.Stream.Broadcaster.{
  TrackBroadcaster, Loop, Sent, new_track_stats, add_receiver, remove_receiver, round,
}

-- The goroutine's variables: `running` until it has returned.
pub record Running (C : Type 0) : Type 0 where
  pub loop : Loop C
  pub video : Bool
  pub track_id : TrackId
  pub running : Bool

-- What a local track is given: a unit that was cached, or a packet.
pub data Written : Type 0 where
  unit : List ℕ → Written
  rtp : Packet → Written

abbrev pub as_unit : ℕ × List ℕ → ℕ × Written
as_unit (local_track, u) = (local_track, unit u)

-- `TrackStarted`, where there is a bridge.
unfoldable pub start_track :
    {C : Type 0} → Option (Bridge C) → ℕ → List ℕ → ℕ → Option (Bridge C) × TrackId
start_track none ssrc mime now = (none, blank)
start_track (some b) ssrc mime now =
    let (b', id, asks) = track_started b ssrc mime now in (some b', id)

-- The deferred `TrackStopped`.
unfoldable pub stop_track : {C : Type 0} → Option (Bridge C) → ℕ → TrackId → Option (Bridge C)
stop_track none ssrc id = none
stop_track (some b) ssrc id = some (track_stopped b ssrc id)

unfoldable pub enter_loop :
    {C : Type 0} → TrackBroadcaster → Option (Bridge C) → Bool → List ℕ → ℕ → Running C
enter_loop b bridge video mime now =
    let (bridge', id) = start_track bridge b.ssrc mime now in
    record {
      loop = record {
        broadcaster = b;
        stats = new_track_stats now;
        bridge = bridge';
        last_pli_time = now;
      };
      video = video;
      track_id = id;
      running = true;
    }

-- `run` up to the loop: a track of another codec is not read at all.
unfoldable pub start_run :
    {C : Type 0} → TrackBroadcaster → Option (Bridge C) → List ℕ → ℕ → Running C
start_run b bridge mime now =
    if equal_fold mime mime_h264
    then enter_loop b bridge true mime now
    else if equal_fold mime mime_opus
    then enter_loop b bridge false mime now
    else record {
      loop = record {
        broadcaster = b;
        stats = new_track_stats now;
        bridge = bridge;
        last_pli_time = now;
      };
      video = false;
      track_id = blank;
      running = false;
    }

-- What happens to a broadcaster: `ends` is the closed channel or the read that fails.
pub data Event : Type 0 where
  joins : ℕ → ℕ → Event
  leaves : ℕ → Event
  reads : Packet → ℕ → Event
  ends : Event

unfoldable pub end_run : {C : Type 0} → Running C → Running C
end_run s =
    if s.running
    then record s {
      loop = record s.loop { bridge = stop_track s.loop.bridge s.loop.broadcaster.ssrc s.track_id };
      running = false;
    }
    else s

unfoldable pub read_round :
    {C : Type 0} → C → Start C → Running C → Packet → ℕ → Running C × List (ℕ × Written)
read_round ctx start s pkt now =
    let (l, sent) = round ctx start s.video s.track_id now s.loop pkt in
    if s.running
    then (record s { loop = l }, map (λ t. (t, rtp sent.packet)) sent.to_receivers)
    else (s, [])

-- One event, and what it writes to which local track.
unfoldable pub step :
    {C : Type 0} → C → Start C → Running C → Event → Running C × List (ℕ × Written)
step ctx start s (joins id local_track) =
    let (b, units, pli) = add_receiver s.loop.broadcaster id local_track in
    (record s { loop = record s.loop { broadcaster = b } }, map as_unit units)
step ctx start s (leaves id) =
    (record s { loop = record s.loop { broadcaster = remove_receiver s.loop.broadcaster id } }, [])
step ctx start s (reads pkt now) = read_round ctx start s pkt now
step ctx start s ends = (end_run s, [])

unfoldable pub run :
    {C : Type 0} → C → Start C → Running C → List Event → Running C × List (ℕ × Written)
run ctx start s [] = (s, [])
run ctx start s (e ∷ es) =
    let (s', out) = step ctx start s e in
    let (s'', later) = run ctx start s' es in (s'', out ++ later)

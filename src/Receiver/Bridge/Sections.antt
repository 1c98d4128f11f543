-- ===== src/Receiver/Bridge/Sections.antt =====
-- The goroutines of a bridge of internal/receiver/bridge.go and rtp_sender.go, and those of its server,
-- cut at the locks that they take and release: what a goroutine does between is one section. Only the
-- sender's goroutine uses the reordering buffer.
use mistlink.Base.{ℕ, ◌≡◌, Bool, true, false, List, [], ◌∷◌, ◌++◌, none, some, if◌then◌else◌}
use mistlink.RtpUtils.{Packet, payload_type_h264, payload_type_opus}
use mistlink.Rtsp.Aac.{Transcode}
use mistlink.Rtsp.Server.{Server, on_play, on_session_close}
use mistlink.Rtsp.Server.Writing.{Accepts, DummyLoop, dummy_tick}
use mistlink.Receiver.RtspBuffer.{RtspBuffer, add, cleanup}
use mistlink.Receiver.RtspBuffer.Flushing.{collect}
use mistlink.Receiver.Bridge.{
  Bridge, TrackId, Start, track_started, register_pli_handler, stop_primary, stop_pli, stop_idle,
  set_sps_pps,
}
use mistlink.Receiver.Bridge.Packets.{enqueue, is_allowed, write_to, add_listener, remove_listener}

-- Where the goroutine of `rtpSenderLoop` stands: in its select; before it reads the server, in its
-- last flush or not; with packets left to send, those of the second kind collected or not; or at its
-- end.
pub data Phase : Type 0 where
  waiting : Phase
  flushing : Bool → Phase
  sending : Bool → Bool → List Packet → Phase
  ended : Phase

-- The bridge; the packets of the calls of `WriteRTP` that found it started, before their send on the
-- channel; the sender's goroutine; and whether `stopChan` is closed.
pub record World (C : Type 0) : Type 0 where
  pub bridge : Bridge C
  pub writers : List Packet
  pub phase : Phase
  pub stopping : Bool

-- The end of a flush: the last one is followed by `Cleanup`.
unfoldable pub flushed : {C : Type 0} → World C → Bool → World C
flushed w last =
    if last
    then record w {
      bridge = record w.bridge { rtsp_buffer = cleanup w.bridge.rtsp_buffer };
      phase = ended;
    }
    else record w { phase = waiting }

-- The second half of `Stop`, after `b.wg.Wait()`.
unfoldable pub stop_bridge : {C : Type 0} → Bridge C → Bridge C
stop_bridge b = record b { server = none; started = false }

-- The packets of one kind are collected, under the buffer's mutex.
unfoldable pub collected : {C : Type 0} → World C → (ℕ → ℕ) → ℕ → Bool → Bool → World C
collected w clock pt last both =
    let (buffer, pkts) = collect clock w.bridge.rtsp_buffer pt in
    record w { bridge = record w.bridge { rtsp_buffer = buffer }; phase = sending last both pkts }

-- The payload of a packet that was sent goes back to the pool.
unfoldable pub put_back : RtspBuffer → Packet → RtspBuffer
put_back buffer pkt = record buffer { pool = buffer.pool ++ (pkt.payload ∷ []) }

abbrev pub on_bridge : {C : Type 0} → World C → Bridge C → World C
on_bridge w b = record w { bridge = b }

abbrev pub on_server : {C : Type 0} → World C → Server C → World C
on_server w s = record w { bridge = record w.bridge { server = some s } }

module _ {C : Type 0} (transcode : Transcode C) (accepts : Accepts) (ctx : C) where
  -- One packet is written to the server, by which it may change.
  unfoldable pub sent_to_server : World C → Server C → Packet → Phase → World C
  sent_to_server w s pkt phase =
      let (s', pkt') = write_to transcode accepts s pkt in
      record w {
        bridge = record w.bridge {
          server = some s';
          rtsp_buffer = put_back w.bridge.rtsp_buffer pkt';
        };
        phase = phase;
      }

  -- One section, of whichever goroutine. A section of the bridge's mutex has the calls of the server
  -- in it that it makes.
  pub data Section (w : World C) : World C → Type 0 where
    -- The tracks' readers and the relays; the three sections of `TrackStopped` stand apart.
    start_track :
        (ssrc : ℕ) (mime : List ℕ) (now : ℕ)
        → Section w (on_bridge w (track_started w.bridge ssrc mime now).0)
    register :
        (ssrc handler : ℕ) → Section w (on_bridge w (register_pli_handler w.bridge ssrc handler))
    leave_primary :
        (ssrc : ℕ) (id : TrackId) → Section w (on_bridge w (stop_primary w.bridge ssrc id))
    leave_pli : (ssrc : ℕ) → Section w (on_bridge w (stop_pli w.bridge ssrc))
    leave_idle : Section w (on_bridge w (stop_idle w.bridge))
    parameter_sets :
        (start : Start C) (sps pps : List ℕ)
        → Section w (on_bridge w (set_sps_pps ctx start w.bridge sps pps))
    listen : (listener : ℕ) → Section w (on_bridge w (add_listener w.bridge listener).0)
    unlisten : (id : ℕ) → Section w (on_bridge w (remove_listener w.bridge id))
    -- `WriteRTP`: the test under the mutex, and the send on the channel after `Broadcast`.
    admit :
        (pkt : Packet) (id : TrackId)
        → is_allowed w.bridge id ≡ true
        → w.bridge.started ≡ true
        → Section w (record w { writers = pkt ∷ w.writers })
    send_on_channel :
        (before after : List Packet) (pkt : Packet)
        → w.writers ≡ before ++ (pkt ∷ after)
        → Section w (record w { bridge = enqueue w.bridge pkt; writers = before ++ after })
    -- `rtpSenderLoop`: a packet, the flush ticker, or `stopChan`.
    receive :
        (pkt : Packet) (rest : List Packet) (now : ℕ)
        → w.phase ≡ waiting
        → w.bridge.rtp_chan ≡ pkt ∷ rest
        → Section w (record w {
          bridge = record w.bridge {
            rtp_chan = rest;
            rtsp_buffer = add w.bridge.rtsp_buffer pkt now;
          };
          phase = flushing false;
        })
    tick_flush : w.phase ≡ waiting → Section w (record w { phase = flushing false })
    see_stop :
        w.phase ≡ waiting → w.stopping ≡ true → Section w (record w { phase = flushing true })
    -- `flushBufferedPackets`: without a server nothing is flushed; the packets of each kind are
    -- collected under the buffer's mutex and written one by one.
    no_server :
        (last : Bool)
        → w.phase ≡ flushing last
        → w.bridge.server ≡ none
        → Section w (flushed w last)
    collect_video :
        (last : Bool) (clock : ℕ → ℕ) (s : Server C)
        → w.phase ≡ flushing last
        → w.bridge.server ≡ some s
        → Section w (collected w clock payload_type_h264 last false)
    collect_audio :
        (last : Bool) (clock : ℕ → ℕ)
        → w.phase ≡ sending last false []
        → Section w (collected w clock payload_type_opus last true)
    send_to_server :
        (last both : Bool) (pkt : Packet) (pkts : List Packet) (s : Server C)
        → w.phase ≡ sending last both (pkt ∷ pkts)
        → w.bridge.server ≡ some s
        → Section w (sent_to_server w s pkt (sending last both pkts))
    finish_flush : (last : Bool) → w.phase ≡ sending last true [] → Section w (flushed w last)
    -- `Stop` closes the channel, waits for the sender and closes the server.
    close_stop : Section w (record w { stopping = true })
    close_server : w.phase ≡ ended → Section w (on_bridge w (stop_bridge w.bridge))
    -- The server's own goroutines: a tick of `dummyPacketLoop`, whatever it has counted, and the
    -- sessions.
    tick_dummy :
        (s : Server C) (d : DummyLoop)
        → w.bridge.server ≡ some s
        → Section w (on_server w (dummy_tick accepts s d).0)
    play : (s : Server C) → w.bridge.server ≡ some s → Section w (on_server w (on_play s))
    close_session :
        (s : Server C) → w.bridge.server ≡ some s → Section w (on_server w (on_session_close s))

  pub data Reach (w : World C) : World C → Type 0 where
    here : Reach w w
    then_section : {u v : World C} → Reach w u → Section u v → Reach w v

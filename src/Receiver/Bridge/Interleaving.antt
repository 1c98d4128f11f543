-- ===== src/Receiver/Bridge/Interleaving.antt =====
-- What holds of a bridge however the sections of its goroutines interleave.
use mistlink.Base.{ℕ, refl, ap, Bool, false, length, List, [], inl, arith, if_rule, if_split, ltb}
use mistlink.Rtsp.Aac.{Transcode}
use mistlink.Rtsp.Server.{Server, AudioCodec, on_play, on_session_close}
use mistlink.Rtsp.Server.Writing.{Accepts, DummyLoop, dummy_tick}
use mistlink.Rtsp.Server.Offer.{Offers, write_packet_rtp-Offers}
use mistlink.Receiver.Bridge.{Bridge, new_rtp_bridge, register_pli_handler, stop_pli}
use mistlink.Receiver.Bridge.Packets.{add_listener, remove_listener}
use mistlink.Receiver.Bridge.Sections.{
  World, waiting, collected, sent_to_server, flushed, stop_bridge, Section, start_track, register,
  leave_primary, leave_pli, leave_idle, parameter_sets, listen, unlisten, admit, send_on_channel,
  receive, tick_flush, see_stop, no_server, collect_video, collect_audio, send_to_server,
  finish_flush, close_stop, close_server, tick_dummy, play, close_session, Reach, here,
  then_section,
}
use mistlink.Receiver.Bridge.Invariant.{
  BridgeInv, set_sps_pps-BridgeInv, track_started-BridgeInv, stop_primary-BridgeInv,
  stop_idle-BridgeInv, enqueue-BridgeInv, with_server-BridgeInv,
}

abbrev pub new_world : {C : Type 0} → Bridge C → World C
new_world b = record { bridge = b; writers = []; phase = waiting; stopping = false }

module _ {C : Type 0} (transcode : Transcode C) (accepts : Accepts) (ctx : C) where
  -- Where the dummy loop finds real data it leaves the server as it is.
  dummy_tick-Offers :
      (sps pps : List ℕ) (s : Server C) (d : DummyLoop)
      → Offers sps pps s
      → Offers sps pps (dummy_tick accepts s d).0
  unfolding dummy_tick
  dummy_tick-Offers sps pps s d v =
      if_split (λ (r : Server C × DummyLoop). Offers sps pps r.0) s.has_real_data (λ _. v)
        (λ blank. absurd (ground (arith, blank, v.0)))

  on_session_close-Offers :
      (sps pps : List ℕ) (s : Server C) → Offers sps pps s → Offers sps pps (on_session_close s)
  unfolding on_session_close
  on_session_close-Offers sps pps s v = if_rule (Offers sps pps) (ltb 0 s.active_client_count) v v

  flushed-BridgeInv :
      (w : World C) (last : Bool) → BridgeInv w.bridge → BridgeInv (flushed w last).bridge
  unfolding flushed
  flushed-BridgeInv w last v =
      if_rule (λ (u : World C). BridgeInv u.bridge) last
        (record { offered = v.offered; bounded = v.bounded }) v

  Section-BridgeInv :
      {w u : World C} → Section transcode accepts ctx w u → BridgeInv w.bridge → BridgeInv u.bridge
  unfolding register_pli_handler stop_pli add_listener remove_listener stop_bridge on_play collected
      sent_to_server
  Section-BridgeInv {w} (start_track ssrc mime now) v =
      track_started-BridgeInv w.bridge ssrc mime now v
  Section-BridgeInv (register ssrc handler) v = record { offered = v.offered; bounded = v.bounded }
  Section-BridgeInv {w} (leave_primary ssrc id) v = stop_primary-BridgeInv w.bridge ssrc id v
  Section-BridgeInv (leave_pli ssrc) v = record { offered = v.offered; bounded = v.bounded }
  Section-BridgeInv {w} leave_idle v = stop_idle-BridgeInv w.bridge v
  Section-BridgeInv {w} (parameter_sets start sps pps) v =
      set_sps_pps-BridgeInv ctx start w.bridge sps pps v
  Section-BridgeInv (listen listener) v = record { offered = v.offered; bounded = v.bounded }
  Section-BridgeInv (unlisten id) v = record { offered = v.offered; bounded = v.bounded }
  Section-BridgeInv (admit pkt id allowed started) v = v
  Section-BridgeInv {w} (send_on_channel before after pkt e) v = enqueue-BridgeInv w.bridge pkt v
  Section-BridgeInv (receive pkt rest now e full) v = record {
    offered = v.offered;
    bounded = omega (arith, v.bounded, ap length full);
  }
  Section-BridgeInv (tick_flush e) v = v
  Section-BridgeInv (see_stop e stopping) v = v
  Section-BridgeInv {w} (no_server last e gone) v = flushed-BridgeInv w last v
  Section-BridgeInv (collect_video last clock s e there) v = record {
    offered = v.offered;
    bounded = v.bounded;
  }
  Section-BridgeInv (collect_audio last clock e) v = record {
    offered = v.offered;
    bounded = v.bounded;
  }
  Section-BridgeInv {w} (send_to_server last both pkt pkts s e there) v =
      with_server-BridgeInv w.bridge s _ _ there
        (write_packet_rtp-Offers w.bridge.sps w.bridge.pps transcode accepts s pkt) v
  Section-BridgeInv {w} (finish_flush last e) v = flushed-BridgeInv w last v
  Section-BridgeInv close_stop v = v
  Section-BridgeInv (close_server e) v = record { offered = inl refl; bounded = v.bounded }
  Section-BridgeInv {w} (tick_dummy s d there) v =
      with_server-BridgeInv w.bridge s _ _ there (dummy_tick-Offers w.bridge.sps w.bridge.pps s d) v
  Section-BridgeInv {w} (play s there) v = with_server-BridgeInv w.bridge s _ _ there (λ o. o) v
  Section-BridgeInv {w} (close_session s there) v =
      with_server-BridgeInv w.bridge s _ _ there
        (on_session_close-Offers w.bridge.sps w.bridge.pps s) v

  Reach-BridgeInv :
      {w u : World C} → Reach transcode accepts ctx w u → BridgeInv w.bridge → BridgeInv u.bridge
  Reach-BridgeInv here v = v
  Reach-BridgeInv (then_section r s) v = Section-BridgeInv s (Reach-BridgeInv r v)

  new-BridgeInv :
      (server : Server C) (port : ℕ) (codec : AudioCodec) (size : ℕ)
      → BridgeInv (new_rtp_bridge server port codec size)
  unfolding new_rtp_bridge
  new-BridgeInv server port codec size = record { offered = inl refl; bounded = omega arith }

  -- However the sections of a new bridge's goroutines and of its server's interleave, where a
  -- section of the bridge's mutex has the calls of the server in it that it makes, also while the
  -- bridge is stopped: a bridge that has started knows both parameter sets, its server streams
  -- real data and offers exactly these two, and the packet channel never holds more than its
  -- capacity.
  pub Reach-new-BridgeInv :
      (server : Server C) (port : ℕ) (codec : AudioCodec) (size : ℕ) {w : World C}
      → Reach transcode accepts ctx (new_world (new_rtp_bridge server port codec size)) w
      → BridgeInv w.bridge
  Reach-new-BridgeInv server port codec size r =
      Reach-BridgeInv r (new-BridgeInv server port codec size)

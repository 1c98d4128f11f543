-- ===== src/Receiver/TrackLoop/Release.antt =====
-- What a track leaves behind when its loop has ended.
use mathlib.Core.Path.{subst}
use mistlink.Base.{
  ℕ, ◌≡◌, refl, ◌∙◌, sym, Bool, true, false, ◌&&◌, ◌||◌, not, arith, List, [], ◌∷◌, is_empty,
  if_rule, if_split,
}
use mistlink.Base.Text.{equal_fold}
use mistlink.RtpUtils.{Packet}
use mistlink.Receiver.Stats.{new_track_stats}
use mistlink.Receiver.Bridge.{
  Bridge, TrackId, Start, of_track, is_video, is_audio, track_started, track_stopped,
  register_pli_handler, same_id,
}
use mistlink.Receiver.Bridge.Tracks.{
  TracksInv, track_started-TracksInv, track_stopped-TracksInv, IsOf,
}
use mistlink.Receiver.Bridge.Frame.{
  Tracks, tracks_of, IsGone, track_stopped-IsGone, set_sps_pps-tracks_of, write_rtp-tracks_of,
}
use mistlink.Receiver.VideoPacket.{find_sets, extract_sps_pps, process_video_packet}
use mistlink.Receiver.TrackLoop.{
  Loop, Feedback, mime_h264, mime_opus, video_packet, track_round, track_loop, run_track,
  handle_track,
}

module _ {C : Type 0} (ctx : C) (start : Start C) where
  pub process_video_packet-tracks_of :
      (b : Bridge C) (payload : List ℕ) (id : TrackId)
      → tracks_of (process_video_packet ctx start b payload id).0 ≡ tracks_of b
  unfolding process_video_packet extract_sps_pps
  process_video_packet-tracks_of b [] id = refl
  process_video_packet-tracks_of b (first ∷ rest) id =
      let (sps, pps) = find_sets first rest in
      if_rule (λ (c : Bridge C). tracks_of c ≡ tracks_of b)
        (same_id id b.active_video_track_id && not (is_empty sps && is_empty pps))
        (set_sps_pps-tracks_of ctx start b sps pps) refl

  module _ (video has_writer : Bool) (ssrc : ℕ) (id : TrackId) where
    video_packet-tracks_of :
        (now : ℕ) (l : Loop C) (pkt : Packet)
        → tracks_of (video_packet ctx start has_writer ssrc id now l pkt).0.bridge
          ≡ tracks_of l.bridge
    unfolding video_packet
    video_packet-tracks_of now l pkt = process_video_packet-tracks_of l.bridge pkt.payload id

    track_round-tracks_of :
        (l : Loop C) (pkt : Packet) (now : ℕ)
        → tracks_of (track_round ctx start video has_writer ssrc id l (pkt, now)).0.bridge
          ≡ tracks_of l.bridge
    unfolding track_round
    track_round-tracks_of l pkt now =
        write_rtp-tracks_of _ _ id
        ∙ if_rule (λ (r : Loop C × _ × _). tracks_of r.0.bridge ≡ tracks_of l.bridge) video
            (video_packet-tracks_of now l pkt) refl

    track_loop-tracks_of :
        (l : Loop C) (reads : List (Packet × ℕ))
        → tracks_of (track_loop ctx start video has_writer ssrc id l reads).0.bridge
          ≡ tracks_of l.bridge
    unfolding track_loop
    track_loop-tracks_of l [] = refl
    track_loop-tracks_of l ((pkt, now) ∷ reads) =
        track_loop-tracks_of (track_round ctx start video has_writer ssrc id l (pkt, now)).0 reads
        ∙ track_round-tracks_of l pkt now

  pub TracksInv-tracks_of : (b c : Bridge C) → tracks_of c ≡ tracks_of b → TracksInv b → TracksInv c
  TracksInv-tracks_of b c e v = record {
    video_owner = subst (λ (t : Tracks). IsOf t.video_ssrc t.video_id) (sym e) v.video_owner;
    audio_owner = subst (λ (t : Tracks). IsOf t.audio_ssrc t.audio_id) (sym e) v.audio_owner;
  }

  pub track_started-id :
      (b : Bridge C) (ssrc : ℕ) (mime : List ℕ) (now : ℕ)
      → (track_started b ssrc mime now).1 ≡ of_track ssrc now
  unfolding track_started
  track_started-id b ssrc mime now =
      let P = λ (r : Bridge C × TrackId × Bool). r.1 ≡ of_track ssrc now in
      if_rule P (is_video mime) refl (if_rule P (is_audio mime) refl refl)

  -- What a track leaves behind, and that the identities are still those of the primary sources.
  abbrev Ends : ℕ → ℕ → Bridge C × List Feedback → Type 0
  Ends ssrc now (c, sent) = IsGone ssrc (of_track ssrc now) (tracks_of c) × TracksInv c

  run_track-Ends :
      (video has_writer : Bool) (b : Bridge C) (ssrc : ℕ) (mime : List ℕ) (now : ℕ)
      (reads : List (Packet × ℕ))
      → TracksInv b
      → Ends ssrc now (run_track ctx start video has_writer b ssrc mime now reads)
  unfolding run_track
  run_track-Ends video has_writer b ssrc mime now reads v =
      let id = of_track ssrc now in
      let b' = (track_started b ssrc mime now).0 in
      let l : Loop C = record { bridge = b'; stats = new_track_stats now; last_pli_time = now } in
      let end = (track_loop ctx start video has_writer ssrc id l reads).0.bridge in
      let w =
        TracksInv-tracks_of b' end (track_loop-tracks_of video has_writer ssrc id l reads)
          (track_started-TracksInv b ssrc mime now v) in
      subst
        (λ (i : TrackId).
          let c =
            track_stopped (track_loop ctx start video has_writer ssrc i l reads).0.bridge ssrc i in
          IsGone ssrc id (tracks_of c) × TracksInv c)
        (sym (track_started-id b ssrc mime now))
        (track_stopped-IsGone end ssrc now w, track_stopped-TracksInv end ssrc id w)

  -- From a bridge whose active identities belong to its primary sources: when `HandleTrack` returns
  -- for a track of H.264 or Opus, whatever was read of it, no packet of the track is let through, the
  -- bridge knows neither a track nor a handler for picture losses of its source, and its active
  -- identities belong to its primary sources.
  pub handle_track-IsGone :
      (has_writer : Bool) (b : Bridge C) (ssrc handler : ℕ) (mime : List ℕ) (now : ℕ)
      (reads : List (Packet × ℕ))
      → TracksInv b
      → (equal_fold mime mime_h264 || equal_fold mime mime_opus) ≡ true
      → let c = (handle_track ctx start has_writer b ssrc handler mime now reads).0 in
        IsGone ssrc (of_track ssrc now) (tracks_of c) × TracksInv c
  unfolding handle_track register_pli_handler
  handle_track-IsGone has_writer b ssrc handler mime now reads v supported =
      if_split (Ends ssrc now) (equal_fold mime mime_h264)
        (λ _.
          run_track-Ends true has_writer (register_pli_handler b ssrc handler) ssrc mime now reads
            (record { video_owner = v.video_owner; audio_owner = v.audio_owner }))
        (λ other.
          if_split (Ends ssrc now) (equal_fold mime mime_opus)
            (λ _. run_track-Ends false has_writer b ssrc mime now reads v)
            (λ neither. absurd (ground (arith, supported, other, neither))))

-- ===== src/Receiver/Bridge/Restart.antt =====
-- A track that starts again before it has stopped.
use mistlink.Base.{ℕ, ◌≡◌, ◌≢◌, ◌∙◌, ap, true, false, List, [], arith, ◌⊎◌, inl, inr}
use mistlink.Base.Maps.{insert, erase, erase-insert}
use mistlink.Receiver.Bridge.{
  Bridge, of_track, is_video, claim_video, track_started, release_video, release_audio,
  stop_primary, stop_pli, stop_idle, track_stopped,
}

module _ {C : Type 0} where
  started_video :
      (b : Bridge C) (ssrc now : ℕ) (mime : List ℕ)
      → is_video mime ≡ true
      → (b.primary_video_ssrc ≡ 0) ⊎ (b.primary_video_ssrc ≡ ssrc)
      → let c = (track_started b ssrc mime now).0 in
        (c.primary_video_ssrc ≡ ssrc)
        × (c.active_video_track_id ≡ of_track ssrc now)
        × (c.active_tracks ≡ insert ssrc mime b.active_tracks)
  unfolding track_started claim_video
  started_video b ssrc now mime video p = ground arith

  stop_primary-old :
      (b : Bridge C) (ssrc first second : ℕ)
      → b.active_video_track_id ≡ of_track ssrc second
      → first ≢ second
      → let c = stop_primary b ssrc (of_track ssrc first) in
        (c.active_video_track_id ≡ of_track ssrc second)
        × (c.active_tracks ≡ erase ssrc b.active_tracks)
  unfolding stop_primary release_video release_audio
  stop_primary-old b ssrc first second a n = ground arith

  idle_stops :
      (b : Bridge C) (ssrc : ℕ)
      → b.active_tracks ≡ []
      → let c = stop_idle (stop_pli b ssrc) in
        (c.active_video_track_id ≡ b.active_video_track_id)
        × (c.started ≡ false)
        × (c.sps ≡ [])
        × (c.pps ≡ [])
  unfolding stop_idle stop_pli
  idle_stops b ssrc e = ground arith

  restarted :
      (b : Bridge C) (ssrc first second : ℕ) (mime : List ℕ)
      → b.primary_video_ssrc ≡ 0
      → is_video mime ≡ true
      → let c = (track_started (track_started b ssrc mime first).0 ssrc mime second).0 in
        (c.active_video_track_id ≡ of_track ssrc second)
        × (erase ssrc c.active_tracks ≡ erase ssrc b.active_tracks)
  restarted b ssrc first second mime p video =
      let b1 = (track_started b ssrc mime first).0 in
      let s1 = started_video b ssrc first mime video (inl p) in
      let s2 = started_video b1 ssrc second mime video (inr s1.0) in
      (
        s2.1,
        ap (erase ssrc) s2.2
            ∙ erase-insert ssrc mime b1.active_tracks
            ∙ ap (erase ssrc) s1.2
            ∙ erase-insert ssrc mime b.active_tracks,
      )

  -- Where no primary video source and no track of another source is active, a source whose video
  -- track is started again at another time before the first one has ended: when the first one is
  -- then stopped, the bridge gives up the stream and its parameter sets as if no track were left,
  -- although the second one is the active video track.
  pub restart_loses_stream :
      (b : Bridge C) (ssrc first second : ℕ) (mime : List ℕ)
      → first ≢ second
      → b.primary_video_ssrc ≡ 0
      → erase ssrc b.active_tracks ≡ []
      → is_video mime ≡ true
      → let running = (track_started (track_started b ssrc mime first).0 ssrc mime second).0 in
        let after = track_stopped running ssrc (of_track ssrc first) in
        (after.active_video_track_id ≡ of_track ssrc second)
        × (after.started ≡ false)
        × (after.sps ≡ [])
        × (after.pps ≡ [])
  unfolding track_stopped
  restart_loses_stream b ssrc first second mime n p none_left video =
      let running = (track_started (track_started b ssrc mime first).0 ssrc mime second).0 in
      let r = restarted b ssrc first second mime p video in
      let s = stop_primary-old running ssrc first second r.0 n in
      let t =
        idle_stops (stop_primary running ssrc (of_track ssrc first)) ssrc (s.1 ∙ r.1 ∙ none_left) in
      (t.0 ∙ s.0, t.1, t.2, t.3)

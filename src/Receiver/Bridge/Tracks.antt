-- ===== src/Receiver/Bridge/Tracks.antt =====
-- Which track a bridge listens to.
use mistlink.Base.{
  ℕ, ◌≡◌, ◌≢◌, refl, Bool, true, false, ◌&&◌, List, [], ◌∷◌, ◌==◌, is_empty, arith, if_rule,
}
use mistlink.Base.Maps.{insert}
use mistlink.RtpUtils.{Packet}
use mistlink.Receiver.Bridge.{
  Bridge, TrackId, blank, of_track, same_id, is_video, is_audio, claim_video, claim_audio,
  track_started, release_video, release_audio, stop_primary, stop_pli, stop_idle, track_stopped,
}
use mistlink.Receiver.Bridge.Packets.{write_rtp, is_allowed}

-- An identity belongs to the source, or is blank.
abbrev pub IsOf : ℕ → TrackId → Type 0
IsOf ssrc blank = Unit
IsOf ssrc (of_track owner time) = owner ≡ ssrc

-- The identities that are active belong to the primary sources.
pub record TracksInv {C : Type 0} (b : Bridge C) : Type 0 where
  pub video_owner : IsOf b.primary_video_ssrc b.active_video_track_id
  pub audio_owner : IsOf b.primary_audio_ssrc b.active_audio_track_id

not_of :
    (ssrc other now : ℕ) (id : TrackId)
    → IsOf ssrc id
    → ssrc ≢ other
    → same_id (of_track other now) id ≡ false
not_of ssrc other now blank h n = refl
not_of ssrc other now (of_track owner time) h n = ground arith

-- What happens to the tracks of a bridge.
pub data TrackEvent : Type 0 where
  starts : ℕ → List ℕ → ℕ → TrackEvent
  stops : ℕ → TrackId → TrackEvent

module _ {C : Type 0} where
  claim_video-TracksInv :
      (b : Bridge C) (ssrc now : ℕ)
      → TracksInv b
      → TracksInv (claim_video b ssrc (of_track ssrc now))
  unfolding claim_video
  claim_video-TracksInv b ssrc now v = ground (arith)

  claim_audio-TracksInv :
      (b : Bridge C) (ssrc now : ℕ)
      → TracksInv b
      → TracksInv (claim_audio b ssrc (of_track ssrc now))
  unfolding claim_audio
  claim_audio-TracksInv b ssrc now v = ground arith

  -- A track that starts.
  pub track_started-TracksInv :
      (b : Bridge C) (ssrc : ℕ) (mime : List ℕ) (now : ℕ)
      → TracksInv b
      → TracksInv (track_started b ssrc mime now).0
  unfolding track_started
  track_started-TracksInv b ssrc mime now v =
      let b' = record b { active_tracks = insert ssrc mime b.active_tracks } in
      let w : TracksInv b' = record { video_owner = v.video_owner; audio_owner = v.audio_owner } in
      if_rule (λ (r : Bridge C × TrackId × Bool). TracksInv r.0) (is_video mime)
        (claim_video-TracksInv b' ssrc now w)
        (if_rule (λ (r : Bridge C × TrackId × Bool). TracksInv r.0) (is_audio mime)
          (claim_audio-TracksInv b' ssrc now w) w)

  release_video-TracksInv :
      (b : Bridge C) (ssrc : ℕ) (id : TrackId) → TracksInv b → TracksInv (release_video b ssrc id)
  unfolding release_video
  release_video-TracksInv b ssrc id v =
      if_rule TracksInv (b.primary_video_ssrc == ssrc && same_id b.active_video_track_id id)
        (record { video_owner = tt; audio_owner = v.audio_owner }) v

  release_audio-TracksInv :
      (b : Bridge C) (ssrc : ℕ) (id : TrackId) → TracksInv b → TracksInv (release_audio b ssrc id)
  unfolding release_audio
  release_audio-TracksInv b ssrc id v =
      if_rule TracksInv (b.primary_audio_ssrc == ssrc && same_id b.active_audio_track_id id)
        (record { video_owner = v.video_owner; audio_owner = tt }) v

  stop_primary-TracksInv :
      (b : Bridge C) (ssrc : ℕ) (id : TrackId) → TracksInv b → TracksInv (stop_primary b ssrc id)
  unfolding stop_primary
  stop_primary-TracksInv b ssrc id v = release_audio-TracksInv _ ssrc id (
      release_video-TracksInv _ ssrc id
        (record { video_owner = v.video_owner; audio_owner = v.audio_owner }))

  stop_idle-TracksInv : (b : Bridge C) → TracksInv b → TracksInv (stop_idle b)
  unfolding stop_idle
  stop_idle-TracksInv b v =
      if_rule TracksInv (is_empty b.active_tracks)
        (record { video_owner = v.video_owner; audio_owner = v.audio_owner }) v

  pub track_stopped-TracksInv :
      (b : Bridge C) (ssrc : ℕ) (id : TrackId) → TracksInv b → TracksInv (track_stopped b ssrc id)
  unfolding track_stopped stop_pli
  track_stopped-TracksInv b ssrc id v =
      let w = stop_primary-TracksInv b ssrc id v in
      stop_idle-TracksInv _ (record { video_owner = w.video_owner; audio_owner = w.audio_owner })

  unfoldable pub on_tracks : Bridge C → List TrackEvent → Bridge C
  on_tracks b [] = b
  on_tracks b (starts ssrc mime now ∷ es) = on_tracks (track_started b ssrc mime now).0 es
  on_tracks b (stops ssrc id ∷ es) = on_tracks (track_stopped b ssrc id) es

  on_tracks-TracksInv :
      (b : Bridge C) (es : List TrackEvent) → TracksInv b → TracksInv (on_tracks b es)
  unfolding on_tracks
  on_tracks-TracksInv b [] v = v
  on_tracks-TracksInv b (starts ssrc mime now ∷ es) v =
      on_tracks-TracksInv (track_started b ssrc mime now).0 es
        (track_started-TracksInv b ssrc mime now v)
  on_tracks-TracksInv b (stops ssrc id ∷ es) v =
      on_tracks-TracksInv (track_stopped b ssrc id) es (track_stopped-TracksInv b ssrc id v)

  second_video :
      (b : Bridge C) (ssrc now : ℕ) (id : TrackId)
      → b.primary_video_ssrc ≢ 0
      → ssrc ≢ b.primary_video_ssrc
      → claim_video b ssrc id ≡ b
  unfolding claim_video
  second_video b ssrc now id h n = ground arith

  other_id :
      (b : Bridge C) (ssrc now : ℕ)
      → TracksInv b
      → ssrc ≢ b.primary_video_ssrc
      → ssrc ≢ b.primary_audio_ssrc
      → is_allowed b (of_track ssrc now) ≡ false
  unfolding is_allowed
  other_id b ssrc now v h k = ground (
    arith,
    not_of b.primary_video_ssrc ssrc now b.active_video_track_id v.video_owner,
    not_of b.primary_audio_ssrc ssrc now b.active_audio_track_id v.audio_owner,
  )

  write_disallowed :
      (b : Bridge C) (pkt : Packet) (id : TrackId)
      → is_allowed b id ≡ false
      → write_rtp b pkt id ≡ (b, [])
  unfolding write_rtp
  write_disallowed b pkt id h = ground arith

  -- After any tracks have started and stopped, from a bridge whose active identities belong to
  -- its primary sources: while a primary video source is active, a video track of another source
  -- (which is not the primary audio source either) may start, but none of its packets is queued
  -- or handed to a listener.
  pub second_video_ignored :
      (b : Bridge C) (es : List TrackEvent) (ssrc now : ℕ) (mime : List ℕ) (pkt : Packet)
      → TracksInv b
      → (on_tracks b es).primary_video_ssrc ≢ 0
      → ssrc ≢ (on_tracks b es).primary_video_ssrc
      → ssrc ≢ (on_tracks b es).primary_audio_ssrc
      → is_video mime ≡ true
      → let (c, id, asks) = track_started (on_tracks b es) ssrc mime now in
        write_rtp c pkt id ≡ (c, [])
  unfolding track_started
  second_video_ignored b es ssrc now mime pkt v h n k video =
      let c = on_tracks b es in
      let c' = record c { active_tracks = insert ssrc mime c.active_tracks } in
      let w = on_tracks-TracksInv b es v in
      rw (video, second_video c' ssrc now (of_track ssrc now) h n)
        (write_disallowed c' pkt (of_track ssrc now) (
          other_id c' ssrc now (record { video_owner = w.video_owner; audio_owner = w.audio_owner })
            n k))

-- ===== src/Receiver/Bridge/Frame.antt =====
-- What the flow of packets leaves alone: which tracks a bridge knows, and which it lets through.
use mathlib.Core.Path.{subst}
use mistlink.Base.{
  ℕ, ◌≡◌, refl, ◌∙◌, sym, true, false, ◌||◌, List, Option, none, some, ◌==◌, is_empty, arith,
  if_rule, inl, inr, Bool-cases, eq→==,
}
use mistlink.Base.Maps.{lookup, erase, lookup-erase}
use mistlink.RtpUtils.{Packet}
use mistlink.Rtsp.Server.{Server}
use mistlink.Receiver.Bridge.{
  Bridge, TrackId, blank, of_track, same_id, Start, begin_stream, ensure_server, try_start,
  set_sps_pps, release_video, release_audio, stop_primary, stop_pli, stop_idle, track_stopped,
}
use mistlink.Receiver.Bridge.Packets.{write_rtp, enqueue, is_allowed}
use mistlink.Receiver.Bridge.Tracks.{IsOf, TracksInv}

-- The tracks and the handlers of a bridge.
pub record Tracks : Type 0 where
  pub active : List (ℕ × List ℕ)
  pub handlers : List (ℕ × ℕ)
  pub video_ssrc : ℕ
  pub audio_ssrc : ℕ
  pub video_id : TrackId
  pub audio_id : TrackId

abbrev pub tracks_of : {C : Type 0} → Bridge C → Tracks
tracks_of b = record {
  active = b.active_tracks;
  handlers = b.pli_handlers;
  video_ssrc = b.primary_video_ssrc;
  audio_ssrc = b.primary_audio_ssrc;
  video_id = b.active_video_track_id;
  audio_id = b.active_audio_track_id;
}

-- No packet of the track is let through, and neither a track nor a handler of its source is known.
abbrev pub IsGone : ℕ → TrackId → Tracks → Type 0
IsGone ssrc id t =
    (same_id id t.video_id ≡ false)
    × (same_id id t.audio_id ≡ false)
    × (lookup ssrc t.active ≡ none)
    × (lookup ssrc t.handlers ≡ none)

same_id_comm : (a b : TrackId) → same_id a b ≡ same_id b a
same_id_comm blank blank = refl
same_id_comm blank (of_track ssrc time) = refl
same_id_comm (of_track ssrc time) blank = refl
same_id_comm (of_track ssrc time) (of_track ssrc' time') = ground arith

owner_of_same :
    (owner ssrc now : ℕ) (id : TrackId)
    → IsOf owner id
    → same_id (of_track ssrc now) id ≡ true
    → owner ≡ ssrc
owner_of_same owner ssrc now blank h e = absurd (ground arith)
owner_of_same owner ssrc now (of_track other time) h e = ground arith

module _ {C : Type 0} where
  begin_stream-tracks_of :
      (ctx : C) (b : Bridge C) (s : Option (Server C × ℕ))
      → tracks_of (begin_stream ctx b s) ≡ tracks_of b
  unfolding begin_stream
  begin_stream-tracks_of ctx b none = refl
  begin_stream-tracks_of ctx b (some s) = refl

  try_start-tracks_of :
      (ctx : C) (start : Start C) (b : Bridge C) → tracks_of (try_start ctx start b) ≡ tracks_of b
  unfolding try_start
  try_start-tracks_of ctx start b =
      if_rule (λ (c : Bridge C). tracks_of c ≡ tracks_of b)
        (b.started || (is_empty b.sps || is_empty b.pps)) refl
        (begin_stream-tracks_of ctx b (ensure_server start b b.server))

  pub set_sps_pps-tracks_of :
      (ctx : C) (start : Start C) (b : Bridge C) (sps pps : List ℕ)
      → tracks_of (set_sps_pps ctx start b sps pps) ≡ tracks_of b
  unfolding set_sps_pps
  set_sps_pps-tracks_of ctx start b sps pps = try_start-tracks_of ctx start _

  pub write_rtp-tracks_of :
      (b : Bridge C) (pkt : Packet) (id : TrackId) → tracks_of (write_rtp b pkt id).0 ≡ tracks_of b
  unfolding write_rtp enqueue
  write_rtp-tracks_of b pkt id = ground arith

  release_video_lem :
      (b : Bridge C) (ssrc now : ℕ)
      → IsOf b.primary_video_ssrc b.active_video_track_id
      → let c = release_video b ssrc (of_track ssrc now) in
        (same_id (of_track ssrc now) c.active_video_track_id ≡ false)
        × (c.active_audio_track_id ≡ b.active_audio_track_id)
        × (c.primary_audio_ssrc ≡ b.primary_audio_ssrc)
        × (c.active_tracks ≡ b.active_tracks)
  unfolding release_video
  release_video_lem b ssrc now v =
      elim (Bool-cases (same_id (of_track ssrc now) b.active_video_track_id)) [
        | inl e ↦ ground (
          arith,
          owner_of_same b.primary_video_ssrc ssrc now b.active_video_track_id v e,
          same_id_comm (of_track ssrc now) b.active_video_track_id,
        )
        | inr e ↦ ground (arith, same_id_comm (of_track ssrc now) b.active_video_track_id)
      ]

  release_audio_lem :
      (b : Bridge C) (ssrc now : ℕ)
      → IsOf b.primary_audio_ssrc b.active_audio_track_id
      → let c = release_audio b ssrc (of_track ssrc now) in
        (same_id (of_track ssrc now) c.active_audio_track_id ≡ false)
        × (c.active_video_track_id ≡ b.active_video_track_id)
        × (c.active_tracks ≡ b.active_tracks)
  unfolding release_audio
  release_audio_lem b ssrc now v =
      elim (Bool-cases (same_id (of_track ssrc now) b.active_audio_track_id)) [
        | inl e ↦ ground (
          arith,
          owner_of_same b.primary_audio_ssrc ssrc now b.active_audio_track_id v e,
          same_id_comm (of_track ssrc now) b.active_audio_track_id,
        )
        | inr e ↦ ground (arith, same_id_comm (of_track ssrc now) b.active_audio_track_id)
      ]

  -- The identity is the active one of neither kind.
  abbrev IsOff : Bridge C → TrackId → Type 0
  IsOff b id =
      (same_id id b.active_video_track_id ≡ false) × (same_id id b.active_audio_track_id ≡ false)

  pub IsGone-is_allowed :
      (b : Bridge C) (ssrc : ℕ) (id : TrackId)
      → IsGone ssrc id (tracks_of b)
      → is_allowed b id ≡ false
  unfolding is_allowed
  IsGone-is_allowed b ssrc id h = ground arith

  stop_primary-IsOff :
      (b : Bridge C) (ssrc now : ℕ)
      → TracksInv b
      → let c = stop_primary b ssrc (of_track ssrc now) in
        IsOff c (of_track ssrc now) × (c.active_tracks ≡ erase ssrc b.active_tracks)
  unfolding stop_primary
  stop_primary-IsOff b ssrc now v =
      let b' : Bridge C = record b { active_tracks = erase ssrc b.active_tracks } in
      let (off, id, owner, kept) = release_video_lem b' ssrc now v.video_owner in
      let w : IsOf (release_video b' ssrc (of_track ssrc now)).primary_audio_ssrc
          (release_video b' ssrc (of_track ssrc now)).active_audio_track_id =
        rw (id, owner) v.audio_owner in
      let (off', id', kept') =
        release_audio_lem (release_video b' ssrc (of_track ssrc now)) ssrc now w in
      ((rw id' off, off'), kept' ∙ kept)

  stop_idle-tracks_of : (b : Bridge C) → tracks_of (stop_idle b) ≡ tracks_of b
  unfolding stop_idle
  stop_idle-tracks_of b =
      if_rule (λ (c : Bridge C). tracks_of c ≡ tracks_of b) (is_empty b.active_tracks) refl refl

  pub track_stopped-IsGone :
      (b : Bridge C) (ssrc now : ℕ)
      → TracksInv b
      → IsGone ssrc (of_track ssrc now) (tracks_of (track_stopped b ssrc (of_track ssrc now)))
  unfolding track_stopped stop_pli
  track_stopped-IsGone b ssrc now v =
      let c = stop_primary b ssrc (of_track ssrc now) in
      let (off, kept) = stop_primary-IsOff b ssrc now v in
      subst (IsGone ssrc (of_track ssrc now)) (sym (stop_idle-tracks_of (stop_pli c ssrc)))
        (off.0, off.1, rw kept (erased b.active_tracks), erased c.pli_handlers)
    where
      erased : {V : Type 0} (m : List (ℕ × V)) → lookup ssrc (erase ssrc m) ≡ none
      erased m = rw (lookup-erase ssrc ssrc m, eq→== ssrc ssrc refl) refl

  stop_primary-keeps :
      (b : Bridge C) (ssrc : ℕ) (id : TrackId) (gone now : ℕ)
      → IsGone gone (of_track gone now) (tracks_of b)
      → let c = stop_primary b ssrc id in
        (same_id (of_track gone now) c.active_video_track_id ≡ false)
        × (same_id (of_track gone now) c.active_audio_track_id ≡ false)
        × (c.active_tracks ≡ erase ssrc b.active_tracks)
        × (c.pli_handlers ≡ b.pli_handlers)
  unfolding stop_primary release_video release_audio
  stop_primary-keeps b ssrc id gone now h = ground arith

  -- A track that is gone stays gone when another one stops.
  pub track_stopped-keeps :
      (b : Bridge C) (ssrc : ℕ) (id : TrackId) (gone now : ℕ)
      → IsGone gone (of_track gone now) (tracks_of b)
      → IsGone gone (of_track gone now) (tracks_of (track_stopped b ssrc id))
  unfolding track_stopped stop_pli
  track_stopped-keeps b ssrc id gone now h =
      let c = stop_primary b ssrc id in
      let (video, audio, active, handlers) = stop_primary-keeps b ssrc id gone now h in
      subst (IsGone gone (of_track gone now)) (sym (stop_idle-tracks_of (stop_pli c ssrc))) (
        video,
        audio,
        rw active (still b.active_tracks h.2),
        still c.pli_handlers (rw handlers h.3),
      )
    where
      still :
          {V : Type 0} (m : List (ℕ × V)) → lookup gone m ≡ none → lookup gone (erase ssrc m) ≡ none
      still m e =
          rw (lookup-erase ssrc gone m, e)
            (if_rule (λ (o : Option _). o ≡ none) (ssrc == gone) refl refl)

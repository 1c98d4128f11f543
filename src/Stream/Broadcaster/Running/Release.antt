-- ===== src/Stream/Broadcaster/Running/Release.antt =====
-- What the goroutine of a broadcaster leaves behind in the bridge.
use mistlink.Base.{
  ℕ, ◌≡◌, refl, ap, ◌∙◌, Bool, true, false, ◌||◌, List, [], ◌∷◌, ◌++◌, Option, some, arith, ◌⊎◌,
  inl, inr, if_rule, if_split,
}
use mistlink.Base.Text.{equal_fold}
use mistlink.RtpUtils.{Packet}
use mistlink.Receiver.Bridge.{Bridge, TrackId, of_track, Start, track_started, track_stopped}
use mistlink.Receiver.Bridge.Tracks.{TracksInv, track_started-TracksInv, track_stopped-TracksInv}
use mistlink.Receiver.Bridge.Frame.{tracks_of, IsGone, track_stopped-IsGone, write_rtp-tracks_of}
use mistlink.Receiver.TrackLoop.{mime_h264, mime_opus}
use mistlink.Receiver.TrackLoop.Release.{
  process_video_packet-tracks_of, TracksInv-tracks_of, track_started-id,
}
use mistlink.Stream.Broadcaster.{
  TrackBroadcaster, Loop, add_receiver, remove_receiver, extract_sps_pps, round, through_bridge,
  to_bridge,
}
use mistlink.Stream.Broadcaster.Running.Life.{run-append}
use mistlink.Stream.Broadcaster.Running.{
  Running, Written, Event, joins, leaves, reads, ends, start_track, stop_track, enter_loop,
  start_run, end_run, read_round, step, run,
}

module _ {C : Type 0} (ctx : C) (start : Start C) (ssrc now : ℕ) where
  -- The bridge is there, with the identities of its primary sources.
  abbrev Bridged : Option (Bridge C) → (Bridge C → Type 0) → Type 0
  Bridged o P = (c : Bridge C) × (o ≡ some c) × TracksInv c × P c

  -- While the goroutine runs it has its identity; then the track is gone.
  abbrev Life : Running C → Bridge C → Type 0
  Life s c =
      ((s.running ≡ true) × (s.track_id ≡ of_track ssrc now))
      ⊎ ((s.running ≡ false) × IsGone ssrc (of_track ssrc now) (tracks_of c))

  abbrev Inv : Running C → Type 0
  Inv s = (s.loop.broadcaster.ssrc ≡ ssrc) × Bridged s.loop.bridge (Life s)

  extract_sps_pps-ssrc :
      (b : TrackBroadcaster) (payload : List ℕ) → (extract_sps_pps b payload).ssrc ≡ b.ssrc
  unfolding extract_sps_pps
  extract_sps_pps-ssrc b [] = refl
  extract_sps_pps-ssrc b (first ∷ rest) = ground arith

  -- The bridge after a round.
  round-Bridged :
      (video : Bool) (id : TrackId) (t : ℕ) (l : Loop C) (pkt : Packet) (c : Bridge C)
      → l.bridge ≡ some c
      → (d : Bridge C) × ((round ctx start video id t l pkt).0.bridge ≡ some d)
        × (tracks_of d ≡ tracks_of c)
  unfolding round through_bridge to_bridge
  round-Bridged video id t l pkt c e =
      rw (e, through_bridge, to_bridge)
        (
          _,
          refl,
          write_rtp-tracks_of _ _ id
              ∙ if_rule (λ (d : Bridge C). tracks_of d ≡ tracks_of c) video
                  (process_video_packet-tracks_of ctx start c pkt.payload id) refl,
        )

  round-ssrc :
      (video : Bool) (id : TrackId) (t : ℕ) (l : Loop C) (pkt : Packet)
      → (round ctx start video id t l pkt).0.broadcaster.ssrc ≡ l.broadcaster.ssrc
  unfolding round
  round-ssrc true id t l pkt = extract_sps_pps-ssrc l.broadcaster pkt.payload
  round-ssrc false id t l pkt = refl

  still_on :
      (s : Running C)
      → s.running ≡ true
      → (c : Bridge C) → Life s c
      → s.track_id ≡ of_track ssrc now
  still_on s on c (inl (_, id)) = id
  still_on s on c (inr (off, _)) = absurd (ground (arith, on, off))

  read_round-Inv :
      (s : Running C) (pkt : Packet) (t : ℕ) → Inv s → Inv (read_round ctx start s pkt t).0
  unfolding read_round round
  read_round-Inv s pkt t (own, (c, e, v, life)) =
      let l = (round ctx start s.video s.track_id t s.loop pkt).0 in
      let (d, e', same) = round-Bridged s.video s.track_id t s.loop pkt c e in
      if_split (λ (r : Running C × List (ℕ × Written)). Inv r.0) s.running
        (λ on. (
          round-ssrc s.video s.track_id t s.loop pkt ∙ own,
          (d, e', TracksInv-tracks_of ctx start c d same v, inl (on, still_on s on c life)),
        ))
        (λ off. (own, (c, e, v, life)))

  end_run-Inv : (s : Running C) → Inv s → Inv (end_run s) × ((end_run s).running ≡ false)
  unfolding end_run stop_track
  end_run-Inv s (own, (c, e, v, inl (on, id))) =
      rw (on, end_run)
        (
          (
            own,
            (
              track_stopped c ssrc (of_track ssrc now),
              rw (e, own, id, stop_track) refl,
              track_stopped-TracksInv c ssrc (of_track ssrc now) v,
              inr (refl, track_stopped-IsGone c ssrc now v),
            ),
          ),
          refl,
        )
  end_run-Inv s (own, (c, e, v, inr (off, gone))) =
      rw (off, end_run) ((own, (c, e, v, inr (refl, gone))), refl)

  step-Inv : (s : Running C) (e : Event) → Inv s → Inv (step ctx start s e).0
  unfolding step add_receiver remove_receiver
  step-Inv s (joins id local_track) inv = inv
  step-Inv s (leaves id) inv = inv
  step-Inv s (reads pkt t) inv = read_round-Inv s pkt t inv
  step-Inv s ends inv = (end_run-Inv s inv).0

  run-Inv : (es : List Event) (s : Running C) → Inv s → Inv (run ctx start s es).0
  unfolding run
  run-Inv [] s inv = inv
  run-Inv (e ∷ es) s inv = run-Inv es (step ctx start s e).0 (step-Inv s e inv)

  enter_loop-Inv :
      (video : Bool) (b : TrackBroadcaster) (bridge : Bridge C) (mime : List ℕ)
      → b.ssrc ≡ ssrc
      → TracksInv bridge
      → Inv (enter_loop b (some bridge) video mime now)
  unfolding enter_loop start_track
  enter_loop-Inv video b bridge mime own v = (
    own,
    (
      (track_started bridge b.ssrc mime now).0,
      refl,
      track_started-TracksInv bridge b.ssrc mime now v,
      inl (refl, track_started-id ctx start bridge b.ssrc mime now ∙ ap (λ x. of_track x now) own),
    ),
  )

  start_run-Inv :
      (b : TrackBroadcaster) (bridge : Bridge C) (mime : List ℕ)
      → b.ssrc ≡ ssrc
      → TracksInv bridge
      → (equal_fold mime mime_h264 || equal_fold mime mime_opus) ≡ true
      → Inv (start_run b (some bridge) mime now)
  unfolding start_run
  start_run-Inv b bridge mime own v supported =
      if_split Inv (equal_fold mime mime_h264) (λ _. enter_loop-Inv true b bridge mime own v)
        (λ other.
          if_split Inv (equal_fold mime mime_opus) (λ _. enter_loop-Inv false b bridge mime own v)
            (λ neither. absurd (ground (arith, supported, other, neither))))

  gone :
      (s : Running C)
      → Inv s
      → s.running ≡ false
      → Bridged s.loop.bridge (λ c. IsGone ssrc (of_track ssrc now) (tracks_of c))
  gone s (own, (c, e, v, inl (on, _))) off = absurd (ground (arith, on, off))
  gone s (own, (c, e, v, inr (_, h))) off = (c, e, v, h)

-- With a bridge whose active identities belong to its primary sources, and a track of H.264 or Opus:
-- once the read of the goroutine that `run` starts fails or its channel is closed, whatever was read
-- before and whichever receivers joined and left, the goroutine has ended; no packet of the track is
-- let through, the bridge knows neither a track nor a handler for picture losses of its source, and
-- its active identities belong to its primary sources.
pub run-Released :
    {C : Type 0} (ctx : C) (start : Start C) (b : TrackBroadcaster) (bridge : Bridge C)
    (mime : List ℕ) (now : ℕ) (es : List Event)
    → TracksInv bridge
    → (equal_fold mime mime_h264 || equal_fold mime mime_opus) ≡ true
    → let s = (run ctx start (start_run b (some bridge) mime now) (es ++ ends ∷ [])).0 in
      (s.running ≡ false)
      × ((c : Bridge C) × (s.loop.bridge ≡ some c)
          × TracksInv c
          × IsGone b.ssrc (of_track b.ssrc now) (tracks_of c))
unfolding run step
run-Released ctx start b bridge mime now es v supported =
    let s0 = start_run b (some bridge) mime now in
    let s1 = (run ctx start s0 es).0 in
    let (inv, off) = end_run-Inv ctx start b.ssrc now s1 (
      run-Inv ctx start b.ssrc now es s0
        (start_run-Inv ctx start b.ssrc now b bridge mime refl v supported)) in
    rw (run-append ctx start es (ends ∷ []) s0)
      (off, gone ctx start b.ssrc now (end_run s1) inv off)

-- ===== src/Sender/Mpegts/Release.antt =====
-- What the socket's loop leaves behind in the bridge.
use mathlib.Core.Path.{subst}
use mathlib.Core.List.{Permᴰ}
use mathlib.Core.List.Permᴰ.{nil, cons, swap, trans}
use mathlib.Core.List.Permᴰ
use mistlink.Base.{
  ℕ, ◌≡◌, refl, ◌∙◌, sym, Bool, List, [], ◌∷◌, Option, none, some, ◌==◌, if◌then◌else◌, is_empty,
  if_rule, inl, inr, Option-cases, All,
}
use mistlink.Base.Maps.{lookup, insert}
use mistlink.RtpUtils.{Packet, payload_type_h264}
use mistlink.Receiver.Bridge.{Bridge, TrackId, Start, of_track, track_stopped}
use mistlink.Receiver.Bridge.Packets.{write_rtp}
use mistlink.Receiver.Bridge.Tracks.{TracksInv, track_started-TracksInv, track_stopped-TracksInv}
use mistlink.Receiver.Bridge.Frame.{
  tracks_of, IsGone, track_stopped-IsGone, track_stopped-keeps, write_rtp-tracks_of,
}
use mistlink.Receiver.VideoPacket.{process_video_packet}
use mistlink.Receiver.TrackLoop.Release.{
  process_video_packet-tracks_of, TracksInv-tracks_of, track_started-id,
}
use mistlink.Sender.Mpegts.{
  Order, Datagram, parsed, malformed, Sink, Input, mime_type, track_takes, track_of, feed,
  feed_input, datagram_round, mpegts_loop, stop_all, stop_input, handle_mpegts_stream,
}

-- The order of a list does not matter to a predicate of its elements.
All-Permᴰ : {A : Type 0} (P : A → Type 0) {xs ys : List A} → Permᴰ xs ys → All P xs → All P ys
All-Permᴰ P nil h = tt
All-Permᴰ P (cons e p) (first, rest) = (subst P e first, All-Permᴰ P p rest)
All-Permᴰ P (swap e f) (first, (second, rest)) = (subst P f second, (subst P e first, rest))
All-Permᴰ P (trans p q) h = All-Permᴰ P q (All-Permᴰ P p h)

-- The identity was given to a track of the source.
abbrev pub IsOwned : ℕ × TrackId → Type 0
IsOwned (ssrc, id) = (now : ℕ) × (id ≡ of_track ssrc now)

insert-IsOwned :
    (ssrc : ℕ) (id : TrackId) (ids : List (ℕ × TrackId))
    → IsOwned (ssrc, id)
    → All IsOwned ids
    → All IsOwned (insert ssrc id ids)
unfolding insert
insert-IsOwned ssrc id [] h v = (h, tt)
insert-IsOwned ssrc id ((other, old) ∷ ids) h v =
    if_rule (All IsOwned) (other == ssrc) (h, v.1) (v.0, insert-IsOwned ssrc id ids h v.1)

-- What the loop keeps, of a bridge and of its table.
abbrev pub InputInv : {C : Type 0} → Option (Bridge C) → List (ℕ × TrackId) → Type 0
InputInv none ids = All IsOwned ids
InputInv (some b) ids = TracksInv b × All IsOwned ids

module _ {C : Type 0} where
  -- Every track of a table is gone from the bridge.
  abbrev pub AllGone : Bridge C → List (ℕ × TrackId) → Type 0
  AllGone b = All (λ (entry : ℕ × TrackId). IsGone entry.0 entry.1 (tracks_of b))

  stop_all-keeps :
      (ids : List (ℕ × TrackId)) (b : Bridge C) (gone now : ℕ)
      → IsGone gone (of_track gone now) (tracks_of b)
      → IsGone gone (of_track gone now) (tracks_of (stop_all ids b))
  unfolding stop_all
  stop_all-keeps [] b gone now h = h
  stop_all-keeps ((ssrc, id) ∷ ids) b gone now h =
      stop_all-keeps ids (track_stopped b ssrc id) gone now
        (track_stopped-keeps b ssrc id gone now h)

  stop_all-AllGone :
      (ids : List (ℕ × TrackId)) (b : Bridge C)
      → TracksInv b
      → All IsOwned ids
      → AllGone (stop_all ids b) ids × TracksInv (stop_all ids b)
  unfolding stop_all
  stop_all-AllGone [] b v o = (tt, v)
  stop_all-AllGone ((ssrc, id) ∷ ids) b v ((now, e), o) =
      let c = track_stopped b ssrc id in
      let gone : IsGone ssrc (of_track ssrc now) (tracks_of c) =
        subst (λ i. IsGone ssrc (of_track ssrc now) (tracks_of (track_stopped b ssrc i))) (sym e)
          (track_stopped-IsGone b ssrc now v) in
      let (rest, w) = stop_all-AllGone ids c (track_stopped-TracksInv b ssrc id v) o in
      let still =
        subst (λ i. IsGone ssrc i (tracks_of (stop_all ids c))) (sym e)
          (stop_all-keeps ids c ssrc now gone) in
      ((still, rest), w)

  module _ (ctx : C) (start : Start C) where
    -- A track of the table, or one that has just started.
    track_of-InputInv :
        (b : Bridge C) (ids : List (ℕ × TrackId)) (ssrc : ℕ) (mime : List ℕ) (now : ℕ)
        → TracksInv b
        → All IsOwned ids
        → let (b', ids', id) = track_of b ids ssrc mime now in TracksInv b' × All IsOwned ids'
    unfolding track_of
    track_of-InputInv b ids ssrc mime now v o = elim (Option-cases (lookup ssrc ids)) [
      | inl unknown ↦
          rw (unknown, track_of)
            (
              track_started-TracksInv b ssrc mime now v,
              insert-IsOwned ssrc _ ids (now, track_started-id ctx start b ssrc mime now) o,
            )
      | inr (id, known) ↦ rw (known, track_of) (v, o)
    ]

    feed-InputInv :
        (b : Bridge C) (ids : List (ℕ × TrackId)) (pkt : Packet) (now : ℕ)
        → TracksInv b
        → All IsOwned ids
        → let s = feed ctx start b ids pkt now in InputInv s.bridge s.track_ids
    unfolding feed
    feed-InputInv b ids pkt now v o =
        let (b', ids', id) = track_of b ids pkt.ssrc (mime_type pkt.payload_type) now in
        let (w, owned) = track_of-InputInv b ids pkt.ssrc (mime_type pkt.payload_type) now v o in
        let seen : Bridge C =
          if pkt.payload_type == payload_type_h264
          then (process_video_packet ctx start b' pkt.payload id).0
          else b' in
        let same : tracks_of seen ≡ tracks_of b' =
          if_rule (λ (c : Bridge C). tracks_of c ≡ tracks_of b')
            (pkt.payload_type == payload_type_h264)
            (process_video_packet-tracks_of ctx start b' pkt.payload id) refl in
        (
          TracksInv-tracks_of ctx start b' (write_rtp seen pkt id).0
              (write_rtp-tracks_of seen pkt id ∙ same) w,
          owned,
        )

    feed_input-InputInv :
        (bridge : Option (Bridge C)) (ids : List (ℕ × TrackId)) (pkt : Packet) (now : ℕ)
        → InputInv bridge ids
        → let s = feed_input ctx start (record { bridge = bridge; track_ids = ids }) pkt now in
          InputInv s.bridge s.track_ids
    unfolding feed_input
    feed_input-InputInv none ids pkt now v = v
    feed_input-InputInv (some b) ids pkt now (v, o) =
        if_rule (λ (s : Input C). InputInv s.bridge s.track_ids)
          (is_empty (mime_type pkt.payload_type)) (v, o) (feed-InputInv b ids pkt now v o)

    datagram_round-InputInv :
        (video audio : Sink) (s : Input C) (d : Datagram)
        → InputInv s.bridge s.track_ids
        → let s' = (datagram_round ctx start video audio s d).0 in InputInv s'.bridge s'.track_ids
    unfolding datagram_round
    datagram_round-InputInv video audio s malformed v = v
    datagram_round-InputInv video audio s (parsed pkt now) v =
        let P = λ (r : Input C × Bool). InputInv r.0.bridge r.0.track_ids in
        if_rule P (is_empty pkt.payload) v (
          if_rule P (track_takes video audio pkt)
            (feed_input-InputInv s.bridge s.track_ids pkt now v) v)

    mpegts_loop-InputInv :
        (video audio : Sink) (s : Input C) (ds : List Datagram)
        → InputInv s.bridge s.track_ids
        → let s' = mpegts_loop ctx start video audio s ds in InputInv s'.bridge s'.track_ids
    unfolding mpegts_loop
    mpegts_loop-InputInv video audio s [] v = v
    mpegts_loop-InputInv video audio s (d ∷ ds) v =
        let (s', more) = datagram_round ctx start video audio s d in
        let w = datagram_round-InputInv video audio s d v in
        if_rule (λ (r : Input C). InputInv r.bridge r.track_ids) more
          (mpegts_loop-InputInv video audio s' ds w) w

    -- What the deferred loop makes of a bridge, if there is one.
    abbrev pub Cleaned : Option (Bridge C) → List (ℕ × TrackId) → Type 0
    Cleaned none ids = Unit
    Cleaned (some b) ids = AllGone b ids × TracksInv b

    stop_input-Cleaned :
        (order : Order) (bridge : Option (Bridge C)) (ids : List (ℕ × TrackId))
        → Permᴰ (order ids) ids
        → InputInv bridge ids
        → Cleaned (stop_input order (record { bridge = bridge; track_ids = ids })) ids
    unfolding stop_input
    stop_input-Cleaned order none ids p v = tt
    stop_input-Cleaned order (some b) ids p (v, o) =
        let (gone, w) = stop_all-AllGone (order ids) b v (All-Permᴰ IsOwned (Permᴰ.symm p) o) in
        (All-Permᴰ _ p gone, w)

    -- From a bridge whose active identities belong to its primary sources: when the loop over the
    -- socket returns, whatever datagrams came and whichever write failed, and in whatever order the
    -- map of its tracks is gone through, none of the packets of any track that it has started is let
    -- through, the bridge knows neither a track nor a handler of these tracks' sources, and its
    -- active identities belong to its primary sources.
    pub handle_mpegts_stream-Cleaned :
        (video audio : Sink) (order : Order) (b : Bridge C) (ds : List Datagram)
        → ((ids : List (ℕ × TrackId)) → Permᴰ (order ids) ids)
        → TracksInv b
        → let opened : Input C = record { bridge = some b; track_ids = [] } in
          Cleaned
            (handle_mpegts_stream ctx start video audio order (some b) ds)
            (mpegts_loop ctx start video audio opened ds).track_ids
    unfolding handle_mpegts_stream
    handle_mpegts_stream-Cleaned video audio order b ds p v =
        let opened : Input C = record { bridge = some b; track_ids = [] } in
        let end = mpegts_loop ctx start video audio opened ds in
        stop_input-Cleaned order end.bridge end.track_ids (p end.track_ids)
          (mpegts_loop-InputInv video audio opened ds (v, tt))

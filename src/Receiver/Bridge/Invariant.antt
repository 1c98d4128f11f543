-- ===== src/Receiver/Bridge/Invariant.antt =====
-- A bridge that has started offers its parameter sets, and its channel is bounded.
use mistlink.Base.{
  ℕ, ◌≤◌, ◌≡◌, refl, Bool, false, ◌&&◌, ◌||◌, not, List, [], ◌∷◌, Option, none, some, ◌==◌,
  if◌then◌else◌, if_rule, ltb, is_empty, if_split, length, length-append, arith, ◌⊎◌, inl, inr,
}
use mistlink.Base.Maps.{insert}
use mistlink.RtpUtils.{Packet}
use mistlink.Rtsp.Server.{Server}
use mistlink.Rtsp.Server.Offer.{Offers, init_stream-Offers}
use mistlink.Receiver.RtspBuffer.{RtspBuffer}
use mistlink.Receiver.Bridge.{
  Bridge, TrackId, of_track, same_id, is_video, is_audio, Start, claim_video, claim_audio,
  track_started, release_video, release_audio, stop_primary, stop_idle, ensure_server, begin_stream,
  try_start, set_sps_pps,
}
use mistlink.Receiver.Bridge.Packets.{enqueue}

abbrev pub ServerOffers : {C : Type 0} → List ℕ → List ℕ → Option (Server C) → Type 0
ServerOffers sps pps none = ⊥
ServerOffers sps pps (some s) = Offers sps pps s

abbrev pub IsStarted : {C : Type 0} → Bridge C → Type 0
IsStarted b =
    (is_empty b.sps ≡ false) × (is_empty b.pps ≡ false) × ServerOffers b.sps b.pps b.server

-- Either the bridge has not started, or both parameter sets are known and are what the server offers
-- beside real data; the channel holds no more than its capacity.
pub record BridgeInv {C : Type 0} (b : Bridge C) : Type 0 where
  pub offered : (b.started ≡ false) ⊎ IsStarted b
  pub bounded : length b.rtp_chan ≤ b.chan_capacity

module _ {C : Type 0} where
  begin_stream-BridgeInv :
      (ctx : C) (b : Bridge C) (start : Option (Server C × ℕ))
      → is_empty b.sps ≡ false
      → is_empty b.pps ≡ false
      → BridgeInv b
      → BridgeInv (begin_stream ctx b start)
  unfolding begin_stream
  begin_stream-BridgeInv ctx b none hs hp v = v
  begin_stream-BridgeInv ctx b (some (s, port)) hs hp v = record {
    offered = inr (hs, hp, init_stream-Offers b.sps b.pps ctx s);
    bounded = v.bounded;
  }

  try_start-BridgeInv :
      (ctx : C) (start : Start C) (b : Bridge C) → BridgeInv b → BridgeInv (try_start ctx start b)
  unfolding try_start
  try_start-BridgeInv ctx start b v =
      if_split BridgeInv (b.started || (is_empty b.sps || is_empty b.pps)) (λ e. v)
        (λ e.
          begin_stream-BridgeInv ctx b (ensure_server start b b.server) (ground arith)
            (ground arith) v)

  pub set_sps_pps-BridgeInv :
      (ctx : C) (start : Start C) (b : Bridge C) (sps pps : List ℕ)
      → BridgeInv b
      → BridgeInv (set_sps_pps ctx start b sps pps)
  unfolding set_sps_pps
  set_sps_pps-BridgeInv ctx start b sps pps v =
      try_start-BridgeInv ctx start _ (record { offered = known v.offered; bounded = v.bounded })
    where
      keep :
          (old new : List ℕ)
          → is_empty old ≡ false
          → (if not (is_empty new) && is_empty old then new else old) ≡ old
      keep old new h = ground arith

      known :
          (b.started ≡ false) ⊎ IsStarted b
          → let sps' = if not (is_empty sps) && is_empty b.sps then sps else b.sps in
            let pps' = if not (is_empty pps) && is_empty b.pps then pps else b.pps in
            (b.started ≡ false)
            ⊎ ((is_empty sps' ≡ false) × (is_empty pps' ≡ false) × ServerOffers sps' pps' b.server)
      known (inl e) = inl e
      known (inr (hs, hp, o)) = inr (rw (keep b.sps sps hs, keep b.pps pps hp) (hs, hp, o))

  claim-BridgeInv :
      (b : Bridge C) (ssrc : ℕ) (id : TrackId)
      → BridgeInv b
      → BridgeInv (claim_video b ssrc id) × BridgeInv (claim_audio b ssrc id)
  unfolding claim_video claim_audio
  claim-BridgeInv b ssrc id v =
      let w =
        λ (c : Bridge C) (o : (c.started ≡ false) ⊎ IsStarted c)
            (l : length c.rtp_chan ≤ c.chan_capacity).
          let r : BridgeInv c = record { offered = o; bounded = l } in r in
      (
        if_rule BridgeInv (b.primary_video_ssrc == 0) (w _ v.offered v.bounded)
            (if_rule BridgeInv (b.primary_video_ssrc == ssrc) (w _ v.offered v.bounded) v),
        if_rule BridgeInv (b.primary_audio_ssrc == 0) (w _ v.offered v.bounded)
            (if_rule BridgeInv (b.primary_audio_ssrc == ssrc) (w _ v.offered v.bounded) v),
      )

  pub track_started-BridgeInv :
      (b : Bridge C) (ssrc : ℕ) (mime : List ℕ) (now : ℕ)
      → BridgeInv b
      → BridgeInv (track_started b ssrc mime now).0
  unfolding track_started
  track_started-BridgeInv b ssrc mime now v =
      let b' = record b { active_tracks = insert ssrc mime b.active_tracks } in
      let w : BridgeInv b' = record { offered = v.offered; bounded = v.bounded } in
      let claimed = claim-BridgeInv b' ssrc (of_track ssrc now) w in
      let P = λ (r : Bridge C × TrackId × Bool). BridgeInv r.0 in
      if_rule P (is_video mime) claimed.0 (if_rule P (is_audio mime) claimed.1 w)

  release-BridgeInv :
      (b : Bridge C) (ssrc : ℕ) (id : TrackId)
      → BridgeInv b
      → BridgeInv (release_video b ssrc id) × BridgeInv (release_audio b ssrc id)
  unfolding release_video release_audio
  release-BridgeInv b ssrc id v = (
    if_rule BridgeInv (b.primary_video_ssrc == ssrc && same_id b.active_video_track_id id)
        (record { offered = v.offered; bounded = v.bounded }) v,
    if_rule BridgeInv (b.primary_audio_ssrc == ssrc && same_id b.active_audio_track_id id)
        (record { offered = v.offered; bounded = v.bounded }) v,
  )

  pub stop_primary-BridgeInv :
      (b : Bridge C) (ssrc : ℕ) (id : TrackId) → BridgeInv b → BridgeInv (stop_primary b ssrc id)
  unfolding stop_primary
  stop_primary-BridgeInv b ssrc id v =
      (release-BridgeInv _ ssrc id
        (release-BridgeInv _ ssrc id (record { offered = v.offered; bounded = v.bounded })).0).1

  pub stop_idle-BridgeInv : (b : Bridge C) → BridgeInv b → BridgeInv (stop_idle b)
  unfolding stop_idle
  stop_idle-BridgeInv b v =
      if_rule BridgeInv (is_empty b.active_tracks)
        (record { offered = inl refl; bounded = v.bounded }) v

  pub enqueue-BridgeInv : (b : Bridge C) (pkt : Packet) → BridgeInv b → BridgeInv (enqueue b pkt)
  unfolding enqueue
  enqueue-BridgeInv b pkt v =
      if_split BridgeInv (ltb (length b.rtp_chan) b.chan_capacity)
        (λ room. record {
          offered = v.offered;
          bounded = ground (arith, length-append b.rtp_chan (pkt ∷ []));
        })
        (λ full. v)

  -- The server changes and still offers what it did.
  pub with_server-BridgeInv :
      (b : Bridge C) (s s' : Server C) (buffer : RtspBuffer)
      → b.server ≡ some s
      → (Offers b.sps b.pps s → Offers b.sps b.pps s')
      → BridgeInv b
      → BridgeInv (record b { server = some s'; rtsp_buffer = buffer })
  with_server-BridgeInv b s s' buffer e f v = record { offered = go v.offered; bounded = v.bounded }
    where
      go :
          (b.started ≡ false) ⊎ IsStarted b
          → (b.started ≡ false)
            ⊎ ((is_empty b.sps ≡ false) × (is_empty b.pps ≡ false) × Offers b.sps b.pps s')
      go (inl idle) = inl idle
      go (inr (hs, hp, o)) = inr (hs, hp, f (rw e at o))

-- ===== src/Stream/Manager/Loop.antt =====
-- What forwarding keeps: an induction rule for the loop of ForwardOBSTracksToReceiver.
use mistlink.Base.{ℕ, Bool, List, [], ◌∷◌, is_empty, inl, inr, Option-cases, if_rule}
use mistlink.Base.Maps.{insert}
use mistlink.Stream.Manager.{
  StreamManager, PeerConnection, entries, mark, subscribe_to_track, to_add, forward_loop,
  forward_obs_tracks_to_receiver,
}

-- The manager once a track is passed on.
abbrev pub pass_on : ℕ → StreamManager → ℕ → ℕ → StreamManager
pass_on id m track local_track = mark (subscribe_to_track m track local_track id) id track

-- The manager in which the receiver has an entry.
abbrev pub entered : StreamManager → ℕ → StreamManager
entered m id = record m {
  forwarded_receivers = insert id (entries id m.forwarded_receivers) m.forwarded_receivers;
}

module _ {ℓ} (pc : PeerConnection) (id : ℕ) (P : StreamManager → Type ℓ)
    (passes : (m : StreamManager) (track local_track : ℕ)
      → P m
      → P (pass_on id m track local_track)) where
  forward_loop_rule :
      (m : StreamManager) (tracks : List ℕ) → P m → P (forward_loop pc id m tracks).0
  unfolding forward_loop
  forward_loop_rule m [] p = p
  forward_loop_rule m (t ∷ ts) p = elim (Option-cases (pc.attach t)) [
    | inl missing ↦ rw (missing, forward_loop) (forward_loop_rule m ts p)
    | inr (local_track, made) ↦
        rw (made, forward_loop)
          (forward_loop_rule (pass_on id m t local_track) ts (passes m t local_track p))
  ]

  -- What an entry for the receiver and each track that is passed on keep is kept.
  pub forward_obs_tracks_to_receiver_rule :
      (m : StreamManager) (skip_offer : Bool)
      → P m
      → P (entered m id)
      → P (forward_obs_tracks_to_receiver pc m id skip_offer).0
  unfolding forward_obs_tracks_to_receiver
  forward_obs_tracks_to_receiver_rule m skip_offer p q =
      if_rule (λ (r : StreamManager × Bool). P r.0) (is_empty m.obs_tracks) p
        (forward_loop_rule (entered m id) (to_add (entries id m.forwarded_receivers) m.obs_tracks)
          q)

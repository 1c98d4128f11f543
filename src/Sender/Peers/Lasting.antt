-- ===== src/Sender/Peers/Lasting.antt =====
-- The OBS tracks of a manager, which no event of a peer takes away.
use mistlink.Base.{
  is_empty, ℕ, ◌≡◌, refl, ◌∙◌, Bool, true, not, List, [], ◌∷◌, Option, if_rule, arith, ap,
}
use mistlink.Receiver.Bridge.{Start}
use mistlink.Stream.Manager.Loop.{forward_obs_tracks_to_receiver_rule}
use mistlink.Stream.Manager.{
  StreamManager, PeerConnection, get_peer_connection, is_peer, mark, subscribe_to_track,
  forward_obs_tracks_to_receiver, has_obs_tracks, remove_peer_connection,
  remove_peer_connection_matching, add_peer_connection, register_close_handler, cleanup_resources,
}
use mistlink.Sender.Peers.{Host, close_peer, remove_peer, remove_matching, start_relay, enter_peer}
use mistlink.Sender.Peers.Events.{Event, on_event, on_events}
use mistlink.Sender.Peers.Preservation.{Keeps}
use mistlink.Sender.Peers.Histories.{on_event-keeps}

forward_obs_tracks_to_receiver-obs_tracks :
    (pc : PeerConnection) (m : StreamManager) (id : ℕ) (skip_offer : Bool)
    → (forward_obs_tracks_to_receiver pc m id skip_offer).0.obs_tracks ≡ m.obs_tracks
unfolding mark subscribe_to_track
forward_obs_tracks_to_receiver-obs_tracks pc m id skip_offer =
    forward_obs_tracks_to_receiver_rule pc id (λ (n : StreamManager). n.obs_tracks ≡ m.obs_tracks)
      (λ n t local_track e. e) m skip_offer refl refl

module _ {C : Type 0} where
  -- The same OBS tracks, and no relay more.
  abbrev SameOutgoing : Host C → Host C → Type 0
  SameOutgoing s t = (t.manager.obs_tracks ≡ s.manager.obs_tracks) × (t.next_done ≡ s.next_done)

  outgoing-Keeps :
      (s : Host C) (id : ℕ) → has_obs_tracks s.manager ≡ true → Keeps (SameOutgoing s) id
  unfolding close_peer remove_peer remove_matching start_relay enter_peer add_peer_connection
      register_close_handler remove_peer_connection remove_peer_connection_matching
      cleanup_resources
  outgoing-Keeps s id h = record {
    on_close = λ t pc e. e;
    on_remove = λ t e. e;
    on_remove_matching = λ t pc e.
        if_rule
          (λ (r : StreamManager × List ℕ).
            (r.0.obs_tracks ≡ s.manager.obs_tracks) × (t.next_done ≡ s.next_done))
          (is_peer (get_peer_connection t.manager id) pc) e e;
    on_relay = λ t none_there e. absurd (ground (arith, none_there, h, ap is_empty e.0));
    on_enter = λ t e. e;
    on_forward = λ t pc skip_offer e.
        (forward_obs_tracks_to_receiver-obs_tracks pc t.manager id skip_offer ∙ e.0, e.1);
    on_hear = λ t b e. e;
    on_send = λ t m to e. e;
  }

  module _ (decode parse : List ℕ → Option (List ℕ)) (ctx : C) (start : Start C) where
    -- From a host whose manager has an OBS track: whatever events of peers come, in whatever order
    -- and whatever the library answers, the OBS tracks stay the same and no relay is started.
    pub on_events-outgoing :
        (s : Host C) (es : List (ℕ × Event))
        → has_obs_tracks s.manager ≡ true
        → let t = on_events decode parse ctx start s es in
          (t.manager.obs_tracks ≡ s.manager.obs_tracks) × (t.next_done ≡ s.next_done)
    unfolding on_events
    on_events-outgoing s [] h = (refl, refl)
    on_events-outgoing s ((id, e) ∷ es) h =
        let t = on_event decode parse ctx start s id e in
        let kept = on_event-keeps (outgoing-Keeps s id h) decode parse ctx start s e (refl, refl) in
        let later = on_events-outgoing t es (ap (λ ts. not (is_empty ts)) kept.0 ∙ h) in
        (later.0 ∙ kept.0, later.1 ∙ kept.1)

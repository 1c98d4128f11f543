-- ===== src/Sender/Peers/Others.antt =====
-- The peers that the events are not about.
use mistlink.Base.{
  ℕ, ◌≡◌, refl, ◌∙◌, Bool, false, List, [], ◌∷◌, ◌++◌, Option, ◌==◌, if◌then◌else◌, if_rule, arith,
  All,
}
use mistlink.Base.Maps.{insert, lookup-insert}
use mistlink.Receiver.Bridge.{Start}
use mistlink.Stream.Manager.Loop.{forward_obs_tracks_to_receiver_rule}
use mistlink.Stream.Manager.{
  StreamManager, PeerConnection, entries, get_peer_connection, is_peer, mark, subscribe_to_track,
  forward_obs_tracks_to_receiver, remove_peer_connection, remove_peer_connection_matching,
  add_peer_connection, register_close_handler,
}
use mistlink.Stream.Manager.Removal.{known, remove_peer_connection-forgets}
use mistlink.Sender.Peers.{
  Message, Host, close_peer, remove_peer, remove_matching, start_relay, enter_peer,
}
use mistlink.Sender.Peers.Events.{Event, on_event, on_events}
use mistlink.Sender.Peers.Preservation.{Keeps, recipient}
use mistlink.Sender.Peers.Histories.{on_event-keeps}

-- The messages to one peer.
unfoldable pub sent_to : ℕ → List Message → List Message
sent_to id [] = []
sent_to id (m ∷ ms) = if recipient m == id then m ∷ sent_to id ms else sent_to id ms

entries-insert_other :
    (id j : ℕ) (xs : List ℕ) (m : List (ℕ × List ℕ))
    → (id == j) ≡ false
    → entries j (insert id xs m) ≡ entries j m
unfolding entries
entries-insert_other id j xs m h = ground (arith, lookup-insert id j xs m, h)

forward_obs_tracks_to_receiver-known :
    (pc : PeerConnection) (m : StreamManager) (id j : ℕ) (skip_offer : Bool)
    → (id == j) ≡ false
    → known (forward_obs_tracks_to_receiver pc m id skip_offer).0 j ≡ known m j
unfolding mark subscribe_to_track
forward_obs_tracks_to_receiver-known pc m id j skip_offer h =
    forward_obs_tracks_to_receiver_rule pc id (λ (n : StreamManager). known n j ≡ known m j)
      (λ n t local_track e.
        rw
          (entries-insert_other id j (entries id n.forwarded_receivers ++ (t ∷ []))
            n.forwarded_receivers h)
          e)
      m skip_offer refl
      (rw (entries-insert_other id j (entries id m.forwarded_receivers) m.forwarded_receivers h)
        refl)

remove_peer_connection-known :
    (m : StreamManager) (id j : ℕ)
    → (id == j) ≡ false
    → known (remove_peer_connection m id).0 j ≡ known m j
remove_peer_connection-known m id j h =
    let gone = (remove_peer_connection-forgets m id j).1 in rw h at gone

-- None of the events is about a peer.
abbrev pub Elsewhere : ℕ → List (ℕ × Event) → Type 0
Elsewhere j = All (λ (entry : ℕ × Event). (entry.0 == j) ≡ false)

module _ {C : Type 0} where
  -- What a host knows of a peer, and what it has sent to it.
  abbrev pub about : Host C → ℕ → (Option ℕ × List ℕ × List ℕ) × List Message
  about s j = (known s.manager j, sent_to j s.sent)

  about-Keeps :
      (s : Host C) (id j : ℕ) → (id == j) ≡ false → Keeps (λ (t : Host C). about t j ≡ about s j) id
  unfolding close_peer remove_peer remove_matching start_relay enter_peer add_peer_connection
      register_close_handler remove_peer_connection_matching sent_to
  about-Keeps s id j h = record {
    on_close = λ t pc e. e;
    on_remove = λ t e. rw (remove_peer_connection-known t.manager id j h) e;
    on_remove_matching = λ t pc e.
        if_rule (λ (r : StreamManager × List ℕ). (known r.0 j, sent_to j t.sent) ≡ about s j)
          (is_peer (get_peer_connection t.manager id) pc)
          (rw (remove_peer_connection-known t.manager id j h) e) e;
    on_relay = λ t _ e.
        rw
          (entries-insert_other id j (entries id t.manager.close_handlers ++ (t.next_done ∷ []))
            t.manager.close_handlers h)
          e;
    on_enter = λ t e. rw (lookup-insert id j t.next_peer t.manager.peer_connections, h) e;
    on_forward = λ t pc skip_offer e.
        rw (forward_obs_tracks_to_receiver-known pc t.manager id j skip_offer h) e;
    on_hear = λ t b e. e;
    on_send = λ t m to e. rw (to, h) e;
  }

  module _ (decode parse : List ℕ → Option (List ℕ)) (ctx : C) (start : Start C) where
    -- Whatever events of other peers come, in whatever order and whatever the library answers: a
    -- peer's connection, its forwarded tracks and its close handlers stay as they are, and nothing
    -- is sent to it.
    pub on_events-about :
        (s : Host C) (j : ℕ) (es : List (ℕ × Event))
        → Elsewhere j es
        → about (on_events decode parse ctx start s es) j ≡ about s j
    unfolding on_events
    on_events-about s j [] o = refl
    on_events-about s j ((id, e) ∷ es) (h, o) =
        on_events-about (on_event decode parse ctx start s id e) j es o
        ∙ on_event-keeps (about-Keeps s id j h) decode parse ctx start s e refl

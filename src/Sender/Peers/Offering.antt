-- ===== src/Sender/Peers/Offering.antt =====
-- What the offer to a peer leaves behind, made or not.
use mistlink.Base.{
  ℕ, ◌≡◌, refl, ◌∙◌, ap, Bool, true, false, not, ◌||◌, ◌∷◌, Option, none, some, if◌then◌else◌, inl,
  inr, Option-cases, if_rule, if_split, arith, eq→==, leb,
}
use mistlink.Base.Maps.{lookup}
use mistlink.Base.Members.{member}
use mistlink.Stream.Manager.{get_peer_connection, remove_peer_connection, cleanup_resources}
use mistlink.Sender.Peers.{
  offer, Host, Answers, OfferError, close_peer, remove_peer, start_relay, enter_peer,
  ensure_outgoing_tracks, peer_error, create_and_send_offer, offer_made, create_peer_connection,
}
use mistlink.Sender.Peers.Run.{ensure_outgoing_tracks-Quiet, enter_peer-entry}

module _ {C : Type 0} where
  ensure_outgoing_tracks-closed :
      (a : Answers) (s : Host C) (id pc : ℕ) (skip_if_has_sender skip_offer : Bool)
      → let (t, ok) = ensure_outgoing_tracks a s id pc skip_if_has_sender skip_offer in
        t.closed_peers ≡ (if ok then s.closed_peers else pc ∷ s.closed_peers)
  unfolding ensure_outgoing_tracks start_relay close_peer
  ensure_outgoing_tracks-closed a s id pc skip_if_has_sender skip_offer = ground arith

  -- What an offer may do to its peer.
  abbrev pub Offered : Host C → ℕ → Host C × Option OfferError → Type 0
  Offered s id (t, none) =
      (t.sent ≡ offer id ∷ s.sent)
      × (get_peer_connection t.manager id ≡ some s.next_peer)
      × (t.closed_peers ≡ s.closed_peers)
  Offered s id (t, some e) =
      (t.sent ≡ s.sent)
      × ((leb t.next_peer s.next_peer || member s.next_peer t.closed_peers) ≡ true)

  offer_made-Offered :
      (a : Answers) (s t : Host C) (id : ℕ)
      → t.sent ≡ s.sent
      → get_peer_connection t.manager id ≡ some s.next_peer
      → t.closed_peers ≡ s.closed_peers
      → Offered s id (offer_made t s.next_peer (create_and_send_offer a t id))
  unfolding offer_made create_and_send_offer close_peer
  offer_made-Offered a s t id sent entry closed =
      let R = λ (r : Host C × Option OfferError). Offered s id (offer_made t s.next_peer r) in
      let shut : (member s.next_peer (s.next_peer ∷ t.closed_peers)) ≡ true =
        rw (eq→== s.next_peer s.next_peer refl) refl in
      if_rule R (not a.description) (sent, ground (arith, shut))
        (if_rule R (not a.local_set) (sent, ground (arith, shut))
          (if_rule R (not a.sends) (sent, ground (arith, shut))
            (ap (◌∷◌ (offer id)) sent, entry, closed)))

  -- Without an error, one offer is sent to the peer, whose connection is then a new one, and none
  -- is closed: a connection that the peer had before is left open. With an error nothing is sent,
  -- and the new connection is closed if it was made.
  pub create_peer_connection-Offered :
      (a : Answers) (s : Host C) (id : ℕ) → Offered s id (create_peer_connection a s id)
  unfolding create_peer_connection enter_peer remove_peer remove_peer_connection cleanup_resources
      close_peer
  create_peer_connection-Offered a s id =
      let pc = s.next_peer in
      let e = enter_peer s id in
      let (s', ok) = ensure_outgoing_tracks a e id pc false true in
      let (sent, peers, next) = ensure_outgoing_tracks-Quiet a e id pc false true in
      let closed = ensure_outgoing_tracks-closed a e id pc false true in
      let entry = ap (lookup id) peers ∙ enter_peer-entry s id in
      elim (Option-cases (peer_error a)) [
        | inl fine ↦
            rw (fine, create_peer_connection)
              (if_split (Offered s id) ok
                (λ good. offer_made-Offered a s s' id sent entry (rw good at closed))
                (λ bad. (sent, rw (eq→== pc pc refl) (ground arith))))
        | inr (err, bad) ↦ rw (bad, create_peer_connection) (refl, ground arith)
      ]

-- ===== src/Sender/Peers/Outcome.antt =====
-- What an offer leaves behind, answered or not.
use mistlink.Base.{
  ℕ, ◌≡◌, refl, ◌∙◌, ap, Bool, true, false, ◌||◌, List, ◌∷◌, Option, none, some, ◌==◌,
  if◌then◌else◌, inl, inr, Option-cases, if_rule, if_split, arith, is_some, ltb, leb, ==→eq,
}
use mistlink.Base.Members.{member}
use mistlink.Receiver.Bridge.{Start}
use mistlink.Stream.Manager.{get_peer_connection, is_peer}
use mistlink.Sender.Peers.{
  answer, Host, Answers, OfferError, is_over, wants_retry, close_peer, remove_matching, enter_peer,
  answer_offer, answer_anew, peer_error, handle_offer, drop_current, cleanup_peer_connection,
  handle_offer_as_receiver,
}
use mistlink.Sender.Peers.Run.{enter_peer-entry, Run, answer_offer-Run}

peer_error-wants_retry : (a : Answers) → wants_retry (peer_error a) ≡ false
unfolding peer_error
peer_error-wants_retry a = ground arith

module _ {C : Type 0} where
  -- What an attempt may do to the peer of an offer: one answer for a connection that it has, or
  -- none, and every connection that it has made is the peer's or closed.
  pub record Outcome (s t : Host C) (id : ℕ) (e : Option OfferError) : Type 0 where
    pub sent_once : t.sent ≡ (if is_some e then s.sent else answer id ∷ s.sent)
    pub answered : (is_some e || is_some (get_peer_connection t.manager id)) ≡ true
    pub tracked :
        (pc : ℕ)
        → (ltb pc s.next_peer
            || leb t.next_peer pc
            || is_peer (get_peer_connection t.manager id) pc
            || member pc t.closed_peers)
          ≡ true

  Run-new-Outcome :
      (s : Host C) (id : ℕ) (r : Host C × Option OfferError)
      → Run (enter_peer s id) id s.next_peer true r
      → Outcome s r.0 id r.1 × (wants_retry r.1 ≡ false)
  unfolding enter_peer is_peer
  Run-new-Outcome s id (t, none) (sent, entry, next) = (
    record {
      sent_once = sent;
      answered = rw (entry) refl;
      tracked = λ p. rw (entry, next) (ground arith);
    },
    refl,
  )
  Run-new-Outcome s id (t, some e) (sent, entry, next, closed, fresh) = (
    record {
      sent_once = sent;
      answered = refl;
      tracked = λ p.
          let same : (p == s.next_peer) ≡ true
              → member p t.closed_peers ≡ member s.next_peer t.closed_peers =
            λ q. ap (λ i. member i t.closed_peers) (==→eq p s.next_peer q) in
          rw (entry, next) (ground (arith, same, closed, fresh));
    },
    fresh,
  )

  Run-old-Outcome :
      (s : Host C) (id pc : ℕ) (r : Host C × Option OfferError)
      → Run s id pc false r
      → Outcome s r.0 id r.1
  Run-old-Outcome s id pc (t, none) (sent, entry, next) = record {
    sent_once = sent;
    answered = rw (entry) refl;
    tracked = λ p. rw (next) (ground arith);
  }
  Run-old-Outcome s id pc (t, some e) (sent, entry, next, closed, fresh) = record {
    sent_once = sent;
    answered = refl;
    tracked = λ p. rw (next) (ground arith);
  }

  -- Nothing is sent, and no connection is made.
  abbrev Idle : Host C → Host C → Type 0
  Idle s t = (t.sent ≡ s.sent) × (t.next_peer ≡ s.next_peer)

  Run-Idle :
      (s : Host C) (id pc : ℕ) (is_new : Bool) (r : Host C × Option OfferError)
      → Run s id pc is_new r
      → wants_retry r.1 ≡ true
      → Idle s r.0
  Run-Idle s id pc is_new (t, none) run w = absurd (ground (arith, w))
  Run-Idle s id pc is_new (t, some e) (sent, entry, next, closed, fresh) w = (sent, next)

  drop_current-Idle :
      (s : Host C) (id : ℕ) (current : Option ℕ) → Idle s (drop_current s id current)
  unfolding drop_current cleanup_peer_connection close_peer remove_matching
  drop_current-Idle s id none = (refl, refl)
  drop_current-Idle s id (some pc) = (refl, refl)

  Outcome-Idle :
      (s u t : Host C) (id : ℕ) (e : Option OfferError)
      → Idle s u
      → Outcome u t id e
      → Outcome s t id e
  Outcome-Idle s u t id e (sent, next) o = record {
    sent_once = o.sent_once ∙ ap (λ ms. if is_some e then ms else answer id ∷ ms) sent;
    answered = o.answered;
    tracked = λ p. rw (next) at o.tracked p;
  }

  module _ (decode : List ℕ → Option (List ℕ)) (ctx : C) (start : Start C) where
    answer_anew-Outcome :
        (a : Answers) (s : Host C) (id : ℕ) (sdp : List ℕ)
        → let (t, e) = answer_anew decode ctx start a s id sdp in
          Outcome s t id e × (wants_retry e ≡ false)
    unfolding answer_anew
    answer_anew-Outcome a s id sdp =
        let known = peer_error-wants_retry a in
        elim (Option-cases (peer_error a)) [
          | inl fine ↦
              rw (fine, answer_anew)
                (Run-new-Outcome s id
                  (answer_offer decode ctx start a (enter_peer s id) id s.next_peer true sdp)
                  (answer_offer-Run decode ctx start a (enter_peer s id) id s.next_peer true sdp
                    (enter_peer-entry s id)))
          | inr (e, bad) ↦
              rw (bad, answer_anew)
                (
                  record { sent_once = refl; answered = refl; tracked = λ p. ground arith },
                  (rw bad at known),
                )
        ]

    -- An attempt, and what is known of one that is to be made again.
    handle_offer-Outcome :
        (a : Answers) (s : Host C) (id : ℕ) (current : Option ℕ) (sdp : List ℕ)
        → get_peer_connection s.manager id ≡ current
        → let (t, e) = handle_offer decode ctx start a s id current sdp in
          Outcome s t id e × (wants_retry e ≡ true → Idle s t)
    unfolding handle_offer
    handle_offer-Outcome a s id none sdp h =
        let (o, w) = answer_anew-Outcome a s id sdp in (o, λ v. absurd (ground (arith, v, w)))
    handle_offer-Outcome a s id (some pc) sdp h =
        let (o, w) = answer_anew-Outcome a s id sdp in
        let r = answer_offer decode ctx start a s id pc false sdp in
        let run = answer_offer-Run decode ctx start a s id pc false sdp h in
        if_rule
          (λ (r : Host C × Option OfferError).
            Outcome s r.0 id r.1 × (wants_retry r.1 ≡ true → Idle s r.0))
          (is_over a.state) (o, λ v. absurd (ground (arith, v, w)))
          (Run-old-Outcome s id pc r run, Run-Idle s id pc false r run)

    -- Whatever connection the peer of an offer has and whatever the library answers, in the first
    -- attempt and in the second: without an error exactly one answer is sent, to the peer, and the
    -- peer has a connection; with an error nothing is sent. Every connection that was made for the
    -- offer is then the peer's or closed.
    pub handle_offer_as_receiver-Outcome :
        (first second : Answers) (s : Host C) (id : ℕ) (sdp : Option (List ℕ))
        → let (t, e) = handle_offer_as_receiver decode ctx start first second s id sdp in
          Outcome s t id e
    unfolding handle_offer_as_receiver handle_offer
    handle_offer_as_receiver-Outcome first second s id none = record {
      sent_once = refl;
      answered = refl;
      tracked = λ p. ground arith;
    }
    handle_offer_as_receiver-Outcome first second s id (some sdp) =
        let current = get_peer_connection s.manager id in
        let (s', e) = handle_offer decode ctx start first s id current sdp in
        let (o, idle) = handle_offer-Outcome first s id current sdp refl in
        let s'' = drop_current s' id current in
        let (sent, next) = drop_current-Idle s' id current in
        if_split (λ (r : Host C × Option OfferError). Outcome s r.0 id r.1) (wants_retry e)
          (λ w.
            Outcome-Idle s s'' (answer_anew decode ctx start second s'' id sdp).0 id
              (answer_anew decode ctx start second s'' id sdp).1
              (sent ∙ (idle w).0, next ∙ (idle w).1) (answer_anew-Outcome second s'' id sdp).0)
          (λ w. o)

-- ===== src/Sender/Whip/Replies.antt =====
-- When a WHIP request is answered, and with what.
use mistlink.Base.{
  ℕ, ◌≡◌, refl, Bool, false, not, ◌&&◌, List, Option, none, some, ◌==◌, leb, is_some, arith,
}
use mistlink.Base.Text.{codes, same_text}
use mistlink.Sender.Whip.{
  Request, Library, Reply, reply, offer_of, answer_request, make_peer, read_offer, read_body,
  whip_handler,
}

-- The description that a request with this body offers.
abbrev pub offered_in : (List ℕ → Option (List ℕ)) → Request → Option (List ℕ) → Option (List ℕ)
offered_in decode r none = none
offered_in decode r (some body) = offer_of decode r body

abbrev pub offered_by : (List ℕ → Option (List ℕ)) → Request → Option (List ℕ)
offered_by decode r = offered_in decode r r.body

-- Whether the library makes a connection, and whether it answers an offer on it.
abbrev pub makes : Library → Bool
makes l = l.codecs && l.interceptors && l.peer_made

abbrev pub accepts : Library → Option (List ℕ) → Bool
accepts l none = false
accepts l (some sdp) = makes l && l.sets_remote sdp && l.answer_made && l.local_set

abbrev pub is_post : Request → Bool
is_post r = not (same_text r.method (codes "OPTIONS")) && same_text r.method (codes "POST")

-- A reply to an offer, by what the library answers.
abbrev Answered : Library → Option (List ℕ) → Reply → Type 0
Answered l sdp r =
    ((r.status == 201) ≡ accepts l sdp)
    × (r.peer_open ≡ (is_some sdp && makes l))
    × (leb 400 r.status ≡ not (accepts l sdp))

read_offer-Answered : (l : Library) (sdp : Option (List ℕ)) → Answered l sdp (read_offer l sdp)
unfolding read_offer make_peer answer_request reply
read_offer-Answered l none = (refl, refl, refl)
read_offer-Answered l (some sdp) = (ground arith, ground arith, ground arith)

read_body-Answered :
    (decode : List ℕ → Option (List ℕ)) (l : Library) (r : Request) (body : Option (List ℕ))
    → Answered l (offered_in decode r body) (read_body decode l r body)
unfolding read_body reply
read_body-Answered decode l r none = (refl, refl, refl)
read_body-Answered decode l r (some body) = read_offer-Answered l (offer_of decode r body)

-- A request is answered with 201 just where it is a POST with an offer and the library accepts
-- that; any other request but OPTIONS is answered with an error. A connection is made just where
-- such an offer comes and the library makes one, and it stays open also where the answer is an
-- error.
pub whip_handler_lem :
    (decode : List ℕ → Option (List ℕ)) (l : Library) (r : Request)
    → let answer = whip_handler decode l r in
      let created = is_post r && accepts l (offered_by decode r) in
      ((answer.status == 201) ≡ created)
      × (answer.peer_open ≡ (is_post r && is_some (offered_by decode r) && makes l))
      × (leb 400 answer.status ≡ (not (same_text r.method (codes "OPTIONS")) && not created))
unfolding whip_handler reply
whip_handler_lem decode l r =
    let (created, made, failed) = read_body-Answered decode l r r.body in
    (ground (arith, created), ground (arith, made), ground (arith, failed))

-- ===== src/Signaling/Routing.antt =====
-- internal/signaling: from the call of a sender to the callback of the peer that it reaches.
use Prim.Native.String.{String}
use mistlink.Base.{◌≡◌, List, [], ◌∷◌, none, some}
use mistlink.Signaling.{
  Client, send_message, write_pump, send_offer, send_answer, send_candidate, send_request,
  send_redirect, set_callbacks, dispatch, Invocation, offer, answer, candidate, request, redirect,
}

-- What starts at `peer` when the client's next message reaches it.
unfoldable pub arrives : Client → Client → List Invocation
arrives c peer = elim (write_pump c.send_chan c).1 [
  | none ↦ []
  | some msg ↦ dispatch peer.callbacks msg
]

-- With nothing queued, a call of each of the five sends is, at a peer whose callbacks are set,
-- one call of the callback it is for, with the text and the sender's id: no send is dispatched to
-- another callback, and none is dropped.
sends-arrives :
    (c peer : Client) (text receiver : String)
    → c.send_chan ≡ []
    → (arrives (send_offer c text receiver).0 (set_callbacks peer) ≡ offer text c.client_id ∷ [])
      × (arrives (send_answer c text receiver).0 (set_callbacks peer)
          ≡ answer text c.client_id ∷ [])
      × (arrives (send_candidate c text receiver).0 (set_callbacks peer)
          ≡ candidate text c.client_id ∷ [])
      × (arrives (send_request c receiver).0 (set_callbacks peer) ≡ request c.client_id ∷ [])
      × (arrives (send_redirect c text receiver).0 (set_callbacks peer)
          ≡ redirect text c.client_id ∷ [])
unfolding arrives send_offer send_answer send_candidate send_request send_redirect set_callbacks
    write_pump dispatch send_message
sends-arrives c peer text receiver e = (simp (e), simp e, simp e, simp e, simp e)

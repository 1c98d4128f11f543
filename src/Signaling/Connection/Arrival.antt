-- ===== src/Signaling/Connection/Arrival.antt =====
-- From NewClient to the callbacks: what a client starts for the messages of its peers.
use Prim.Native.String.{String}
use mathlib.Core.List.{append_assoc}
use mistlink.Base.{
  ◌≡◌, refl, sym, ◌∙◌, ap, Bool, true, false, List, [], ◌∷◌, ◌++◌, map, Option, none, some, All,
  if_rule, ltb, length, if◌then◌else◌, arith,
}
use mistlink.Signaling.{
  send_capacity, Message, Client, Callbacks, Invocation, offer, answer, candidate, request,
  redirect, no_callbacks, send_message, write_pump, new_client, set_callbacks, read_message,
  dispatch,
}
use mistlink.Signaling.Connection.{
  no_effect, Connection, connect, Call, offers, answers, candidates, redirects, requests, sends,
  place, Event, calls, pumps, receives, sets_callbacks, sets_on_message, closes, Effect, pump, read,
  step, run,
}
use mistlink.Signaling.Connection.Delivery.{place_lem, message_of}

-- After `SetCallbacks`, with no handler for every message.
abbrev pub all_callbacks : Callbacks
all_callbacks = record no_callbacks {
  on_offer = true;
  on_answer = true;
  on_candidate = true;
  on_request = true;
  on_redirect = true;
  on_disconnect = true;
}

-- A peer's call, and what it is to start at the client that its message reaches.
unfoldable pub reaction : Client × Call → List Invocation
reaction (peer, offers text to) = offer text peer.client_id ∷ []
reaction (peer, answers text to) = answer text peer.client_id ∷ []
reaction (peer, candidates text to) = candidate text peer.client_id ∷ []
reaction (peer, redirects target to) = redirect target peer.client_id ∷ []
reaction (peer, requests to) = request peer.client_id ∷ []
reaction (peer, sends msg) = dispatch all_callbacks msg

unfoldable pub reactions : List (Client × Call) → List Invocation
reactions [] = []
reactions (c ∷ cs) = reaction c ++ reactions cs

-- The oldest message that waits at the peer after its call reaches the client.
unfoldable pub arrives : Client × Call → Event
arrives (peer, call) = let c = (place peer call).0 in receives (write_pump c.send_chan c).1

-- Before the callbacks are set, and while the websocket can be read.
unfoldable pub is_early : Event → Bool
is_early (calls call) = true
is_early (pumps taken) = true
is_early (receives none) = false
is_early (receives (some msg)) = true
is_early sets_callbacks = false
is_early (sets_on_message is_set) = false
is_early closes = true

-- A connection that reads, with these callbacks.
abbrev Reads : Callbacks → Connection → Type 0
Reads cb s = (s.client.callbacks ≡ cb) × (s.reading ≡ true)

arrives_lem :
    (peer : Client) (call : Call)
    → peer.send_chan ≡ []
    → arrives (peer, call) ≡ receives (some (message_of peer call))
unfolding arrives send_message write_pump
arrives_lem peer call e = rw (place_lem peer call) (rw (e) refl)

place-callbacks : (c : Client) (call : Call) → (place c call).0.callbacks ≡ c.callbacks
unfolding send_message
place-callbacks c call =
    ap (λ (r : Client × Bool). r.0.callbacks) (place_lem c call)
    ∙ if_rule (λ (r : Client × Bool). r.0.callbacks ≡ c.callbacks)
        (ltb (length c.send_chan) send_capacity)
        {x = (record c { send_chan = c.send_chan ++ (message_of c call ∷ []) }, true)}
        {y = (c, false)} refl refl

write_pump-callbacks : (q : List Message) (c : Client) → (write_pump q c).0.callbacks ≡ c.callbacks
unfolding write_pump
write_pump-callbacks [] c = refl
write_pump-callbacks (msg ∷ rest) c = refl

-- Nothing is started, and the callbacks stay unset.
abbrev Quiet : Connection × Effect → Type 0
Quiet (t, a) = (a.started ≡ []) × Reads no_callbacks t

pump-Quiet :
    (s : Connection) (taken : Bool) (c : Client) (msg : Option Message)
    → c.callbacks ≡ s.client.callbacks
    → Reads no_callbacks s
    → Quiet (pump s taken c msg)
unfolding pump
pump-Quiet s taken c none same h = (refl, h)
pump-Quiet s taken c (some msg) same (cb, r) =
    if_rule Quiet taken (refl, (same ∙ cb, r)) (refl, (same ∙ cb, r))

read-Quiet : (s : Connection) (msg : Message) → Reads no_callbacks s → Quiet (read s (some msg))
unfolding read read_message dispatch
read-Quiet s msg (cb, r) = (ap (λ c. read_message c msg) cb ∙ ground arith, (cb, r))

early-Quiet :
    (s : Connection) (e : Event) → is_early e ≡ true → Reads no_callbacks s → Quiet (step s e)
unfolding step is_early
early-Quiet s (calls call) h (cb, r) = (refl, (place-callbacks s.client call ∙ cb, r))
early-Quiet s (pumps taken) h reads =
    if_rule Quiet s.pumping
      (pump-Quiet s taken _ _ (write_pump-callbacks s.client.send_chan s.client) reads)
      (refl, reads)
early-Quiet s (receives none) h reads = absurd (ground (arith, h))
early-Quiet s (receives (some msg)) h reads =
    if_rule Quiet s.reading (read-Quiet s msg reads) (refl, reads)
early-Quiet s sets_callbacks h reads = absurd (ground (arith, h))
early-Quiet s (sets_on_message is_set) h reads = absurd (ground (arith, h))
early-Quiet s closes h reads = (refl, reads)

dispatch-reaction :
    (peer : Client) (call : Call)
    → dispatch all_callbacks (message_of peer call) ≡ reaction (peer, call)
unfolding dispatch message_of reaction
dispatch-reaction peer (offers text to) = refl
dispatch-reaction peer (answers text to) = refl
dispatch-reaction peer (candidates text to) = refl
dispatch-reaction peer (redirects target to) = refl
dispatch-reaction peer (requests to) = refl
dispatch-reaction peer (sends msg) = refl

if_true : {A : Type 0} (x y : A) (b : Bool) → b ≡ true → (if b then x else y) ≡ x
if_true x y b h = rw (h) refl

step-receives :
    (s : Connection) (msg : Message)
    → Reads all_callbacks s
    → step s (receives (some msg)) ≡ (s, record no_effect { started = dispatch all_callbacks msg })
unfolding step read read_message
step-receives s msg (cb, r) =
    if_true (read s (some msg)) (s, no_effect) s.reading r
    ∙ ap (λ c. (s, record no_effect { started = read_message c msg })) cb

arrives-reaction :
    (s : Connection) (peer : Client) (call : Call)
    → peer.send_chan ≡ []
    → Reads all_callbacks s
    → step s (arrives (peer, call)) ≡ (s, record no_effect { started = reaction (peer, call) })
arrives-reaction s peer call e reads =
    ap (step s) (arrives_lem peer call e)
    ∙ step-receives s (message_of peer call) reads
    ∙ ap (λ is. (s, record no_effect { started = is })) (dispatch-reaction peer call)

run-append :
    (es fs : List Event) (s : Connection)
    → (run s (es ++ fs)).1.started ≡ (run s es).1.started ++ (run (run s es).0 fs).1.started
unfolding run
run-append [] fs s = refl
run-append (e ∷ es) fs s =
    ap (λ is. (step s e).1.started ++ is) (run-append es fs (step s e).0)
    ∙ sym (append_assoc (step s e).1.started _ _)

run-early :
    (es : List Event) (s : Connection)
    → All (λ e. is_early e ≡ true) es
    → Reads no_callbacks s
    → Quiet (run s es)
unfolding run
run-early [] s h reads = (refl, reads)
run-early (e ∷ es) s (first, rest) reads =
    let (nothing, reads') = early-Quiet s e first reads in
    let (later, end) = run-early es (step s e).0 rest reads' in (rw (nothing) later, end)

run-reactions :
    (cs : List (Client × Call)) (s : Connection)
    → All (λ (c : Client × Call). c.0.send_chan ≡ []) cs
    → Reads all_callbacks s
    → (run s (map arrives cs)).1.started ≡ reactions cs
unfolding run reactions
run-reactions [] s h reads = refl
run-reactions ((peer, call) ∷ cs) s (empty, rest) reads =
    ap (λ (r : Connection × Effect). r.1.started ++ (run r.0 (map arrives cs)).1.started)
      (arrives-reaction s peer call empty reads)
    ∙ ap (λ is. reaction (peer, call) ++ is) (run-reactions cs s rest reads)

run-set :
    (before : List Event) (cs : List (Client × Call)) (s : Connection)
    → All (λ e. is_early e ≡ true) before
    → All (λ (c : Client × Call). c.0.send_chan ≡ []) cs
    → Reads no_callbacks s
    → (run s (before ++ sets_callbacks ∷ map arrives cs)).1.started ≡ reactions cs
unfolding run step set_callbacks
run-set before cs s early empty reads =
    let (nothing, (cb, r)) = run-early before s early reads in
    let t = (run s before).0 in
    run-append before (sets_callbacks ∷ map arrives cs) s
    ∙ ap (λ is. is ++ (run t (sets_callbacks ∷ map arrives cs)).1.started) nothing
    ∙ run-reactions cs (step t sets_callbacks).0 empty
        (ap (λ (c : Callbacks). record all_callbacks { on_message = c.on_message }) cb, r)

-- `NewClient` returns a client whenever the server is reached. Whatever it sends and receives before
-- `SetCallbacks`, while its websocket can be read, starts nothing; after that each message that a
-- peer with an empty queue sends by a call of one of the five kinds starts the callback of this kind
-- and no other, with the call's text and the peer's id, in the order in which the messages come.
pub connect-arrival :
    (room id : String) (before : List Event) (cs : List (Client × Call))
    → All (λ e. is_early e ≡ true) before
    → All (λ (c : Client × Call). c.0.send_chan ≡ []) cs
    → (s : Connection) × (connect true room id ≡ some s)
      × ((run s (before ++ sets_callbacks ∷ map arrives cs)).1.started ≡ reactions cs)
unfolding connect new_client send_message
connect-arrival room id before cs early empty =
    (_, refl, run-set before cs _ early empty (refl, refl))

-- ===== src/Signaling/Connection/Delivery.antt =====
-- What becomes of the messages that a connection is given.
use Prim.Native.String.{String}
use mathlib.Core.List.{append-nil, append_assoc}
use mistlink.Base.{
  ◌≤◌, ◌≡◌, refl, sym, ◌∙◌, ap, Bool, true, false, List, [], ◌∷◌, ◌++◌, Option, none, some, ◌⊎◌,
  if◌then◌else◌, if_rule, length, length-append, arith, inl, inr, ltb,
}
use mistlink.Signaling.{
  Message, Client, send_capacity, send_message, write_pump, send_offer, send_answer, send_candidate,
  send_request, send_redirect, set_callbacks,
}
use mistlink.Signaling.Queue.{enqueues, act, act-capacity}
use mistlink.Signaling.Connection.{
  Connection, Call, offers, answers, candidates, redirects, requests, sends, place, Event, calls,
  pumps, receives, sets_callbacks, sets_on_message, closes, Effect, pump, read, step, run,
  on_message,
}

abbrev envelope : Client → String → String → String → Message
envelope c type text to = record {
  type = type;
  text = text;
  sender_id = c.client_id;
  receiver_id = to;
  room_id = c.room;
}

-- The message of a call, as the server is to see it.
unfoldable pub message_of : Client → Call → Message
message_of c (offers text to) = envelope c "Offer" text to
message_of c (answers text to) = envelope c "Answer" text to
message_of c (candidates text to) = envelope c "Candidate" text to
message_of c (redirects target to) = envelope c "Redirect" target to
message_of c (requests to) = envelope c "Request" "" to
message_of c (sends msg) = msg

-- The messages of the calls that return no error.
unfoldable pub taken : Connection → Event → List Message
taken s (calls call) = if (place s.client call).1 then message_of s.client call ∷ [] else []
taken s (pumps ok) = []
taken s (receives msg) = []
taken s sets_callbacks = []
taken s (sets_on_message is_set) = []
taken s closes = []

unfoldable pub all_taken : Connection → List Event → List Message
all_taken s [] = []
all_taken s (e ∷ es) = taken s e ++ all_taken (step s e).0 es

-- A call queues its message, and fails where the queue is full.
pub place_lem : (c : Client) (call : Call) → place c call ≡ send_message c (message_of c call)
unfolding place message_of send_offer send_answer send_candidate send_request send_redirect
place_lem c (offers text to) = refl
place_lem c (answers text to) = refl
place_lem c (candidates text to) = refl
place_lem c (redirects target to) = refl
place_lem c (requests to) = refl
place_lem c (sends msg) = refl

-- What waited is written, lost or waits on.
abbrev Order : List Message → Connection × Effect → Type 0
Order q (t, a) = q ≡ a.written ++ (a.lost ++ t.client.send_chan)

-- A message is lost only when `writePump` returns.
abbrev Lost : Connection × Effect → Type 0
Lost (t, a) = (a.lost ≡ []) ⊎ ((a.written ≡ []) × (length a.lost ≡ 1) × (t.pumping ≡ false))

-- Then nothing is written.
abbrev Silent : Connection × Effect → Type 0
Silent (t, a) = (a.written ≡ []) × (a.lost ≡ []) × (t.pumping ≡ false)

pump-Order :
    (s : Connection) (ok : Bool) (q : List Message)
    → q ≡ s.client.send_chan
    → let (c, msg) = write_pump q s.client in Order q (pump s ok c msg)
unfolding pump write_pump
pump-Order s ok [] h = h
pump-Order s ok (msg ∷ rest) h = if_rule (Order (msg ∷ rest)) ok refl refl

place-Order :
    (s : Connection) (call : Call)
    → s.client.send_chan ++ (if (place s.client call).1 then message_of s.client call ∷ [] else [])
      ≡ (place s.client call).0.send_chan
unfolding send_message
place-Order s call =
    let q = s.client.send_chan in
    let msg = message_of s.client call in
    rw (place_lem s.client call) (
      if_rule (λ (r : Client × Bool). q ++ (if r.1 then msg ∷ [] else []) ≡ r.0.send_chan)
        (ltb (length q) send_capacity) {x = (record s.client { send_chan = q ++ (msg ∷ []) }, true)}
        {y = (s.client, false)} refl (append-nil q))

read-Order : (s : Connection) (msg : Option Message) → Order s.client.send_chan (read s msg)
unfolding read
read-Order s none = refl
read-Order s (some msg) = refl

step-Order : (s : Connection) (e : Event) → Order (s.client.send_chan ++ taken s e) (step s e)
unfolding step taken on_message set_callbacks
step-Order s (calls call) = place-Order s call
step-Order s (pumps ok) =
    append-nil s.client.send_chan
    ∙ if_rule (Order s.client.send_chan) s.pumping (pump-Order s ok s.client.send_chan refl) refl
step-Order s (receives msg) =
    append-nil s.client.send_chan
    ∙ if_rule (Order s.client.send_chan) s.reading (read-Order s msg) refl
step-Order s sets_callbacks = append-nil s.client.send_chan
step-Order s (sets_on_message is_set) = append-nil s.client.send_chan
step-Order s closes = append-nil s.client.send_chan

pump-Lost :
    (s : Connection) (ok : Bool) (c : Client) (msg : Option Message) → Lost (pump s ok c msg)
unfolding pump
pump-Lost s ok c none = inl refl
pump-Lost s ok c (some msg) = if_rule Lost ok (inl refl) (inr (refl, refl, refl))

read-Lost : (s : Connection) (msg : Option Message) → Lost (read s msg)
unfolding read
read-Lost s none = inl refl
read-Lost s (some msg) = inl refl

step-Lost : (s : Connection) (e : Event) → Lost (step s e)
unfolding step
step-Lost s (calls call) = inl refl
step-Lost s (pumps ok) = if_rule Lost s.pumping (pump-Lost s ok _ _) (inl refl)
step-Lost s (receives msg) = if_rule Lost s.reading (read-Lost s msg) (inl refl)
step-Lost s sets_callbacks = inl refl
step-Lost s (sets_on_message is_set) = inl refl
step-Lost s closes = inl refl

read-Silent : (s : Connection) (msg : Option Message) → s.pumping ≡ false → Silent (read s msg)
unfolding read
read-Silent s none h = (refl, refl, h)
read-Silent s (some msg) h = (refl, refl, h)

pub step-Silent : (s : Connection) (e : Event) → s.pumping ≡ false → Silent (step s e)
unfolding step
step-Silent s (calls call) h = (refl, refl, h)
step-Silent s (pumps ok) h = rw (h, step) (refl, refl, refl)
step-Silent s (receives msg) h = if_rule Silent s.reading (read-Silent s msg h) (refl, refl, h)
step-Silent s sets_callbacks h = (refl, refl, h)
step-Silent s (sets_on_message is_set) h = (refl, refl, h)
step-Silent s closes h = (refl, refl, h)

pub run-Silent : (es : List Event) (s : Connection) → s.pumping ≡ false → Silent (run s es)
unfolding run
run-Silent [] s h = (refl, refl, h)
run-Silent (e ∷ es) s h =
    let (w, l, h') = step-Silent s e h in
    let (w', l', h'') = run-Silent es (step s e).0 h' in (rw (w, w') refl, rw (l, l') refl, h'')

Order-capacity :
    (q : List Message) (r : Connection × Effect)
    → Order q r
    → length q ≤ send_capacity
    → length r.0.client.send_chan ≤ send_capacity
Order-capacity q (t, a) o h = omega (
  arith,
  ap length o,
  length-append a.written (a.lost ++ t.client.send_chan),
  length-append a.lost t.client.send_chan,
)

-- Where the event queues nothing.
kept-capacity :
    (s : Connection) (e : Event)
    → taken s e ≡ []
    → length s.client.send_chan ≤ send_capacity
    → length (step s e).0.client.send_chan ≤ send_capacity
kept-capacity s e none_taken h =
    Order-capacity (s.client.send_chan ++ taken s e) (step s e) (step-Order s e)
      (rw (none_taken, append-nil s.client.send_chan) h)

pub step-capacity :
    (s : Connection) (e : Event)
    → length s.client.send_chan ≤ send_capacity
    → length (step s e).0.client.send_chan ≤ send_capacity
unfolding step taken act
step-capacity s (calls call) h =
    rw (place_lem s.client call) (act-capacity s.client (enqueues (message_of s.client call)) h)
step-capacity s (pumps ok) h = kept-capacity s (pumps ok) refl h
step-capacity s (receives msg) h = kept-capacity s (receives msg) refl h
step-capacity s sets_callbacks h = kept-capacity s sets_callbacks refl h
step-capacity s (sets_on_message is_set) h = kept-capacity s (sets_on_message is_set) refl h
step-capacity s closes h = h

-- The messages that waited and those that the calls were given without an error are, in this order,
-- the messages that were written, those that were lost in a write and those that wait: whatever
-- happens to a connection and in whatever order, and whichever writes fail, none is doubled or
-- overtaken, and at most one is lost. The queue keeps within its capacity.
pub run-delivery :
    (es : List Event) (s : Connection)
    → length s.client.send_chan ≤ send_capacity
    → let (t, a) = run s es in
      (s.client.send_chan ++ all_taken s es ≡ a.written ++ (a.lost ++ t.client.send_chan))
      × (length a.lost ≤ 1)
      × (length t.client.send_chan ≤ send_capacity)
unfolding run all_taken
run-delivery [] s h = (append-nil s.client.send_chan, omega arith, h)
run-delivery (e ∷ es) s h =
    let (t, a) = step s e in
    let (u, b) = run t es in
    let (later, few, end) = run-delivery es t (step-capacity s e h) in
    let first =
      sym (append_assoc s.client.send_chan (taken s e) (all_taken t es))
      ∙ ap (λ q. q ++ all_taken t es) (step-Order s e)
      ∙ append_assoc a.written (a.lost ++ t.client.send_chan) (all_taken t es)
      ∙ ap (λ q. a.written ++ q)
          (append_assoc a.lost t.client.send_chan (all_taken t es) ∙ ap (λ q. a.lost ++ q) later) in
    elim (step-Lost s e) [
      | inl none_lost ↦ (
        rw (none_lost) (
            rw (none_lost) at first
            ∙ sym (append_assoc a.written b.written (b.lost ++ u.client.send_chan))),
        rw (none_lost) few,
        end,
      )
      | inr (nothing, one, over) ↦
          let (no_write, no_loss, _) = run-Silent es t over in
          (
            rw (nothing, no_write, no_loss, append-nil a.lost)
                (rw (nothing, no_write, no_loss) at first),
            rw (no_loss, append-nil a.lost) (omega (arith, one)),
            end,
          )
    ]

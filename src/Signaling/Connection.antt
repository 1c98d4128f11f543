-- ===== src/Signaling/Connection.antt =====
-- internal/signaling/client.go: a client with its websocket and its two goroutines, writePump and
-- readLoop. What the websocket answers is a part of the events.
pub mod Delivery
pub mod Stopped
pub mod Arrival
mod Tests
use Prim.Native.String.{String}
use mistlink.Base.{ℕ, Bool, true, false, List, [], ◌∷◌, ◌++◌, Option, none, some, if◌then◌else◌}
use mistlink.Signaling.{
  Message, Client, Invocation, send_message, write_pump, send_offer, send_answer, send_candidate,
  send_request, send_redirect, new_client, set_callbacks, read_message,
}

-- A client, whether its goroutines still run, and whether its websocket was closed by it.
pub record Connection : Type 0 where
  pub client : Client
  pub pumping : Bool
  pub reading : Bool
  pub closed : Bool

-- `NewClient`, from whether the server is reached.
unfoldable pub connect : Bool → String → String → Option Connection
connect dialed room id =
    if dialed
    then elim (new_client room id) [
      | none ↦ none
      | some c ↦ some (record { client = c; pumping = true; reading = true; closed = false })
    ]
    else none

-- The calls of a client that send.
pub data Call : Type 0 where
  offers answers candidates redirects : String → String → Call
  requests : String → Call
  sends : Message → Call

unfoldable pub place : Client → Call → Client × Bool
place c (offers text receiver) = send_offer c text receiver
place c (answers text receiver) = send_answer c text receiver
place c (candidates text receiver) = send_candidate c text receiver
place c (redirects target receiver) = send_redirect c target receiver
place c (requests receiver) = send_request c receiver
place c (sends msg) = send_message c msg

-- `OnMessage`, with a handler or nil.
unfoldable pub on_message : Client → Bool → Client
on_message c is_set = record c { callbacks = record c.callbacks { on_message = is_set } }

-- What happens to a connection: a call; a turn of `writePump`, and whether the websocket takes the
-- message; what `readLoop` reads, or an error; and the calls that do not send.
pub data Event : Type 0 where
  calls : Call → Event
  pumps : Bool → Event
  receives : Option Message → Event
  sets_callbacks : Event
  sets_on_message : Bool → Event
  closes : Event

-- What an event leads to: whether a call returns no error, what is written to the websocket, what is
-- lost in a write that fails, and what `readLoop` starts.
pub record Effect : Type 0 where
  pub accepted : List Bool
  pub written : List Message
  pub lost : List Message
  pub started : List Invocation

abbrev pub no_effect : Effect
no_effect = record { accepted = []; written = []; lost = []; started = [] }

-- The message is off the channel when it is written; `writePump` returns at an error.
unfoldable pub pump : Connection → Bool → Client → Option Message → Connection × Effect
pump s taken c none = (s, no_effect)
pump s taken c (some msg) =
    if taken
    then (record s { client = c }, record no_effect { written = msg ∷ [] })
    else (record s { client = c; pumping = false }, record no_effect { lost = msg ∷ [] })

unfoldable pub read : Connection → Option Message → Connection × Effect
read s none = (record s { reading = false }, no_effect)
read s (some msg) = (s, record no_effect { started = read_message s.client.callbacks msg })

unfoldable pub step : Connection → Event → Connection × Effect
step s (calls call) =
    let (c, ok) = place s.client call in
    (record s { client = c }, record no_effect { accepted = ok ∷ [] })
step s (pumps taken) =
    let (c, msg) = write_pump s.client.send_chan s.client in
    if s.pumping then pump s taken c msg else (s, no_effect)
step s (receives msg) = if s.reading then read s msg else (s, no_effect)
step s sets_callbacks = (record s { client = set_callbacks s.client }, no_effect)
step s (sets_on_message is_set) = (record s { client = on_message s.client is_set }, no_effect)
step s closes = (record s { closed = true }, no_effect)

abbrev pub both : Effect → Effect → Effect
both a b = record {
  accepted = a.accepted ++ b.accepted;
  written = a.written ++ b.written;
  lost = a.lost ++ b.lost;
  started = a.started ++ b.started;
}

unfoldable pub run : Connection → List Event → Connection × Effect
run s [] = (s, no_effect)
run s (e ∷ es) = let (s', a) = step s e in let (s'', b) = run s' es in (s'', both a b)

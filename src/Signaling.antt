-- ===== src/Signaling.antt =====
-- internal/signaling: the messages of the signaling server, the client's send queue, and which
-- callback a message that comes in is for.
pub mod Connection
pub mod Queue
pub mod Routing
use Prim.Native.String.{String}
use text.Mathlib.Text.{◌==◌ as str_eq}
use mistlink.Base.{
  ℕ, zero, suc, Bool, true, false, ◌&&◌, List, [], ◌∷◌, ◌++◌, Option, none, some, ltb,
  if◌then◌else◌, length,
}

pub record Message : Type 0 where
  pub type : String
  pub text : String
  pub sender_id : String
  pub receiver_id : String
  pub room_id : String

-- The capacity of `sendChan`.
abbrev pub send_capacity : ℕ
send_capacity = 256

-- Which callbacks of a client are set.
pub record Callbacks : Type 0 where
  pub on_offer : Bool
  pub on_answer : Bool
  pub on_candidate : Bool
  pub on_request : Bool
  pub on_redirect : Bool
  pub on_disconnect : Bool
  pub on_message : Bool

-- The client: what waits in `sendChan`, and its callbacks.
pub record Client : Type 0 where
  pub room : String
  pub client_id : String
  pub send_chan : List Message
  pub callbacks : Callbacks

-- The queue after a send, and whether it took the message: a full one is an error.
unfoldable pub send_message : Client → Message → Client × Bool
send_message c msg =
    if ltb (length c.send_chan) send_capacity
    then (record c { send_chan = c.send_chan ++ (msg ∷ []) }, true)
    else (c, false)

-- `writePump` takes the oldest message.
unfoldable pub write_pump : List Message → Client → Client × Option Message
write_pump [] c = (c, none)
write_pump (msg ∷ rest) c = (record c { send_chan = rest }, some msg)

message_to : Client → String → String → String → Message
message_to c type text receiver = record {
  type = type;
  text = text;
  sender_id = c.client_id;
  receiver_id = receiver;
  room_id = c.room;
}

unfoldable pub send_offer : Client → String → String → Client × Bool
unfolding message_to
send_offer c offer receiver = send_message c (message_to c "Offer" offer receiver)

unfoldable pub send_answer : Client → String → String → Client × Bool
unfolding message_to
send_answer c answer receiver = send_message c (message_to c "Answer" answer receiver)

unfoldable pub send_candidate : Client → String → String → Client × Bool
unfolding message_to
send_candidate c candidate receiver = send_message c (message_to c "Candidate" candidate receiver)

unfoldable pub send_request : Client → String → Client × Bool
unfolding message_to
send_request c receiver = send_message c (message_to c "Request" "" receiver)

unfoldable pub send_redirect : Client → String → String → Client × Bool
unfolding message_to
send_redirect c target receiver = send_message c (message_to c "Redirect" target receiver)

abbrev pub no_callbacks : Callbacks
no_callbacks = record {
  on_offer = false;
  on_answer = false;
  on_candidate = false;
  on_request = false;
  on_redirect = false;
  on_disconnect = false;
  on_message = false;
}

-- `NewClient` once the connection is up: it joins the room and asks for its peers. Nothing is sent
-- before both are queued here; an error of either send closes the connection.
unfoldable pub new_client : String → String → Option Client
unfolding message_to
new_client room id =
    let c : Client = record {
      room = room;
      client_id = id;
      send_chan = [];
      callbacks = no_callbacks;
    } in
    let (c', joined) = send_message c (message_to c "Join" "" "") in
    let (c'', asked) = send_message c' (message_to c "Request" "" "") in
    if joined && asked then some c'' else none

unfoldable pub set_callbacks : Client → Client
set_callbacks c = record c {
  callbacks = record {
    on_offer = true;
    on_answer = true;
    on_candidate = true;
    on_request = true;
    on_redirect = true;
    on_disconnect = true;
    on_message = c.callbacks.on_message;
  };
}

-- A call that `readLoop` starts, with its arguments.
pub data Invocation : Type 0 where
  message : Message → Invocation
  offer answer candidate redirect : String → String → Invocation
  request disconnect : String → Invocation

-- The type that `onMessage` is told.
unfoldable pub message_type : String → String
message_type t =
    if str_eq t "Offer"
    then "offer"
    else if str_eq t "Answer"
    then "answer"
    else if str_eq t "Candidate"
    then "candidate"
    else if str_eq t "Redirect"
    then "redirect"
    else t

abbrev call_if : Bool → Invocation → List Invocation
call_if b i = if b then i ∷ [] else []

-- The `switch` of `readLoop`.
unfoldable pub dispatch : Callbacks → Message → List Invocation
dispatch cb msg =
    if str_eq msg.type "Offer"
    then call_if cb.on_offer (offer msg.text msg.sender_id)
    else if str_eq msg.type "Answer"
    then call_if cb.on_answer (answer msg.text msg.sender_id)
    else if str_eq msg.type "Candidate"
    then call_if cb.on_candidate (candidate msg.text msg.sender_id)
    else if str_eq msg.type "Request"
    then call_if cb.on_request (request msg.sender_id)
    else if str_eq msg.type "Redirect"
    then call_if cb.on_redirect (redirect msg.text msg.sender_id)
    else if str_eq msg.type "Disconnect"
    then call_if cb.on_disconnect (disconnect msg.sender_id)
    else []

-- One message of `readLoop`: what is started for it.
unfoldable pub read_message : Callbacks → Message → List Invocation
read_message cb msg =
    call_if cb.on_message (message (record msg { type = message_type msg.type })) ++ dispatch cb msg

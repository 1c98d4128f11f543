-- ===== src/Signaling/Connection/Tests.antt =====
-- A connection that is used, one whose writes fail, and one that hears of two peers.
use mistlink.Base.{◌≤◌, ◌≡◌, refl, true, false, List, [], ◌∷◌, ◌++◌, map, some, length, arith, ◌-◌}
use mistlink.Signaling.{Message, Client, no_callbacks, send_capacity}
use mistlink.Signaling.Connection.{
  Connection, connect, Call, offers, requests, Event, calls, pumps, receives, sets_callbacks,
  closes, run,
}
use mistlink.Signaling.Connection.Delivery.{all_taken, run-delivery}
use mistlink.Signaling.Connection.Stopped.{count_calls, first_of, run-stopped}
use mistlink.Signaling.Connection.Arrival.{arrives, reactions, is_early, connect-arrival}

abbrev alice : Client
alice = record { room = "room"; client_id = "alice"; send_chan = []; callbacks = no_callbacks }

abbrev bob : Client
bob = record alice { client_id = "bob" }

abbrev used : Connection
used = record { client = alice; pumping = true; reading = true; closed = false }

abbrev stopped : Connection
stopped = record used { pumping = false }

abbrev hello : Message
hello = record { type = "Offer"; text = "x"; sender_id = "bob"; receiver_id = ""; room_id = "room" }

abbrev events : List Event
events =
    calls (offers "sdp" "bob")
    ∷ pumps true
    ∷ calls (requests "bob")
    ∷ pumps false
    ∷ pumps true
    ∷ closes
    ∷ []

run-delivery_example :
    let (t, a) = run used events in
    (used.client.send_chan ++ all_taken used events ≡ a.written ++ (a.lost ++ t.client.send_chan))
    × (length a.lost ≤ 1)
    × (length t.client.send_chan ≤ send_capacity)
run-delivery_example = run-delivery events used (omega arith)

run-stopped_example :
    let (t, a) = run stopped events in
    (a.written ≡ [])
    × (a.accepted ≡ first_of (count_calls events) (send_capacity - length stopped.client.send_chan))
run-stopped_example = run-stopped events stopped refl (omega arith)

abbrev before : List Event
before = pumps true ∷ receives (some hello) ∷ []

abbrev peers : List (Client × Call)
peers = (bob, offers "sdp" "alice") ∷ (alice, requests "bob") ∷ []

connect-arrival_example :
    (s : Connection) × (connect true "room" "carol" ≡ some s)
    × ((run s (before ++ sets_callbacks ∷ map arrives peers)).1.started ≡ reactions peers)
unfolding is_early
connect-arrival_example =
    connect-arrival "room" "carol" before peers (refl, (refl, tt)) (refl, (refl, tt))

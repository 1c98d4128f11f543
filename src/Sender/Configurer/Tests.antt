-- ===== src/Sender/Configurer/Tests.antt =====
-- A peer whose track comes, is read and ends, while another source is heard.
use mistlink.Base.{◌≡◌, refl, true, false, List, [], ◌∷◌, none}
use mistlink.RtpUtils.{Packet, payload_type_h264}
use mistlink.Sender.Relay.Shared.{new_shared_relay, shared_loop}
use mistlink.Sender.Configurer.{configurers, Event, comes, goes, own, other, takes, run}
use mistlink.Sender.Configurer.Echo.{all_heard, new_link, run-echo}

abbrev packet : Packet
packet = record {
  ssrc = 8;
  payload_type = payload_type_h264;
  sequence_number = 1;
  timestamp = 0;
  marker = 0;
  payload = 0x65 ∷ [];
}

abbrev events : List Event
events =
    comes 5
    ∷ own 5 0 packet
    ∷ other 1 packet
    ∷ takes
    ∷ goes 5
    ∷ comes 5
    ∷ own 5 2 packet
    ∷ takes
    ∷ []

run-echo_example :
    let (i, o) = configurers 0 1 false in
    (run i o true true (new_link new_shared_relay) events).relay
    ≡ shared_loop none true true new_shared_relay (all_heard [] events)
run-echo_example = run-echo 0 1 true true new_shared_relay events refl

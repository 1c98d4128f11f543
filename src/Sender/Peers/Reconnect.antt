-- ===== src/Sender/Peers/Reconnect.antt =====
-- Which of two clients makes the offer when both have lost their connection.
use mistlink.Base.{ℕ, ◌≡◌, false, not, List, is_empty, arith}
use mistlink.Base.Text.{same_text}
use mistlink.Sender.Connection.{is_skip, connection_callback, text_le-flip}
use mistlink.Sender.Peers.Events.{initiates}

-- Of two clients with different ids that are not empty, exactly one makes the offer when they
-- connect again, and it is the one whose request the other would skip: a request of the one that
-- does not make it is not skipped by the other, whatever receivers that has.
initiates-is_skip :
    (a b : List ℕ) (receivers : List (List ℕ))
    → is_empty a ≡ false
    → is_empty b ≡ false
    → same_text a b ≡ false
    → (initiates b a ≡ not (initiates a b))
      × (is_skip (connection_callback b a receivers) ≡ initiates a b)
unfolding initiates connection_callback
initiates-is_skip a b receivers ha hb h =
    (ground (arith, text_le-flip a b, ha, hb, h), ground (arith, text_le-flip a b, ha, hb, h))

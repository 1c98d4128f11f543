-- ===== src/Sender/Connection.antt =====
-- internal/sender/callbacks.go, NewConnectionCallback and NewRedirectCallback: which of two clients
-- makes the offer, and whom a full client redirects.
mod Tests
use mistlink.Base.{
  ℕ, ◌≡◌, refl, Bool, true, false, not, ◌||◌, ◌&&◌, List, [], ◌∷◌, ltb, leb, ◌==◌, if◌then◌else◌,
  length, arith, is_empty,
}
use mistlink.Base.Text.{same_text}

-- `a <= b` on Go strings, byte by byte.
unfoldable pub text_le : List ℕ → List ℕ → Bool
text_le [] b = true
text_le (x ∷ a) [] = false
text_le (x ∷ a) (y ∷ b) = let rest = text_le a b in if x == y then rest else ltb x y

pub data Reaction : Type 0 where
  skip : Reaction
  send_redirect : List ℕ → List ℕ → Reaction
  create_peer_connection : List ℕ → Reaction

abbrev pub is_skip : Reaction → Bool
is_skip skip = true
is_skip (send_redirect target receiver) = false
is_skip (create_peer_connection id) = false

-- `GetRandomForwardReceiver`: the first id in the order in which the map is gone through.
abbrev pub get_random_forward_receiver : List (List ℕ) → List ℕ
get_random_forward_receiver [] = []
get_random_forward_receiver (id ∷ ids) = id

abbrev pub max_receivers : ℕ
max_receivers = 3

-- The callback of `client_id` for the request of `sender_id`, with the ids that are forwarded to.
unfoldable pub connection_callback : List ℕ → List ℕ → List (List ℕ) → Reaction
connection_callback client_id sender_id receivers =
    let target = get_random_forward_receiver receivers in
    if text_le client_id sender_id
    then skip
    else if leb max_receivers (length receivers) && not (is_empty target)
    then send_redirect target sender_id
    else create_peer_connection sender_id

-- The callback for a redirect: whom a request is sent to, if anyone.
unfoldable pub redirect_callback : List ℕ → List (List ℕ)
redirect_callback target_id = if is_empty target_id then [] else target_id ∷ []

pub text_le-flip : (a b : List ℕ) → text_le b a ≡ (not (text_le a b) || same_text a b)
unfolding text_le
text_le-flip [] [] = refl
text_le-flip [] (y ∷ b) = refl
text_le-flip (x ∷ a) [] = refl
text_le-flip (x ∷ a) (y ∷ b) = ground (arith, text_le-flip a b)

-- When two clients ask each other for a connection, each takes the request as the other one does
-- not: one of the two skips it and the other does not, unless their ids are equal and both skip
-- it. How many receivers either of them has does not matter.
pub connection_callback-glare :
    (a b : List ℕ) (receivers_of_a receivers_of_b : List (List ℕ))
    → is_skip (connection_callback b a receivers_of_b)
      ≡ (not (is_skip (connection_callback a b receivers_of_a)) || same_text a b)
unfolding connection_callback
connection_callback-glare a b ra rb = ground (arith, text_le-flip a b)

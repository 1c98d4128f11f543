-- ===== src/Sender/Connection/Tests.antt =====
-- Two clients that ask each other.
use mistlink.Base.{ℕ, ◌≡◌, ◌||◌, not, List, [], ◌∷◌}
use mistlink.Base.Text.{codes, same_text}
use mistlink.Sender.Connection.{connection_callback, is_skip, connection_callback-glare}

abbrev full : List (List ℕ)
full = codes "c" ∷ codes "d" ∷ codes "e" ∷ []

connection_callback-glare_example : is_skip (connection_callback (codes "b") (codes "a") full) ≡ (
    not (is_skip (connection_callback (codes "a") (codes "b") []))
    || same_text (codes "a") (codes "b"))
connection_callback-glare_example = connection_callback-glare (codes "a") (codes "b") [] full

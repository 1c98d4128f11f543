-- ===== src/Receiver/Nack/Tests.antt =====
-- A NACK for numbers that go round at 2 ^ 16.
use mistlink.Base.{ℕ, ◌≡◌, refl, true, false, List, [], ◌∷◌, none, arith}
use mistlink.Base.Members.{member}
use mistlink.Receiver.Nack.{send_nack, pack, gather}
use mistlink.Receiver.Nack.Decode.{asks, requested, requested-send_nack}

abbrev lost : List ℕ
lost = 65534 ∷ 65535 ∷ 3 ∷ 900 ∷ []

requested_wrapped : requested (send_nack true 1 lost) 3 ≡ true
unfolding send_nack pack asks gather
requested_wrapped = refl

requested-send_nack_example :
    (requested (send_nack true 1 lost) 3 ≡ member 3 lost)
    × (send_nack false 1 lost ≡ none)
    × (send_nack true 1 [] ≡ none)
requested-send_nack_example =
    requested-send_nack 1 lost 3 (omega arith)
      (omega arith, (omega arith, (omega arith, (omega arith, tt))))

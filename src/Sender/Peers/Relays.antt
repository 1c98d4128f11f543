-- ===== src/Sender/Peers/Relays.antt =====
-- The `done` channels of the relays: each is either still registered for its peer or closed, and
-- closed once.
use mistlink.Base.{
  ℕ, suc, ◌+◌, ◌≡◌, refl, ◌∙◌, sym, ap, Bool, true, List, [], ◌∷◌, ◌++◌, none, ◌==◌, if◌then◌else◌,
  ltb, arith, if_rule, ==→eq,
}
use mistlink.Base.Maps.{lookup, insert, erase, lookup-insert, lookup-erase}
use mistlink.Stream.Manager.Loop.{forward_obs_tracks_to_receiver_rule}
use mistlink.Stream.Manager.{
  StreamManager, PeerConnection, entries, register_close_handler, cleanup_resources,
  remove_peer_connection, remove_peer_connection_matching, forward_obs_tracks_to_receiver, mark,
  subscribe_to_track, is_peer, get_peer_connection,
}

-- How often a number stands in a list.
unfoldable pub count : ℕ → List ℕ → ℕ
count h [] = 0
count h (x ∷ xs) = (if x == h then 1 else 0) + count h xs

-- How often it stands in the lists of a map.
unfoldable pub total : ℕ → List (ℕ × List ℕ) → ℕ
total h [] = 0
total h ((k, xs) ∷ m) = count h xs + total h m

-- No key stands twice.
abbrev pub Apart : List (ℕ × List ℕ) → Type 0
Apart [] = Unit
Apart ((k, xs) ∷ m) = (lookup k m ≡ none) × Apart m

count-append : (h : ℕ) (xs ys : List ℕ) → count h (xs ++ ys) ≡ count h xs + count h ys
unfolding count
count-append h [] ys = omega arith
count-append h (x ∷ xs) ys = omega (arith, count-append h xs ys)

total-insert :
    (h k : ℕ) (xs : List ℕ) (m : List (ℕ × List ℕ))
    → total h (insert k xs m) + count h (entries k m) ≡ total h m + count h xs
unfolding total insert entries lookup count
total-insert h k xs [] = omega arith
total-insert h k xs ((j, ys) ∷ m) = ground (arith, total-insert h k xs m)

total-erase :
    (h k : ℕ) (m : List (ℕ × List ℕ))
    → Apart m
    → count h (entries k m) + total h (erase k m) ≡ total h m
unfolding total erase entries lookup count
total-erase h k [] a = refl
total-erase h k ((j, ys) ∷ m) a =
    let same : (j == k) ≡ true → lookup k m ≡ none =
      λ e. ap (λ i. lookup i m) (sym (==→eq j k e)) ∙ a.0 in
    ground (arith, same, total-erase h k m a.1)

Apart-insert : (k : ℕ) (xs : List ℕ) (m : List (ℕ × List ℕ)) → Apart m → Apart (insert k xs m)
unfolding insert lookup
Apart-insert k xs [] a = (refl, tt)
Apart-insert k xs ((j, ys) ∷ m) a = ground (arith, lookup-insert k j xs m, Apart-insert k xs m a.1)

Apart-erase : (k : ℕ) (m : List (ℕ × List ℕ)) → Apart m → Apart (erase k m)
unfolding erase
Apart-erase k [] a = tt
Apart-erase k ((j, ys) ∷ m) a = ground (arith, lookup-erase k j m, Apart-erase k m a.1)

-- The close handlers of a manager, the closed channels and the number of those made.
abbrev pub Balanced : List (ℕ × List ℕ) → List ℕ → ℕ → Type 0
Balanced handlers ended made =
    Apart handlers × ((h : ℕ) → count h ended + total h handlers ≡ (if ltb h made then 1 else 0))

pub forward_obs_tracks_to_receiver-close_handlers :
    (pc : PeerConnection) (m : StreamManager) (id : ℕ) (skip_offer : Bool)
    → (forward_obs_tracks_to_receiver pc m id skip_offer).0.close_handlers ≡ m.close_handlers
unfolding mark subscribe_to_track
forward_obs_tracks_to_receiver-close_handlers pc m id skip_offer =
    forward_obs_tracks_to_receiver_rule pc id
      (λ (n : StreamManager). n.close_handlers ≡ m.close_handlers) (λ n t local_track e. e) m
      skip_offer refl refl

pub remove_peer_connection-Balanced :
    (m : StreamManager) (id : ℕ) (ended : List ℕ) (made : ℕ)
    → Balanced m.close_handlers ended made
    → let (m', handlers) = remove_peer_connection m id in
      Balanced m'.close_handlers (handlers ++ ended) made
unfolding remove_peer_connection cleanup_resources
remove_peer_connection-Balanced m id ended made (a, b) = (
  Apart-erase id m.close_handlers a,
  λ h. omega (
    arith,
    count-append h (entries id m.close_handlers) ended,
    total-erase h id m.close_handlers a,
    b h,
  ),
)

pub remove_peer_connection_matching-Balanced :
    (m : StreamManager) (id pc : ℕ) (ended : List ℕ) (made : ℕ)
    → Balanced m.close_handlers ended made
    → let (m', handlers) = remove_peer_connection_matching m id pc in
      Balanced m'.close_handlers (handlers ++ ended) made
unfolding remove_peer_connection_matching
remove_peer_connection_matching-Balanced m id pc ended made v =
    if_rule (λ (r : StreamManager × List ℕ). Balanced r.0.close_handlers (r.1 ++ ended) made)
      (is_peer (get_peer_connection m id) pc) (remove_peer_connection-Balanced m id ended made v) v

pub register_close_handler-Balanced :
    (m : StreamManager) (id : ℕ) (ended : List ℕ) (made : ℕ)
    → Balanced m.close_handlers ended made
    → Balanced (register_close_handler m id made).close_handlers ended (suc made)
unfolding register_close_handler count
register_close_handler-Balanced m id ended made (a, b) = (
  Apart-insert id (entries id m.close_handlers ++ (made ∷ [])) m.close_handlers a,
  λ h. ground (
    arith,
    count-append h (entries id m.close_handlers) (made ∷ []),
    total-insert h id (entries id m.close_handlers ++ (made ∷ [])) m.close_handlers,
    b h,
  ),
)

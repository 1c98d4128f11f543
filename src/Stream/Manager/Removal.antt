-- ===== src/Stream/Manager/Removal.antt =====
-- What is left of a receiver when it is removed.
use mistlink.Base.{ℕ, ◌≡◌, refl, List, [], ◌∷◌, map, Option, none, ◌==◌, if◌then◌else◌, arith}
use mistlink.Base.Maps.{lookup, erase, lookup-erase}
use mistlink.Stream.Broadcaster.{TrackBroadcaster, remove_receiver}
use mistlink.Stream.Manager.{
  StreamManager, entries, cleanup_resources, remove_peer_connection, get_peer_connection,
}

-- The local track that a broadcaster has for a receiver.
abbrev pub local_of : ℕ → ℕ × TrackBroadcaster → Option ℕ
local_of id entry = lookup id entry.1.receivers

-- What the manager knows of a receiver, but for the broadcasters.
abbrev pub known : StreamManager → ℕ → Option ℕ × List ℕ × List ℕ
known m id =
    (get_peer_connection m id, entries id m.forwarded_receivers, entries id m.close_handlers)

entries-erase :
    (id j : ℕ) (m : List (ℕ × List ℕ))
    → entries j (erase id m) ≡ (if id == j then [] else entries j m)
unfolding entries
entries-erase id j m = ground (arith, lookup-erase id j m)

locals-removed :
    (id j : ℕ) (bs : List (ℕ × TrackBroadcaster))
    → map
        (local_of j)
        (map (λ (entry : ℕ × TrackBroadcaster). (entry.0, remove_receiver entry.1 id)) bs)
      ≡ map (λ (entry : ℕ × TrackBroadcaster). if id == j then none else local_of j entry) bs
unfolding remove_receiver
locals-removed id j [] = refl
locals-removed id j ((t, b) ∷ bs) = rw (lookup-erase id j b.receivers, locals-removed id j bs) refl

-- Removing a peer connection calls the close handlers registered for the id, in order, and leaves
-- no connection, forwarded track, handler or local track of it in any broadcaster; of every other
-- id it leaves all of these as they were.
pub remove_peer_connection-forgets :
    (m : StreamManager) (id j : ℕ)
    → ((remove_peer_connection m id).1 ≡ entries id m.close_handlers)
      × (known (remove_peer_connection m id).0 j ≡ (if id == j then (none, [], []) else known m j))
      × (map (local_of j) (remove_peer_connection m id).0.broadcasters
          ≡ map
              (λ (entry : ℕ × TrackBroadcaster). if id == j then none else local_of j entry)
              m.broadcasters)
unfolding remove_peer_connection cleanup_resources
remove_peer_connection-forgets m id j = (
  refl,
  rw
      (
        lookup-erase id j m.peer_connections,
        entries-erase id j m.forwarded_receivers,
        entries-erase id j m.close_handlers,
      )
      (ground arith),
  locals-removed id j m.broadcasters,
)

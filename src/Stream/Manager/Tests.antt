-- ===== src/Stream/Manager/Tests.antt =====
-- A client with two tracks and one receiver.
use mistlink.Base.{
  ℕ, ◌+◌, ◌≡◌, refl, true, false, ◌&&◌, ◌||◌, [], ◌∷◌, Option, none, some, ◌==◌, if◌then◌else◌,
  is_some,
}
use mistlink.Base.Maps.{lookup}
use mistlink.Base.Members.{member, Distinct}
use mistlink.Stream.Broadcaster.{TrackBroadcaster}
use mistlink.Stream.Manager.{
  StreamManager, PeerConnection, entries, to_add, forward_obs_tracks_to_receiver, add_obs_track,
}
use mistlink.Stream.Manager.Forwarding.{
  forwarded, forward_obs_tracks_to_receiver-once, add_obs_track-to_add_again,
}

-- A local track cannot be made for track 11.
abbrev attach : ℕ → Option ℕ
attach t = if t == 11 then none else some (t + 100)

abbrev peer : PeerConnection
peer = record {
  attach = attach;
  described = false;
  stable = true;
  still_stable = true;
  offers = true;
}

abbrev broadcaster : TrackBroadcaster
broadcaster = record {
  ssrc = 5;
  has_writer = true;
  receivers = (1, 110) ∷ (2, 210) ∷ [];
  sps = [];
  pps = [];
}

abbrev manager : StreamManager
manager = record {
  peer_connections = (1, 31) ∷ (2, 32) ∷ [];
  obs_tracks = 10 ∷ 11 ∷ 12 ∷ [];
  forwarded_receivers = (1, 10 ∷ []) ∷ [];
  broadcasters = (10, broadcaster) ∷ [];
  close_handlers = (1, 4 ∷ 5 ∷ []) ∷ [];
}

once_before : Distinct (forwarded manager 1)
unfolding entries lookup
once_before = (refl, tt)

forward_obs_tracks_to_receiver-once_example :
    Distinct (forwarded (forward_obs_tracks_to_receiver peer manager 1 false).0 1)
    × ((x : ℕ)
        → member x (forwarded (forward_obs_tracks_to_receiver peer manager 1 false).0 1) ≡ (
            member x (forwarded manager 1)
            || member x manager.obs_tracks && is_some (peer.attach x)))
forward_obs_tracks_to_receiver-once_example =
    forward_obs_tracks_to_receiver-once peer manager 1 false (refl, (refl, (refl, tt))) once_before

not_marked : member 13 (forwarded manager 1) ≡ false
unfolding entries lookup
not_marked = refl

add_obs_track-to_add_again_example :
    member 13 (
      to_add
        (forwarded (add_obs_track (λ pc. peer) manager 13 5 true) 1)
        (add_obs_track (λ pc. peer) manager 13 5 true).obs_tracks)
    ≡ true
add_obs_track-to_add_again_example =
    add_obs_track-to_add_again (λ pc. peer) manager 13 5 true 1 not_marked

-- ===== src/Stream/Manager.antt =====
-- internal/stream/stream_manager.go, peer_connection.go, forwarder.go, helpers.go and obs_track.go:
-- the peers of a client, its tracks, and which track is passed on to which peer.
pub mod Forwarding
pub mod Loop
pub mod Removal
mod Tests
use mistlink.Base.{
  ℕ, zero, suc, Bool, true, false, not, ◌&&◌, List, [], ◌∷◌, ◌++◌, map, Option, none, some, ◌==◌,
  if◌then◌else◌, is_empty, is_some, length,
}
use mistlink.Base.Maps.{lookup, insert, erase}
use mistlink.Base.Members.{member}
use mistlink.Stream.Broadcaster.{
  TrackBroadcaster, new_track_broadcaster, add_receiver, remove_receiver,
}

-- `StreamManager`: peers, tracks and peer connections are numbers, and a list of tracks has the order
-- in which Go's map is gone through. A close handler is a number.
pub record StreamManager : Type 0 where
  pub peer_connections : List (ℕ × ℕ)
  pub obs_tracks : List ℕ
  pub forwarded_receivers : List (ℕ × List ℕ)
  pub broadcasters : List (ℕ × TrackBroadcaster)
  pub close_handlers : List (ℕ × List ℕ)

unfoldable pub new_stream_manager : StreamManager
new_stream_manager = record {
  peer_connections = [];
  obs_tracks = [];
  forwarded_receivers = [];
  broadcasters = [];
  close_handlers = [];
}

-- `m[id]`, for a map of slices or of sets: nothing where there is no entry.
unfoldable pub entries : ℕ → List (ℕ × List ℕ) → List ℕ
entries id m = elim (lookup id m) [ none ↦ [] | some xs ↦ xs ]

unfoldable pub register_close_handler : StreamManager → ℕ → ℕ → StreamManager
register_close_handler m id handler = record m {
  close_handlers = insert id (entries id m.close_handlers ++ (handler ∷ [])) m.close_handlers;
}

unfoldable pub add_peer_connection : StreamManager → ℕ → ℕ → StreamManager
add_peer_connection m id pc = record m { peer_connections = insert id pc m.peer_connections }

abbrev pub get_peer_connection : StreamManager → ℕ → Option ℕ
get_peer_connection m id = lookup id m.peer_connections

abbrev pub get_all_receiver_ids : StreamManager → List ℕ
get_all_receiver_ids m = map (λ (entry : ℕ × ℕ). entry.0) m.peer_connections

-- The manager, and the handlers that are called.
unfoldable pub cleanup_resources : StreamManager → ℕ → StreamManager × List ℕ
cleanup_resources m id = (
  record m {
    forwarded_receivers = erase id m.forwarded_receivers;
    broadcasters =
        map (λ (entry : ℕ × TrackBroadcaster). (entry.0, remove_receiver entry.1 id))
          m.broadcasters;
    close_handlers = erase id m.close_handlers;
  },
  entries id m.close_handlers,
)

unfoldable pub remove_peer_connection : StreamManager → ℕ → StreamManager × List ℕ
remove_peer_connection m id =
    cleanup_resources (record m { peer_connections = erase id m.peer_connections }) id

unfoldable pub is_peer : Option ℕ → ℕ → Bool
is_peer none pc = false
is_peer (some other) pc = other == pc

unfoldable pub remove_peer_connection_matching : StreamManager → ℕ → ℕ → StreamManager × List ℕ
remove_peer_connection_matching m id pc =
    if is_peer (get_peer_connection m id) pc then remove_peer_connection m id else (m, [])

abbrev pub get_forward_receiver_count : StreamManager → ℕ
get_forward_receiver_count m = length m.forwarded_receivers

abbrev pub has_obs_tracks : StreamManager → Bool
has_obs_tracks m = not (is_empty m.obs_tracks)

unfoldable pub subscribe_to_track : StreamManager → ℕ → ℕ → ℕ → StreamManager
subscribe_to_track m track local_track id = record m {
  broadcasters = elim (lookup track m.broadcasters) [
    | none ↦ m.broadcasters
    | some b ↦ insert track (add_receiver b id local_track).0 m.broadcasters
  ];
}

-- What a peer connection answers: the local track that `NewTrackLocalStaticRTP` and `AddTrack` make
-- for a track, unless one of them fails; whether it has a local description; whether it is stable
-- before and after a track is added; and whether an offer can be sent.
pub record PeerConnection : Type 0 where
  pub attach : ℕ → Option ℕ
  pub described : Bool
  pub stable : Bool
  pub still_stable : Bool
  pub offers : Bool

unfoldable pub mark : StreamManager → ℕ → ℕ → StreamManager
mark m id track = record m {
  forwarded_receivers =
      insert id (entries id m.forwarded_receivers ++ (track ∷ [])) m.forwarded_receivers;
}

-- `tracksToAdd`
unfoldable pub to_add : List ℕ → List ℕ → List ℕ
to_add forwarded [] = []
to_add forwarded (track ∷ tracks) =
    let rest = to_add forwarded tracks in if member track forwarded then rest else track ∷ rest

-- The loop over `tracksToAdd`: the manager and the local tracks.
unfoldable pub forward_loop : PeerConnection → ℕ → StreamManager → List ℕ → StreamManager × List ℕ
forward_loop pc id m [] = (m, [])
forward_loop pc id m (track ∷ tracks) = elim (pc.attach track) [
  | none ↦ forward_loop pc id m tracks
  | some local_track ↦
      let (m', locals) =
        forward_loop pc id (mark (subscribe_to_track m track local_track id) id track) tracks in
      (m', local_track ∷ locals)
]

-- `ForwardOBSTracksToReceiver`: the manager, and whether an offer is made. Without tracks nothing is
-- entered, not even the receiver.
unfoldable pub forward_obs_tracks_to_receiver :
    PeerConnection → StreamManager → ℕ → Bool → StreamManager × Bool
forward_obs_tracks_to_receiver pc m id skip_offer =
    let forwarded : List ℕ = entries id m.forwarded_receivers in
    let m' : StreamManager = record m {
      forwarded_receivers = insert id forwarded m.forwarded_receivers;
    } in
    let (done, locals) : StreamManager × List ℕ =
      forward_loop pc id m' (to_add forwarded m.obs_tracks) in
    if is_empty m.obs_tracks
    then (m, false)
    else (done, not (is_empty locals) && not skip_offer && pc.stable)

unfoldable pub forward_track_to_receiver : PeerConnection → StreamManager → ℕ → ℕ → StreamManager
forward_track_to_receiver pc m track id = elim (pc.attach track) [
  | none ↦ m
  | some local_track ↦ if pc.described then m else subscribe_to_track m track local_track id
]

unfoldable pub forward_track_to_receiver_after_connection :
    PeerConnection → StreamManager → ℕ → ℕ → StreamManager
forward_track_to_receiver_after_connection pc m track id = elim (pc.attach track) [
  | none ↦ m
  | some local_track ↦
      if pc.stable && pc.still_stable && pc.offers
      then subscribe_to_track m track local_track id
      else m
]

-- The body of the loop of `AddOBSTrack`.
unfoldable pub offer_track : (ℕ → PeerConnection) → ℕ → StreamManager → ℕ → StreamManager
offer_track peer track m id = elim (get_peer_connection m id) [
  | none ↦ m
  | some pc ↦
      if (peer pc).described
      then (if (peer pc).stable
          then forward_track_to_receiver_after_connection (peer pc) m track id
          else m)
      else forward_track_to_receiver (peer pc) m track id
]

unfoldable pub offer_to : (ℕ → PeerConnection) → ℕ → StreamManager → List ℕ → StreamManager
offer_to peer track m [] = m
offer_to peer track m (id ∷ ids) = offer_to peer track (offer_track peer track m id) ids

-- `AddOBSTrack`, for a track of this SSRC.
unfoldable pub add_obs_track : (ℕ → PeerConnection) → StreamManager → ℕ → ℕ → Bool → StreamManager
add_obs_track peer m track ssrc has_writer =
    let m' : StreamManager = record m {
      broadcasters =
          if is_some (lookup track m.broadcasters)
          then m.broadcasters
          else insert track (new_track_broadcaster ssrc has_writer) m.broadcasters;
      obs_tracks = if member track m.obs_tracks then m.obs_tracks else m.obs_tracks ++ (track ∷ []);
    } in
    offer_to peer track m' (get_all_receiver_ids m')

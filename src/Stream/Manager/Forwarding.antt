-- ===== src/Stream/Manager/Forwarding.antt =====
-- Which tracks a receiver is sent: once each, except for those that `AddOBSTrack` sends.
use mistlink.Base.{
  ℕ, ◌≡◌, refl, ◌∙◌, ap, sym, Bool, true, false, not, ◌&&◌, ◌||◌, List, [], ◌∷◌, ◌++◌, ◌==◌,
  if◌then◌else◌, is_some, is_empty, arith, eq→==, ==→eq, if_split, Option-cases, inl, inr,
}
use mistlink.Base.Maps.{lookup, insert, lookup-insert}
use mistlink.Base.Members.{member, Distinct, member-append, Distinct-snoc}
use mistlink.Stream.Broadcaster.{new_track_broadcaster}
use mistlink.Stream.Manager.{
  StreamManager, PeerConnection, entries, mark, subscribe_to_track, to_add, forward_loop,
  forward_obs_tracks_to_receiver, forward_track_to_receiver,
  forward_track_to_receiver_after_connection, offer_track, offer_to, add_obs_track,
  get_all_receiver_ids,
}

abbrev pub forwarded : StreamManager → ℕ → List ℕ
forwarded m id = entries id m.forwarded_receivers

entries-insert : (id : ℕ) (xs : List ℕ) (m : List (ℕ × List ℕ)) → entries id (insert id xs m) ≡ xs
unfolding entries
entries-insert id xs m = rw (lookup-insert id id xs m, eq→== id id refl, entries) refl

member-to_add :
    (x : ℕ) (done tracks : List ℕ)
    → member x (to_add done tracks) ≡ (member x tracks && not (member x done))
unfolding to_add
member-to_add x done [] = refl
member-to_add x done (t ∷ ts) =
    let same : (t == x) ≡ true → member t done ≡ member x done =
      λ e. ap (λ y. member y done) (==→eq t x e) in
    ground (arith, same, member-to_add x done ts)

Distinct-to_add : (done tracks : List ℕ) → Distinct tracks → Distinct (to_add done tracks)
unfolding to_add
Distinct-to_add done [] d = tt
Distinct-to_add done (t ∷ ts) d =
    ground (arith, Distinct-to_add done ts d.1, member-to_add t done ts)

mark-forwarded :
    (m : StreamManager) (t local_track id : ℕ)
    → forwarded (mark (subscribe_to_track m t local_track id) id t) id ≡ forwarded m id ++ (t ∷ [])
unfolding mark subscribe_to_track
mark-forwarded m t local_track id =
    entries-insert id (forwarded m id ++ (t ∷ [])) m.forwarded_receivers

forward_loop-forwarded :
    (pc : PeerConnection) (id x : ℕ) (m : StreamManager) (tracks : List ℕ)
    → member x (forwarded (forward_loop pc id m tracks).0 id)
      ≡ (member x (forwarded m id) || member x tracks && is_some (pc.attach x))
unfolding forward_loop
forward_loop-forwarded pc id x m [] = ground arith
forward_loop-forwarded pc id x m (t ∷ ts) = elim (Option-cases (pc.attach t)) [
  | inl none_made ↦
      let same : (t == x) ≡ true → is_some (pc.attach x) ≡ false =
        λ e. ap (λ y. is_some (pc.attach y)) (sym (==→eq t x e)) ∙ ap is_some none_made in
      rw (none_made, forward_loop) (ground (arith, same, forward_loop-forwarded pc id x m ts))
  | inr (local_track, made) ↦
      let same : (t == x) ≡ true → is_some (pc.attach x) ≡ true =
        λ e. ap (λ y. is_some (pc.attach y)) (sym (==→eq t x e)) ∙ ap is_some made in
      let m' : StreamManager = mark (subscribe_to_track m t local_track id) id t in
      rw (made, forward_loop)
        (forward_loop-forwarded pc id x m' ts
          ∙ rw (mark-forwarded m t local_track id)
              (ground (arith, same, member-append x (forwarded m id) (t ∷ []))))
]

forward_loop-Distinct :
    (pc : PeerConnection) (id : ℕ) (m : StreamManager) (tracks : List ℕ)
    → Distinct tracks
    → ((x : ℕ) → member x tracks ≡ true → member x (forwarded m id) ≡ false)
    → Distinct (forwarded m id)
    → Distinct (forwarded (forward_loop pc id m tracks).0 id)
unfolding forward_loop
forward_loop-Distinct pc id m [] d apart h = h
forward_loop-Distinct pc id m (t ∷ ts) d apart h = elim (Option-cases (pc.attach t)) [
  | inl none_made ↦
      rw (none_made, forward_loop)
        (forward_loop-Distinct pc id m ts d.1 (λ x e. apart x (ground (arith, e))) h)
  | inr (local_track, made) ↦
      let m' : StreamManager = mark (subscribe_to_track m t local_track id) id t in
      let marked = mark-forwarded m t local_track id in
      let apart' : (x : ℕ) → member x ts ≡ true → member x (forwarded m' id) ≡ false =
        λ x e. ap (λ y. member x y) marked ∙ apart_marked x e in
      rw (made, forward_loop)
        (forward_loop-Distinct pc id m' ts d.1 apart' (
          rw marked
            (Distinct-snoc (forwarded m id) t h (apart t (ground (arith, eq→== t t refl))))))
]
  where
    apart_marked : (x : ℕ) → member x ts ≡ true → member x (forwarded m id ++ (t ∷ [])) ≡ false
    apart_marked x e =
        let other : (t == x) ≡ true → member t ts ≡ true =
          λ q. ap (λ y. member y ts) (==→eq t x q) ∙ e in
        let clear : member x (forwarded m id) ≡ false = apart x (ground (arith, e)) in
        ground (arith, member-append x (forwarded m id) (t ∷ []), other, clear, d.0)

is_empty-member : (x : ℕ) (xs : List ℕ) → is_empty xs ≡ true → member x xs ≡ false
is_empty-member x [] e = refl
is_empty-member x (y ∷ xs) e = ground arith

-- A call of `ForwardOBSTracksToReceiver`, when the tracks are distinct and none is entered twice
-- for the receiver: none is entered twice afterwards either, and the tracks entered are those
-- that were and every track of the client for which a local track can be made, so a failed one is
-- tried again.
pub forward_obs_tracks_to_receiver-once :
    (pc : PeerConnection) (m : StreamManager) (id : ℕ) (skip_offer : Bool)
    → Distinct m.obs_tracks
    → Distinct (forwarded m id)
    → Distinct (forwarded (forward_obs_tracks_to_receiver pc m id skip_offer).0 id)
      × ((x : ℕ)
          → member x (forwarded (forward_obs_tracks_to_receiver pc m id skip_offer).0 id)
            ≡ (member x (forwarded m id) || member x m.obs_tracks && is_some (pc.attach x)))
unfolding forward_obs_tracks_to_receiver
forward_obs_tracks_to_receiver-once pc m id skip_offer d h =
    if_split
      (λ (r : StreamManager × Bool).
        Distinct (forwarded r.0 id)
        × ((x : ℕ)
            → member x (forwarded r.0 id)
              ≡ (member x (forwarded m id) || member x m.obs_tracks && is_some (pc.attach x))))
      (is_empty m.obs_tracks) {x = (m, false)}
      {y = ((forward_loop pc id entered tracks).0, offering)}
      (λ empty. (h, λ x. ground (arith, is_empty-member x m.obs_tracks empty)))
      (λ _. (
        forward_loop-Distinct pc id entered tracks (Distinct-to_add (forwarded m id) m.obs_tracks d)
            (λ x e.
              ap (λ y. member x y) kept
              ∙ ground (arith, e, member-to_add x (forwarded m id) m.obs_tracks))
            (rw kept h),
        λ x.
            forward_loop-forwarded pc id x entered tracks
            ∙ rw kept (ground (arith, member-to_add x (forwarded m id) m.obs_tracks)),
      ))
  where
    entered : StreamManager
    entered = record m { forwarded_receivers = insert id (forwarded m id) m.forwarded_receivers }

    tracks : List ℕ
    tracks = to_add (forwarded m id) m.obs_tracks

    offering : Bool
    offering = not (is_empty (forward_loop pc id entered tracks).1) && not skip_offer && pc.stable

    kept : forwarded entered id ≡ forwarded m id
    kept = entries-insert id (forwarded m id) m.forwarded_receivers

offer_track-keeps :
    (peer : ℕ → PeerConnection) (track : ℕ) (m : StreamManager) (id : ℕ)
    → ((offer_track peer track m id).forwarded_receivers ≡ m.forwarded_receivers)
      × ((offer_track peer track m id).obs_tracks ≡ m.obs_tracks)
unfolding offer_track forward_track_to_receiver forward_track_to_receiver_after_connection
    subscribe_to_track
offer_track-keeps peer track m id = ground arith

offer_to-keeps :
    (peer : ℕ → PeerConnection) (track : ℕ) (m : StreamManager) (ids : List ℕ)
    → ((offer_to peer track m ids).forwarded_receivers ≡ m.forwarded_receivers)
      × ((offer_to peer track m ids).obs_tracks ≡ m.obs_tracks)
unfolding offer_to
offer_to-keeps peer track m [] = (refl, refl)
offer_to-keeps peer track m (id ∷ ids) =
    let (f, o) = offer_to-keeps peer track (offer_track peer track m id) ids in
    let (g, q) = offer_track-keeps peer track m id in (f ∙ g, o ∙ q)

-- `AddOBSTrack` does not mark the receivers that it passes its track to: a receiver for whom the
-- track was not marked has it among the tracks that the next `ForwardOBSTracksToReceiver` adds,
-- whether or not `AddOBSTrack` added it to the same peer connection.
pub add_obs_track-to_add_again :
    (peer : ℕ → PeerConnection) (m : StreamManager) (track ssrc : ℕ) (has_writer : Bool) (id : ℕ)
    → member track (forwarded m id) ≡ false
    → member track (
        to_add
          (forwarded (add_obs_track peer m track ssrc has_writer) id)
          (add_obs_track peer m track ssrc has_writer).obs_tracks)
      ≡ true
unfolding add_obs_track
add_obs_track-to_add_again peer m track ssrc has_writer id h =
    let m' : StreamManager = record m {
      broadcasters =
          if is_some (lookup track m.broadcasters)
          then m.broadcasters
          else insert track (new_track_broadcaster ssrc has_writer) m.broadcasters;
      obs_tracks = if member track m.obs_tracks then m.obs_tracks else m.obs_tracks ++ (track ∷ []);
    } in
    let (f, o) = offer_to-keeps peer track m' (get_all_receiver_ids m') in
    member-to_add track _ _
    ∙ rw (f, o)
        (ground (arith, h, member-append track m.obs_tracks (track ∷ []), eq→== track track refl))

-- ===== src/Sender/Relay/Order.antt =====
-- What reaches the tracks of a relay by value, and in which order.
use mistlink.Base.{
  ℕ, ◌≡◌, refl, sym, Bool, ◌&&◌, List, [], ◌∷◌, ◌++◌, Option, ◌==◌, if◌then◌else◌, ltb, length,
  arith, if_rule, Bool-cases, inl, inr, List-cases,
}
use mistlink.RtpUtils.{Packet, payload_type_h264, payload_type_opus}
use mistlink.Sender.Relay.{
  Relay, new_relay, relay_capacity, ignores, hear_packet, write_packet, take_packet, RelayEvent,
  heard, taken, relay_loop,
}
use mathlib.Core.Path.{subst}
use mathlib.Core.List.{append-nil, append_assoc}

-- The packets of one payload type.
unfoldable pub of_type : ℕ → List Packet → List Packet
of_type pt [] = []
of_type pt (p ∷ ps) = if p.payload_type == pt then p ∷ of_type pt ps else of_type pt ps

-- The packets that the listener is called with and does not ignore.
unfoldable pub wanted : Option (ℕ → Bool) → List RelayEvent → List Packet
wanted ignore [] = []
wanted ignore (heard p ∷ es) = if ignores ignore p then wanted ignore es else p ∷ wanted ignore es
wanted ignore (taken ∷ es) = wanted ignore es

-- The first list is the second without some of its packets.
pub data Without : List Packet → List Packet → Type 0 where
  nothing_left : Without [] []
  keep : (p : Packet) {xs ys : List Packet} → Without xs ys → Without (p ∷ xs) (p ∷ ys)
  lose : (p : Packet) {xs ys : List Packet} → Without xs ys → Without xs (p ∷ ys)

Without-trans : {xs ys zs : List Packet} → Without xs ys → Without ys zs → Without xs zs
Without-trans a nothing_left = a
Without-trans a (lose p b) = lose p (Without-trans a b)
Without-trans (keep _ a) (keep p b) = keep p (Without-trans a b)
Without-trans (lose _ a) (keep p b) = lose p (Without-trans a b)

Without-nothing : (xs : List Packet) → Without [] xs
Without-nothing [] = nothing_left
Without-nothing (x ∷ xs) = lose x (Without-nothing xs)

Without-same : (xs : List Packet) → Without xs xs
Without-same [] = nothing_left
Without-same (x ∷ xs) = keep x (Without-same xs)

Without-append :
    (xs : List Packet) {ys zs : List Packet} → Without ys zs → Without (xs ++ ys) (xs ++ zs)
Without-append [] a = a
Without-append (x ∷ xs) a = keep x (Without-append xs a)

of_type-insert :
    (pt : ℕ) (xs ys : List Packet) (p : Packet)
    → Without (of_type pt (xs ++ ys)) (of_type pt (xs ++ (p ∷ ys)))
unfolding of_type
of_type-insert pt [] ys p =
    if_rule (Without (of_type pt ys)) (p.payload_type == pt) (lose p (Without-same (of_type pt ys)))
      (Without-same (of_type pt ys))
of_type-insert pt (x ∷ xs) ys p =
    let rest = of_type-insert pt xs ys p in
    elim (Bool-cases (x.payload_type == pt)) [
      | inl hit ↦ rw (hit) (keep x rest)
      | inr miss ↦ rw (miss) rest
    ]

-- The tracks of a peer.
pub data Track : Type 0 where
  video_track audio_track : Track

abbrev pub written_to : Track → Relay → List Packet
written_to video_track r = r.video_written
written_to audio_track r = r.audio_written

written_to-pkt_chan :
    (t : Track) (r : Relay) (ps : List Packet)
    → written_to t (record r { pkt_chan = ps }) ≡ written_to t r
written_to-pkt_chan video_track r ps = refl
written_to-pkt_chan audio_track r ps = refl

abbrev pub type_of : Track → ℕ
type_of video_track = payload_type_h264
type_of audio_track = payload_type_opus

module _ (video audio : Bool) (ignore : Option (ℕ → Bool)) where
  -- What a relay may still write to a track.
  abbrev Within : Track → List Packet → Relay → List Packet → Type 0
  Within t out r ahead = Without out (written_to t r ++ of_type (type_of t) (r.pkt_chan ++ ahead))

  -- One packet more ahead.
  Within-insert :
      (t : Track) (out : List Packet) (r : Relay) (p : Packet) (ahead : List Packet)
      → Within t out r ahead
      → Within t out r (p ∷ ahead)
  Within-insert t out r p ahead w =
      Without-trans w
        (Without-append (written_to t r) (of_type-insert (type_of t) r.pkt_chan ahead p))

  hear_packet-Within :
      (t : Track) (out : List Packet) (r : Relay) (p : Packet) (ahead : List Packet)
      → Within t out (hear_packet ignore r p) ahead
      → Within t out r (if ignores ignore p then ahead else p ∷ ahead)
  unfolding hear_packet
  hear_packet-Within t out r p ahead w = elim (Bool-cases (ignores ignore p)) [
    | inl out_of_sight ↦ rw (out_of_sight) (rw (out_of_sight, hear_packet) at w)
    | inr in_sight ↦ elim (Bool-cases (ltb (length r.pkt_chan) relay_capacity)) [
      | inl room ↦ rw (in_sight) (
          subst (λ ps. Without out (written_to t r ++ of_type (type_of t) ps))
            (append_assoc r.pkt_chan (p ∷ []) ahead)
            (rw (in_sight, room, written_to-pkt_chan t r (r.pkt_chan ++ (p ∷ [])), hear_packet) at
              w))
      | inr full ↦
          rw (in_sight) (Within-insert t out r p ahead (rw (in_sight, full, hear_packet) at w))
    ]
  ]

  -- A packet at the head of those of a track's type was written, or not.
  head-written :
      (out done ahead : List Packet) (p : Packet)
      → Without out ((done ++ (p ∷ [])) ++ ahead)
      → Without out (done ++ (p ∷ ahead))
  head-written out done ahead p w = subst (Without out) (append_assoc done (p ∷ []) ahead) w

  head-lost :
      (out done ahead : List Packet) (p : Packet)
      → Without out (done ++ ahead)
      → Without out (done ++ (p ∷ ahead))
  head-lost out done ahead p w = Without-trans w (Without-append done (lose p (Without-same ahead)))

  abbrev there : Track → Bool
  there video_track = video
  there audio_track = audio

  write_packet-pkt_chan :
      (r : Relay) (p : Packet) → (write_packet video audio r p).pkt_chan ≡ r.pkt_chan
  unfolding write_packet
  write_packet-pkt_chan r p = ground arith

  write_packet-written_to :
      (t : Track) (r : Relay) (p : Packet)
      → written_to t (write_packet video audio r p) ≡ (
          if p.payload_type == type_of t && there t
          then written_to t r ++ (p ∷ [])
          else written_to t r)
  unfolding write_packet
  write_packet-written_to video_track r p = ground arith
  write_packet-written_to audio_track r p = ground arith

  write_packet-Within :
      (t : Track) (out : List Packet) (r : Relay) (p : Packet) (ahead : List Packet)
      → Within t out (write_packet video audio r p) ahead
      → Without out (written_to t r ++ of_type (type_of t) (p ∷ r.pkt_chan ++ ahead))
  unfolding of_type
  write_packet-Within t out r p ahead w =
      let after = of_type (type_of t) (r.pkt_chan ++ ahead) in
      let v : Without out (
          (if p.payload_type == type_of t && there t
            then written_to t r ++ (p ∷ [])
            else written_to t r)
          ++ after) =
        rw (write_packet-written_to t r p, write_packet-pkt_chan r p) at w in
      elim (Bool-cases (p.payload_type == type_of t)) [
        | inl hit ↦ elim (Bool-cases (there t)) [
          | inl present ↦
              rw (hit) (head-written out (written_to t r) after p (rw (hit, present) at v))
          | inr absent ↦ rw (hit) (head-lost out (written_to t r) after p (rw (hit, absent) at v))
        ]
        | inr miss ↦ rw (miss) (rw (miss) at v)
      ]

  take_packet-Within :
      (t : Track) (out : List Packet) (r : Relay) (ahead : List Packet)
      → Within t out (take_packet video audio r) ahead
      → Within t out r ahead
  unfolding take_packet
  take_packet-Within t out r ahead w = elim (List-cases r.pkt_chan) [
    | inl empty ↦ rw (empty, take_packet) at w
    | inr (p, rest, full) ↦
        let s = record r { pkt_chan = rest } in
        let v = write_packet-Within t out s p ahead (rw (full, take_packet) at w) in
        subst (λ ps. Without out (written_to t r ++ of_type (type_of t) (ps ++ ahead))) (sym full)
          (rw (written_to-pkt_chan t r rest) at v)
  ]

  relay_loop-Within :
      (t : Track) (r : Relay) (es : List RelayEvent)
      → Within t (written_to t (relay_loop ignore video audio r es)) r (wanted ignore es)
  unfolding relay_loop wanted
  relay_loop-Within t r [] =
      subst (λ ps. Without ps (written_to t r ++ of_type (type_of t) (r.pkt_chan ++ [])))
        (append-nil (written_to t r)) (Without-append (written_to t r) (Without-nothing _))
  relay_loop-Within t r (heard p ∷ es) =
      hear_packet-Within t _ r p (wanted ignore es)
        (relay_loop-Within t (hear_packet ignore r p) es)
  relay_loop-Within t r (taken ∷ es) =
      take_packet-Within t _ r (wanted ignore es)
        (relay_loop-Within t (take_packet video audio r) es)

-- From an empty relay: whatever packets its listener hears and whenever it takes one from its
-- channel, a track gets packets of its payload type only and of no source that is ignored, each
-- of them at most as often as it was heard, in the order in which they were heard.
pub relay_loop-Without :
    (video audio : Bool) (ignore : Option (ℕ → Bool)) (t : Track) (es : List RelayEvent)
    → Without
        (written_to t (relay_loop ignore video audio new_relay es))
        (of_type (type_of t) (wanted ignore es))
relay_loop-Without video audio ignore video_track es =
    relay_loop-Within video audio ignore video_track new_relay es
relay_loop-Without video audio ignore audio_track es =
    relay_loop-Within video audio ignore audio_track new_relay es

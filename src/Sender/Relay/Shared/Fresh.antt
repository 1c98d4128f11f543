-- ===== src/Sender/Relay/Shared/Fresh.antt =====
-- A relay whose packets each have an address of their own: it is the relay of packets by value, and
-- what reaches its tracks is ordered.
use mathlib.Core.List.{map-append}
use mistlink.Base.{
  ℕ, ◌≡◌, refl, sym, ◌∙◌, ap, if◌then◌else◌, Bool, false, List, [], ◌∷◌, map, Option, ltb, length,
  length-map, arith, Bool-cases, inl, inr, List-cases,
}
use mistlink.Base.Members.{member, member-append}
use mistlink.RtpUtils.{Packet}
use mistlink.Sender.Relay.{
  Relay, relay_capacity, ignores, hear_packet, write_packet, take_packet, relay_loop,
}
use mathlib.Core.Path.{subst}
use mistlink.Sender.Relay.Order.{
  of_type, wanted, Without, Track, video_track, audio_track, written_to, type_of,
  relay_loop-Without,
}
use mistlink.Sender.Relay.Shared.{
  SharedRelay, new_shared_relay, set_packet, hear_reference, write_reference, take_reference,
  SharedEvent, hears, reads, takes, shared_step, shared_loop, by_values, set_packet-same,
}

-- No packet is read into an address that was used before.
unfoldable pub Fresh : List ℕ → List SharedEvent → Type 0
Fresh used [] = Unit
Fresh used (hears a p ∷ es) = (member a used ≡ false) × Fresh (a ∷ used) es
Fresh used (reads a p ∷ es) = (member a used ≡ false) × Fresh (a ∷ used) es
Fresh used (takes ∷ es) = Fresh used es

-- The packets that the listener is called with and does not ignore.
unfoldable pub wanted_read : Option (ℕ → Bool) → List SharedEvent → List Packet
wanted_read ignore [] = []
wanted_read ignore (hears a p ∷ es) =
    if ignores ignore p then wanted_read ignore es else p ∷ wanted_read ignore es
wanted_read ignore (reads a p ∷ es) = wanted_read ignore es
wanted_read ignore (takes ∷ es) = wanted_read ignore es

wanted-by_values :
    (ignore : Option (ℕ → Bool)) (es : List SharedEvent)
    → wanted ignore (by_values es) ≡ wanted_read ignore es
unfolding wanted by_values wanted_read
wanted-by_values ignore [] = refl
wanted-by_values ignore (hears a p ∷ es) = ground (arith, wanted-by_values ignore es)
wanted-by_values ignore (reads a p ∷ es) = wanted-by_values ignore es
wanted-by_values ignore (takes ∷ es) = wanted-by_values ignore es

abbrev pub got : Track → SharedRelay → List Packet
got video_track r = r.video
got audio_track r = r.audio

-- What the tracks got, and what waits for them.
abbrev view : SharedRelay → Relay
view s = record { pkt_chan = map s.store s.chan; video_written = s.video; audio_written = s.audio }

map-set_packet :
    (a : ℕ) (p : Packet) (store : ℕ → Packet) (xs : List ℕ)
    → member a xs ≡ false
    → map (set_packet a p store) xs ≡ map store xs
unfolding set_packet
map-set_packet a p store [] h = refl
map-set_packet a p store (x ∷ xs) h = ground (arith, map-set_packet a p store xs)

module _ (ignore : Option (ℕ → Bool)) (video audio : Bool) where
  -- A packet that is read into an address that does not wait in the channel.
  hear_reference-view :
      (a : ℕ) (p : Packet) (s : SharedRelay)
      → member a s.chan ≡ false
      → view (hear_reference ignore a p s) ≡ hear_packet ignore (view s) p
  unfolding hear_reference hear_packet
  hear_reference-view a p s h =
      let kept = map-set_packet a p s.store s.chan h in
      let same = set_packet-same a p s.store in
      let len = length-map s.store s.chan in
      elim (Bool-cases (ignores ignore p)) [
        | inl out_of_sight ↦ rw (same, out_of_sight, kept) refl
        | inr in_sight ↦ elim (Bool-cases (ltb (length s.chan) relay_capacity)) [
          | inl room ↦
              rw
                (
                  same,
                  in_sight,
                  len,
                  room,
                  map-append (set_packet a p s.store) s.chan (a ∷ []),
                  kept,
                  same,
                )
                refl
          | inr full ↦ rw (same, in_sight, len, full, kept) refl
        ]
      ]

  write_reference-view :
      (r : SharedRelay) (p : Packet)
      → view (write_reference video audio r p) ≡ write_packet video audio (view r) p
  unfolding write_reference write_packet
  write_reference-view r p = ground arith

  take_reference-view :
      (s : SharedRelay) → view (take_reference video audio s) ≡ take_packet video audio (view s)
  unfolding take_reference take_packet
  take_reference-view s = elim (List-cases s.chan) [
    | inl empty ↦ rw (empty) refl
    | inr (a, rest, full) ↦ rw (full) (write_reference-view _ _)
  ]

  -- The addresses that were used have those that wait among them.
  abbrev Covers : List ℕ → List ℕ → Type 0
  Covers used chan = (x : ℕ) → member x used ≡ false → member x chan ≡ false

  hear_reference-Covers :
      (a : ℕ) (p : Packet) (s : SharedRelay) (used : List ℕ)
      → Covers used s.chan
      → Covers (a ∷ used) (hear_reference ignore a p s).chan
  unfolding hear_reference
  hear_reference-Covers a p s used c x h =
      ground (arith, c x (ground arith), member-append x s.chan (a ∷ []))

  write_reference-chan :
      (r : SharedRelay) (p : Packet) → (write_reference video audio r p).chan ≡ r.chan
  unfolding write_reference
  write_reference-chan r p = ground arith

  take_reference-Covers :
      (s : SharedRelay) (used : List ℕ)
      → Covers used s.chan
      → Covers used (take_reference video audio s).chan
  unfolding take_reference
  take_reference-Covers s used c x h = elim (List-cases s.chan) [
    | inl empty ↦ rw (empty) (rw (empty) at c x h)
    | inr (a, rest, full) ↦ rw (full) (
        rw (write_reference-chan (record s { chan = rest }) (s.store a))
          (ground (arith, rw (full) at c x h)))
  ]

  shared_loop-view :
      (es : List SharedEvent) (s : SharedRelay) (used : List ℕ)
      → Covers used s.chan
      → Fresh used es
      → view (shared_loop ignore video audio s es)
        ≡ relay_loop ignore video audio (view s) (by_values es)
  unfolding shared_loop shared_step relay_loop by_values Fresh
  shared_loop-view [] s used c f = refl
  shared_loop-view (hears a p ∷ es) s used c f =
      shared_loop-view es (hear_reference ignore a p s) (a ∷ used)
        (hear_reference-Covers a p s used c) f.1
      ∙ ap (λ r. relay_loop ignore video audio r (by_values es))
          (hear_reference-view a p s (c a f.0))
  shared_loop-view (reads a p ∷ es) s used c f =
      shared_loop-view es (record s { store = set_packet a p s.store }) (a ∷ used)
        (λ x h. c x (ground arith)) f.1
      ∙ ap
          (λ ps.
            relay_loop ignore video audio
              (record { pkt_chan = ps; video_written = s.video; audio_written = s.audio })
              (by_values es))
          (map-set_packet a p s.store s.chan (c a f.0))
  shared_loop-view (takes ∷ es) s used c f =
      shared_loop-view es (take_reference video audio s) used (take_reference-Covers s used c) f
      ∙ ap (λ r. relay_loop ignore video audio r (by_values es)) (take_reference-view s)

  got-view : (t : Track) (s : SharedRelay) → got t s ≡ written_to t (view s)
  got-view video_track s = refl
  got-view audio_track s = refl

  -- From an empty relay, when no packet is read into an address that was used before: whatever
  -- packets its listener is called with and whenever it takes one from its channel, a track gets
  -- packets of its payload type only and of no source that is ignored, each of them at most as
  -- often as the listener was called with it, in the order of these calls.
  pub shared_loop-Without :
      (t : Track) (es : List SharedEvent)
      → Fresh [] es
      → Without
          (got t (shared_loop ignore video audio new_shared_relay es))
          (of_type (type_of t) (wanted_read ignore es))
  shared_loop-Without t es f =
      let end = shared_loop ignore video audio new_shared_relay es in
      subst (λ ps. Without (got t end) (of_type (type_of t) ps)) (wanted-by_values ignore es)
        (subst (λ ps. Without ps (of_type (type_of t) (wanted ignore (by_values es))))
          (ap (written_to t) (sym (shared_loop-view es new_shared_relay [] (λ x _. refl) f))
            ∙ sym (got-view t end))
          (relay_loop-Without video audio ignore t (by_values es)))

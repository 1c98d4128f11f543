-- ===== src/Stream/Broadcaster/Running/Writes.antt =====
-- What one event writes to a local track.
use mathlib.Core.List.{map-append}
use mistlink.Base.{
  ℕ, ◌≡◌, refl, ◌∙◌, ap, Bool, true, false, List, [], ◌∷◌, ◌++◌, map, arith, ◌==◌, if◌then◌else◌,
  is_empty, Bool-cases, inl, inr,
}
use mistlink.RtpUtils.{Packet, payload_type_h264, payload_type_opus}
use mistlink.Receiver.Bridge.{Start}
use mistlink.Stream.Broadcaster.{
  TrackBroadcaster, add_receiver, round, write_unless_empty, extract_sps_pps,
}
use mistlink.Stream.Broadcaster.Running.Receivers.{entries}
use mistlink.Stream.Broadcaster.Running.{
  Running, Written, as_unit, unit, rtp, joins, reads, read_round, step,
}

-- What is written to one local track.
unfoldable pub written_to : ℕ → List (ℕ × Written) → List Written
written_to t [] = []
written_to t ((track, w) ∷ ws) = if track == t then w ∷ written_to t ws else written_to t ws

-- The packet as the broadcaster passes it on.
unfoldable pub passed : Bool → Packet → Packet
passed video pkt = record pkt {
  payload_type = if video then payload_type_h264 else payload_type_opus;
}

pub written_to-append :
    (t : ℕ) (xs ys : List (ℕ × Written))
    → written_to t (xs ++ ys) ≡ written_to t xs ++ written_to t ys
unfolding written_to
written_to-append t [] ys = refl
written_to-append t ((track, w) ∷ xs) ys = ground (arith, written_to-append t xs ys)

-- A packet to every receiver.
written_to-all :
    (t : ℕ) (w : Written) (m : List (ℕ × ℕ))
    → written_to t (map (λ x. (x, w)) (map (λ (e : ℕ × ℕ). e.1) m)) ≡ map (λ _. w) (entries t m)
unfolding written_to entries
written_to-all t w [] = refl
written_to-all t w ((id, track) ∷ m) = ground (arith, written_to-all t w m)

written_to-units :
    (t local_track : ℕ) (u : List ℕ)
    → written_to t (map as_unit (write_unless_empty local_track u))
      ≡ (if local_track == t then map unit (if is_empty u then [] else u ∷ []) else [])
unfolding written_to
written_to-units t local_track [] = ground arith
written_to-units t local_track (x ∷ u) = ground arith

extract_sps_pps-receivers :
    (b : TrackBroadcaster) (payload : List ℕ) → (extract_sps_pps b payload).receivers ≡ b.receivers
unfolding extract_sps_pps
extract_sps_pps-receivers b [] = refl
extract_sps_pps-receivers b (first ∷ rest) = ground arith

if-append :
    {A : Type 0} (b : Bool) (xs ys : List A)
    → (if b then xs else []) ++ (if b then ys else []) ≡ (if b then xs ++ ys else [])
if-append true xs ys = refl
if-append false xs ys = refl

seen-receivers :
    (video : Bool) (b : TrackBroadcaster) (payload : List ℕ)
    → (if video then extract_sps_pps b payload else b).receivers ≡ b.receivers
seen-receivers true b payload = extract_sps_pps-receivers b payload
seen-receivers false b payload = refl

-- What is cached for a receiver that joins.
abbrev pub cached : List ℕ → List ℕ → List Written
cached sps pps =
    map unit (if is_empty sps then [] else sps ∷ [])
    ++ map unit (if is_empty pps then [] else pps ∷ [])

abbrev pub receivers_of : {C : Type 0} → Running C → List (ℕ × ℕ)
receivers_of s = s.loop.broadcaster.receivers

module _ {C : Type 0} (ctx : C) (start : Start C) where
  pub joins-written_to :
      (s : Running C) (id t local_track : ℕ)
      → written_to t (step ctx start s (joins id local_track)).1
        ≡ (if local_track == t then cached s.loop.broadcaster.sps s.loop.broadcaster.pps else [])
  unfolding step add_receiver
  joins-written_to s id t local_track =
      let sps = write_unless_empty local_track s.loop.broadcaster.sps in
      let pps = write_unless_empty local_track s.loop.broadcaster.pps in
      ap (written_to t) (map-append as_unit sps pps)
      ∙ written_to-append t (map as_unit sps) (map as_unit pps)
      ∙ rw
          (
            written_to-units t local_track s.loop.broadcaster.sps,
            written_to-units t local_track s.loop.broadcaster.pps,
          )
          (if-append (local_track == t) _ _)

  pub round-receivers_of :
      (s : Running C) (pkt : Packet) (now : ℕ)
      → receivers_of (read_round ctx start s pkt now).0 ≡ receivers_of s
  unfolding read_round round
  round-receivers_of s pkt now =
      ground (arith, extract_sps_pps-receivers s.loop.broadcaster pkt.payload)

  pub reads-written_to :
      (s : Running C) (t : ℕ) (pkt : Packet) (now : ℕ)
      → written_to t (step ctx start s (reads pkt now)).1 ≡ (
          if s.running
          then map (λ _. rtp (passed s.video pkt)) (entries t (receivers_of s))
          else [])
  unfolding step read_round round passed written_to
  reads-written_to s t pkt now = elim (Bool-cases s.running) [
    | inl on ↦
        rw (on, read_round)
          (written_to-all t (rtp (passed s.video pkt))
              (if s.video
                then extract_sps_pps s.loop.broadcaster pkt.payload
                else s.loop.broadcaster).receivers
            ∙ ap (λ m. map (λ _. rtp (passed s.video pkt)) (entries t m))
                (seen-receivers s.video s.loop.broadcaster pkt.payload))
    | inr off ↦ rw (off, read_round) refl
  ]

-- ===== src/Receiver/RtspBuffer/Rewrite.antt =====
-- The numbering of what leaves the buffer.
use mistlink.Base.{
  ℕ, ◌≤◌, ◌≡◌, refl, false, List, [], ◌∷◌, ◌++◌, Option, none, some, arith, ◌==◌, if◌then◌else◌,
  ◌⊎◌, inl, inr, Option-cases,
}
use mistlink.Base.Words.{add16, sub32}
use mistlink.RtpUtils.{
  Packet, payload_type_opus, payload_type_h264, video_ssrc, audio_ssrc, max_timestamp_delta,
}
use mistlink.Receiver.RtspBuffer.{Rewriter, value, rewrite}

-- The two payload types that are flushed.
abbrev pub IsMedia : ℕ → Type 0
IsMedia pt = (pt ≡ payload_type_h264) ⊎ (pt ≡ payload_type_opus)

abbrev pub lane_ssrc : ℕ → ℕ
lane_ssrc pt = if pt == payload_type_opus then audio_ssrc else video_ssrc

-- The number and the time of a packet that left, if one did.
abbrev pub Mark : Type 0
Mark = Option (ℕ × ℕ)

abbrev pub mark : Packet → Mark
mark p = some (p.sequence_number, p.timestamp)

-- A packet follows the one before it: the next number, at most `MaxTimestampDelta` later.
abbrev pub Follows : Mark → Packet → Type 0
Follows none p = Unit
Follows (some (seq, ts)) p =
    (p.sequence_number ≡ add16 seq 1) × (sub32 p.timestamp ts ≤ max_timestamp_delta)

-- Packets that follow one another, all from the source `ssrc`.
abbrev pub Stream : ℕ → Mark → List Packet → Type 0
Stream ssrc m [] = Unit
Stream ssrc m (p ∷ ps) = (p.ssrc ≡ ssrc) × Follows m p × Stream ssrc (mark p) ps

abbrev pub newest : Mark → List Packet → Mark
newest m [] = m
newest m (p ∷ ps) = newest (mark p) ps

pub Stream-append :
    (ssrc : ℕ) (m : Mark) (ps qs : List Packet)
    → Stream ssrc m ps
    → Stream ssrc (newest m ps) qs
    → Stream ssrc m (ps ++ qs)
Stream-append ssrc m [] qs h k = k
Stream-append ssrc m (p ∷ ps) qs h k = (h.0, h.1, Stream-append ssrc (mark p) ps qs h.2 k)

pub newest-append : (m : Mark) (ps qs : List Packet) → newest m (ps ++ qs) ≡ newest (newest m ps) qs
newest-append m [] qs = refl
newest-append m (p ∷ ps) qs = newest-append (mark p) ps qs

-- The mark that a rewriter holds for a payload type.
unfoldable pub last_mark : Rewriter → ℕ → Mark
last_mark r pt = elim (r.last_output_timestamp pt) [
  | none ↦ none
  | some ts ↦ some (value (r.outgoing_seq pt), ts)
]

pub rewrite-ssrc :
    (r : Rewriter) (pt : ℕ) (p : Packet) → IsMedia pt → (rewrite r pt p).1.ssrc ≡ lane_ssrc pt
unfolding rewrite
rewrite-ssrc r pt p m = ground arith

pub rewrite-Follows :
    (r : Rewriter) (pt : ℕ) (p : Packet) → Follows (last_mark r pt) (rewrite r pt p).1
unfolding rewrite last_mark
rewrite-Follows r pt p = elim (Option-cases (r.last_output_timestamp pt)) [
  | inl e ↦ rw (e, last_mark) tt
  | inr (ts, e) ↦ rw (e, last_mark, rewrite) (ground arith, ground arith)
]

pub last_mark-rewrite :
    (r : Rewriter) (pt : ℕ) (p : Packet)
    → let (r', p') = rewrite r pt p in last_mark r' pt ≡ mark p'
unfolding rewrite last_mark
last_mark-rewrite r pt p = ground arith

-- The other payload type is not touched.
pub last_mark-rewrite_ne :
    (r : Rewriter) (pt other : ℕ) (p : Packet)
    → (pt == other) ≡ false
    → last_mark (rewrite r pt p).0 other ≡ last_mark r other
unfolding rewrite last_mark
last_mark-rewrite_ne r pt other p h = ground arith

pub payload-rewrite : (r : Rewriter) (pt : ℕ) (p : Packet) → (rewrite r pt p).1.payload ≡ p.payload
unfolding rewrite
payload-rewrite r pt p = ground arith

-- ===== src/Rtsp/Aac/Laws.antt =====
-- The AU header and the clock of the AAC packets.
use mistlink.Base.{
  ℕ, ◌+◌, ◌*◌, ◌/◌, ◌%◌, ◌<◌, ◌≡◌, refl, Bool, true, List, [], ◌∷◌, Option, none, some,
  if◌then◌else◌, length, is_empty, arith, Bool-cases, inl, inr,
}
use mistlink.Base.Words.{add32}
use mistlink.Base.Bits.{bit_and_low5}
use mistlink.RtpUtils.{Packet, payload_type_aac}
use mistlink.Rtsp.Aac.{
  Transcode, AacProcessor, aac_payload, start_clock, new_aac_processor, process, process_all,
  convert,
}

-- RFC 3640, 3.2.1 with the sizes that the session declares (13, 3 and 3 bits): the size and the index
-- of the one access unit, and its bytes.
abbrev pub read_payload : List ℕ → Option (ℕ × ℕ × ℕ × List ℕ)
read_payload (l1 ∷ l0 ∷ h1 ∷ h0 ∷ unit) =
    let header = h1 * 256 + h0 in some (l1 * 256 + l0, header / 8, header % 8, unit)
read_payload bytes = none

-- A reader of the payload finds one header of 16 bits, the unit's size, index 0 and its bytes,
-- for every unit of less than 8192 bytes.
read_payload-aac_payload :
    (unit : List ℕ)
    → length unit < 8192
    → read_payload (aac_payload unit) ≡ some (16, length unit, 0, unit)
unfolding aac_payload
read_payload-aac_payload unit h = ground (arith, bit_and_low5 (length unit))

-- Every packet that is sent, in a row: the clock starts at `ts` and gains 1024 for each.
abbrev pub Ticks : ℕ → List (Option Packet) → Type 0
Ticks ts [] = Unit
Ticks ts (none ∷ outs) = Ticks ts outs
Ticks ts (some pkt ∷ outs) =
    (pkt.timestamp ≡ ts) × (pkt.payload_type ≡ payload_type_aac) × Ticks (add32 ts 1024) outs

-- Where the clock of a processor stands when a packet of time `ts` comes in.
abbrev pub clock_at : {C : Type 0} → AacProcessor C → ℕ → ℕ
clock_at p ts = if p.ts_init then p.next_ts else ts

-- What one call does to the clock `now`, and what it sends.
abbrev Ticked : {C : Type 0} → ℕ → AacProcessor C × Option Packet → Type 0
Ticked now (p, none) = (p.ts_init ≡ true) × (p.next_ts ≡ now)
Ticked now (p, some pkt) =
    (p.ts_init ≡ true)
    × (p.next_ts ≡ add32 now 1024)
    × (pkt.timestamp ≡ now)
    × (pkt.payload_type ≡ payload_type_aac)

if_true {ℓ} : {A : Type ℓ} {b : Bool} (x y : A) → b ≡ true → (if b then x else y) ≡ x
if_true x y h = rw h

module _ {C : Type 0} (transcode : Transcode C) where
  process-Ticked :
      (p : AacProcessor C) (pkt : Packet)
      → Ticked (clock_at p pkt.timestamp) (process transcode p pkt)
  unfolding process
  process-Ticked p pkt =
      elim (Bool-cases
        (is_empty (convert transcode (start_clock p pkt.timestamp).converter pkt.payload).1)) [
          | inl e ↦ rw (e, process) (ground arith, ground arith)
          | inr e ↦ rw (e, process) (ground arith, ground arith, ground arith, refl)
        ]

  Ticks-cons :
      (now : ℕ) (p : AacProcessor C) (out : Option Packet) (outs : List (Option Packet))
      → Ticked now (p, out)
      → Ticks p.next_ts outs
      → Ticks now (out ∷ outs)
  Ticks-cons now p none outs t rest = rw t.1 at rest
  Ticks-cons now p (some pkt) outs t rest = (t.2, t.3, rw t.1 at rest)

  Ticked-init : (now : ℕ) (r : AacProcessor C × Option Packet) → Ticked now r → r.0.ts_init ≡ true
  Ticked-init now (p, none) t = t.0
  Ticked-init now (p, some pkt) t = t.0

  started-Ticks :
      (p : AacProcessor C) (pkts : List Packet)
      → p.ts_init ≡ true
      → Ticks p.next_ts (process_all transcode p pkts).1
  unfolding process_all
  started-Ticks p [] h = tt
  started-Ticks p (pkt ∷ pkts) h =
      let (p', out) = process transcode p pkt in
      let t : Ticked p.next_ts (process transcode p pkt) =
        rw (if_true p.next_ts pkt.timestamp h) at (process-Ticked p pkt) in
      Ticks-cons p.next_ts p' out _ t (started-Ticks p' pkts (Ticked-init p.next_ts (p', out) t))

  -- From a new processor, the AAC packets sent of any packets in a row carry the AAC payload
  -- type, and their times start at the first packet's time and rise by 1024, round at 2 ^ 32,
  -- whatever the input packets' own times are and whichever of them yield no data.
  pub process_all-Ticks :
      (ctx : C) (pkt : Packet) (pkts : List Packet)
      → Ticks pkt.timestamp (process_all transcode (new_aac_processor ctx) (pkt ∷ pkts)).1
  unfolding process_all new_aac_processor
  process_all-Ticks ctx pkt pkts =
      let new = new_aac_processor ctx in
      let (p', out) = process transcode new pkt in
      let t = process-Ticked new pkt in
      Ticks-cons pkt.timestamp p' out _ t
        (started-Ticks p' pkts (Ticked-init pkt.timestamp (p', out) t))

  pub process-type :
      (p : AacProcessor C) (pkt pkt' : Packet)
      → (process transcode p pkt).1 ≡ some pkt'
      → pkt'.payload_type ≡ payload_type_aac
  unfolding process
  process-type p pkt pkt' e = ground arith

-- ===== src/Rtsp/Aac.antt =====
-- internal/rtsp/aac_processor.go and internal/rtp_utils/opus_to_aac.go: Opus packets turned into AAC
-- ones. The transcoder is a parameter: internal/rtp_utils/converter.c over libopus and fdk-aac.
pub mod Laws
mod Tests
use Prim.Native.Nat.{bit_and}
use mistlink.Base.{
  ℕ, zero, suc, ◌+◌, ◌*◌, ◌/◌, ◌%◌, ◌^◌, Bool, true, false, List, [], ◌∷◌, Option, none, some,
  if◌then◌else◌, length, is_empty,
}
use mistlink.Base.Words.{add32}
use mistlink.RtpUtils.{Packet, payload_type_aac}

-- The size of the converter's buffer.
abbrev pub out_max : ℕ
out_max = 4096

-- `transcode_frame(ctx, in, in_len, out, out_max)`: the bytes of `out` up to the returned length,
-- none for a length of 0 or below.
abbrev pub Transcode : Type 0 → Type 0
Transcode C = C → List ℕ → ℕ → C × List ℕ

-- The conversion never fails in Go; a negative result counts as no data.
unfoldable pub convert : {C : Type 0} → Transcode C → C → List ℕ → C × List ℕ
convert transcode ctx [] = (ctx, [])
convert transcode ctx (b ∷ bs) = transcode ctx (b ∷ bs) out_max

pub record AacProcessor (C : Type 0) : Type 0 where
  pub converter : C
  pub next_ts : ℕ
  pub ts_init : Bool

unfoldable pub new_aac_processor : {C : Type 0} → C → AacProcessor C
new_aac_processor ctx = record { converter = ctx; next_ts = 0; ts_init = false }

-- `byte(n)`
abbrev pub byte : ℕ → ℕ
byte n = n % 2 ^ 8

-- The AU header section of RFC 3640: 16 bits of headers, and one header of size and index.
unfoldable pub aac_payload : List ℕ → List ℕ
aac_payload aac =
    let len = length aac in 0x00 ∷ 0x10 ∷ byte (len / 2 ^ 5) ∷ byte (bit_and len 0x1F * 2 ^ 3) ∷ aac

-- The processor after the first packet has set the clock.
start_clock : {C : Type 0} → AacProcessor C → ℕ → AacProcessor C
start_clock p ts = if p.ts_init then p else record p { next_ts = ts; ts_init = true }

-- `Process`: the packet as it is changed, or nothing where it is not to be sent.
unfoldable pub process :
    {C : Type 0} → Transcode C → AacProcessor C → Packet → AacProcessor C × Option Packet
unfolding start_clock
process transcode p pkt =
    let p' = start_clock p pkt.timestamp in
    let (ctx, aac) = convert transcode p'.converter pkt.payload in
    if is_empty aac then (record p' { converter = ctx }, none) else (
      record p' { converter = ctx; next_ts = add32 p'.next_ts 1024 },
      some (record pkt {
        payload = aac_payload aac;
        payload_type = payload_type_aac;
        timestamp = p'.next_ts;
      }),
    )

-- Packets in a row, with what is sent of each.
unfoldable pub process_all :
    {C : Type 0}
    → Transcode C
    → AacProcessor C
    → List Packet
    → AacProcessor C × List (Option Packet)
process_all transcode p [] = (p, [])
process_all transcode p (pkt ∷ pkts) =
    let (p', out) = process transcode p pkt in
    let (p'', outs) = process_all transcode p' pkts in (p'', out ∷ outs)

-- ===== src/Receiver/Nack.antt =====
-- internal/receiver/rtp_handler.go, SendNACK: the list of missing packets as NACK pairs.
pub mod Decode
mod Tests
use Prim.Native.Nat.{bit_or}
use mistlink.Base.{
  ℕ, zero, suc, ◌*◌, ◌%◌, ◌^◌, Bool, true, false, List, [], ◌∷◌, Option, none, some, leb, length,
  if◌then◌else◌,
}
use mistlink.Base.Words.{sub16, u16_mod}

abbrev pub nack_bitmap_size : ℕ
nack_bitmap_size = 16

-- `rtcp.NackPair`: a packet, and a bitmap of the 16 that follow it.
pub record NackPair : Type 0 where
  pub packet_id : ℕ
  pub lost_packets : ℕ

-- `rtcp.TransportLayerNack`
pub record TransportLayerNack : Type 0 where
  pub media_ssrc : ℕ
  pub nacks : List NackPair

-- `a << n` on uint16
abbrev pub shl16 : ℕ → ℕ → ℕ
shl16 a n = a * 2 ^ n % u16_mod

-- The inner loop, over `missing[j:]`: the bitmap, and what is left of the list.
unfoldable pub gather : ℕ → ℕ → List ℕ → ℕ × List ℕ
gather base bitmap [] = (bitmap, [])
gather base bitmap (seq ∷ rest) =
    let diff = sub16 seq base in
    let more = gather base (bit_or bitmap (shl16 1 (sub16 diff 1))) rest in
    if leb diff nack_bitmap_size then more else (bitmap, seq ∷ rest)

-- The outer loop, over `missing[i:]`, on fuel: each round takes one number at least.
unfoldable pub pack : ℕ → List ℕ → List NackPair
pack zero missing = []
pack (suc fuel) [] = []
pack (suc fuel) (base ∷ rest) =
    let (bitmap, left) = gather base 0 rest in
    record { packet_id = base; lost_packets = bitmap } ∷ pack fuel left

-- What is handed to `rtcpWriter`, if anything; `has_writer` is `rtcpWriter != nil`.
unfoldable pub send_nack : Bool → ℕ → List ℕ → Option TransportLayerNack
send_nack false ssrc missing = none
send_nack true ssrc [] = none
send_nack true ssrc (seq ∷ rest) =
    some (record { media_ssrc = ssrc; nacks = pack (length (seq ∷ rest)) (seq ∷ rest) })

-- ===== src/RtpUtils.antt =====
-- internal/rtp_utils/nal.go: payload types, NAL unit types and their masks, and the part of
-- pion's rtp.Packet that the program reads and writes.
use Prim.Native.Nat.{bit_and}
use Prim.Native.String.{String}
use mistlink.Base.{ℕ, List, [], ◌∷◌, ◌==◌, if◌then◌else◌}

-- The header fields and the payload of an `rtp.Packet`.
pub record Packet : Type 0 where
  pub ssrc : ℕ
  pub payload_type : ℕ
  pub sequence_number : ℕ
  pub timestamp : ℕ
  pub marker : ℕ
  pub payload : List ℕ

abbrev pub payload_type_h264 : ℕ
payload_type_h264 = 96

abbrev pub payload_type_opus : ℕ
payload_type_opus = 111

abbrev pub payload_type_aac : ℕ
payload_type_aac = 112

abbrev pub video_ssrc : ℕ
video_ssrc = 0x12345678

abbrev pub audio_ssrc : ℕ
audio_ssrc = 0x87654321

abbrev pub max_timestamp_delta : ℕ
max_timestamp_delta = 90000

abbrev pub log_interval_packets : ℕ
log_interval_packets = 100

abbrev pub dummy_timestamp_increment : ℕ
dummy_timestamp_increment = 9000

abbrev pub nal_type_non_idr : ℕ
nal_type_non_idr = 1

abbrev pub nal_type_idr : ℕ
nal_type_idr = 5

abbrev pub nal_type_sei : ℕ
nal_type_sei = 6

abbrev pub nal_type_sps : ℕ
nal_type_sps = 7

abbrev pub nal_type_pps : ℕ
nal_type_pps = 8

abbrev pub nal_type_stap_a : ℕ
nal_type_stap_a = 24

abbrev pub nal_type_fu_a : ℕ
nal_type_fu_a = 28

abbrev pub nal_mask : ℕ
nal_mask = 0x1F

abbrev pub fu_start_mask : ℕ
fu_start_mask = 0x80

-- `payload[0] & NALMask`, and 0 for no payload
unfoldable pub get_nal_type : List ℕ → ℕ
get_nal_type [] = 0
get_nal_type (b ∷ bs) = bit_and b nal_mask

-- The name of a type for the log; `unknown` formats the number of any other.
unfoldable pub get_nal_type_name : (ℕ → String) → ℕ → String
get_nal_type_name unknown nal_type =
    if nal_type == nal_type_non_idr
    then "Non-IDR"
    else if nal_type == nal_type_idr
    then "IDR"
    else if nal_type == nal_type_sei
    then "SEI"
    else if nal_type == nal_type_sps
    then "SPS"
    else if nal_type == nal_type_pps
    then "PPS"
    else if nal_type == nal_type_stap_a
    then "STAP-A"
    else if nal_type == nal_type_fu_a
    then "FU-A"
    else unknown nal_type

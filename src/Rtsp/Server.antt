-- ===== src/Rtsp/Server.antt =====
-- internal/rtsp/server.go: the server's state and its handlers. The library's stream is the list of
-- what was written to it; whether it takes a packet is a parameter.
pub mod Writing
pub mod Laws
pub mod Offer
mod Tests
use mistlink.Base.{
  ℕ, zero, suc, ◌+◌, ◌-◌, ◌%◌, Bool, true, false, ◌&&◌, not, List, [], ◌∷◌, ◌++◌, Option, none,
  some, ltb, ◌==◌, if◌then◌else◌, is_some, is_empty,
}
use mistlink.Base.Words.{add16, add32}
use mistlink.RtpUtils.{
  Packet, payload_type_h264, payload_type_opus, video_ssrc, dummy_timestamp_increment,
}
use mistlink.Rtsp.Aac.{Transcode, AacProcessor, new_aac_processor, process}

-- `config.AudioCodecAAC`, and any other value
pub data AudioCodec : Type 0 where
  aac opus : AudioCodec

pub data Media : Type 0 where
  video audio : Media

-- The audio format of the session: its payload type.
pub data AudioFormat : Type 0 where
  mpeg4_audio opus_audio : AudioFormat

-- `format.H264`: the parameter sets that the session offers.
pub record H264 : Type 0 where
  pub sps : List ℕ
  pub pps : List ℕ

-- The open stream: its formats, what was written to it, and whether it is closed.
pub record ServerStream : Type 0 where
  pub h264_format : H264
  pub audio_format : AudioFormat
  pub written : List (Media × Packet)
  pub stream_closed : Bool

pub record Server (C : Type 0) : Type 0 where
  pub stream : Option ServerStream
  pub has_real_data : Bool
  pub audio_codec : AudioCodec
  pub aac_processor : Option (AacProcessor C)
  pub active_client_count : ℕ
  -- `closeChan`, the processor's and the library server's `Close`
  pub close_chan_closed : Bool
  pub processor_closed : ℕ
  pub srv_closed : Bool

abbrev pub dummy_sps : List ℕ
dummy_sps = 0x67 ∷ 0x42 ∷ 0x00 ∷ 0x0a ∷ 0xf8 ∷ 0x41 ∷ 0xa2 ∷ []

abbrev pub dummy_pps : List ℕ
dummy_pps = 0x68 ∷ 0xce ∷ 0x3c ∷ 0x80 ∷ []

abbrev pub dummy_nalu : List ℕ
dummy_nalu = 0x0c ∷ 0xff ∷ 0xff ∷ 0xff ∷ []

-- `initAudioFormat`; `ctx` is what `init_transcoder` returns, which reports no error.
audio_format_for :
    {C : Type 0} → C → Server C → AudioCodec → Option (AacProcessor C) → Server C × AudioFormat
audio_format_for ctx s opus processor = (s, opus_audio)
audio_format_for ctx s aac (some p) = (s, mpeg4_audio)
audio_format_for ctx s aac none =
    (record s { aac_processor = some (new_aac_processor ctx) }, mpeg4_audio)

abbrev init_audio_format : {C : Type 0} → C → Server C → Server C × AudioFormat
init_audio_format ctx s = audio_format_for ctx s s.audio_codec s.aac_processor

-- A stream that is open only gets the parameter sets.
open_stream : {C : Type 0} → C → Server C → List ℕ → List ℕ → Option ServerStream → Server C
unfolding audio_format_for
open_stream ctx s sps pps (some st) = record s {
  stream = some (record st { h264_format = record { sps = sps; pps = pps } });
}
open_stream ctx s sps pps none =
    let (s', format) = init_audio_format ctx s in
    record s' {
      stream = some (record {
        h264_format = record { sps = sps; pps = pps };
        audio_format = format;
        written = [];
        stream_closed = false;
      });
    }

-- `initStreamInternal`
unfoldable pub init_stream_internal :
    {C : Type 0} → C → Server C → List ℕ → List ℕ → Bool → Server C
unfolding open_stream
init_stream_internal ctx s sps pps is_real =
    open_stream ctx (record s { has_real_data = if is_real then true else s.has_real_data }) sps pps
      s.stream

-- `InitStream`
abbrev pub init_stream : {C : Type 0} → C → Server C → List ℕ → List ℕ → Server C
init_stream ctx s sps pps = init_stream_internal ctx s sps pps true

-- The server that `StartServer` returns, once its ports are bound.
unfoldable pub new_server : {C : Type 0} → C → AudioCodec → Server C
new_server ctx codec =
    init_stream_internal ctx
      (record {
        stream = none;
        has_real_data = false;
        audio_codec = codec;
        aac_processor = none;
        active_client_count = 0;
        close_chan_closed = false;
        processor_closed = 0;
        srv_closed = false;
      })
      dummy_sps dummy_pps false

unfoldable pub stop_real_data : {C : Type 0} → Server C → Server C
stop_real_data s = record s { has_real_data = false }

close_stream : Option ServerStream → Option ServerStream
close_stream none = none
close_stream (some st) = some (record st { stream_closed = true })

-- `Close`. The processor's converter is freed at every call.
unfoldable pub close : {C : Type 0} → Server C → Server C
unfolding close_stream
close s = record s {
  close_chan_closed = true;
  stream = close_stream s.stream;
  processor_closed = s.processor_closed + (if is_some s.aac_processor then 1 else 0);
  srv_closed = true;
}

pub data Status : Type 0 where
  ok not_found : Status

-- `OnDescribe` and `OnSetup`: whether the path is `/stream`, and then the stream.
unfoldable pub on_describe : {C : Type 0} → Server C → Bool → Status × Option ServerStream
on_describe s is_stream_path =
    if is_stream_path && is_some s.stream then (ok, s.stream) else (not_found, none)

unfoldable pub on_setup : {C : Type 0} → Server C → Bool → Status × Option ServerStream
on_setup s is_stream_path =
    if is_stream_path && is_some s.stream then (ok, s.stream) else (not_found, none)

-- `OnPlay`, but for the callback, which asks the sources for a key frame.
unfoldable pub on_play : {C : Type 0} → Server C → Server C
on_play s = record s { active_client_count = s.active_client_count + 1 }

unfoldable pub on_session_close : {C : Type 0} → Server C → Server C
on_session_close s =
    if ltb 0 s.active_client_count
    then record s { active_client_count = s.active_client_count - 1 }
    else s

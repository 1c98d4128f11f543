-- ===== src/Rtsp/Server/Writing.antt =====
-- internal/rtsp/server.go, dummyPacketLoop and WritePacketRTP: what is written to the open stream.
use mistlink.Base.{
  ℕ, Bool, true, false, [], ◌∷◌, ◌++◌, Option, none, some, ltb, ◌==◌, if◌then◌else◌,
}
use mistlink.Base.Words.{add16, add32}
use mistlink.RtpUtils.{
  Packet, payload_type_h264, payload_type_opus, video_ssrc, dummy_timestamp_increment,
}
use mistlink.Rtsp.Aac.{Transcode, AacProcessor, process}
use mistlink.Rtsp.Server.{
  AudioCodec, Media, Server, ServerStream, aac, audio, dummy_nalu, opus, video,
}

-- The counters of `dummyPacketLoop`.
pub record DummyLoop : Type 0 where
  pub interval : ℕ
  pub seq : ℕ
  pub ts : ℕ

abbrev pub new_dummy_loop : DummyLoop
new_dummy_loop = record { interval = 100; seq = 0; ts = 0 }

dummy_packet : DummyLoop → Packet
dummy_packet d = record {
  ssrc = video_ssrc;
  payload_type = payload_type_h264;
  sequence_number = d.seq;
  timestamp = d.ts;
  marker = 1;
  payload = dummy_nalu;
}

-- `stream.WritePacketRTP`: what it takes is written, otherwise it returns an error (`true`).
abbrev pub Accepts : Type 0
Accepts = Media → Packet → Bool

unfoldable pub stream_write :
    {C : Type 0} → Accepts → Server C → ServerStream → Media → Packet → Server C × Bool
stream_write accepts s st m pkt =
    if accepts m pkt
    then (record s { stream = some (record st { written = st.written ++ ((m, pkt) ∷ []) }) }, false)
    else (s, true)

-- A dummy packet goes out on an open stream; an error of the write is ignored.
unfoldable pub send_dummy :
    {C : Type 0} → Accepts → Server C → DummyLoop → Option ServerStream → Server C × DummyLoop
unfolding dummy_packet
send_dummy accepts s d none = (s, d)
send_dummy accepts s d (some st) = (
  (stream_write accepts s st video (dummy_packet d)).0,
  record d { seq = add16 d.seq 1; ts = add32 d.ts dummy_timestamp_increment },
)

-- One tick of `dummyPacketLoop`; the interval is in milliseconds.
unfoldable pub dummy_tick : {C : Type 0} → Accepts → Server C → DummyLoop → Server C × DummyLoop
dummy_tick accepts s d =
    let d' = record d { interval = if ltb 0 s.active_client_count then 500 else 100 } in
    if s.has_real_data then (s, d') else send_dummy accepts s d' s.stream

-- A packet that the processor keeps is no error.
unfoldable pub deliver :
    {C : Type 0}
    → Accepts
    → Server C
    → ServerStream
    → Packet
    → Option Packet
    → Server C × Packet × Bool
deliver accepts s st pkt none = (s, pkt, false)
deliver accepts s st pkt (some pkt') =
    let (s', err) = stream_write accepts s st audio pkt' in (s', pkt', err)

unfoldable pub write_as :
    {C : Type 0}
    → Transcode C
    → Accepts
    → Server C
    → ServerStream
    → Packet
    → AudioCodec
    → Option (AacProcessor C)
    → Server C × Packet × Bool
write_as transcode accepts s st pkt opus processor = deliver accepts s st pkt (some pkt)
write_as transcode accepts s st pkt aac none = deliver accepts s st pkt (some pkt)
write_as transcode accepts s st pkt aac (some p) =
    let (p', out) = process transcode p pkt in
    deliver accepts (record s { aac_processor = some p' }) st pkt out

-- The audio branch of `WritePacketRTP`.
unfoldable pub write_audio :
    {C : Type 0}
    → Transcode C
    → Accepts
    → Server C
    → ServerStream
    → Packet
    → Server C × Packet × Bool
unfolding write_as
write_audio transcode accepts s st pkt =
    write_as transcode accepts s st pkt s.audio_codec s.aac_processor

unfoldable pub write_stream :
    {C : Type 0}
    → Transcode C
    → Accepts
    → Server C
    → Packet
    → Option ServerStream
    → Server C × Packet × Bool
write_stream transcode accepts s pkt none = (s, pkt, false)
write_stream transcode accepts s pkt (some st) =
    let (s', err) = stream_write accepts s st video pkt in
    let audio_result = write_audio transcode accepts s st pkt in
    if pkt.payload_type == payload_type_h264
    then (s', pkt, err)
    else if pkt.payload_type == payload_type_opus
    then audio_result
    else (s, pkt, false)

-- `WritePacketRTP`: the server, the packet as it is changed, and whether an error is returned.
unfoldable pub write_packet_rtp :
    {C : Type 0} → Transcode C → Accepts → Server C → Packet → Server C × Packet × Bool
unfolding write_stream
write_packet_rtp transcode accepts s pkt = write_stream transcode accepts s pkt s.stream

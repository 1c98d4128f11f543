-- ===== src/Rtsp/Server/Offer.antt =====
-- The parameter sets that the server offers, and that packets do not change them.
use mistlink.Base.{ℕ, ◌≡◌, refl, Bool, true, List, Option, none, some, ◌==◌, if_rule}
use mistlink.RtpUtils.{Packet, payload_type_h264, payload_type_opus}
use mistlink.Rtsp.Aac.{Transcode, AacProcessor, process}
use mistlink.Rtsp.Server.{
  Server, ServerStream, Media, AudioCodec, aac, opus, video, audio, init_stream_internal,
  open_stream, audio_format_for, audio_format_for,
}
use mistlink.Rtsp.Server.Writing.{
  Accepts, stream_write, deliver, write_as, write_audio, write_stream, write_packet_rtp,
}

abbrev pub StreamOffers : List ℕ → List ℕ → Option ServerStream → Type 0
StreamOffers sps pps none = ⊥
StreamOffers sps pps (some st) = (st.h264_format.sps ≡ sps) × (st.h264_format.pps ≡ pps)

-- The server streams real data, under these parameter sets.
abbrev pub Offers : {C : Type 0} → List ℕ → List ℕ → Server C → Type 0
Offers sps pps s = (s.has_real_data ≡ true) × StreamOffers sps pps s.stream

module _ {C : Type 0} (sps pps : List ℕ) where
  stream_write-Offers :
      (accepts : Accepts) (s : Server C) (st : ServerStream) (m : Media) (pkt : Packet)
      → s.stream ≡ some st
      → Offers sps pps s
      → Offers sps pps (stream_write accepts s st m pkt).0
  unfolding stream_write
  stream_write-Offers accepts s st m pkt e v =
      if_rule (λ (r : Server C × Bool). Offers sps pps r.0) (accepts m pkt) (v.0, rw e at v.1) v

  deliver-Offers :
      (accepts : Accepts) (s : Server C) (st : ServerStream) (pkt : Packet) (out : Option Packet)
      → s.stream ≡ some st
      → Offers sps pps s
      → Offers sps pps (deliver accepts s st pkt out).0
  unfolding deliver
  deliver-Offers accepts s st pkt none e v = v
  deliver-Offers accepts s st pkt (some out) e v = stream_write-Offers accepts s st audio out e v

  write_as-Offers :
      (transcode : Transcode C) (accepts : Accepts) (s : Server C) (st : ServerStream)
      (pkt : Packet) (codec : AudioCodec) (processor : Option (AacProcessor C))
      → s.stream ≡ some st
      → Offers sps pps s
      → Offers sps pps (write_as transcode accepts s st pkt codec processor).0
  unfolding write_as
  write_as-Offers transcode accepts s st pkt opus processor e v =
      deliver-Offers accepts s st pkt (some pkt) e v
  write_as-Offers transcode accepts s st pkt aac none e v =
      deliver-Offers accepts s st pkt (some pkt) e v
  write_as-Offers transcode accepts s st pkt aac (some p) e v =
      deliver-Offers accepts (record s { aac_processor = some (process transcode p pkt).0 }) st pkt
        _ e v

  write_stream-Offers :
      (transcode : Transcode C) (accepts : Accepts) (s : Server C) (pkt : Packet)
      (stream : Option ServerStream)
      → s.stream ≡ stream
      → Offers sps pps s
      → Offers sps pps (write_stream transcode accepts s pkt stream).0
  unfolding write_stream write_audio
  write_stream-Offers transcode accepts s pkt none e v = v
  write_stream-Offers transcode accepts s pkt (some st) e v =
      let P = λ (r : Server C × Packet × Bool). Offers sps pps r.0 in
      if_rule P (pkt.payload_type == payload_type_h264)
        (stream_write-Offers accepts s st video pkt e v)
        (if_rule P (pkt.payload_type == payload_type_opus)
          (write_as-Offers transcode accepts s st pkt s.audio_codec s.aac_processor e v) v)

  pub write_packet_rtp-Offers :
      (transcode : Transcode C) (accepts : Accepts) (s : Server C) (pkt : Packet)
      → Offers sps pps s
      → Offers sps pps (write_packet_rtp transcode accepts s pkt).0
  unfolding write_packet_rtp
  write_packet_rtp-Offers transcode accepts s pkt v =
      write_stream-Offers transcode accepts s pkt s.stream refl v

  open_stream-Offers :
      (ctx : C) (s : Server C) (stream : Option ServerStream)
      → s.has_real_data ≡ true
      → Offers sps pps (open_stream ctx s sps pps stream)
  unfolding open_stream
  open_stream-Offers ctx s (some st) h = (h, (refl, refl))
  open_stream-Offers ctx s none h = (go s.audio_codec s.aac_processor, (refl, refl))
    where
      go :
          (codec : AudioCodec) (processor : Option (AacProcessor C))
          → (audio_format_for ctx s codec processor).0.has_real_data ≡ true
      go opus p = h
      go aac none = h
      go aac (some p) = h

  -- A stream that starts offers the parameter sets that it is given.
  pub init_stream-Offers :
      (ctx : C) (s : Server C) → Offers sps pps (init_stream_internal ctx s sps pps true)
  unfolding init_stream_internal
  init_stream-Offers ctx s = open_stream-Offers ctx _ s.stream refl

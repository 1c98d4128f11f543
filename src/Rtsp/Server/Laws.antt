-- ===== src/Rtsp/Server/Laws.antt =====
-- What is on the server's tracks.
use mistlink.Base.{
  if_rule, ltb, ==→eq, ℕ, ◌≡◌, refl, Bool, true, false, List, [], ◌∷◌, Option, none, some, ◌==◌,
  is_some, All, All-append, arith, ◌⊎◌, inl, inr, Bool-cases,
}
use mistlink.RtpUtils.{Packet, payload_type_h264, payload_type_opus, payload_type_aac}
use mistlink.Rtsp.Aac.{Transcode, AacProcessor, process}
use mistlink.Rtsp.Aac.Laws.{process-type}
use mistlink.Rtsp.Server.{
  Server, ServerStream, Media, video, audio, AudioCodec, aac, opus, AudioFormat, mpeg4_audio,
  opus_audio, audio_format_for, open_stream, init_stream, init_stream_internal, new_server,
  stop_real_data, on_play, on_session_close,
}
use mistlink.Rtsp.Server.Writing.{
  Accepts, DummyLoop, send_dummy, deliver, write_as, write_stream, stream_write, dummy_tick,
  write_audio, write_packet_rtp,
}

abbrev pub format_of : AudioCodec → AudioFormat
format_of aac = mpeg4_audio
format_of opus = opus_audio

abbrev pub audio_type : AudioFormat → ℕ
audio_type mpeg4_audio = payload_type_aac
audio_type opus_audio = payload_type_opus

-- A packet has the payload type that its track was declared with.
abbrev pub IsTyped : AudioFormat → Media × Packet → Type 0
IsTyped f (video, pkt) = pkt.payload_type ≡ payload_type_h264
IsTyped f (audio, pkt) = pkt.payload_type ≡ audio_type f

abbrev pub StreamInv : AudioCodec → Bool → Option ServerStream → Type 0
StreamInv codec has_processor none = Unit
StreamInv codec has_processor (some st) =
    (st.audio_format ≡ format_of codec)
    × ((codec ≡ opus) ⊎ (has_processor ≡ true))
    × All (IsTyped st.audio_format) st.written

-- An open stream offers the codec of the configuration, AAC with a processor, and holds only packets
-- of the declared payload types.
abbrev pub ServerInv : {C : Type 0} → Server C → Type 0
ServerInv s = StreamInv s.audio_codec (is_some s.aac_processor) s.stream

module _ {C : Type 0} where
  stream_write-ServerInv :
      (accepts : Accepts) (s : Server C) (st : ServerStream) (m : Media) (pkt : Packet)
      → ServerInv s
      → s.stream ≡ some st
      → IsTyped st.audio_format (m, pkt)
      → ServerInv (stream_write accepts s st m pkt).0
  unfolding stream_write
  stream_write-ServerInv accepts s st m pkt v e t = elim (Bool-cases (accepts m pkt)) [
    | inl a ↦
        let (f, p, typed) = rw e at v in
        rw a (f, p, All-append (IsTyped st.audio_format) st.written ((m, pkt) ∷ []) typed (t, tt))
    | inr a ↦ rw a v
  ]

  set_processor-ServerInv :
      (s : Server C) (p : AacProcessor C)
      → ServerInv s
      → ServerInv (record s { aac_processor = some p })
  set_processor-ServerInv s p v = set s.stream v
    where
      set :
          (st : Option ServerStream)
          → StreamInv s.audio_codec (is_some s.aac_processor) st
          → StreamInv s.audio_codec true st
      set none w = tt
      set (some st) w = (w.0, inr refl, w.2)

  deliver-ServerInv :
      (accepts : Accepts) (s : Server C) (st : ServerStream) (pkt : Packet) (out : Option Packet)
      → ServerInv s
      → s.stream ≡ some st
      → ((pkt' : Packet) → out ≡ some pkt' → IsTyped st.audio_format (audio, pkt'))
      → ServerInv (deliver accepts s st pkt out).0
  unfolding deliver
  deliver-ServerInv accepts s st pkt none v e t = v
  deliver-ServerInv accepts s st pkt (some pkt') v e t =
      stream_write-ServerInv accepts s st audio pkt' v e (t pkt' refl)

  opened :
      (s : Server C) (st : ServerStream)
      → ServerInv s
      → s.stream ≡ some st
      → StreamInv s.audio_codec (is_some s.aac_processor) (some st)
  opened s st v e = rw e at v

  write_as-ServerInv :
      (transcode : Transcode C) (accepts : Accepts) (s : Server C) (st : ServerStream)
      (pkt : Packet) (codec : AudioCodec) (processor : Option (AacProcessor C))
      → ServerInv s
      → s.stream ≡ some st
      → s.audio_codec ≡ codec
      → s.aac_processor ≡ processor
      → pkt.payload_type ≡ payload_type_opus
      → ServerInv (write_as transcode accepts s st pkt codec processor).0
  unfolding write_as
  write_as-ServerInv transcode accepts s st pkt opus processor v e c p t =
      deliver-ServerInv accepts s st pkt (some pkt) v e
        λ pkt' same. ground (arith, (opened s st v e).0)
  write_as-ServerInv transcode accepts s st pkt aac none v e c p t =
      absurd (ground (arith, (opened s st v e).1))
  write_as-ServerInv transcode accepts s st pkt aac (some q) v e c p t =
      deliver-ServerInv accepts (record s { aac_processor = some (process transcode q pkt).0 }) st
        pkt (process transcode q pkt).1 (set_processor-ServerInv s (process transcode q pkt).0 v) e
        λ pkt' same. ground (arith, (opened s st v e).0, process-type transcode q pkt pkt' same)

  write_stream-ServerInv :
      (transcode : Transcode C) (accepts : Accepts) (s : Server C) (pkt : Packet)
      (stream : Option ServerStream)
      → s.stream ≡ stream
      → ServerInv s
      → ServerInv (write_stream transcode accepts s pkt stream).0
  unfolding write_stream write_audio
  write_stream-ServerInv transcode accepts s pkt none e v = v
  write_stream-ServerInv transcode accepts s pkt (some st) e v =
      elim (Bool-cases (pkt.payload_type == payload_type_h264)) [
        | inl h ↦ rw h (stream_write-ServerInv accepts s st video pkt v e (==→eq _ _ h))
        | inr h ↦ rw h (elim (Bool-cases (pkt.payload_type == payload_type_opus)) [
          | inl o ↦ rw o (
              write_as-ServerInv transcode accepts s st pkt s.audio_codec s.aac_processor v e refl
                refl (==→eq _ _ o))
          | inr o ↦ rw o v
        ])
      ]

  write_packet_rtp-ServerInv :
      (transcode : Transcode C) (accepts : Accepts) (s : Server C) (pkt : Packet)
      → ServerInv s
      → ServerInv (write_packet_rtp transcode accepts s pkt).0
  unfolding write_packet_rtp
  write_packet_rtp-ServerInv transcode accepts s pkt v =
      write_stream-ServerInv transcode accepts s pkt s.stream refl v

  send_dummy-ServerInv :
      (accepts : Accepts) (s : Server C) (d : DummyLoop) (stream : Option ServerStream)
      → s.stream ≡ stream
      → ServerInv s
      → ServerInv (send_dummy accepts s d stream).0
  unfolding send_dummy
  send_dummy-ServerInv accepts s d none e v = v
  send_dummy-ServerInv accepts s d (some st) e v =
      stream_write-ServerInv accepts s st video _ v e refl

  dummy_tick-ServerInv :
      (accepts : Accepts) (s : Server C) (d : DummyLoop)
      → ServerInv s
      → ServerInv (dummy_tick accepts s d).0
  unfolding dummy_tick
  dummy_tick-ServerInv accepts s d v =
      if_rule (λ (r : Server C × DummyLoop). ServerInv r.0) s.has_real_data v
        (send_dummy-ServerInv accepts s _ s.stream refl v)

  open_stream-ServerInv :
      (ctx : C) (s : Server C) (sps pps : List ℕ) (stream : Option ServerStream)
      → s.stream ≡ stream
      → ServerInv s
      → ServerInv (open_stream ctx s sps pps stream)
  unfolding open_stream
  open_stream-ServerInv ctx s sps pps (some st) e v =
      let (f, p, typed) = opened s st v e in (f, p, typed)
  open_stream-ServerInv ctx s sps pps none e v = go s.audio_codec s.aac_processor refl refl
    where
      go :
          (codec : AudioCodec) (processor : Option (AacProcessor C))
          → s.audio_codec ≡ codec
          → s.aac_processor ≡ processor
          → let (s', format) = audio_format_for ctx s codec processor in
            (format ≡ format_of s'.audio_codec)
            × ((s'.audio_codec ≡ opus) ⊎ (is_some s'.aac_processor ≡ true))
            × Unit {0}
      go opus processor c p = (ground arith, inl c, tt)
      go aac none c p = (ground arith, inr refl, tt)
      go aac (some q) c p = (ground arith, inr (ground arith), tt)

  init_stream_internal-ServerInv :
      (ctx : C) (s : Server C) (sps pps : List ℕ) (is_real : Bool)
      → ServerInv s
      → ServerInv (init_stream_internal ctx s sps pps is_real)
  unfolding init_stream_internal
  init_stream_internal-ServerInv ctx s sps pps is_real v =
      open_stream-ServerInv ctx _ sps pps s.stream refl v

  new_server-ServerInv : (ctx : C) (codec : AudioCodec) → ServerInv (new_server ctx codec)
  unfolding new_server
  new_server-ServerInv ctx codec = init_stream_internal-ServerInv ctx _ _ _ false tt

-- What reaches the server: packets, key parameter sets, ticks of the dummy loop, and clients.
pub data Request : Type 0 where
  packet : Packet → Request
  parameter_sets : List ℕ → List ℕ → Request
  real_data_stopped : Request
  tick : DummyLoop → Request
  play : Request
  session_close : Request

module _ {C : Type 0} (transcode : Transcode C) (accepts : Accepts) (ctx : C) where
  unfoldable pub handle : Server C → Request → Server C
  handle s (packet pkt) = (write_packet_rtp transcode accepts s pkt).0
  handle s (parameter_sets sps pps) = init_stream ctx s sps pps
  handle s real_data_stopped = stop_real_data s
  handle s (tick d) = (dummy_tick accepts s d).0
  handle s play = on_play s
  handle s session_close = on_session_close s

  unfoldable pub serve : Server C → List Request → Server C
  serve s [] = s
  serve s (r ∷ rs) = serve (handle s r) rs

  handle-ServerInv : (s : Server C) (r : Request) → ServerInv s → ServerInv (handle s r)
  unfolding handle stop_real_data on_play on_session_close
  handle-ServerInv s (packet pkt) v = write_packet_rtp-ServerInv transcode accepts s pkt v
  handle-ServerInv s (parameter_sets sps pps) v =
      init_stream_internal-ServerInv ctx s sps pps true v
  handle-ServerInv s real_data_stopped v = v
  handle-ServerInv s (tick d) v = dummy_tick-ServerInv accepts s d v
  handle-ServerInv s play v = v
  handle-ServerInv s session_close v = if_rule ServerInv (ltb 0 s.active_client_count) v v

  serve-ServerInv : (s : Server C) (rs : List Request) → ServerInv s → ServerInv (serve s rs)
  unfolding serve
  serve-ServerInv s [] v = v
  serve-ServerInv s (r ∷ rs) v = serve-ServerInv (handle s r) rs (handle-ServerInv s r v)

  -- From a new server, after any requests, an open stream offers the configured audio codec (AAC
  -- only with a processor), and every packet written to the video track is of the H.264 payload
  -- type and every one written to the audio track of the type that the session declares: Opus is
  -- never written to an AAC session.
  pub serve-new-ServerInv :
      (codec : AudioCodec) (rs : List Request) → ServerInv (serve (new_server ctx codec) rs)
  serve-new-ServerInv codec rs = serve-ServerInv _ rs (new_server-ServerInv ctx codec)

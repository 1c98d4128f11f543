-- ===== src/Config.antt =====
-- internal/config/config.go and cmd/mistlink/main.go: the settings of a client, from their file and
-- from the command line. The file system's answers, the JSON codec and the ICE servers' type are
-- parameters.
pub mod Startup
use mistlink.Base.{
  ℕ, Bool, true, false, not, ◌&&◌, List, [], ◌∷◌, Option, none, some, if◌then◌else◌, is_empty,
}
use mistlink.Base.Text.{codes, same_text}

-- Go's `int`.
pub data ℤ : Type 0 where
  pos negsuc : ℕ → ℤ

-- `Config`, with ICE servers of a type `S`.
pub record Config (S : Type 0) : Type 0 where
  pub room_id : List ℕ
  pub input_url : List ℕ
  pub rtsp_url : List ℕ
  pub whip_url : List ℕ
  pub signaling_server : List ℕ
  pub rtsp_loopback : Bool
  pub sps_pps_resend_interval : ℤ
  pub audio : Bool
  pub audio_codec : List ℕ
  pub ice_servers : List S

abbrev pub audio_codec_aac : List ℕ
audio_codec_aac = codes "aac"

abbrev pub audio_codec_opus : List ℕ
audio_codec_opus = codes "opus"

abbrev pub default_input : List ℕ
default_input = codes "udp://0.0.0.0:1234"

abbrev pub default_rtsp : List ℕ
default_rtsp = codes "rtsp://localhost:8554/stream"

abbrev pub default_whip : List ℕ
default_whip = codes "http://localhost:8080/whip"

abbrev pub default_signaling : List ℕ
default_signaling = codes "wss://rtc.tik-choco.com/signaling"

-- `DefaultConfig`, with the server of `stun.l.google.com`.
unfoldable pub default_config : {S : Type 0} → S → Config S
default_config server = record {
  room_id = [];
  input_url = default_input;
  rtsp_url = default_rtsp;
  whip_url = default_whip;
  signaling_server = default_signaling;
  rtsp_loopback = true;
  sps_pps_resend_interval = pos 1000;
  audio = true;
  audio_codec = audio_codec_aac;
  ice_servers = server ∷ [];
}

-- What the system answers: whether there is a directory for settings, the file in it, whether it
-- can be read, the directory made, and the file written.
pub record Disk : Type 0 where
  pub has_config_dir : Bool
  pub file : Option (List ℕ)
  pub reads : Bool
  pub makes_dir : Bool
  pub writes : Bool

module _ {S : Type 0} (server : S) (encode : Config S → Option (List ℕ))
    (decode : List ℕ → Option (Config S)) where
  -- `Save`, and whether it returns no error.
  unfoldable pub save : Disk → Config S → Disk × Bool
  save d c = elim (encode c) [
    | none ↦ (d, false)
    | some text ↦
        if d.has_config_dir && d.makes_dir && d.writes
        then (record d { file = some text }, true)
        else (d, false)
  ]

  unfoldable pub with_servers : Config S → Config S
  with_servers c =
      if is_empty c.ice_servers
      then record c { ice_servers = (default_config server).ice_servers }
      else c

  unfoldable pub with_codec : Config S → Config S
  with_codec c =
      if not (same_text c.audio_codec audio_codec_aac)
        && not (same_text c.audio_codec audio_codec_opus)
      then record c { audio_codec = audio_codec_aac }
      else c

  -- What is made of settings that were read: the servers are saved, the codec is not.
  unfoldable pub repair : Disk → Config S → Disk × Config S
  repair d c =
      let saved : Disk = (save d (with_servers c)).0 in
      (if is_empty c.ice_servers then saved else d, with_codec (with_servers c))

  unfoldable pub read_config : Disk → List ℕ → Disk × Option (Config S)
  read_config d text = elim (decode text) [
    | none ↦ (d, none)
    | some c ↦ let (d', c') = repair d c in (d', some c')
  ]

  -- `Load`
  unfoldable pub load : Disk → Disk × Option (Config S)
  load d = elim d.file [
    | none ↦
        if d.has_config_dir
        then ((save d (default_config server)).0, some (default_config server))
        else (d, none)
    | some text ↦ if d.has_config_dir && d.reads then read_config d text else (d, none)
  ]

  unfoldable pub or_default : Disk × Option (Config S) → Disk × Config S
  or_default (d, none) = ((save d (default_config server)).0, default_config server)
  or_default (d, some c) = (d, c)

  -- The settings that `main` starts from: on an error the defaults, which it saves.
  unfoldable pub load_or_default : Disk → Disk × Config S
  load_or_default d = or_default (load d)

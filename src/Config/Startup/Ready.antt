-- ===== src/Config/Startup/Ready.antt =====
-- What a client starts with.
use mistlink.Base.{
  ℕ, ◌≡◌, refl, ◌∙◌, Bool, true, false, not, ◌&&◌, ◌||◌, List, [], ◌∷◌, Option, none, some,
  is_empty, if_rule, if_split, Option-cases, inl, inr, arith,
}
use mistlink.Base.Text.{same_text}
use mistlink.Config.{
  Config, Disk, audio_codec_aac, audio_codec_opus, default_input, default_rtsp, default_whip,
  default_signaling, default_config, save, with_servers, with_codec, repair, read_config, load,
  or_default, load_or_default,
}
use mistlink.Config.Startup.{generate_room_id, hex, Flags, or_else, apply_flags, fill_in, start_up}

-- A codec that the bridge knows.
abbrev pub has_codec : {S : Type 0} → Config S → Bool
has_codec c = same_text c.audio_codec audio_codec_aac || same_text c.audio_codec audio_codec_opus

-- Settings that a client can run with: there are ICE servers, a known codec, and no text is empty.
abbrev pub is_settled : {S : Type 0} → Config S → Bool
is_settled c =
    not (is_empty c.ice_servers)
    && has_codec c
    && not (is_empty c.room_id)
    && not (is_empty c.input_url)
    && not (is_empty c.rtsp_url)
    && not (is_empty c.whip_url)
    && not (is_empty c.signaling_server)

abbrev pub no_flags : Flags
no_flags = record {
  room = [];
  input = [];
  server = [];
  rtsp_server = [];
  whip_server = [];
  show_config = false;
}

or_else-is_empty : (a b : List ℕ) → is_empty b ≡ false → is_empty (or_else a b) ≡ false
unfolding or_else
or_else-is_empty [] b h = h
or_else-is_empty (x ∷ a) b h = refl

or_else-kept : (a b : List ℕ) → is_empty a ≡ false → or_else a b ≡ a
unfolding or_else
or_else-kept a b h = rw (h) refl

-- What the files leave to the flags: ICE servers and a codec.
abbrev pub Usable : {S : Type 0} → Config S → Type 0
Usable c = (is_empty c.ice_servers ≡ false) × (has_codec c ≡ true)

-- What `Run` is called with, if it is.
abbrev pub Ready : {S : Type 0} → Flags → Option (Config S) → Type 0
Ready f none = f.show_config ≡ true
Ready f (some c) = is_settled c ≡ true

-- Whether settings can be saved and read again.
abbrev pub works : Disk → Bool
works d = d.has_config_dir && d.reads && d.makes_dir && d.writes

module _ {S : Type 0} (server : S) (encode : Config S → Option (List ℕ))
    (decode : List ℕ → Option (Config S)) where
  default_config-Usable : Usable (default_config server)
  unfolding default_config
  default_config-Usable = (refl, refl)

  with_codec-Usable :
      (c : Config S) → is_empty c.ice_servers ≡ false → Usable (with_codec server encode decode c)
  unfolding with_codec
  with_codec-Usable c h = ground (arith, h)

  with_servers-lem :
      (c : Config S) → is_empty (with_servers server encode decode c).ice_servers ≡ false
  unfolding with_servers default_config
  with_servers-lem c = ground arith

  save-works : (d : Disk) (c : Config S) → works (save server encode decode d c).0 ≡ works d
  unfolding save
  save-works d c = elim (Option-cases (encode c)) [
    | inl bad ↦ rw (bad, save) refl
    | inr (text, good) ↦
        rw (good, save)
          (if_rule (λ (r : Disk × Bool). works r.0 ≡ works d)
            (d.has_config_dir && d.makes_dir && d.writes) refl refl)
  ]

  -- What is read, if anything, is usable, and the system goes on as it did.
  abbrev Sound : Disk → Disk × Option (Config S) → Type 0
  Sound d (d', none) = works d' ≡ works d
  Sound d (d', some c) = (works d' ≡ works d) × Usable c

  read_config-Sound : (d : Disk) (text : List ℕ) → Sound d (read_config server encode decode d text)
  unfolding read_config repair
  read_config-Sound d text = elim (Option-cases (decode text)) [
    | inl bad ↦ rw (bad, read_config) refl
    | inr (c, good) ↦
        rw (good, read_config)
          (
            if_rule (λ (d' : Disk). works d' ≡ works d) (is_empty c.ice_servers) (save-works d _)
                refl,
            with_codec-Usable (with_servers server encode decode c) (with_servers-lem c),
          )
  ]

  load-Sound : (d : Disk) → Sound d (load server encode decode d)
  unfolding load
  load-Sound d = elim (Option-cases d.file) [
    | inl missing ↦
        rw (missing, load)
          (if_rule (Sound d) d.has_config_dir (save-works d _, default_config-Usable) refl)
    | inr (text, there) ↦
        rw (there, load)
          (if_rule (Sound d) (d.has_config_dir && d.reads) (read_config-Sound d text) refl)
  ]

  or_default-Usable :
      (d : Disk) (r : Disk × Option (Config S))
      → Sound d r
      → let (d', c) = or_default server encode decode r in (works d' ≡ works d) × Usable c
  unfolding or_default
  or_default-Usable d (d', none) same = (save-works d' _ ∙ same, default_config-Usable)
  or_default-Usable d (d', some c) sound = sound

  pub load_or_default-Usable :
      (d : Disk)
      → let (d', c) = load_or_default server encode decode d in (works d' ≡ works d) × Usable c
  unfolding load_or_default
  load_or_default-Usable d = or_default-Usable d (load server encode decode d) (load-Sound d)

  fill_in-is_settled :
      (f : Flags) (c : Config S) (random : ℕ × ℕ × ℕ × ℕ)
      → Usable c
      → is_settled (fill_in (generate_room_id random) (apply_flags f c)) ≡ true
  unfolding fill_in apply_flags generate_room_id hex
  fill_in-is_settled f c random (servers, codec) =
      rw
        (
          servers,
          codec,
          or_else-is_empty (or_else f.room c.room_id) (generate_room_id random) refl,
          or_else-is_empty (or_else f.input c.input_url) default_input refl,
          or_else-is_empty (or_else f.rtsp_server c.rtsp_url) default_rtsp refl,
          or_else-is_empty (or_else f.whip_server c.whip_url) default_whip refl,
          or_else-is_empty (or_else f.server c.signaling_server) default_signaling refl,
        )
        refl

  -- Whatever the file system and the codec answer and whatever flags are given: unless the settings
  -- are only shown, the client runs, with settings that have an ICE server, a known codec, a room,
  -- and no empty address.
  pub start_up-Ready :
      (d : Disk) (f : Flags) (random : ℕ × ℕ × ℕ × ℕ)
      → Ready f (start_up server encode decode d f random).1
  unfolding start_up
  start_up-Ready d f random =
      if_split (λ (r : Disk × Option (Config S)). Ready f r.1) f.show_config (λ shown. shown)
        (λ runs. fill_in-is_settled f _ random (load_or_default-Usable d).1)

-- ===== src/Config/Startup/Restart.antt =====
-- A client that starts again on the settings that it has saved.
use mathlib.Core.Path.{subst}
use mistlink.Base.{
  ℕ, ◌≡◌, refl, ◌∙◌, ap, sym, true, false, not, ◌&&◌, List, Option, none, some, is_empty,
  Bool-cases, inl, inr, arith,
}
use mistlink.Base.Text.{same_text}
use mistlink.Config.{
  Config, Disk, audio_codec_aac, audio_codec_opus, save, with_servers, with_codec, repair,
  read_config, load, or_default, load_or_default,
}
use mistlink.Config.Startup.{generate_room_id, Flags, or_else, apply_flags, fill_in, start_up}
use mistlink.Config.Startup.Ready.{
  is_settled, no_flags, works, Usable, load_or_default-Usable, Ready, start_up-Ready,
}

module _ {S : Type 0} (server : S) (encode : Config S → Option (List ℕ))
    (decode : List ℕ → Option (Config S)) where
  repair-kept : (d : Disk) (c : Config S) → Usable c → repair server encode decode d c ≡ (d, c)
  unfolding repair with_codec with_servers
  repair-kept d c (servers, codec) =
      let known : (not (same_text c.audio_codec audio_codec_aac)
            && not (same_text c.audio_codec audio_codec_opus))
          ≡ false =
        ground (arith, codec) in
      rw (servers, known) refl

  is_settled-Usable : (c : Config S) → is_settled c ≡ true → Usable c
  is_settled-Usable c settled = (ground (arith, settled), ground (arith, settled))

  -- Settings that are complete come back from the file as they are.
  load_or_default-again :
      (d : Disk) (c : Config S) (text : List ℕ)
      → works d ≡ true
      → is_settled c ≡ true
      → decode text ≡ some c
      → load_or_default server encode decode (record d { file = some text })
        ≡ (record d { file = some text }, c)
  unfolding load_or_default or_default load read_config
  load_or_default-again d c text w settled back =
      let d' : Disk = record d { file = some text } in
      let readable : (d.has_config_dir && d.reads) ≡ true = ground (arith, w) in
      let same = repair-kept d' c (is_settled-Usable c settled) in
      rw (readable, back, read_config) (rw (same) refl)

  fill_in-again :
      (c : Config S) (random : ℕ × ℕ × ℕ × ℕ)
      → is_settled c ≡ true
      → fill_in (generate_room_id random) (apply_flags no_flags c) ≡ c
  unfolding fill_in apply_flags or_else
  fill_in-again c random settled =
      let room : is_empty c.room_id ≡ false = ground (arith, settled) in
      let input : is_empty c.input_url ≡ false = ground (arith, settled) in
      let rtsp : is_empty c.rtsp_url ≡ false = ground (arith, settled) in
      let whip : is_empty c.whip_url ≡ false = ground (arith, settled) in
      let signaling : is_empty c.signaling_server ≡ false = ground (arith, settled) in
      rw (room, input, rtsp, whip, signaling) refl

  save-file :
      (d : Disk) (c : Config S) (text : List ℕ)
      → works d ≡ true
      → encode c ≡ some text
      → (save server encode decode d c).0 ≡ record d { file = some text }
  unfolding save
  save-file d c text w encoded =
      let saves : (d.has_config_dir && d.makes_dir && d.writes) ≡ true = ground (arith, w) in
      rw (encoded, save, saves) refl

  -- A start from the settings of an earlier one.
  start_up-again :
      (d : Disk) (c : Config S) (text : List ℕ) (random : ℕ × ℕ × ℕ × ℕ)
      → works d ≡ true
      → is_settled c ≡ true
      → encode c ≡ some text
      → decode text ≡ some c
      → let d' : Disk = record d { file = some text } in
        start_up server encode decode d' no_flags random ≡ (d', some c)
  unfolding start_up
  start_up-again d c text random w settled encoded back =
      let d' : Disk = record d { file = some text } in
      rw
        (
          load_or_default-again d c text w settled back,
          fill_in-again c random settled,
          save-file d' c text w encoded,
        )
        refl

  abbrev encoded_as : Config S → Option (Config S) → Option (List ℕ)
  encoded_as other none = encode other
  encoded_as other (some c) = encode c

  start_up-file :
      (d : Disk) (f : Flags) (random : ℕ × ℕ × ℕ × ℕ) (c : Config S) (text : List ℕ)
      → works d ≡ true
      → (start_up server encode decode d f random).1 ≡ some c
      → encode c ≡ some text
      → (start_up server encode decode d f random).0
        ≡ record (load_or_default server encode decode d).0 { file = some text }
  unfolding start_up apply_flags
  start_up-file d f random c text w started encoded =
      let (d', c') = load_or_default server encode decode d in
      let settings = fill_in (generate_room_id random) (apply_flags f c') in
      let w' = (load_or_default-Usable server encode decode d).0 ∙ w in
      elim (Bool-cases f.show_config) [
        | inl shown ↦ absurd (grind (arith, (rw (shown) at started)))
        | inr runs ↦
            let same : some settings ≡ some c = rw (runs) at started in
            rw (runs) (save-file d' settings text w' (ap (encoded_as settings) same ∙ encoded))
      ]

  -- Where the settings can be saved and read, and the JSON of those that a client runs with is
  -- parsed as the same settings again: the next start without flags runs with these settings, and
  -- leaves the file as it is.
  pub start_up-restart :
      (d : Disk) (f : Flags) (random random' : ℕ × ℕ × ℕ × ℕ) (c : Config S) (text : List ℕ)
      → works d ≡ true
      → (start_up server encode decode d f random).1 ≡ some c
      → encode c ≡ some text
      → decode text ≡ some c
      → let d' = (start_up server encode decode d f random).0 in
        start_up server encode decode d' no_flags random' ≡ (d', some c)
  start_up-restart d f random random' c text w started encoded back =
      let settled : is_settled c ≡ true =
        subst (Ready f) started (start_up-Ready server encode decode d f random) in
      let (w', usable) = load_or_default-Usable server encode decode d in
      subst (λ (e : Disk). start_up server encode decode e no_flags random' ≡ (e, some c))
        (sym (start_up-file d f random c text w started encoded))
        (start_up-again (load_or_default server encode decode d).0 c text random' (w' ∙ w) settled
          encoded back)

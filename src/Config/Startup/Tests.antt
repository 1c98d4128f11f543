-- ===== src/Config/Startup/Tests.antt =====
-- A first start without a file, with a codec that writes the settings of that start as one byte.
use mistlink.Base.{ℕ, ◌≡◌, refl, true, List, [], ◌∷◌, Option, none, some}
use mistlink.Base.Text.{codes}
use mistlink.Config.{Config, Disk, default_config, load, load_or_default, or_default, save}
use mistlink.Config.Startup.{Flags, start_up, fill_in, apply_flags, or_else}
use mistlink.Config.Startup.Ready.{no_flags}
use mistlink.Config.Startup.Restart.{start_up-restart}

abbrev room : Flags
room = record no_flags { room = codes "tea" }

abbrev settings : Config ℕ
settings = record (default_config 7) { room_id = codes "tea" }

abbrev encode : Config ℕ → Option (List ℕ)
encode c = some (1 ∷ [])

abbrev decode : List ℕ → Option (Config ℕ)
decode text = some settings

abbrev disk : Disk
disk = record { has_config_dir = true; file = none; reads = true; makes_dir = true; writes = true }

abbrev bytes : ℕ × ℕ × ℕ × ℕ
bytes = (0x1f, 2, 3, 0xa0)

first_start : (start_up 7 encode decode disk room bytes).1 ≡ some settings
unfolding start_up fill_in apply_flags or_else load_or_default or_default load save default_config
first_start = refl

start_up-restart_example :
    let d = (start_up 7 encode decode disk room bytes).0 in
    start_up 7 encode decode d no_flags bytes ≡ (d, some settings)
start_up-restart_example =
    start_up-restart 7 encode decode disk room bytes bytes settings (1 ∷ []) refl first_start refl
      refl

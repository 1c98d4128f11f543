-- ===== src/Config/Startup.antt =====
-- cmd/mistlink/main.go and utils.go: the flags over the settings, and what stands in for those that are missing.
pub mod Ready
pub mod Restart
mod Tests
use mistlink.Base.{
  ℕ, ltb, ◌+◌, ◌-◌, ◌/◌, ◌%◌, Bool, true, false, List, [], ◌∷◌, Option, none, some, if◌then◌else◌,
  is_empty,
}
use mistlink.Config.{
  Config, Disk, default_input, default_rtsp, default_whip, default_signaling, save, load_or_default,
}

pub record Flags : Type 0 where
  pub room : List ℕ
  pub input : List ℕ
  pub server : List ℕ
  pub rtsp_server : List ℕ
  pub whip_server : List ℕ
  pub show_config : Bool

-- A value that is not empty, or else another.
unfoldable pub or_else : List ℕ → List ℕ → List ℕ
or_else value other = if is_empty value then other else value

unfoldable pub apply_flags : {S : Type 0} → Flags → Config S → Config S
apply_flags f c = record c {
  room_id = or_else f.room c.room_id;
  input_url = or_else f.input c.input_url;
  signaling_server = or_else f.server c.signaling_server;
  rtsp_url = or_else f.rtsp_server c.rtsp_url;
  whip_url = or_else f.whip_server c.whip_url;
}

-- `hex.EncodeToString`
unfoldable pub hex_digit : ℕ → ℕ
hex_digit n = if ltb n 10 then b'0' + n else b'a' + (n - 10)

unfoldable pub hex : List ℕ → List ℕ
hex [] = []
hex (b ∷ bs) = hex_digit (b / 16) ∷ hex_digit (b % 16) ∷ hex bs

-- `generateRoomID`, with the four bytes that `rand.Read` gives.
unfoldable pub generate_room_id : ℕ × ℕ × ℕ × ℕ → List ℕ
generate_room_id (b, c, d, e) = hex (b ∷ c ∷ d ∷ e ∷ [])

-- The fallbacks, with the room id that is made.
unfoldable pub fill_in : {S : Type 0} → List ℕ → Config S → Config S
fill_in generated c = record c {
  signaling_server = or_else c.signaling_server default_signaling;
  room_id = or_else c.room_id generated;
  input_url = or_else c.input_url default_input;
  rtsp_url = or_else c.rtsp_url default_rtsp;
  whip_url = or_else c.whip_url default_whip;
}

module _ {S : Type 0} (server : S) (encode : Config S → Option (List ℕ))
    (decode : List ℕ → Option (Config S)) where
  -- `main`, up to the settings that it calls `Run` with, unless it only shows where they are.
  unfoldable pub start_up : Disk → Flags → ℕ × ℕ × ℕ × ℕ → Disk × Option (Config S)
  start_up d f random =
      let (d', c) = load_or_default server encode decode d in
      let settings = fill_in (generate_room_id random) (apply_flags f c) in
      if f.show_config
      then (d', none)
      else ((save server encode decode d' settings).0, some settings)

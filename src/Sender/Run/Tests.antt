-- ===== src/Sender/Run/Tests.antt =====
-- A client whose first port is taken, and whose WHIP address is no URL.
use mistlink.Base.{
  ◌≤◌, ◌≡◌, leb, arith, ℕ, true, List, [], ◌∷◌, ◌++◌, Option, none, some, if◌then◌else◌, ltb,
}
use mistlink.Base.Text.{codes}
use mistlink.Config.{Config, default_config}
use mistlink.Rtsp.Ports.{Bind, bound, in_use, refused}
use mistlink.Sender.Whip.{port_limit}
use mistlink.Sender.Run.{Outside, Url, run}
use mistlink.Sender.Run.Defers.{Ended, run-Ended}

abbrev taken : ℕ → Bind
taken port = if leb port_limit port then refused else if ltb port 1235 then in_use else bound

taken-refuses : (p : ℕ) → port_limit ≤ p → taken p ≡ refused
taken-refuses p h = ground arith

abbrev settings : Config ℕ
settings = record (default_config 7) { room_id = codes "tea"; whip_url = [] }

-- Every text but the empty one is a URL without a port.
abbrev parse : List ℕ → Option Url
parse [] = none
parse (x ∷ text) = some (record { scheme = codes "rtsp"; port = [] })

abbrev outside : Outside
outside = record {
  resolve = λ text. some 1234;
  address = λ text port. codes "0.0.0.0:" ++ (port ∷ []);
  atoi = λ text. 0;
  parse = parse;
  with_port = λ text port. text;
  udp = taken;
  rtsp = λ rtsp udp. bound;
  tcp = taken;
  signaling = true;
}

run-Ended_example : Ended outside settings (run outside settings)
run-Ended_example = run-Ended outside settings taken-refuses

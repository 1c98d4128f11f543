-- ===== src/Sender/Run.antt =====
-- internal/sender/run.go: what a client opens when it starts, and what it closes when it cannot. The
-- addresses, URLs and numbers that the library parses are parameters, as is what can be bound.
pub mod Defers
mod Tests
use mistlink.Base.{
  ℕ, Bool, true, false, not, ◌&&◌, List, [], ◌∷◌, ◌++◌, Option, none, some, ◌==◌, if◌then◌else◌,
  is_empty, length, drop,
}
use mistlink.Base.Text.{codes, same_text, has_prefix}
use mistlink.Config.{Config}
use mistlink.Rtsp.Ports.{Bind, Started, started, too_many_retries, start_error, start_ports}
use mistlink.Rtsp.Ports
use mistlink.Sender.Whip.{Listened, listening, listen_error, out_of_fuel, listen}

-- The scheme of a URL and the port in its host, which is empty where there is none.
pub record Url : Type 0 where
  pub scheme : List ℕ
  pub port : List ℕ

-- The port that an address resolves to and its text with a port; a text's number; a URL's parts and
-- its text with a port; which ports can be bound; and whether the signaling server is reached.
pub record Outside : Type 0 where
  pub resolve : List ℕ → Option ℕ
  pub address : List ℕ → ℕ → List ℕ
  pub atoi : List ℕ → ℕ
  pub parse : List ℕ → Option Url
  pub with_port : List ℕ → ℕ → List ℕ
  pub udp : ℕ → Bind
  pub rtsp : ℕ → ℕ → Bind
  pub tcp : ℕ → Bind
  pub signaling : Bool

pub data Resource : Type 0 where
  udp_conn sig_client rtp_bridge whip_listener : Resource

pub data RunError : Type 0 where
  udp_addr udp_listen signaling_client rtsp_url_parse rtsp_server_start whip_url_parse : RunError

-- A run: the settings, what it has opened and not closed, and the calls that are deferred.
pub record Frame (S : Type 0) : Type 0 where
  pub cfg : Config S
  pub opened : List Resource
  pub deferred : List Resource

abbrev pub same_resource : Resource → Resource → Bool
same_resource udp_conn udp_conn = true
same_resource sig_client sig_client = true
same_resource rtp_bridge rtp_bridge = true
same_resource whip_listener whip_listener = true
same_resource a b = false

unfoldable pub close_one : Resource → List Resource → List Resource
close_one r [] = []
close_one r (x ∷ xs) = if same_resource x r then xs else x ∷ close_one r xs

unfoldable pub close_all : List Resource → List Resource → List Resource
close_all [] opened = opened
close_all (r ∷ rs) opened = close_all rs (close_one r opened)

abbrev pub udp_scheme : List ℕ
udp_scheme = codes "udp://"

-- `parseUDPAddr`
unfoldable pub parse_udp_addr : Outside → List ℕ → Option ℕ
parse_udp_addr o url =
    if not (has_prefix url udp_scheme) then none else o.resolve (drop (length udp_scheme) url)

abbrev pub default_rtsp_port : ℕ
default_rtsp_port = 554

abbrev pub default_rtsps_port : ℕ
default_rtsps_port = 322

abbrev pub default_http_port : ℕ
default_http_port = 80

abbrev pub default_https_port : ℕ
default_https_port = 443

-- The port of a URL, or the default for its scheme.
unfoldable pub port_of : Outside → List ℕ → ℕ → ℕ → Url → ℕ
port_of o secure secure_port plain_port u =
    if is_empty u.port
    then if same_text u.scheme secure then secure_port else plain_port
    else o.atoi u.port

module _ {S : Type 0} (o : Outside) where
  -- A return, which makes the deferred calls.
  unfoldable pub fail : Frame S → RunError → Frame S × Option RunError
  fail f e = (record f { opened = close_all f.deferred f.opened; deferred = [] }, some e)

  unfoldable pub acquire : Frame S → Resource → Frame S
  acquire f r = record f { opened = r ∷ f.opened; deferred = r ∷ f.deferred }

  -- The WHIP server, whose error is logged only and whose listener stays.
  unfoldable pub serve_whip : Frame S → ℕ → Listened → Frame S × Option RunError
  serve_whip f asked listen_error = (f, none)
  serve_whip f asked out_of_fuel = (f, none)
  serve_whip f asked (listening port) = (
    record f {
      opened = whip_listener ∷ f.opened;
      cfg =
          if not (port == 0) && not (port == asked)
          then record f.cfg { whip_url = o.with_port f.cfg.whip_url port }
          else f.cfg;
    },
    none,
  )

  unfoldable pub start_whip : Frame S → Option Url → Frame S × Option RunError
  start_whip f none = fail f whip_url_parse
  start_whip f (some u) =
      let asked = port_of o (codes "https") default_https_port default_http_port u in
      serve_whip f asked (listen o.tcp asked)

  unfoldable pub bridge_started : Frame S → ℕ → Started → Frame S × Option RunError
  bridge_started f asked (started port udp_port) =
      let cfg : Config S =
        if port == asked
        then f.cfg
        else record f.cfg { rtsp_url = o.with_port f.cfg.rtsp_url port } in
      let g : Frame S = record (acquire f rtp_bridge) { cfg = cfg } in
      start_whip g (o.parse cfg.whip_url)
  bridge_started f asked too_many_retries = fail f rtsp_server_start
  bridge_started f asked start_error = fail f rtsp_server_start
  bridge_started f asked Ports.out_of_fuel = fail f rtsp_server_start

  unfoldable pub start_rtsp : Frame S → Option Url → Frame S × Option RunError
  start_rtsp f none = fail f rtsp_url_parse
  start_rtsp f (some u) =
      let asked = port_of o (codes "rtsps") default_rtsps_port default_rtsp_port u in
      bridge_started f asked (start_ports o.rtsp asked)

  unfoldable pub connect : Frame S → Frame S × Option RunError
  connect f =
      if o.signaling
      then start_rtsp (acquire f sig_client) (o.parse f.cfg.rtsp_url)
      else fail f signaling_client

  -- The port is the one of `addr`, with which `ListenUDP` has succeeded. For 0 the system chooses the
  -- port that the socket has, and the code does not ask for it.
  unfoldable pub socket_bound : Frame S → Listened → Frame S × Option RunError
  socket_bound f listen_error = fail f udp_listen
  socket_bound f out_of_fuel = fail f udp_listen
  socket_bound f (listening port) =
      let url = udp_scheme ++ o.address f.cfg.input_url port in
      connect (record (acquire f udp_conn) { cfg = record f.cfg { input_url = url } })

  unfoldable pub bind_socket : Frame S → Option ℕ → Frame S × Option RunError
  bind_socket f none = fail f udp_addr
  bind_socket f (some port) = socket_bound f (listen o.udp port)

  -- `Run`, until it waits for ever or returns an error.
  unfoldable pub run : Config S → Frame S × Option RunError
  run cfg =
      bind_socket (record { cfg = cfg; opened = []; deferred = [] })
        (parse_udp_addr o cfg.input_url)

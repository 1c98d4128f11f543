-- ===== src/Sender/Run/Defers.antt =====
-- What is open when a client runs, and when it has failed.
use mistlink.Base.{
  ◌≤◌, ℕ, ◌≡◌, refl, ◌∙◌, not, ◌&&◌, List, [], ◌∷◌, ◌++◌, Option, none, some, ◌==◌, if◌then◌else◌,
  if_rule, ◌⊎◌, inl, inr,
}
use mistlink.Config.{Config}
use mistlink.Rtsp.Ports.{
  refused, Bind, Started, started, too_many_retries, start_error, start_ports,
}
use mistlink.Rtsp.Ports
use mistlink.Sender.Whip.{Listened, listening, listen_error, out_of_fuel, port_limit, listen}
use mistlink.Sender.Whip.Listening.{EndsAt, listen-EndsAt}
use mistlink.Sender.Run.{
  Outside, Url, Resource, udp_conn, sig_client, rtp_bridge, whip_listener, RunError,
  rtsp_server_start, rtsp_url_parse, whip_url_parse, signaling_client, Frame, close_one, close_all,
  udp_scheme, parse_udp_addr, fail, acquire, serve_whip, start_whip, bridge_started, start_rtsp,
  connect, socket_bound, bind_socket, run,
}

-- What a running client has open, but for the listener for WHIP.
abbrev pub in_use_by_run : List Resource
in_use_by_run = rtp_bridge ∷ sig_client ∷ udp_conn ∷ []

module _ {S : Type 0} (o : Outside) where
  -- From the settings so far: an error leaves nothing open, and a client that runs has its parts
  -- open and still serves the address that it reads from, in the same room.
  abbrev Settled : Config S → Frame S × Option RunError → Type 0
  Settled c (f, some e) = f.opened ≡ []
  Settled c (f, none) =
      (f.deferred ≡ in_use_by_run)
      × ((f.opened ≡ in_use_by_run) ⊎ (f.opened ≡ whip_listener ∷ in_use_by_run))
      × (f.cfg.input_url ≡ c.input_url)
      × (f.cfg.room_id ≡ c.room_id)

  fail-Settled :
      (c : Config S) (cfg : Config S) (held : List Resource) (e : RunError)
      → close_all held held ≡ []
      → Settled c (fail o (record { cfg = cfg; opened = held; deferred = held }) e)
  unfolding fail
  fail-Settled c cfg held e h = h

  abbrev at : Config S → List Resource → Frame S
  at cfg held = record { cfg = cfg; opened = held; deferred = held }

  serve_whip-Settled :
      (c : Config S) (asked : ℕ) (l : Listened)
      → Settled c (serve_whip o (at c in_use_by_run) asked l)
  unfolding serve_whip
  serve_whip-Settled c asked listen_error = (refl, inl refl, refl, refl)
  serve_whip-Settled c asked out_of_fuel = (refl, inl refl, refl, refl)
  serve_whip-Settled c asked (listening port) =
      let test = not (port == 0) && not (port == asked) in
      (
        refl,
        inr refl,
        if_rule (λ (d : Config S). d.input_url ≡ c.input_url) test refl refl,
        if_rule (λ (d : Config S). d.room_id ≡ c.room_id) test refl refl,
      )

  start_whip-Settled :
      (c : Config S) (u : Option Url) → Settled c (start_whip o (at c in_use_by_run) u)
  unfolding start_whip close_all close_one
  start_whip-Settled c none = fail-Settled c c in_use_by_run whip_url_parse refl
  start_whip-Settled c (some u) = serve_whip-Settled c _ _

  -- Other settings with the same address and room.
  Settled-same :
      (c d : Config S) (r : Frame S × Option RunError)
      → d.input_url ≡ c.input_url
      → d.room_id ≡ c.room_id
      → Settled d r
      → Settled c r
  Settled-same c d (f, some e) hi hr v = v
  Settled-same c d (f, none) hi hr (deferred, opened, input, room) =
      (deferred, opened, input ∙ hi, room ∙ hr)

  bridge_started-Settled :
      (c : Config S) (asked : ℕ) (s : Started)
      → Settled c (bridge_started o (at c (sig_client ∷ udp_conn ∷ [])) asked s)
  unfolding bridge_started acquire close_all close_one
  bridge_started-Settled c asked too_many_retries =
      fail-Settled c c (sig_client ∷ udp_conn ∷ []) rtsp_server_start refl
  bridge_started-Settled c asked start_error =
      fail-Settled c c (sig_client ∷ udp_conn ∷ []) rtsp_server_start refl
  bridge_started-Settled c asked Ports.out_of_fuel =
      fail-Settled c c (sig_client ∷ udp_conn ∷ []) rtsp_server_start refl
  bridge_started-Settled c asked (started port udp_port) =
      let d : Config S =
        if port == asked then c else record c { rtsp_url = o.with_port c.rtsp_url port } in
      Settled-same c d (start_whip o (at d in_use_by_run) (o.parse d.whip_url))
        (if_rule (λ (x : Config S). x.input_url ≡ c.input_url) (port == asked) refl refl)
        (if_rule (λ (x : Config S). x.room_id ≡ c.room_id) (port == asked) refl refl)
        (start_whip-Settled d (o.parse d.whip_url))

  start_rtsp-Settled :
      (c : Config S) (u : Option Url)
      → Settled c (start_rtsp o (at c (sig_client ∷ udp_conn ∷ [])) u)
  unfolding start_rtsp close_all close_one
  start_rtsp-Settled c none = fail-Settled c c (sig_client ∷ udp_conn ∷ []) rtsp_url_parse refl
  start_rtsp-Settled c (some u) = bridge_started-Settled c _ _

  connect-Settled : (c : Config S) → Settled c (connect o (at c (udp_conn ∷ [])))
  unfolding connect acquire close_all close_one
  connect-Settled c =
      if_rule (Settled c) o.signaling (start_rtsp-Settled c (o.parse c.rtsp_url))
        (fail-Settled c c (udp_conn ∷ []) signaling_client refl)

  -- What a run comes to.
  abbrev pub Ended : Config S → Frame S × Option RunError → Type 0
  Ended c (f, some e) = f.opened ≡ []
  Ended c (f, none) =
      ((f.opened ≡ in_use_by_run) ⊎ (f.opened ≡ whip_listener ∷ in_use_by_run))
      × (f.deferred ≡ in_use_by_run)
      × (f.cfg.room_id ≡ c.room_id)
      × ((first port : ℕ) × (parse_udp_addr o c.input_url ≡ some first)
          × EndsAt o.udp first (listening port)
          × (f.cfg.input_url ≡ udp_scheme ++ o.address c.input_url port))

  Settled-Ended :
      (c d : Config S) (first port : ℕ) (r : Frame S × Option RunError)
      → parse_udp_addr o c.input_url ≡ some first
      → EndsAt o.udp first (listening port)
      → d.input_url ≡ udp_scheme ++ o.address c.input_url port
      → d.room_id ≡ c.room_id
      → Settled d r
      → Ended c r
  Settled-Ended c d first port (f, some e) hp hl hi hr v = v
  Settled-Ended c d first port (f, none) hp hl hi hr (deferred, opened, input, room) =
      (opened, deferred, room ∙ hr, (first, port, hp, hl, input ∙ hi))

  socket_bound-Ended :
      (c : Config S) (first : ℕ) (l : Listened)
      → parse_udp_addr o c.input_url ≡ some first
      → EndsAt o.udp first l
      → Ended c (socket_bound o (at c []) l)
  unfolding socket_bound acquire fail close_all
  socket_bound-Ended c first listen_error hp hl = refl
  socket_bound-Ended c first out_of_fuel hp hl = refl
  socket_bound-Ended c first (listening port) hp hl =
      let d : Config S = record c { input_url = udp_scheme ++ o.address c.input_url port } in
      Settled-Ended c d first port (connect o (at d (udp_conn ∷ []))) hp hl refl refl
        (connect-Settled d)

  bind_socket-Ended :
      (c : Config S) (first : Option ℕ)
      → ((p : ℕ) → port_limit ≤ p → o.udp p ≡ refused)
      → parse_udp_addr o c.input_url ≡ first
      → Ended c (bind_socket o (at c []) first)
  unfolding bind_socket fail close_all
  bind_socket-Ended c none refuses h = refl
  bind_socket-Ended c (some first) refuses h =
      socket_bound-Ended c first (listen o.udp first) h (listen-EndsAt o.udp first refuses)

  -- If no port of 65536 or above can be bound, and the attempt there fails with another error than
  -- that it is in use, then whatever can be resolved, parsed, bound and reached: when the run
  -- returns an error, nothing that it has opened is left open; when it goes on to wait, the
  -- socket, the signaling client and the bridge are open and are closed by its deferred calls,
  -- beside them at most the listener for WHIP is open, the room is the one of the settings, and
  -- the input URL names the port that the socket was opened with, which is the first one that is
  -- not in use from the one that it named before, also where that is 0, for any port.
  pub run-Ended :
      (c : Config S) → ((p : ℕ) → port_limit ≤ p → o.udp p ≡ refused) → Ended c (run o c)
  unfolding run
  run-Ended c refuses = bind_socket-Ended c (parse_udp_addr o c.input_url) refuses refl

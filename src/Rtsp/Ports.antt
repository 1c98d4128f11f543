-- ===== src/Rtsp/Ports.antt =====
-- internal/rtsp/server.go, StartServer: the search for free ports. Whether the library's server
-- starts on a pair of ports is a parameter.
pub mod Search
use mistlink.Base.{ℕ, zero, suc, ◌+◌, Bool, List, ltb, if◌then◌else◌}

abbrev pub default_udp_port : ℕ
default_udp_port = 8000

abbrev pub max_port_retries : ℕ
max_port_retries = 100

-- What `srv.Start` returns: no error, one that says that the address is in use, or any other.
pub data Bind : Type 0 where
  bound in_use refused : Bind

pub data Started : Type 0 where
  -- the RTSP port and the first UDP port
  started : ℕ → ℕ → Started
  too_many_retries : Started
  start_error : Started
  out_of_fuel : Started

-- The loop of `StartServer` on fuel, over the current two ports.
unfoldable pub port_loop : (ℕ → ℕ → Bind) → ℕ → ℕ → ℕ → ℕ → Started
port_loop bind rtsp_port zero rtsp udp = out_of_fuel
port_loop bind rtsp_port (suc fuel) rtsp udp =
    let next = port_loop bind rtsp_port fuel (rtsp + 1) (udp + 2) in
    elim (bind rtsp udp) [
      | bound ↦ started rtsp udp
      | in_use ↦ if ltb (rtsp_port + max_port_retries) (rtsp + 1) then too_many_retries else next
      | refused ↦ start_error
    ]

-- One attempt for the port that is asked for, and one for each retry.
unfoldable pub start_ports : (ℕ → ℕ → Bind) → ℕ → Started
start_ports bind rtsp_port = port_loop bind rtsp_port 101 rtsp_port default_udp_port

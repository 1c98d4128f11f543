-- ===== src/Rtsp/Ports/Search.antt =====
-- Which ports the server starts on.
use mistlink.Base.{ℕ, zero, suc, ◌+◌, ◌-◌, ◌*◌, ◌≤◌, ◌<◌, ◌≡◌, refl, ◌∙◌, ap, arith}
use mistlink.Rtsp.Ports.{
  Bind, bound, in_use, refused, Started, started, too_many_retries, start_error, port_loop,
  start_ports, default_udp_port,
}

module _ (bind : ℕ → ℕ → Bind) (port : ℕ) where
  -- The k-th attempt.
  abbrev pub attempt : ℕ → Bind
  attempt k = bind (port + k) (default_udp_port + 2 * k)

  abbrev pub loop_at : ℕ → ℕ → Started
  loop_at fuel k = port_loop bind port fuel (port + k) (default_udp_port + 2 * k)

  busy_round :
      (fuel k : ℕ) → k < 100 → attempt k ≡ in_use → loop_at (suc fuel) k ≡ loop_at fuel (k + 1)
  unfolding port_loop
  busy_round fuel k h busy =
      let next : port + k + 1 ≡ port + (k + 1) = omega arith in
      let udp : default_udp_port + 2 * k + 2 ≡ default_udp_port + 2 * (k + 1) = omega arith in
      rw (busy, port_loop, next, udp) (ground arith)

  abbrev pub Busy : ℕ → Type 0
  Busy k = (j : ℕ) → j < k → attempt j ≡ in_use

  skip-Busy : (k : ℕ) → k ≤ 100 → Busy k → loop_at 101 0 ≡ loop_at (101 - k) k
  skip-Busy zero h busy = ap (λ f. loop_at f 0) (omega arith)
  skip-Busy (suc k) h busy =
      let fuel : 101 - k ≡ suc (101 - suc k) = omega arith in
      let next : k + 1 ≡ suc k = omega arith in
      skip-Busy k (omega arith) (λ j hj. busy j (omega arith))
      ∙ ap (λ f. loop_at f k) fuel
      ∙ busy_round (101 - suc k) k (omega arith) (busy k (omega arith))
      ∙ ap (loop_at (101 - suc k)) next

  first_round : start_ports bind port ≡ loop_at 101 0
  unfolding start_ports
  first_round =
      let p : port ≡ port + 0 = omega arith in
      let u : default_udp_port ≡ default_udp_port + 2 * 0 = omega arith in
      ap (λ q. port_loop bind port 101 q default_udp_port) p
      ∙ ap (port_loop bind port 101 (port + 0)) u

  abbrev outcome : Bind → ℕ → Started
  outcome bound k = started (port + k) (default_udp_port + 2 * k)
  outcome in_use k = too_many_retries
  outcome refused k = start_error

  last_round :
      (fuel k : ℕ) → (attempt k ≡ in_use → k ≡ 100) → loop_at (suc fuel) k ≡ outcome (attempt k) k
  unfolding port_loop
  last_round fuel k h = ground arith

  outcome_lem :
      (b : Bind) (k : ℕ)
      → outcome b k ≡ elim b [
        | bound ↦ started (port + k) (default_udp_port + 2 * k)
        | in_use ↦ too_many_retries
        | refused ↦ start_error
      ]
  outcome_lem bound k = refl
  outcome_lem in_use k = refl
  outcome_lem refused k = refl

  -- After k ≤ 100 attempts that find the ports in use, the outcome is that of attempt k if this
  -- is the first that finds them free, or fails otherwise, or if it is the last one allowed: the
  -- server starts on the k-th pair of ports, gives up after 101 attempts, or returns the other
  -- error. The search never runs out of fuel.
  start_ports_lem :
      (k : ℕ)
      → k ≤ 100
      → ((j : ℕ) → j < k → attempt j ≡ in_use)
      → (attempt k ≡ in_use → k ≡ 100)
      → start_ports bind port ≡ elim (attempt k) [
        | bound ↦ started (port + k) (default_udp_port + 2 * k)
        | in_use ↦ too_many_retries
        | refused ↦ start_error
      ]
  start_ports_lem k h busy stop =
      let fuel : 101 - k ≡ suc (100 - k) = omega arith in
      first_round
      ∙ skip-Busy k h busy
      ∙ ap (λ f. loop_at f k) fuel
      ∙ last_round (100 - k) k stop
      ∙ outcome_lem (attempt k) k

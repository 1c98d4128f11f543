-- ===== src/Sender/Whip/Listening.antt =====
-- Which port is listened on.
use mistlink.Base.{
  ℕ, zero, suc, ◌+◌, ◌-◌, ◌≤◌, ◌<◌, ◌≡◌, refl, ◌∙◌, Bool, true, false, arith, inl, inr, ◌⊎◌, ltb,
  leb, ◌||◌, ==→eq, ◌==◌, ap, sym, Bool-cases,
}
use mistlink.Rtsp.Ports.{Bind, bound, in_use, refused}
use mistlink.Sender.Whip.{
  Listened, listening, listen_error, out_of_fuel, listen_loop, listen, port_limit,
}

abbrev pub is_in_use : Bind → Bool
is_in_use bound = false
is_in_use in_use = true
is_in_use refused = false

-- What an attempt that ends the search makes of it.
abbrev pub outcome : Bind → ℕ → Listened
outcome bound port = listening port
outcome in_use port = out_of_fuel
outcome refused port = listen_error

-- The first port from one on that is not in use, and the search ends there.
pub record EndsAt (bind : ℕ → Bind) (port : ℕ) (result : Listened) : Type 0 where
  pub last : ℕ
  pub after : port ≤ last
  pub busy : (p : ℕ) → (ltb p port || leb last p || is_in_use (bind p)) ≡ true
  pub free : is_in_use (bind last) ≡ false
  pub ends : result ≡ outcome (bind last) last

Bind-cases : (b : Bind) → (b ≡ bound) ⊎ ((b ≡ in_use) ⊎ (b ≡ refused))
Bind-cases bound = inl refl
Bind-cases in_use = inr (inl refl)
Bind-cases refused = inr (inr refl)

module _ (bind : ℕ → Bind) where
  loop_ends :
      (fuel port : ℕ)
      → ((p : ℕ) → port_limit ≤ p → bind p ≡ refused)
      → port_limit - port < fuel
      → EndsAt bind port (listen_loop bind fuel port)
  unfolding listen_loop
  loop_ends zero port refuses h = absurd (omega (arith, h))
  loop_ends (suc fuel) port refuses h = elim (Bind-cases (bind port)) [
    | inl b ↦ record {
      last = port;
      after = omega arith;
      busy = λ p. ground arith;
      free = rw (b) refl;
      ends = rw (b, listen_loop) refl;
    }
    | inr (inr r) ↦ record {
      last = port;
      after = omega arith;
      busy = λ p. ground arith;
      free = rw (r) refl;
      ends = rw (r, listen_loop) refl;
    }
    | inr (inl u) ↦
        let high : port < port_limit = elim (Bool-cases (ltb port port_limit)) [
          | inl low ↦ ground (arith, low)
          | inr over ↦
              absurd (ground (arith, ap is_in_use (sym u ∙ refuses port (ground (arith, over)))))
        ] in
        let later = loop_ends fuel (port + 1) refuses (omega (arith, h, high)) in
        record {
          last = later.last;
          after = omega (arith, later.after);
          busy = λ p.
              let here : (p == port) ≡ true → is_in_use (bind p) ≡ true =
                λ e. rw (==→eq p port e, u) refl in
              ground (arith, later.busy p, here);
          free = later.free;
          ends = rw (u, listen_loop) later.ends;
        }
  ]

  -- If no port of 65536 or above can be bound, and the attempt there fails with another error than
  -- that it is in use: the search ends, at the first port from the given one on that is not in
  -- use, and either listens on it or returns the error of that attempt.
  pub listen-EndsAt :
      (port : ℕ)
      → ((p : ℕ) → port_limit ≤ p → bind p ≡ refused)
      → EndsAt bind port (listen bind port)
  unfolding listen
  listen-EndsAt port refuses = loop_ends (suc (port_limit - port)) port refuses (omega arith)

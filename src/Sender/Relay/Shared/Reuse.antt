-- ===== src/Sender/Relay/Shared/Reuse.antt =====
-- A relay that gets every packet under one address, as HandleMPEGTSStream of
-- internal/sender/mpegts_to_rtp.go hands it on.
use mathlib.Core.Path.{subst}
use mathlib.Core.List.{append-nil, append_assoc}
use mistlink.Base.{
  ℕ, zero, suc, ◌+◌, ◌≤◌, ◌<◌, ◌≡◌, refl, sym, ◌∙◌, ap, Bool, true, false, List, [], ◌∷◌, ◌++◌, map,
  Option, length, arith, All, replicate, replicate-snoc, length-replicate,
}
use mistlink.RtpUtils.{Packet, payload_type_h264}
use mistlink.Sender.Relay.{relay_capacity, ignores}
use mistlink.Sender.Relay.Shared.{
  SharedRelay, new_shared_relay, set_packet, hear_reference, write_reference, take_reference,
  SharedEvent, hears, takes, shared_step, shared_loop, set_packet-same,
}

module _ (ignore : Option (ℕ → Bool)) (video audio : Bool) where
  shared_loop-append :
      (r : SharedRelay) (es fs : List SharedEvent)
      → shared_loop ignore video audio r (es ++ fs)
        ≡ shared_loop ignore video audio (shared_loop ignore video audio r es) fs
  unfolding shared_loop
  shared_loop-append r [] fs = refl
  shared_loop-append r (e ∷ es) fs = shared_loop-append (shared_step ignore video audio r e) es fs

  -- A packet that is not ignored, with room in the channel.
  hear_reference-room :
      (a : ℕ) (p : Packet) (r : SharedRelay)
      → ignores ignore p ≡ false
      → length r.chan < relay_capacity
      → hear_reference ignore a p r
        ≡ record r { store = set_packet a p r.store; chan = r.chan ++ (a ∷ []) }
  unfolding hear_reference set_packet
  hear_reference-room a p r h room = ground arith

  shared_loop-hears :
      (ps : List Packet) (r : SharedRelay) (k : ℕ)
      → r.chan ≡ replicate k 0
      → All (λ p. ignores ignore p ≡ false) ps
      → k + length ps ≤ relay_capacity
      → let s = shared_loop ignore video audio r (map (hears 0) ps) in
        (s.chan ≡ replicate (k + length ps) 0) × (s.video ≡ r.video) × (s.audio ≡ r.audio)
  unfolding shared_loop shared_step
  shared_loop-hears [] r k e h room = (e ∙ ap (λ m. replicate m 0) (omega arith), refl, refl)
  shared_loop-hears (p ∷ ps) r k e h room =
      let heard_one =
        hear_reference-room 0 p r h.0 (omega (arith, ap length e ∙ length-replicate {A = ℕ} k 0)) in
      let (chan, video', audio') =
        shared_loop-hears ps
          (record r { store = set_packet 0 p r.store; chan = r.chan ++ (0 ∷ []) }) (suc k)
          (rw (e) (replicate-snoc k 0)) h.1 (omega arith) in
      subst
        (λ s.
          let end = shared_loop ignore video audio s (map (hears 0) ps) in
          (end.chan ≡ replicate (k + suc (length ps)) 0)
          × (end.video ≡ r.video)
          × (end.audio ≡ r.audio))
        (sym heard_one) (chan ∙ ap (λ m. replicate m 0) (omega arith), video', audio')

  take_reference-h264 :
      (r : SharedRelay) (a : ℕ) (rest : List ℕ) (p : Packet)
      → r.chan ≡ a ∷ rest
      → r.store a ≡ p
      → p.payload_type ≡ payload_type_h264
      → video ≡ true
      → take_reference video audio r ≡ record r { chan = rest; video = r.video ++ (p ∷ []) }
  unfolding take_reference write_reference
  take_reference-h264 r a rest p e st t v = rw (e, st, t, v) refl

  shared_loop-takes :
      (n : ℕ) (r : SharedRelay) (p : Packet)
      → r.chan ≡ replicate n 0
      → r.store 0 ≡ p
      → p.payload_type ≡ payload_type_h264
      → video ≡ true
      → (shared_loop ignore video audio r (replicate n takes)).video ≡ r.video ++ replicate n p
  unfolding shared_loop shared_step
  shared_loop-takes zero r p e st t v = sym (append-nil r.video)
  shared_loop-takes (suc n) r p e st t v =
      let taken_one = take_reference-h264 r 0 (replicate n 0) p e st t v in
      ap (λ s. (shared_loop ignore video audio s (replicate n takes)).video) taken_one
      ∙ (shared_loop-takes n (record r { chan = replicate n 0; video = r.video ++ (p ∷ []) }) p refl
            st t v
          ∙ append_assoc r.video (p ∷ []) (replicate n p))

  -- With room for one packet more: when packets that are not ignored come one after the other
  -- under one address and the relay takes them afterwards, its video track, if it has one, gets the
  -- last of them, a packet of H.264, once for each of them, and none of the others.
  pub shared_loop-reused :
      (ps : List Packet) (p : Packet)
      → video ≡ true
      → length ps < relay_capacity
      → All (λ q. ignores ignore q ≡ false) ps
      → ignores ignore p ≡ false
      → p.payload_type ≡ payload_type_h264
      → (shared_loop ignore video audio new_shared_relay
          (map (hears 0) ps ++ hears 0 p ∷ replicate (suc (length ps)) takes)).video
        ≡ replicate (suc (length ps)) p
  unfolding shared_loop shared_step
  shared_loop-reused ps p v room heard_ps heard_p t =
      let before = shared_loop ignore video audio new_shared_relay (map (hears 0) ps) in
      let (from_none, empty, _) =
        shared_loop-hears ps new_shared_relay 0 refl heard_ps (omega arith) in
      let chan : before.chan ≡ replicate (length ps) 0 =
        from_none ∙ ap (λ m. replicate m 0) (omega arith) in
      let heard_one =
        hear_reference-room 0 p before heard_p
          (omega (arith, ap length chan ∙ length-replicate {A = ℕ} (length ps) 0)) in
      let after : SharedRelay = record before {
        store = set_packet 0 p before.store;
        chan = before.chan ++ (0 ∷ []);
      } in
      ap (λ (s : SharedRelay). s.video)
        (shared_loop-append new_shared_relay (map (hears 0) ps)
          (hears 0 p ∷ replicate (suc (length ps)) takes))
      ∙ ap (λ s. (shared_loop ignore video audio s (replicate (suc (length ps)) takes)).video)
          heard_one
      ∙ shared_loop-takes (suc (length ps)) after p (rw (chan) (replicate-snoc (length ps) 0))
          (set_packet-same 0 p before.store) t v
      ∙ ap (λ ws. ws ++ replicate (suc (length ps)) p) empty

-- ===== src/Receiver/RtspBuffer/Waiting.antt =====
-- How long a packet waits that comes after its successors were sent, and what becomes of those after
-- it.
use mistlink.Base.{
  ℕ, suc, ◌+◌, ◌-◌, ◌<◌, ◌≡◌, refl, sym, ◌∙◌, ap, Bool, true, false, List, [], ◌∷◌, map, none, some,
  arith, is_empty, not, ◌&&◌, ltb, ◌==◌, if◌then◌else◌, Bool-cases, inl, inr,
}
use mistlink.Base.Words.{add16}
use mistlink.Base.Members.{remove_first}
use mistlink.RtpUtils.{Packet}
use mistlink.Receiver.RtspBuffer.Rewrite.{payload-rewrite}
use mistlink.Receiver.RtspBuffer.{
  BufferedPacket, Lane, max_flush_batch, max_stale_packet_age, store, update,
}
use mistlink.Receiver.RtspBuffer.Flushing.{
  FlushState, after_send, flush_loop, next_round, jump, stop,
}

abbrev pub payloads_of : List Packet → List (List ℕ)
payloads_of = map (λ (pkt : Packet). pkt.payload)

abbrev pub is_late : ℕ → ℕ → Bool
is_late now received = ltb max_stale_packet_age (now - received)

-- No packet is held.
pub record IsIdle (lane : Lane) : Type 0 where
  pub no_order : lane.order ≡ []
  pub no_slots : (k : ℕ) → lane.slots k ≡ none

-- A flush that begins after a packet has come in.
abbrev pub after_arrival : FlushState → Packet → ℕ → FlushState
after_arrival s pkt now = record s { lane = (store s.lane pkt now).0; sent_in_batch = 0 }

-- A packet alone in its lane.
abbrev slot_of : Packet → ℕ → BufferedPacket
slot_of pkt now = record { pkt = pkt; received = now; payload_type = pkt.payload_type }

abbrev alone : FlushState → Packet → ℕ → FlushState
alone s pkt now = record s {
  lane = record {
    slots = update s.lane.slots pkt.sequence_number (some (slot_of pkt now));
    order = pkt.sequence_number ∷ [];
  };
  sent_in_batch = 0;
}

after_arrival-alone :
    (s : FlushState) (pkt : Packet) (now : ℕ)
    → IsIdle s.lane
    → after_arrival s pkt now ≡ alone s pkt now
unfolding store
after_arrival-alone s pkt now idle =
    rw (store, idle.no_slots pkt.sequence_number, idle.no_order) refl

module _ (clock : ℕ → ℕ) (pt : ℕ) where
  -- The loop ends where nothing is held.
  empty_round :
      (fuel i : ℕ) (s : FlushState)
      → s.lane.order ≡ []
      → flush_loop clock pt (suc fuel) i s ≡ (s, [])
  unfolding flush_loop
  empty_round fuel i s none_held =
      let test : (ltb s.sent_in_batch max_flush_batch && not (is_empty s.lane.order)) ≡ false =
        ground arith in
      rw (test, flush_loop) refl

  stop_round :
      (fuel i : ℕ) (s : FlushState)
      → next_round s.lane s.next (clock i) ≡ stop
      → flush_loop clock pt (suc fuel) i s ≡ (s, [])
  unfolding flush_loop
  stop_round fuel i s e =
      elim (Bool-cases (ltb s.sent_in_batch max_flush_batch && not (is_empty s.lane.order))) [
        | inl test ↦ rw (test, flush_loop, e) refl
        | inr test ↦ rw (test, flush_loop) refl
      ]

  open_lane :
      (s : FlushState) (oldest : ℕ)
      → s.lane.order ≡ oldest ∷ []
      → s.sent_in_batch ≡ 0
      → (ltb s.sent_in_batch max_flush_batch && not (is_empty s.lane.order)) ≡ true
  open_lane s oldest head room = ground (arith, head, room)

  jump_round :
      (fuel i oldest : ℕ) (s : FlushState)
      → s.lane.order ≡ oldest ∷ []
      → s.sent_in_batch ≡ 0
      → next_round s.lane s.next (clock i) ≡ jump oldest
      → flush_loop clock pt (suc fuel) i s
        ≡ flush_loop clock pt fuel (i + 1) (record s { next = oldest })
  unfolding flush_loop
  jump_round fuel i oldest s head room e = rw (open_lane s oldest head room, flush_loop, e) refl

  after_send-empty :
      (s : FlushState) (b : BufferedPacket) (oldest : ℕ)
      → s.lane.order ≡ oldest ∷ []
      → s.next ≡ oldest
      → (after_send s pt b).0.lane.order ≡ []
  unfolding after_send remove_first
  after_send-empty s b oldest head here =
      let same : (oldest == s.next) ≡ true = ground (arith, here) in
      rw (head, remove_first, same) refl

  -- The one packet that is held leaves, and the loop ends.
  last_round :
      (fuel i oldest : ℕ) (s : FlushState) (b : BufferedPacket)
      → s.lane.order ≡ oldest ∷ []
      → s.sent_in_batch ≡ 0
      → s.next ≡ oldest
      → s.lane.slots s.next ≡ some b
      → flush_loop clock pt (suc (suc fuel)) i s
        ≡ ((after_send s pt b).0, (after_send s pt b).1 ∷ [])
  unfolding flush_loop next_round
  last_round fuel i oldest s b head room here held =
      let end =
        empty_round fuel (i + 1) (after_send s pt b).0 (after_send-empty s b oldest head here) in
      rw (open_lane s oldest head room, flush_loop, held)
        (ap (λ (r : FlushState × List Packet). (r.0, (after_send s pt b).1 ∷ r.1)) end)

  alone_waits :
      (fuel : ℕ) (s : FlushState) (pkt : Packet) (now : ℕ)
      → IsIdle s.lane
      → (pkt.sequence_number == s.next) ≡ false
      → is_late (clock 0) now ≡ false
      → flush_loop clock pt (suc fuel) 0 (alone s pkt now) ≡ (alone s pkt now, [])
  unfolding next_round
  alone_waits fuel s pkt now idle apart fresh =
      stop_round fuel 0 (alone s pkt now) (ground (arith, idle.no_slots s.next))

  alone_leaves :
      (fuel : ℕ) (s : FlushState) (pkt : Packet) (now : ℕ)
      → IsIdle s.lane
      → (pkt.sequence_number == s.next) ≡ false
      → is_late (clock 0) now ≡ true
      → let sent =
          after_send
            (record (alone s pkt now) { next = pkt.sequence_number })
            pt
            (slot_of pkt now) in
        flush_loop clock pt (suc (suc (suc fuel))) 0 (alone s pkt now) ≡ (sent.0, sent.1 ∷ [])
  unfolding next_round
  alone_leaves fuel s pkt now idle apart stale =
      jump_round (suc (suc fuel)) 0 pkt.sequence_number (alone s pkt now) refl refl
        (ground (arith, idle.no_slots s.next))
      ∙ last_round fuel 1 pkt.sequence_number
          (record (alone s pkt now) { next = pkt.sequence_number }) (slot_of pkt now) refl refl refl
          (ground arith)

  -- What the flush leaves when the packet has left: nothing, and the number after it is awaited.
  after_send-IsIdle :
      (s : FlushState) (pkt : Packet) (now : ℕ)
      → IsIdle s.lane
      → let s' =
          (after_send
            (record (alone s pkt now) { next = pkt.sequence_number })
            pt
            (slot_of pkt now)).0 in
        IsIdle s'.lane × (s'.next ≡ add16 pkt.sequence_number 1)
  unfolding after_send
  after_send-IsIdle s pkt now idle = (
    record {
      no_order =
          after_send-empty (record (alone s pkt now) { next = pkt.sequence_number })
            (slot_of pkt now) pkt.sequence_number refl refl;
      no_slots = λ k. ground (arith, idle.no_slots k);
    },
    refl,
  )

  arrival-flush :
      (fuel : ℕ) (s : FlushState) (pkt : Packet) (now : ℕ)
      → IsIdle s.lane
      → (pkt.sequence_number == s.next) ≡ false
      → payloads_of (flush_loop clock pt (suc (suc (suc fuel))) 0 (after_arrival s pkt now)).1
        ≡ (if is_late (clock 0) now then pkt.payload ∷ [] else [])
  unfolding after_send
  arrival-flush fuel s pkt now idle apart = elim (Bool-cases (is_late (clock 0) now)) [
    | inl stale ↦
        rw (stale, after_arrival-alone s pkt now idle, alone_leaves fuel s pkt now idle apart stale)
          (ap (λ xs. xs ∷ []) (payload-rewrite s.rewriter pt pkt))
    | inr fresh ↦
        rw
          (
            fresh,
            after_arrival-alone s pkt now idle,
            alone_waits (suc (suc fuel)) s pkt now idle apart fresh,
          )
          refl
  ]

  -- A packet that is awaited leaves at once.
  awaited-flush :
      (fuel : ℕ) (s : FlushState) (pkt : Packet) (now : ℕ)
      → IsIdle s.lane
      → pkt.sequence_number ≡ s.next
      → payloads_of (flush_loop clock pt (suc (suc (suc fuel))) 0 (after_arrival s pkt now)).1
        ≡ pkt.payload ∷ []
  unfolding after_send
  awaited-flush fuel s pkt now idle here =
      rw
        (
          after_arrival-alone s pkt now idle,
          last_round (suc fuel) 0 pkt.sequence_number (alone s pkt now) (slot_of pkt now) refl refl
              (sym here) (ground (arith, here)),
        )
        (ap (λ xs. xs ∷ []) (payload-rewrite s.rewriter pt pkt))

-- A packet comes that is not the awaited one, while none is held, and leaves with a flush when it is
-- older than a tenth of a second; then the packet comes that was awaited before. If it is not the
-- number after the first one, the next flush hands it on only when it is older than a tenth of a
-- second too, and otherwise hands on nothing: without the first packet, it would have left with any
-- flush. Each flush has fuel for three rounds or more.
pub flush_loop-late :
    (clock clock' : ℕ → ℕ) (pt fuel : ℕ) (s : FlushState) (late awaited : Packet) (now now' : ℕ)
    → IsIdle s.lane
    → (late.sequence_number == s.next) ≡ false
    → awaited.sequence_number ≡ s.next
    → (add16 late.sequence_number 1 == s.next) ≡ false
    → max_stale_packet_age < clock 0 - now
    → let first = flush_loop clock pt (suc (suc (suc fuel))) 0 (after_arrival s late now) in
      let second =
        flush_loop clock' pt (suc (suc (suc fuel))) 0 (after_arrival first.0 awaited now') in
      let without = flush_loop clock' pt (suc (suc (suc fuel))) 0 (after_arrival s awaited now') in
      (payloads_of first.1 ≡ late.payload ∷ [])
      × (payloads_of second.1 ≡ (if is_late (clock' 0) now' then awaited.payload ∷ [] else []))
      × (payloads_of without.1 ≡ awaited.payload ∷ [])
flush_loop-late clock clock' pt fuel s late awaited now now' idle apart number behind stale =
    let old : is_late (clock 0) now ≡ true = ground (arith, stale) in
    let (idle', next') = after_send-IsIdle clock pt s late now idle in
    let left =
      after_send (record (alone s late now) { next = late.sequence_number }) pt
        (slot_of late now) in
    let first_end =
      ap (flush_loop clock pt (suc (suc (suc fuel))) 0) (after_arrival-alone s late now idle)
      ∙ alone_leaves clock pt fuel s late now idle apart old in
    (
      arrival-flush clock pt fuel s late now idle apart
          ∙ ap (λ (b : Bool). if b then late.payload ∷ [] else []) old,
      ap
            (λ (r : FlushState × List Packet).
              payloads_of
                (flush_loop clock' pt (suc (suc (suc fuel))) 0 (after_arrival r.0 awaited now')).1)
            first_end
          ∙ arrival-flush clock' pt fuel left.0 awaited now' idle'
              (ground (arith, number, behind, next')),
      awaited-flush clock' pt fuel s awaited now' idle number,
    )

-- ===== src/Receiver/RtspBuffer/Flush.antt =====
-- The flush loop of a lane: an induction rule for it, and that its fuel is enough.
use mistlink.Base.{
  is_some, sym, ℕ, zero, suc, ◌+◌, ◌-◌, ◌*◌, ◌≤◌, ◌<◌, ◌≡◌, refl, ap, ◌∙◌, true, false, ◌&&◌, not,
  List, [], ◌∷◌, some, ltb, if◌then◌else◌, is_empty, arith, ◌⊎◌, inl, inr, Bool-cases,
}
use mistlink.RtpUtils.{Packet}
use mistlink.Receiver.RtspBuffer.{Lane, BufferedPacket, max_flush_batch}
use mistlink.Receiver.RtspBuffer.Flushing.{
  Round, stop, jump, send, next_round, FlushState, after_send, flush_loop,
}

pub Round-cases :
    (r : Round) → (r ≡ stop) ⊎ ((o : ℕ) × (r ≡ jump o)) ⊎ ((b : BufferedPacket) × (r ≡ send b))
Round-cases stop = inl refl
Round-cases (jump o) = inr (inl (o, refl))
Round-cases (send b) = inr (inr (b, refl))

-- A packet is sent from the slot that is next.
pub next_round-send :
    (lane : Lane) (next now : ℕ) (b : BufferedPacket)
    → next_round lane next now ≡ send b
    → lane.slots next ≡ some b
unfolding next_round
next_round-send lane next now b e = ground arith

-- The loop jumps only to a filled slot, from an empty one.
pub next_round-jump :
    (lane : Lane) (next now o : ℕ)
    → next_round lane next now ≡ jump o
    → (is_some (lane.slots next) ≡ false) × (is_some (lane.slots o) ≡ true)
unfolding next_round
next_round-jump lane next now o e = ground arith

-- Induction over the rounds of the loop.
pub flush_loop_rule {ℓ} :
    (clock : ℕ → ℕ) (pt : ℕ) (P : FlushState → FlushState → List Packet → Type ℓ)
    → ((s : FlushState) → P s s [])
    → ((s end : FlushState) (o : ℕ) (pkts : List Packet)
        → P (record s { next = o }) end pkts
        → P s end pkts)
    → ((s end : FlushState) (b : BufferedPacket) (pkts : List Packet)
        → s.lane.slots s.next ≡ some b
        → s.sent_in_batch < max_flush_batch
        → P (after_send s pt b).0 end pkts
        → P s end ((after_send s pt b).1 ∷ pkts))
    → (fuel i : ℕ) (s : FlushState) → let (end, pkts) = flush_loop clock pt fuel i s in P s end pkts
unfolding flush_loop
flush_loop_rule clock pt P stops jumps sends zero i s = stops s
flush_loop_rule clock pt P stops jumps sends (suc fuel) i s =
    elim (Bool-cases (ltb s.sent_in_batch max_flush_batch && not (is_empty s.lane.order))) [
      | inr e ↦ rw (e, flush_loop) (stops s)
      | inl e ↦ elim (Round-cases (next_round s.lane s.next (clock i))) [
        | inl r ↦ rw (e, flush_loop, r) (stops s)
        | inr (inl (o, r)) ↦
            rw (e, flush_loop, r)
              (jumps s _ o _
                (flush_loop_rule clock pt P stops jumps sends fuel (i + 1) (record s { next = o })))
        | inr (inr (b, r)) ↦
            rw (e, flush_loop, r)
              (sends s _ b _ (next_round-send s.lane s.next (clock i) b r) (ground arith)
                (flush_loop_rule clock pt P stops jumps sends fuel (i + 1) (after_send s pt b).0))
      ]
    ]

-- Twice the packets that the batch may still take, and one if the next one is missing.
abbrev pub rounds : FlushState → ℕ
rounds s =
    2 * (max_flush_batch - s.sent_in_batch) + (if is_some (s.lane.slots s.next) then 0 else 1)

pub after_send-rounds :
    (s : FlushState) (pt : ℕ) (b : BufferedPacket)
    → s.sent_in_batch < max_flush_batch
    → rounds (after_send s pt b).0 < 2 * (max_flush_batch - s.sent_in_batch)
unfolding after_send
after_send-rounds s pt b h = ground arith

full_batch :
    (clock : ℕ → ℕ) (pt fuel i : ℕ) (s : FlushState)
    → rounds s ≤ 0
    → flush_loop clock pt fuel i s ≡ (s, [])
unfolding flush_loop
full_batch clock pt zero i s h = refl
full_batch clock pt (suc fuel) i s h = ground arith

rounds_enough :
    (clock : ℕ → ℕ) (pt f f' i : ℕ) (s : FlushState)
    → rounds s ≤ f
    → rounds s ≤ f'
    → flush_loop clock pt f i s ≡ flush_loop clock pt f' i s
unfolding flush_loop
rounds_enough clock pt zero f' i s h h' =
    full_batch clock pt zero i s h ∙ sym (full_batch clock pt f' i s h)
rounds_enough clock pt (suc f) zero i s h h' =
    full_batch clock pt (suc f) i s h' ∙ sym (full_batch clock pt zero i s h')
rounds_enough clock pt (suc f) (suc f') i s h h' =
    elim (Bool-cases (ltb s.sent_in_batch max_flush_batch && not (is_empty s.lane.order))) [
      | inr e ↦ rw (e, flush_loop)
      | inl e ↦ elim (Round-cases (next_round s.lane s.next (clock i))) [
        | inl r ↦ rw (e, flush_loop, r)
        | inr (inl (o, r)) ↦
            let filled = next_round-jump s.lane s.next (clock i) o r in
            rw (e, flush_loop, r)
              (rounds_enough clock pt f f' (i + 1) (record s { next = o }) (ground (arith, filled))
                (ground (arith, filled)))
        | inr (inr (b, r)) ↦
            let fewer = after_send-rounds s pt b (ground arith) in
            let s' = (after_send s pt b).0 in
            rw (e, flush_loop, r)
              (ap (λ (out : FlushState × List Packet). (out.0, (after_send s pt b).1 ∷ out.1))
                (rounds_enough clock pt f f' (i + 1) s' (omega (arith, fewer, h))
                  (omega (arith, fewer, h'))))
      ]
    ]

-- The flush loop ends by its own tests: from any state, any two amounts of fuel that cover two
-- rounds for each packet still missing in the batch, and one more, give the same result.
pub flush_loop-fuel :
    (clock : ℕ → ℕ) (pt fuel fuel' i : ℕ) (s : FlushState)
    → 2 * (max_flush_batch - s.sent_in_batch) + 1 ≤ fuel
    → 2 * (max_flush_batch - s.sent_in_batch) + 1 ≤ fuel'
    → flush_loop clock pt fuel i s ≡ flush_loop clock pt fuel' i s
flush_loop-fuel clock pt fuel fuel' i s h h' =
    rounds_enough clock pt fuel fuel' i s (ground arith) (ground arith)

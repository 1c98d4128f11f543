-- ===== src/Receiver/RtspBuffer/Delivery.antt =====
-- Reordering: what lies in the slots leaves in the order of the numbers.
use mathlib.Core.Path.{ap₂}
use mistlink.Base.{
  ℕ, zero, suc, ◌+◌, ◌-◌, ◌%◌, ◌≤◌, ◌<◌, ◌≡◌, refl, ◌∙◌, ap, true, false, List, [], ◌∷◌, ◌++◌, map,
  none, some, arith, length, is_empty, not, ◌&&◌, ltb,
}
use mistlink.Base.Words.{add16, u16_mod}
use mistlink.RtpUtils.{Packet}
use mistlink.Receiver.RtspBuffer.{Slots, BufferedPacket, max_flush_batch, update}
use mistlink.Receiver.RtspBuffer.Flushing.{FlushState, after_send, flush_loop, next_round}
use mistlink.Receiver.RtspBuffer.Invariant.{LaneInv, release-LaneInv, widen-LaneInv}
use mistlink.Receiver.RtspBuffer.Rewrite.{payload-rewrite}

-- The slots from `n` on, round at 2 ^ 16, hold these packets.
abbrev pub Filled : Slots → ℕ → List BufferedPacket → Type 0
Filled slots n [] = Unit
Filled slots n (b ∷ bs) = (slots n ≡ some b) × Filled slots (add16 n 1) bs

Filled-update :
    (slots : Slots) (n m j : ℕ) (bs : List BufferedPacket)
    → n < u16_mod
    → 0 < j
    → j + length bs ≤ u16_mod
    → m ≡ (n + j) % u16_mod
    → Filled slots m bs
    → Filled (update slots n none) m bs
Filled-update slots n m j [] hn hj hl e f = tt
Filled-update slots n m j (b ∷ bs) hn hj hl e f = (
  ground arith,
  Filled-update slots n (add16 m 1) (j + 1) bs hn (omega arith) (omega arith) (omega arith) f.1,
)

-- One round on a filled slot.
flush_loop-filled :
    (clock : ℕ → ℕ) (pt limit fuel i : ℕ) (s : FlushState) (b : BufferedPacket)
    → LaneInv limit s.lane
    → s.lane.slots s.next ≡ some b
    → s.sent_in_batch < max_flush_batch
    → let (s', pkt) = after_send s pt b in
      (flush_loop clock pt (suc fuel) i s).1 ≡ pkt ∷ (flush_loop clock pt fuel (i + 1) s').1
unfolding flush_loop next_round
flush_loop-filled clock pt limit fuel i s b v e lt =
    let open_lane : is_empty s.lane.order ≡ false = ground (arith, v.held s.next) in
    let test : (ltb s.sent_in_batch max_flush_batch && not (is_empty s.lane.order)) ≡ true =
      ground arith in
    rw (test, flush_loop, e)

payload-after_send :
    (pt : ℕ) (s : FlushState) (b : BufferedPacket) → (after_send s pt b).1.payload ≡ b.pkt.payload
unfolding after_send
payload-after_send pt s b = payload-rewrite s.rewriter pt b.pkt

after_send-LaneInv :
    (limit pt : ℕ) (s : FlushState) (b : BufferedPacket)
    → LaneInv limit s.lane
    → s.lane.slots s.next ≡ some b
    → LaneInv limit (after_send s pt b).0.lane
unfolding after_send
after_send-LaneInv limit pt s b v e =
    widen-LaneInv (limit - 1) limit _ (omega arith)
      (release-LaneInv limit s.lane.slots s.lane.order s.next v (ground (arith, v.held s.next)))

after_send-Filled :
    (pt : ℕ) (s : FlushState) (b : BufferedPacket) (bs : List BufferedPacket)
    → s.next < u16_mod
    → suc (length bs) ≤ u16_mod
    → Filled s.lane.slots (add16 s.next 1) bs
    → Filled (after_send s pt b).0.lane.slots (after_send s pt b).0.next bs
unfolding after_send
after_send-Filled pt s b bs hn hl f =
    Filled-update s.lane.slots s.next (add16 s.next 1) 1 bs hn (omega arith) (omega arith) refl f

after_send-counts :
    (pt : ℕ) (s : FlushState) (b : BufferedPacket)
    → let s' = (after_send s pt b).0 in
      (s'.sent_in_batch ≡ s.sent_in_batch + 1) × (s'.next < u16_mod)
unfolding after_send
after_send-counts pt s b = (refl, omega arith)

abbrev pub payloads : List Packet → List (List ℕ)
payloads = map (λ p. p.payload)

-- In whatever order the packets of a run were received, a flush that starts at the first of them
-- hands their payloads on in the order of their numbers, up to the size of the batch, before
-- anything else.
pub flush_loop-in_order :
    (clock : ℕ → ℕ) (pt limit fuel i : ℕ) (s : FlushState) (bs : List BufferedPacket)
    → LaneInv limit s.lane
    → s.next < u16_mod
    → Filled s.lane.slots s.next bs
    → length bs + s.sent_in_batch ≤ max_flush_batch
    → length bs ≤ fuel
    → (rest : List (List ℕ)) × (payloads (flush_loop clock pt fuel i s).1
        ≡ map (λ b. b.pkt.payload) bs ++ rest)
flush_loop-in_order clock pt limit fuel i s [] v hn f hs hf = (_, refl)
flush_loop-in_order clock pt limit zero i s (b ∷ bs) v hn f hs hf = absurd (omega arith)
flush_loop-in_order clock pt limit (suc fuel) i s (b ∷ bs) v hn f hs hf =
    let s' = (after_send s pt b).0 in
    let counts = after_send-counts pt s b in
    let (rest, e) =
      flush_loop-in_order clock pt limit fuel (i + 1) s' bs (after_send-LaneInv limit pt s b v f.0)
        counts.1 (after_send-Filled pt s b bs hn (omega arith) f.1) (omega arith) (omega arith) in
    (
      rest,
      ap payloads (flush_loop-filled clock pt limit fuel i s b v f.0 (omega arith))
          ∙ ap₂ ◌∷◌ (payload-after_send pt s b) e,
    )

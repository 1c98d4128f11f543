-- ===== src/Receiver/RtspBuffer/Progress.antt =====
-- A flush gets on: what is held too long leaves.
use mistlink.Base.{
  ℕ, zero, suc, ◌+◌, ◌-◌, ◌*◌, ◌≤◌, ◌≡◌, refl, Bool, true, false, ◌&&◌, not, if_rule, Option, List,
  [], ◌∷◌, some, none, ltb, leb, if◌then◌else◌, is_empty, arith, inl, inr, Bool-cases, List-cases,
  Option-cases, length, ◌==◌,
}
use mistlink.Base.Members.{member, length-remove_first}
use mistlink.Receiver.RtspBuffer.{Lane, BufferedPacket, max_flush_batch, max_stale_packet_age}
use mistlink.Receiver.RtspBuffer.Flushing.{
  Round, stop, jump, send, next_round, FlushState, after_send, flush_loop,
}
use mistlink.Receiver.RtspBuffer.Invariant.{LaneInv, release-LaneInv, widen-LaneInv}
use mistlink.Receiver.RtspBuffer.Flush.{
  rounds, after_send-rounds, Round-cases, next_round-send, next_round-jump,
}

-- Whether a slot is empty or holds a packet that is stale at this time.
abbrev pub is_stale : ℕ → Option BufferedPacket → Bool
is_stale now none = true
is_stale now (some b) = ltb max_stale_packet_age (now - b.received)

-- All packets of a lane are stale from the start of a flush on.
abbrev pub AllStale : (ℕ → ℕ) → Lane → Type 0
AllStale clock lane = (k i : ℕ) → is_stale (clock i) (lane.slots k) ≡ true

abbrev is_stop : Round → Bool
is_stop stop = true
is_stop (jump o) = false
is_stop (send b) = false

-- Where packets are held and all of them are stale, the loop does not stop.
next_round-stale :
    (clock : ℕ → ℕ) (limit : ℕ) (lane : Lane) (next i : ℕ)
    → LaneInv limit lane
    → AllStale clock lane
    → is_empty lane.order ≡ false
    → is_stop (next_round lane next (clock i)) ≡ false
unfolding next_round
next_round-stale clock limit lane next i v stale h = elim (Option-cases (lane.slots next)) [
  | inr (b, e) ↦ rw (e, next_round) refl
  | inl e ↦ elim (List-cases lane.order) [
    | inl none_held ↦ absurd (ground (arith, h, none_held))
    | inr (oldest, rest, o) ↦ elim (Option-cases (lane.slots oldest)) [
      | inl gap ↦ absurd (ground (arith, gap, o, v.held oldest))
      | inr (old, q) ↦
          let late : ltb max_stale_packet_age (clock i - old.received) ≡ true =
            ground (arith, q, stale oldest i) in
          rw (e, next_round, o, q, late) refl
    ]
  ]
]

after_send-AllStale :
    (clock : ℕ → ℕ) (pt : ℕ) (s : FlushState) (b : BufferedPacket)
    → AllStale clock s.lane
    → AllStale clock (after_send s pt b).0.lane
unfolding after_send
after_send-AllStale clock pt s b stale = λ k i.
    if_rule (λ (slot : Option BufferedPacket). is_stale (clock i) slot ≡ true) (s.next == k) refl
      (stale k i)

after_send-LaneInv :
    (limit pt : ℕ) (s : FlushState) (b : BufferedPacket)
    → LaneInv limit s.lane
    → s.lane.slots s.next ≡ some b
    → let s' = (after_send s pt b).0 in
      LaneInv limit s'.lane
      × (length s'.lane.order + 1 ≡ length s.lane.order)
      × (s'.sent_in_batch ≡ s.sent_in_batch + 1)
unfolding after_send
after_send-LaneInv limit pt s b v e =
    let filled : member s.next s.lane.order ≡ true = ground (arith, v.held s.next, e) in
    (
      widen-LaneInv (limit - 1) limit _ (omega arith)
          (release-LaneInv limit s.lane.slots s.lane.order s.next v filled),
      ground (arith, filled, length-remove_first s.next s.lane.order),
      refl,
    )

is_empty-length : (xs : List ℕ) → is_empty xs ≡ (length xs == 0)
is_empty-length [] = refl
is_empty-length (x ∷ xs) = ground arith

-- The smaller one of two numbers.
abbrev pub least : ℕ → ℕ → ℕ
least a b = if leb a b then a else b

stale_rounds :
    (clock : ℕ → ℕ) (pt limit fuel i : ℕ) (s : FlushState)
    → LaneInv limit s.lane
    → AllStale clock s.lane
    → rounds s ≤ fuel
    → length (flush_loop clock pt fuel i s).1
      ≡ least (length s.lane.order) (max_flush_batch - s.sent_in_batch)
unfolding flush_loop
stale_rounds clock pt limit zero i s v stale h = ground (arith, h)
stale_rounds clock pt limit (suc fuel) i s v stale h =
    elim (Bool-cases (ltb s.sent_in_batch max_flush_batch && not (is_empty s.lane.order))) [
      | inr e ↦ rw (e, flush_loop) (ground (arith, e, is_empty-length s.lane.order))
      | inl e ↦
          let go = next_round-stale clock limit s.lane s.next i v stale (ground (arith, e)) in
          elim (Round-cases (next_round s.lane s.next (clock i))) [
            | inl r ↦ absurd (ground (arith, r, go))
            | inr (inl (o, r)) ↦
                let filled = next_round-jump s.lane s.next (clock i) o r in
                rw (e, flush_loop, r)
                  (stale_rounds clock pt limit fuel (i + 1) (record s { next = o }) v stale
                    (ground (arith, filled, h)))
            | inr (inr (b, r)) ↦
                let held = next_round-send s.lane s.next (clock i) b r in
                let (w, fewer, more) = after_send-LaneInv limit pt s b v held in
                let less = after_send-rounds s pt b (ground (arith, e)) in
                let s' = (after_send s pt b).0 in
                let rest =
                  stale_rounds clock pt limit fuel (i + 1) s' w
                    (after_send-AllStale clock pt s b stale) (omega (arith, less, h)) in
                rw (e, flush_loop, r) (ground (arith, rest, fewer, more, e))
          ]
    ]

-- Where a lane's order lists exactly its filled slots, and at every reading of the clock each of its
-- packets has been held for more than a tenth of a second: a flush with fuel for a batch hands on
-- as many packets as the batch still takes, or all that the lane holds, whatever numbers are
-- missing between them.
pub flush_loop-progress :
    (clock : ℕ → ℕ) (pt limit fuel i : ℕ) (s : FlushState)
    → LaneInv limit s.lane
    → AllStale clock s.lane
    → 2 * (max_flush_batch - s.sent_in_batch) + 1 ≤ fuel
    → length (flush_loop clock pt fuel i s).1
      ≡ least (length s.lane.order) (max_flush_batch - s.sent_in_batch)
flush_loop-progress clock pt limit fuel i s v stale h =
    stale_rounds clock pt limit fuel i s v stale (ground arith)

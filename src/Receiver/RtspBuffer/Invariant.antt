-- ===== src/Receiver/RtspBuffer/Invariant.antt =====
-- The representation of a lane: its order lists exactly the filled slots, each once.
use mistlink.Base.{
  if_rule, ==→eq, is_some, ℕ, ◌+◌, ◌-◌, ◌≤◌, ◌<◌, ◌≡◌, true, false, ◌&&◌, not, List, [], ◌∷◌, ◌++◌,
  Option, none, some, leb, ◌==◌, length, length-append, arith, inl, inr, Bool-cases, Option-cases,
}
use mistlink.Base.Members.{
  member, Distinct, member-append, Distinct-snoc, remove_first, member-remove_first,
  Distinct-remove_first, length-remove_first,
}
use mistlink.RtpUtils.{Packet}
use mistlink.Receiver.RtspBuffer.{
  Lane, BufferedPacket, Slots, clear_slots, cleanup_buffer, evict, store, lane_add, update,
}

abbrev pub lane_of : Slots → List ℕ → Lane
lane_of slots order = record { slots = slots; order = order }

-- The packet of a slot has the slot's number.
abbrev pub IsNumbered : ℕ → Option BufferedPacket → Type 0
IsNumbered i none = Unit
IsNumbered i (some bpkt) = bpkt.pkt.sequence_number ≡ i

IsNumbered-none : (i : ℕ) (o : Option BufferedPacket) → is_some o ≡ false → IsNumbered i o
IsNumbered-none i none h = tt
IsNumbered-none i (some b) h = absurd (ground arith)

IsNumbered-update :
    (slots : Slots) (bpkt : BufferedPacket) (i : ℕ)
    → IsNumbered i (slots i)
    → IsNumbered i (update slots bpkt.pkt.sequence_number (some bpkt) i)
IsNumbered-update slots bpkt i h = elim (Bool-cases (bpkt.pkt.sequence_number == i)) [
  | inl e ↦ rw e (==→eq _ _ e)
  | inr e ↦ rw e h
]

-- The order has no repetition and lists the filled slots; a packet stands in its number's slot; at
-- most `limit` packets are held.
pub record LaneInv (limit : ℕ) (lane : Lane) : Type 0 where
  pub distinct : Distinct lane.order
  pub held : (i : ℕ) → is_some (lane.slots i) ≡ member i lane.order
  pub numbered : (i : ℕ) → IsNumbered i (lane.slots i)
  pub bounded : length lane.order ≤ limit

-- A slot that is emptied together with its number.
pub release-LaneInv :
    (limit : ℕ) (slots : Slots) (order : List ℕ) (n : ℕ)
    → LaneInv limit (lane_of slots order)
    → member n order ≡ true
    → LaneInv (limit - 1) (lane_of (update slots n none) (remove_first n order))
release-LaneInv limit slots order n v m = record {
  distinct = Distinct-remove_first n order v.distinct;
  held = λ i. ground (arith, v.held i, member-remove_first n i order v.distinct);
  numbered = λ i. if_rule (IsNumbered i) (n == i) tt (v.numbered i);
  bounded = ground (arith, v.bounded, length-remove_first n order);
}

-- A slot that is filled for the first time.
fill-LaneInv :
    (limit : ℕ) (slots : Slots) (order : List ℕ) (bpkt : BufferedPacket)
    → let n = bpkt.pkt.sequence_number in
      LaneInv limit (lane_of slots order)
      → member n order ≡ false
      → LaneInv (limit + 1) (lane_of (update slots n (some bpkt)) (order ++ (n ∷ [])))
fill-LaneInv limit slots order bpkt v m =
    let n = bpkt.pkt.sequence_number in
    record {
      distinct = Distinct-snoc order n v.distinct m;
      held = λ i. ground (arith, v.held i, member-append i order (n ∷ []));
      numbered = λ i. IsNumbered-update slots bpkt i (v.numbered i);
      bounded = omega (arith, v.bounded, length-append order (n ∷ []));
    }

-- A slot whose packet is replaced.
replace-LaneInv :
    (limit : ℕ) (slots : Slots) (order : List ℕ) (bpkt : BufferedPacket)
    → let n = bpkt.pkt.sequence_number in
      LaneInv limit (lane_of slots order)
      → member n order ≡ true
      → LaneInv limit (lane_of (update slots n (some bpkt)) order)
replace-LaneInv limit slots order bpkt v m = record {
  distinct = v.distinct;
  held = λ i. ground (arith, v.held i);
  numbered = λ i. IsNumbered-update slots bpkt i (v.numbered i);
  bounded = v.bounded;
}

pub widen-LaneInv :
    (small limit : ℕ) (lane : Lane) → small ≤ limit → LaneInv small lane → LaneInv limit lane
widen-LaneInv small limit lane h v = record {
  distinct = v.distinct;
  held = v.held;
  numbered = v.numbered;
  bounded = omega (arith, v.bounded);
}

remove_first-head : (n : ℕ) (rest : List ℕ) → remove_first n (n ∷ rest) ≡ rest
unfolding remove_first
remove_first-head n rest = ground arith

-- What `evict` leaves has room for one more.
evict-LaneInv :
    (limit : ℕ) (slots : Slots) (order : List ℕ)
    → 0 < limit
    → LaneInv limit (lane_of slots order)
    → LaneInv (limit - 1) (evict limit (lane_of slots order) order).0
unfolding evict
evict-LaneInv limit slots [] h v = record {
  distinct = tt;
  held = v.held;
  numbered = v.numbered;
  bounded = omega arith;
}
evict-LaneInv limit slots (oldest ∷ rest) h v =
    elim (Bool-cases (leb limit (length (oldest ∷ rest)))) [
      | inr e ↦ rw e (record {
        distinct = v.distinct;
        held = v.held;
        numbered = v.numbered;
        bounded = ground arith;
      })
      | inl e ↦ rw e (elim (Option-cases (slots oldest)) [
        | inl f ↦ ground (arith, v.held oldest)
        | inr (old, f) ↦ rw f (
            rw (remove_first-head oldest rest) at
              (release-LaneInv limit slots (oldest ∷ rest) oldest v (ground arith)))
      ])
    ]

-- Adding a packet of slot n, whatever the slot held.
store-LaneInv :
    (limit : ℕ) (lane : Lane) (pkt : Packet) (now : ℕ)
    → LaneInv limit lane
    → LaneInv (limit + 1) (store lane pkt now).0
unfolding store
store-LaneInv limit lane pkt now v =
    let n = pkt.sequence_number in
    let bpkt : BufferedPacket = record {
      pkt = pkt;
      received = now;
      payload_type = pkt.payload_type;
    } in
    elim (Option-cases (lane.slots n)) [
      | inl e ↦
          rw (e, store) (fill-LaneInv limit lane.slots lane.order bpkt v (ground (arith, v.held n)))
      | inr (old, e) ↦
          rw (e, store)
            (widen-LaneInv limit (limit + 1) _ (omega arith)
              (replace-LaneInv limit lane.slots lane.order bpkt v (ground (arith, v.held n))))
    ]

pub lane_add-LaneInv :
    (limit : ℕ) (lane : Lane) (pkt : Packet) (now : ℕ)
    → 0 < limit
    → LaneInv limit lane
    → LaneInv limit (lane_add limit lane pkt now).0
unfolding lane_add
lane_add-LaneInv limit lane pkt now h v = widen-LaneInv (limit - 1 + 1) limit _ (omega arith) (
    store-LaneInv (limit - 1) (evict limit lane lane.order).0 pkt now
      (evict-LaneInv limit lane.slots lane.order h v))

-- Emptying every slot of the order.
clear_slots-none :
    (slots : Slots) (order : List ℕ) (i : ℕ)
    → is_some ((clear_slots slots order).0 i) ≡ (is_some (slots i) && not (member i order))
unfolding clear_slots
clear_slots-none slots [] i = ground arith
clear_slots-none slots (seq ∷ rest) i = elim (Option-cases (slots seq)) [
  | inl e ↦ rw (e, clear_slots) (ground (arith, clear_slots-none slots rest i))
  | inr (b, e) ↦
      rw (e, clear_slots) (ground (arith, clear_slots-none (update slots seq none) rest i))
]

pub cleanup_buffer-LaneInv :
    (limit : ℕ) (lane : Lane) → LaneInv limit lane → LaneInv limit (cleanup_buffer lane).0
unfolding cleanup_buffer
cleanup_buffer-LaneInv limit lane v =
    let empty : (i : ℕ) → is_some ((clear_slots lane.slots lane.order).0 i) ≡ false =
      λ i. ground (arith, clear_slots-none lane.slots lane.order i, v.held i) in
    record {
      distinct = tt;
      held = empty;
      numbered = λ i. IsNumbered-none i _ (empty i);
      bounded = omega arith;
    }

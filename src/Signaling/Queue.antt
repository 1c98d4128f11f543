-- ===== src/Signaling/Queue.antt =====
-- internal/signaling: the send queue between the callers of `sendMessage` and `writePump`.
use mathlib.Core.List.{append-nil, append_assoc}
use mistlink.Base.{
  ◌≤◌, ◌≡◌, refl, sym, ap, ◌∙◌, Bool, true, false, List, [], ◌∷◌, ◌++◌, none, some, ltb,
  if◌then◌else◌, if_split, if_rule, length, length-append, arith,
}
use mistlink.Signaling.{Message, Client, send_capacity, send_message, write_pump}

-- What happens to the queue.
pub data Action : Type 0 where
  enqueues : Message → Action
  pumps : Action

unfoldable pub taken : Client → Action → List Message
taken c (enqueues msg) = if (send_message c msg).1 then msg ∷ [] else []
taken c pumps = []

unfoldable pub written : Client → Action → List Message
written c (enqueues msg) = []
written c pumps = elim (write_pump c.send_chan c).1 [ none ↦ [] | some msg ↦ msg ∷ [] ]

unfoldable pub act : Client → Action → Client
act c (enqueues msg) = (send_message c msg).0
act c pumps = (write_pump c.send_chan c).0

-- The client after any actions, the messages that its queue took and the ones that were written.
unfoldable pub run : Client → List Action → Client
run c [] = c
run c (a ∷ rest) = run (act c a) rest

unfoldable pub all_taken : Client → List Action → List Message
all_taken c [] = []
all_taken c (a ∷ rest) = taken c a ++ all_taken (act c a) rest

unfoldable pub all_written : Client → List Action → List Message
all_written c [] = []
all_written c (a ∷ rest) = written c a ++ all_written (act c a) rest

pumped :
    (q : List Message) (c : Client)
    → c.send_chan ≡ q
    → q
      ≡ elim (write_pump q c).1 [ none ↦ [] | some msg ↦ msg ∷ [] ] ++ (write_pump q c).0.send_chan
unfolding write_pump
pumped [] c e = sym e
pumped (msg ∷ rest) c e = refl

-- One action: what waited and what came in is what was written and what waits.
act-order :
    (c : Client) (a : Action) → c.send_chan ++ taken c a ≡ written c a ++ (act c a).send_chan
unfolding taken written act send_message
act-order c (enqueues msg) =
    if_rule (λ (r : Client × Bool). c.send_chan ++ (if r.1 then msg ∷ [] else []) ≡ r.0.send_chan)
      (ltb (length c.send_chan) send_capacity)
      {x = (record c { send_chan = c.send_chan ++ (msg ∷ []) }, true)} {y = (c, false)} refl
      (append-nil c.send_chan)
act-order c pumps = append-nil c.send_chan ∙ pumped c.send_chan c refl

pub act-capacity :
    (c : Client) (a : Action)
    → length c.send_chan ≤ send_capacity
    → length (act c a).send_chan ≤ send_capacity
unfolding act send_message write_pump
act-capacity c (enqueues msg) h =
    if_split (λ (r : Client × Bool). length r.0.send_chan ≤ send_capacity)
      (ltb (length c.send_chan) send_capacity)
      (λ ok. ground (arith, ok, length-append c.send_chan (msg ∷ []))) (λ _. h)
act-capacity c pumps h = pump-le c.send_chan h
  where
    pump-le :
        (q : List Message)
        → length q ≤ send_capacity
        → length (write_pump q c).0.send_chan ≤ send_capacity
    pump-le [] _ = h
    pump-le (msg ∷ rest) k = omega arith

run-order :
    (c : Client) (acts : List Action)
    → c.send_chan ++ all_taken c acts ≡ all_written c acts ++ (run c acts).send_chan
unfolding run all_taken all_written
run-order c [] = append-nil c.send_chan
run-order c (a ∷ rest) =
    sym (append_assoc c.send_chan (taken c a) (all_taken (act c a) rest))
    ∙ ap (λ q. q ++ all_taken (act c a) rest) (act-order c a)
    ∙ append_assoc (written c a) (act c a).send_chan (all_taken (act c a) rest)
    ∙ ap (λ q. written c a ++ q) (run-order (act c a) rest)
    ∙ sym (append_assoc (written c a) (all_written (act c a) rest) (run (act c a) rest).send_chan)

-- Whatever is sent and written, in whatever order, from a queue within its capacity: the messages
-- that waited and then those that the queue took are, in this order, the messages written and
-- then those that wait, so none is lost, doubled or overtaken; and the queue keeps within its
-- capacity.
run-fifo :
    (c : Client) (acts : List Action)
    → length c.send_chan ≤ send_capacity
    → (c.send_chan ++ all_taken c acts ≡ all_written c acts ++ (run c acts).send_chan)
      × (length (run c acts).send_chan ≤ send_capacity)
unfolding run
run-fifo c acts h = (run-order c acts, capacity c acts h)
  where
    capacity :
        (c : Client) (acts : List Action)
        → length c.send_chan ≤ send_capacity
        → length (run c acts).send_chan ≤ send_capacity
    capacity c [] h = h
    capacity c (a ∷ rest) h = capacity (act c a) rest (act-capacity c a h)

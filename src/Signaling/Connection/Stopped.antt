-- ===== src/Signaling/Connection/Stopped.antt =====
-- A connection whose writePump has returned, as it does after a write that fails.
use Prim.Native.Nat.{min}
use native.Mathlib.Numerals.{unary_clauses}
use mistlink.Base.{
  Option, none, some, ℕ, zero, suc, ◌+◌, ◌-◌, ◌≤◌, ◌≡◌, refl, ◌∙◌, ap, Bool, true, false, List, [],
  ◌∷◌, ◌++◌, if_rule, length, length-append, replicate, arith,
}
use mistlink.Signaling.{Message, set_callbacks, Client, send_capacity, send_message}
use mistlink.Signaling.Connection.{
  Connection, on_message, Call, Event, calls, pumps, receives, sets_callbacks, sets_on_message,
  closes, Effect, step, run, read,
}
use mistlink.Signaling.Connection.Delivery.{place_lem, message_of, run-Silent}

-- How many of the events are calls that send.
unfoldable pub count_calls : List Event → ℕ
count_calls [] = 0
count_calls (calls call ∷ es) = suc (count_calls es)
count_calls (pumps taken ∷ es) = count_calls es
count_calls (receives msg ∷ es) = count_calls es
count_calls (sets_callbacks ∷ es) = count_calls es
count_calls (sets_on_message is_set ∷ es) = count_calls es
count_calls (closes ∷ es) = count_calls es

-- The first `k` of `n` calls succeed.
abbrev pub first_of : ℕ → ℕ → List Bool
first_of n k = replicate (min n k) true ++ replicate (n - k) false

first_of-room : (n k : ℕ) → true ∷ first_of n k ≡ first_of (suc n) (suc k)
first_of-room n k = simp unary_clauses refl

first_of-full : (n : ℕ) → false ∷ first_of n 0 ≡ first_of (suc n) 0
first_of-full n = simp unary_clauses refl

first_of-none : (k : ℕ) → [] ≡ first_of 0 k
first_of-none k = let nothing : 0 - k ≡ 0 = omega arith in rw (nothing) (simp unary_clauses refl)

-- A queue with `k` places left when writePump has returned.
abbrev HasRoom : ℕ → Connection → Type 0
HasRoom k s = (s.pumping ≡ false) × (length s.client.send_chan + k ≡ send_capacity)

-- What an event leaves of the places, and what a call returns.
abbrev Used : ℕ → Event → Connection × Effect → Type 0
Used k e (t, a) =
    (j : ℕ) × HasRoom j t
    × ((es : List Event)
        → a.accepted ++ first_of (count_calls es) j ≡ first_of (count_calls (e ∷ es)) k)

send_message-full :
    (c : Client) (msg : Message)
    → length c.send_chan + 0 ≡ send_capacity
    → send_message c msg ≡ (c, false)
unfolding send_message
send_message-full c msg h = ground arith

send_message-room :
    (c : Client) (msg : Message) (k : ℕ)
    → length c.send_chan + suc k ≡ send_capacity
    → send_message c msg ≡ (record c { send_chan = c.send_chan ++ (msg ∷ []) }, true)
unfolding send_message
send_message-room c msg k h = ground arith

call-Used :
    (s : Connection) (call : Call) (k : ℕ) → HasRoom k s → Used k (calls call) (step s (calls call))
unfolding step count_calls
call-Used s call zero (off, h) =
    rw (place_lem s.client call, send_message-full s.client (message_of s.client call) h)
      (0, (off, h), λ es. first_of-full (count_calls es))
call-Used s call (suc k) (off, h) =
    rw (place_lem s.client call, send_message-room s.client (message_of s.client call) k h)
      (
        k,
        (off, omega (arith, length-append s.client.send_chan (message_of s.client call ∷ []))),
        λ es. first_of-room (count_calls es) k,
      )

read-Used :
    (s : Connection) (msg : Option Message) (k : ℕ)
    → HasRoom k s
    → Used k (receives msg) (read s msg)
unfolding read count_calls
read-Used s none k h = (k, h, λ es. refl)
read-Used s (some msg) k h = (k, h, λ es. refl)

step-Used : (s : Connection) (e : Event) (k : ℕ) → HasRoom k s → Used k e (step s e)
unfolding step count_calls on_message set_callbacks
step-Used s (calls call) k h = call-Used s call k h
step-Used s (pumps taken) k h = rw (h.0, step) (k, (refl, h.1), λ es. refl)
step-Used s (receives msg) k h =
    if_rule (Used k (receives msg)) s.reading (read-Used s msg k h) (k, h, λ es. refl)
step-Used s sets_callbacks k h = (k, h, λ es. refl)
step-Used s (sets_on_message is_set) k h = (k, h, λ es. refl)
step-Used s closes k h = (k, h, λ es. refl)

run-accepted :
    (es : List Event) (s : Connection) (k : ℕ)
    → HasRoom k s
    → (run s es).1.accepted ≡ first_of (count_calls es) k
unfolding run count_calls
run-accepted [] s k h = first_of-none k
run-accepted (e ∷ es) s k h =
    let (j, h', same) = step-Used s e k h in
    ap (λ oks. (step s e).1.accepted ++ oks) (run-accepted es (step s e).0 j h') ∙ same es

-- Once writePump has returned, from a queue within its capacity, whatever happens: nothing is
-- written, and of the calls that send, the first succeed, as many as the queue has room for, and
-- every later one returns an error.
pub run-stopped :
    (es : List Event) (s : Connection)
    → s.pumping ≡ false
    → length s.client.send_chan ≤ send_capacity
    → let (t, a) = run s es in
      (a.written ≡ [])
      × (a.accepted ≡ first_of (count_calls es) (send_capacity - length s.client.send_chan))
unfolding run
run-stopped es s off h = (
  (run-Silent es s off).0,
  run-accepted es s (send_capacity - length s.client.send_chan) (off, omega arith),
)

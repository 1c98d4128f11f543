-- ===== src/Stream/Broadcaster/Running/Life.antt =====
-- What a local track is given from the time its receiver joins to the time it leaves.
use mathlib.Core.List.{append_assoc}
use mistlink.Base.{
  ℕ, ◌≡◌, refl, sym, ◌∙◌, ap, Bool, true, false, not, ◌&&◌, List, [], ◌∷◌, ◌++◌, ◌==◌,
  if◌then◌else◌,
}
use mistlink.RtpUtils.{Packet}
use mistlink.Receiver.Bridge.{Start}
use mistlink.Stream.Broadcaster.Running.{
  Running, Written, Event, joins, leaves, reads, ends, step, run,
}

-- The packets that the goroutine reads before it ends.
unfoldable pub packets_read : Bool → List Event → List Packet
packets_read running [] = []
packets_read running (joins id t ∷ es) = packets_read running es
packets_read running (leaves id ∷ es) = packets_read running es
packets_read running (reads pkt now ∷ es) =
    if running then pkt ∷ packets_read running es else packets_read running es
packets_read running (ends ∷ es) = packets_read false es

-- The event has nothing to do with the receiver or its local track.
unfoldable pub is_other : ℕ → ℕ → Event → Bool
is_other id t (joins id' t') = not (id' == id) && not (t' == t)
is_other id t (leaves id') = not (id' == id)
is_other id t (reads pkt now) = true
is_other id t ends = true

-- No receiver joins with the local track.
unfoldable pub is_off : ℕ → Event → Bool
is_off t (joins id' t') = not (t' == t)
is_off t (leaves id') = true
is_off t (reads pkt now) = true
is_off t ends = true

module _ {C : Type 0} (ctx : C) (start : Start C) where
  -- Whether the goroutine still runs.
  abbrev still : Bool → Event → Bool
  still running (joins id t) = running
  still running (leaves id) = running
  still running (reads pkt now) = running
  still running ends = false

  pub run-append :
      (es fs : List Event) (s : Running C)
      → run ctx start s (es ++ fs) ≡ (
        (run ctx start (run ctx start s es).0 fs).0,
        (run ctx start s es).1 ++ (run ctx start (run ctx start s es).0 fs).1,
      )
  unfolding run
  run-append [] fs s = refl
  run-append (e ∷ es) fs s =
      let s' = (step ctx start s e).0 in
      let end = run ctx start (run ctx start s' es).0 fs in
      ap (λ (r : Running C × List (ℕ × Written)). (r.0, (step ctx start s e).1 ++ r.1))
        (run-append es fs s')
      ∙ ap (λ (ws : List (ℕ × Written)). (end.0, ws))
          (sym (append_assoc (step ctx start s e).1 (run ctx start s' es).1 end.1))

-- ===== src/Sender/Configurer/Echo.antt =====
-- Whether a relay sends a peer its own packets.
use mistlink.Base.{
  ℕ, ◌≡◌, refl, ◌∙◌, ap, Bool, true, false, List, [], ◌∷◌, none, ◌==◌, if◌then◌else◌, if_split,
  arith,
}
use mistlink.Base.Maps.{lookup, insert, erase}
use mistlink.Base.Members.{member, remove_first, Distinct}
use mistlink.RtpUtils.{Packet}
use mistlink.Sender.Relay.{ignores}
use mistlink.Sender.Relay.Shared.{
  SharedRelay, SharedEvent, hears, reads, shared_loop, shared_step, hear_reference, set_packet,
}
use mistlink.Sender.Relay.Shared
use mistlink.Sender.Configurer.{
  Link, set_incoming, ignore_ssrc, configurers, on_track, end_track, Event, comes, goes, own,
  kept_back, other, takes, hear, put, step, run,
}

-- The events with the packets of the peer's own tracks read but not handed on.
unfoldable pub others : List Event → List Event
others [] = []
others (comes ssrc ∷ es) = comes ssrc ∷ others es
others (goes ssrc ∷ es) = goes ssrc ∷ others es
others (own ssrc a pkt ∷ es) = kept_back ssrc a pkt ∷ others es
others (kept_back ssrc a pkt ∷ es) = kept_back ssrc a pkt ∷ others es
others (other a pkt ∷ es) = other a pkt ∷ others es
others (takes ∷ es) = takes ∷ others es

-- No track comes while one of the same source is there.
unfoldable pub Unique : List ℕ → List Event → Type 0
Unique tracks [] = Unit
Unique tracks (comes ssrc ∷ es) = (member ssrc tracks ≡ false) × Unique (ssrc ∷ tracks) es
Unique tracks (goes ssrc ∷ es) = Unique (remove_first ssrc tracks) es
Unique tracks (own ssrc a pkt ∷ es) = Unique tracks es
Unique tracks (kept_back ssrc a pkt ∷ es) = Unique tracks es
Unique tracks (other a pkt ∷ es) = Unique tracks es
Unique tracks (takes ∷ es) = Unique tracks es

-- The packets that the listener is called with, whatever their source.
unfoldable pub all_heard : List ℕ → List Event → List SharedEvent
all_heard tracks [] = []
all_heard tracks (comes ssrc ∷ es) = all_heard (ssrc ∷ tracks) es
all_heard tracks (goes ssrc ∷ es) = all_heard (remove_first ssrc tracks) es
all_heard tracks (own ssrc a pkt ∷ es) =
    if member ssrc tracks
    then hears a (record pkt { ssrc = ssrc }) ∷ all_heard tracks es
    else all_heard tracks es
all_heard tracks (kept_back ssrc a pkt ∷ es) =
    if member ssrc tracks
    then reads a (record pkt { ssrc = ssrc }) ∷ all_heard tracks es
    else all_heard tracks es
all_heard tracks (other a pkt ∷ es) = hears a pkt ∷ all_heard tracks es
all_heard tracks (takes ∷ es) = Shared.takes ∷ all_heard tracks es

abbrev pub new_link : SharedRelay → Link
new_link relay = record {
  incoming = λ c. [];
  receiving_remote_video = false;
  tracks = [];
  relay = relay;
}

-- The sources of the tracks are the incoming ones of a configurer.
abbrev Known : ℕ → Link → Type 0
Known c l = Distinct l.tracks × ((x : ℕ) → ignore_ssrc l.incoming c x ≡ member x l.tracks)

remove_first-none : (x : ℕ) (xs : List ℕ) → member x xs ≡ false → remove_first x xs ≡ xs
unfolding remove_first
remove_first-none x [] h = refl
remove_first-none x (y ∷ xs) h = ground (arith, remove_first-none x xs)

-- Two tests of the same Boolean.
if_both :
    {A B : Type 0} (P : A → B → Type 0) (b : Bool) {x y : A} {u v : B}
    → P x u
    → P y v
    → P (if b then x else y) (if b then u else v)
if_both P true hit miss = hit
if_both P false hit miss = miss

-- With a configurer for which nothing is stored, the listener ignores nothing.
hear_lem :
    (owner : ℕ) (l : Link) (a : ℕ) (pkt : Packet)
    → l.incoming owner ≡ []
    → (hear owner l a pkt).relay ≡ hear_reference none a pkt l.relay
unfolding hear hear_reference ignores ignore_ssrc lookup
hear_lem owner l a pkt e = rw (e, ignore_ssrc) refl

module _ (installed owner : ℕ) (apart : (owner == installed) ≡ false) (video audio : Bool) where
  set_incoming-apart :
      (m : List (ℕ × Bool)) (incoming : ℕ → List (ℕ × Bool))
      → incoming owner ≡ []
      → set_incoming installed m incoming owner ≡ []
  unfolding set_incoming
  set_incoming-apart m incoming e = ground (arith, apart, e)

  run-all_heard :
      (es : List Event) (l : Link)
      → l.incoming owner ≡ []
      → (run installed owner video audio l es).relay
        ≡ shared_loop none video audio l.relay (all_heard l.tracks es)
  unfolding run step all_heard shared_loop shared_step on_track end_track hear put
  run-all_heard [] l e = refl
  run-all_heard (comes ssrc ∷ es) l e =
      run-all_heard es (on_track installed l ssrc)
        (set_incoming-apart (insert ssrc true (l.incoming installed)) l.incoming e)
  run-all_heard (goes ssrc ∷ es) l e =
      let P = λ (t : Link).
        (run installed owner video audio t es).relay
        ≡ shared_loop none video audio l.relay (all_heard (remove_first ssrc l.tracks) es) in
      if_split P (member ssrc l.tracks)
        (λ _.
          run-all_heard es (end_track installed l ssrc)
            (set_incoming-apart (erase ssrc (l.incoming installed)) l.incoming e))
        (λ gone. rw (remove_first-none ssrc l.tracks gone) (run-all_heard es l e))
  run-all_heard (kept_back ssrc a pkt ∷ es) l e =
      if_both
        (λ (t : Link) (hs : List SharedEvent).
          (run installed owner video audio t es).relay ≡ shared_loop none video audio l.relay hs)
        (member ssrc l.tracks) (run-all_heard es (put l a (record pkt { ssrc = ssrc })) e)
        (run-all_heard es l e)
  run-all_heard (own ssrc a pkt ∷ es) l e =
      let pkt' : Packet = record pkt { ssrc = ssrc } in
      if_both
        (λ (t : Link) (hs : List SharedEvent).
          (run installed owner video audio t es).relay ≡ shared_loop none video audio l.relay hs)
        (member ssrc l.tracks)
        (run-all_heard es (hear owner l a pkt') e
          ∙ ap (λ r. shared_loop none video audio r (all_heard l.tracks es))
              (hear_lem owner l a pkt' e))
        (run-all_heard es l e)
  run-all_heard (other a pkt ∷ es) l e =
      run-all_heard es (hear owner l a pkt) e
      ∙ ap (λ r. shared_loop none video audio r (all_heard l.tracks es)) (hear_lem owner l a pkt e)
  run-all_heard (takes ∷ es) l e = run-all_heard es _ e

-- The relay that is started with a later offer on a connection that there is, whose callbacks are
-- those of another configurer, ignores nothing: whatever tracks come and go, it is the relay that
-- has no sources to ignore and hears the peer's own packets too.
pub run-echo :
    (installed made : ℕ) (video audio : Bool) (r : SharedRelay) (es : List Event)
    → (made == installed) ≡ false
    → let (i, o) = configurers installed made false in
      (run i o video audio (new_link r) es).relay ≡ shared_loop none video audio r (all_heard [] es)
unfolding configurers
run-echo installed made video audio r es apart =
    run-all_heard installed made apart video audio es (new_link r) refl

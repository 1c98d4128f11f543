-- ===== src/Stream/Broadcaster/Running/Receivers.antt =====
-- Which receivers of a broadcaster have a local track.
use mistlink.Base.{
  ℕ, ◌≡◌, refl, Bool, false, not, ◌&&◌, List, [], ◌∷◌, map, arith, ◌==◌, if◌then◌else◌, any,
}
use mistlink.Base.Maps.{insert, erase}
use mistlink.Base.Members.{member}

-- How often a packet goes to the local track, and whether another receiver has it.
unfoldable pub entries : ℕ → List (ℕ × ℕ) → List ℕ
entries t [] = []
entries t ((id, track) ∷ m) = if track == t then id ∷ entries t m else entries t m

abbrev pub foreign : ℕ → ℕ → List (ℕ × ℕ) → Bool
foreign id t = any (λ (e : ℕ × ℕ). e.1 == t && not (e.0 == id))

pub entries-insert :
    (id t : ℕ) (m : List (ℕ × ℕ)) → entries t m ≡ [] → entries t (insert id t m) ≡ id ∷ []
unfolding entries insert
entries-insert id t [] h = ground arith
entries-insert id t ((k, v) ∷ m) h = ground (arith, entries-insert id t m)

pub foreign-none : (id t : ℕ) (m : List (ℕ × ℕ)) → entries t m ≡ [] → foreign id t m ≡ false
unfolding entries
foreign-none id t [] h = refl
foreign-none id t ((k, v) ∷ m) h = ground (arith, foreign-none id t m)

pub foreign-insert :
    (id t : ℕ) (m : List (ℕ × ℕ)) → entries t m ≡ [] → foreign id t (insert id t m) ≡ false
unfolding entries insert
foreign-insert id t [] h = ground arith
foreign-insert id t ((k, v) ∷ m) h = ground (arith, foreign-insert id t m, foreign-none id t m)

pub entries-insert_other :
    (id t id' t' : ℕ) (m : List (ℕ × ℕ))
    → (id' == id) ≡ false
    → (t' == t) ≡ false
    → foreign id t m ≡ false
    → (entries t (insert id' t' m) ≡ entries t m) × (foreign id t (insert id' t' m) ≡ false)
unfolding entries insert
entries-insert_other id t id' t' [] h k f = ground arith
entries-insert_other id t id' t' ((j, v) ∷ m) h k f =
    ground (arith, entries-insert_other id t id' t' m h k)

pub entries-erase_other :
    (id t id' : ℕ) (m : List (ℕ × ℕ))
    → (id' == id) ≡ false
    → foreign id t m ≡ false
    → (entries t (erase id' m) ≡ entries t m) × (foreign id t (erase id' m) ≡ false)
unfolding entries erase
entries-erase_other id t id' [] h f = ground arith
entries-erase_other id t id' ((j, v) ∷ m) h f = ground (arith, entries-erase_other id t id' m h)

pub entries-erase_own :
    (id t : ℕ) (m : List (ℕ × ℕ)) → foreign id t m ≡ false → entries t (erase id m) ≡ []
unfolding entries erase
entries-erase_own id t [] f = ground arith
entries-erase_own id t ((j, v) ∷ m) f = ground (arith, entries-erase_own id t m)

pub entries-insert_off :
    (t id' t' : ℕ) (m : List (ℕ × ℕ))
    → (t' == t) ≡ false
    → entries t m ≡ []
    → entries t (insert id' t' m) ≡ []
unfolding entries insert
entries-insert_off t id' t' [] k h = ground arith
entries-insert_off t id' t' ((j, v) ∷ m) k h = ground (arith, entries-insert_off t id' t' m k)

pub entries-erase_off :
    (t id' : ℕ) (m : List (ℕ × ℕ)) → entries t m ≡ [] → entries t (erase id' m) ≡ []
unfolding entries erase
entries-erase_off t id' [] h = ground arith
entries-erase_off t id' ((j, v) ∷ m) h = ground (arith, entries-erase_off t id' m)

-- The local track is the receiver's and nobody else's.
abbrev pub Holds : ℕ → ℕ → List (ℕ × ℕ) → Type 0
Holds id t m = (entries t m ≡ id ∷ []) × (foreign id t m ≡ false)

pub entries-none :
    (t : ℕ) (m : List (ℕ × ℕ)) → member t (map (λ (e : ℕ × ℕ). e.1) m) ≡ false → entries t m ≡ []
unfolding entries
entries-none t [] h = refl
entries-none t ((id, track) ∷ m) h = ground (arith, entries-none t m)

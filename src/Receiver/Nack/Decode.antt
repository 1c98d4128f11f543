-- ===== src/Receiver/Nack/Decode.antt =====
-- What the sender of the media reads out of the NACK pairs.
use Prim.Native.Nat.{bit_or}
use mistlink.Base.{
  ℕ, zero, suc, ◌-◌, ◌≤◌, ◌<◌, ◌≡◌, refl, Bool, true, false, ◌&&◌, ◌||◌, Option, none, some, List,
  [], ◌∷◌, arith, leb, ◌==◌, if◌then◌else◌, length, any, All, Bool-cases, inl, inr, ==→eq,
}
use mistlink.Base.Words.{sub16, u16_mod}
use mistlink.Base.Bits.{
  bit_at, bit_at-zero, bit_at-bit_or, bit_at-le-one, holds_below, holds_below-at,
}
use mistlink.Base.Members.{member}
use mistlink.Receiver.Nack.{NackPair, shl16, gather, pack, send_nack, TransportLayerNack}

-- A pair asks for its packet, and for the (k + 1)-th after it where bit k is set (RFC 4585, 6.2.1).
unfoldable pub asks : NackPair → ℕ → Bool
asks p x = let d = sub16 x p.packet_id in d == 0 || (leb d 16 && bit_at p.lost_packets (d - 1) == 1)

abbrev pub asks_any : List NackPair → ℕ → Bool
asks_any ps x = any (λ p. asks p x) ps

abbrev pub requested : Option TransportLayerNack → ℕ → Bool
requested none x = false
requested (some n) x = asks_any n.nacks x

shift_table :
    holds_below 17
      (λ d. holds_below 16 (λ k. bit_at (shl16 1 (sub16 d 1)) k == (if d == suc k then 1 else 0)))
    ≡ true
shift_table = refl

-- `1 << (diff - 1)` sets bit `diff - 1`, and no bit at all for a diff of 0.
bit_at-shl16 :
    (d k : ℕ) → d < 17 → k < 16 → bit_at (shl16 1 (sub16 d 1)) k ≡ (if d == suc k then 1 else 0)
bit_at-shl16 d k hd hk = ==→eq _ _ (
    holds_below-at 16 (λ j. bit_at (shl16 1 (sub16 d 1)) j == (if d == suc j then 1 else 0)) k
      (holds_below-at 17
        (λ e. holds_below 16 (λ j. bit_at (shl16 1 (sub16 e 1)) j == (if e == suc j then 1 else 0)))
        d shift_table hd)
      hk)

abbrev pair : ℕ → ℕ → NackPair
pair base bitmap = record { packet_id = base; lost_packets = bitmap }

-- One more number in a pair's bitmap is one more that the pair asks for.
asks-bit_or :
    (base bitmap seq x : ℕ)
    → base < u16_mod
    → seq < u16_mod
    → x < u16_mod
    → sub16 seq base ≤ 16
    → asks (pair base (bit_or bitmap (shl16 1 (sub16 (sub16 seq base) 1)))) x
      ≡ (asks (pair base bitmap) x || seq == x)
unfolding asks
asks-bit_or base bitmap seq x hb hs hx h =
    let d = sub16 seq base in
    let k = sub16 x base - 1 in
    ground (
      arith,
      bit_at-bit_or k bitmap (shl16 1 (sub16 d 1)),
      bit_at-shl16 d k,
      bit_at-le-one bitmap k,
    )

-- Whatever `gather` moves into the bitmap is asked for, and nothing else.
asks-gather :
    (base bitmap : ℕ) (seqs : List ℕ) (x : ℕ)
    → base < u16_mod
    → x < u16_mod
    → All (λ y. y < u16_mod) seqs
    → let (bitmap', left) = gather base bitmap seqs in
      (asks (pair base bitmap') x || member x left) ≡ (asks (pair base bitmap) x || member x seqs)
unfolding gather
asks-gather base bitmap [] x hb hx hs = refl
asks-gather base bitmap (seq ∷ rest) x hb hx hs =
    let more = bit_or bitmap (shl16 1 (sub16 (sub16 seq base) 1)) in
    ground
      (arith, asks-gather base more rest x hb hx hs.1, asks-bit_or base bitmap seq x hb hs.0 hx)

-- What the inner loop leaves is no longer than what it was given, and in range.
gather-bounds :
    (base bitmap : ℕ) (seqs : List ℕ)
    → All (λ y. y < u16_mod) seqs
    → let (bitmap', left) = gather base bitmap seqs in
      (length left ≤ length seqs) × All (λ y. y < u16_mod) left
unfolding gather
gather-bounds base bitmap [] hs = (omega arith, hs)
gather-bounds base bitmap (seq ∷ rest) hs =
    let more = bit_or bitmap (shl16 1 (sub16 (sub16 seq base) 1)) in
    elim (Bool-cases (leb (sub16 seq base) 16)) [
      | inl e ↦
          rw e (
            let (short, range) = gather-bounds base more rest hs.1 in (omega (arith, short), range))
      | inr e ↦ rw e (omega arith, hs)
    ]

asks-base : (base x : ℕ) → base < u16_mod → x < u16_mod → asks (pair base 0) x ≡ (base == x)
unfolding asks
asks-base base x hb hx = ground (arith, bit_at-zero (sub16 x base - 1))

-- Fuel for each number is enough.
asks-pack :
    (fuel : ℕ) (missing : List ℕ) (x : ℕ)
    → length missing ≤ fuel
    → x < u16_mod
    → All (λ y. y < u16_mod) missing
    → asks_any (pack fuel missing) x ≡ member x missing
unfolding pack
asks-pack zero [] x hf hx hs = refl
asks-pack zero (y ∷ ys) x hf hx hs = absurd (omega arith)
asks-pack (suc fuel) [] x hf hx hs = refl
asks-pack (suc fuel) (base ∷ rest) x hf hx hs =
    let bounds = gather-bounds base 0 rest hs.1 in
    ground (
      arith,
      asks-pack fuel (gather base 0 rest).1 x (omega (arith, bounds.0)) hx bounds.1,
      asks-gather base 0 rest x hs.0 hx hs.1,
      asks-base base x hs.0 hx,
    )

-- The NACK that `SendNACK` writes asks, of all 16-bit numbers, for exactly those in `missing`, if
-- these are 16-bit numbers, whatever their order and distances, and without a writer, or with
-- nothing missing, nothing is written.
pub requested-send_nack :
    (ssrc : ℕ) (missing : List ℕ) (x : ℕ)
    → x < u16_mod
    → All (λ y. y < u16_mod) missing
    → (requested (send_nack true ssrc missing) x ≡ member x missing)
      × (send_nack false ssrc missing ≡ none)
      × (send_nack true ssrc [] ≡ none)
unfolding send_nack
requested-send_nack ssrc [] x hx hs = (refl, refl, refl)
requested-send_nack ssrc (seq ∷ rest) x hx hs =
    (asks-pack (length (seq ∷ rest)) (seq ∷ rest) x (omega arith) hx hs, refl, refl)

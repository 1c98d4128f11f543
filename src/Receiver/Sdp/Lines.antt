-- ===== src/Receiver/Sdp/Lines.antt =====
-- The parameter sets of a line, written and read back, and what a description leaves alone.
use mistlink.Base.{
  ℕ, ◌≡◌, refl, ◌∙◌, true, false, List, [], ◌∷◌, ◌++◌, none, some, All, ◌==◌, drop-append_self,
  arith,
}
use mistlink.Base.Text.{codes, has_prefix, contains, split_byte, cut}
use mistlink.Receiver.Sdp.{fmtp, sprop, first_two, sets_of, line_sets}

-- A text without a byte.
abbrev pub Lacks : ℕ → List ℕ → Type 0
Lacks b = All (λ c. (c == b) ≡ false)

split_byte-first :
    (b : ℕ) (s rest : List ℕ)
    → Lacks b s
    → split_byte b (s ++ b ∷ rest) ≡ (s, (split_byte b rest).0 ∷ (split_byte b rest).1)
split_byte-first b [] rest h = ground arith
split_byte-first b (c ∷ s) rest h = rw (split_byte-first b s rest h.1) (ground arith)

split_byte-none : (b : ℕ) (s : List ℕ) → Lacks b s → split_byte b s ≡ (s, [])
split_byte-none b [] h = refl
split_byte-none b (c ∷ s) h = rw (split_byte-none b s h.1) (ground arith)

has_prefix-append : (p s : List ℕ) → has_prefix (p ++ s) p ≡ true
has_prefix-append [] s = refl
has_prefix-append (c ∷ p) s = ground (arith, has_prefix-append p s)

-- The separator is found behind a text that lacks its first byte.
cut-append :
    (b : ℕ) (sep pre rest : List ℕ)
    → Lacks b pre
    → cut (b ∷ sep) (pre ++ ((b ∷ sep) ++ rest)) ≡ (pre, some rest)
cut-append b sep [] rest h =
    let hit : has_prefix (b ∷ (sep ++ rest)) (b ∷ sep) ≡ true = has_prefix-append (b ∷ sep) rest in
    rw (hit, drop-append_self sep rest) refl
cut-append b sep (c ∷ pre) rest h = rw (cut-append b sep pre rest h.1) (ground arith)

contains-append :
    (b : ℕ) (sep pre rest : List ℕ) → contains (pre ++ ((b ∷ sep) ++ rest)) (b ∷ sep) ≡ true
contains-append b sep [] rest = ground (arith, has_prefix-append (b ∷ sep) rest)
contains-append b sep (c ∷ pre) rest = ground (arith, contains-append b sep pre rest)

cut-none : (b : ℕ) (sep s : List ℕ) → contains s (b ∷ sep) ≡ false → cut (b ∷ sep) s ≡ (s, none)
cut-none b sep [] h = refl
cut-none b sep (c ∷ s) h = rw (cut-none b sep s (ground arith)) (ground arith)

Lacks-append : (b : ℕ) (xs ys : List ℕ) → Lacks b xs → Lacks b ys → Lacks b (xs ++ ys)
Lacks-append b [] ys hx hy = hy
Lacks-append b (x ∷ xs) ys hx hy = (hx.0, Lacks-append b xs ys hx.1 hy)

-- What stands behind `sprop-parameter-sets=`: two values, and other parameters behind a semicolon.
abbrev pub values : List ℕ → List ℕ → List ℕ → List ℕ
values sps pps others = (sps ++ b',' ∷ pps) ++ b';' ∷ others

abbrev pub parameter_line : List ℕ → List ℕ → List ℕ → List ℕ → List ℕ
parameter_line pre sps pps others = (fmtp ++ pre) ++ (sprop ++ values sps pps others)

sets_of-values :
    (sps pps others : List ℕ)
    → Lacks b',' sps
    → Lacks b',' pps
    → Lacks b';' sps
    → Lacks b';' pps
    → contains (values sps pps others) sprop ≡ false
    → sets_of (some (values sps pps others)) ≡ some (sps, pps)
unfolding sets_of first_two
sets_of-values sps pps others hs hp ks kp once =
    rw
      (
        cut-none b's' (codes "prop-parameter-sets=") (values sps pps others) once,
        split_byte-first b';' (sps ++ b',' ∷ pps) others
            (Lacks-append b';' sps (b',' ∷ pps) ks (refl, kp)),
        split_byte-first b',' sps pps hs,
        split_byte-none b',' pps hp,
      )
      refl

fmtp-Lacks : Lacks b's' fmtp
fmtp-Lacks = (refl, (refl, (refl, (refl, (refl, (refl, (refl, tt)))))))

line_sets-cut :
    (line pre rest : List ℕ)
    → has_prefix line fmtp ≡ true
    → contains line sprop ≡ true
    → cut sprop line ≡ (pre, some rest)
    → line_sets line ≡ sets_of (some rest)
unfolding line_sets
line_sets-cut line pre rest begins named found = rw (begins, named, found) refl

-- A line of format parameters whose `sprop-parameter-sets=` names two values gives just these as SPS
-- and PPS, whatever other parameters stand before and behind it: if the ones before have no byte `s`,
-- the values have no comma and no semicolon, and the name does not come again.
line_sets-parameter_line :
    (pre sps pps others : List ℕ)
    → Lacks b's' pre
    → Lacks b',' sps
    → Lacks b',' pps
    → Lacks b';' sps
    → Lacks b';' pps
    → contains (values sps pps others) sprop ≡ false
    → line_sets (parameter_line pre sps pps others) ≡ some (sps, pps)
line_sets-parameter_line pre sps pps others h hs hp ks kp once =
    let lacks : Lacks b's' (fmtp ++ pre) = Lacks-append b's' fmtp pre fmtp-Lacks h in
    let rest = values sps pps others in
    let sep = codes "prop-parameter-sets=" in
    line_sets-cut (parameter_line pre sps pps others) (fmtp ++ pre) rest refl
      (contains-append b's' sep (fmtp ++ pre) rest) (cut-append b's' sep (fmtp ++ pre) rest lacks)
    ∙ sets_of-values sps pps others hs hp ks kp once

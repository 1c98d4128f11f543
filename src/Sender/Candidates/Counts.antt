-- ===== src/Sender/Candidates/Counts.antt =====
-- Where the candidates are, however the callbacks interleave.
use mistlink.Base.{
  ℕ, zero, suc, ◌+◌, ◌≡◌, refl, ◌∙◌, ap, Bool, true, false, List, [], ◌∷◌, ◌++◌, Option, none, some,
  if◌then◌else◌, ◌==◌, arith, ==→eq, if_rule, ◌&&◌, Bool-cases, inl, inr,
}
use mistlink.Base.Members.{member, remove_first}
use mistlink.Sender.Candidates.{
  Ice, Peer, Turn, comes, buffers, answers, sets, drains, adds, has_remote, has_offer,
  add_candidate, test_candidate, buffer, test_answer, describe, is_there, set_remote_description,
  drain, add_drained, turn, run,
}

-- How often a candidate stands in a list.
unfoldable pub count : ℕ → List ℕ → ℕ
count c [] = 0
count c (x ∷ xs) = let rest = count c xs in if x == c then suc rest else rest

abbrev pub added_to : Option Peer → List ℕ
added_to none = []
added_to (some pc) = pc.added

-- How often a candidate is with the connection, in the buffer, or in the hands of a callback.
unfoldable pub held : ℕ → Ice → ℕ
held c s = count c (added_to s.peer) + count c s.pending + count c s.early + count c s.drained

-- How often a candidate comes.
unfoldable pub came : ℕ → List Turn → ℕ
came c [] = 0
came c (comes none ∷ ts) = came c ts
came c (comes (some x) ∷ ts) = let rest = came c ts in if x == c then suc rest else rest
came c (buffers x ∷ ts) = came c ts
came c (answers parses ∷ ts) = came c ts
came c (sets taken ∷ ts) = came c ts
came c (drains ∷ ts) = came c ts
came c (adds x ∷ ts) = came c ts

pub count-append : (c : ℕ) (xs ys : List ℕ) → count c (xs ++ ys) ≡ count c xs + count c ys
unfolding count
count-append c [] ys = omega arith
count-append c (x ∷ xs) ys = ground (arith, count-append c xs ys)

pub count-remove_first :
    (c x : ℕ) (xs : List ℕ)
    → member x xs ≡ true
    → count c xs
      ≡ (if x == c then suc (count c (remove_first x xs)) else count c (remove_first x xs))
unfolding count remove_first
count-remove_first c x [] h = ground (arith, h)
count-remove_first c x (y ∷ xs) h = ground (arith, count-remove_first c x xs)

module _ (accepts : ℕ → Bool) (c : ℕ) (good : accepts c ≡ true) where
  -- A candidate that is added.
  count-add_candidate :
      (x : ℕ) (peer : Option Peer)
      → is_there peer ≡ true
      → count c (added_to (add_candidate accepts x peer))
        ≡ (if x == c then suc (count c (added_to peer)) else count c (added_to peer))
  unfolding add_candidate count is_there
  count-add_candidate x none h = ground (arith, h)
  count-add_candidate x (some pc) h =
      let more = count-append c pc.added (x ∷ []) in
      elim (Bool-cases (accepts x)) [
        | inl taken ↦ rw (taken) (more ∙ ground arith)
        | inr refused ↦
            let differ : (x == c) ≡ false = elim (Bool-cases (x == c)) [
              | inl same ↦ absurd (ground (arith, good, refused, ap accepts (==→eq x c same)))
              | inr apart ↦ apart
            ] in
            rw (refused, differ) refl
      ]

  has_remote-is_there : (peer : Option Peer) → has_remote peer ≡ true → is_there peer ≡ true
  unfolding has_remote is_there
  has_remote-is_there none h = h
  has_remote-is_there (some pc) h = refl

  test_candidate-held :
      (s : Ice) (x : ℕ)
      → held c (test_candidate accepts s (some x)) ≡ (if x == c then suc (held c s) else held c s)
  unfolding held test_candidate count
  test_candidate-held s x = elim (Bool-cases (has_remote s.peer)) [
    | inl set ↦
        let more = count-add_candidate x s.peer (has_remote-is_there s.peer set) in
        rw (set, more) (ground arith)
    | inr unset ↦ rw (unset) (ground arith)
  ]

  buffer-held : (s : Ice) (x : ℕ) → held c (buffer accepts s x) ≡ held c s
  unfolding held buffer count
  buffer-held s x = elim (Bool-cases (member x s.early)) [
    | inl there ↦
        let less = count-remove_first c x s.early there in
        let more = count-append c s.pending (x ∷ []) in rw (there, more, less) (ground arith)
    | inr gone ↦ rw (gone) refl
  ]

  add_drained-held : (s : Ice) (x : ℕ) → held c (add_drained accepts s x) ≡ held c s
  unfolding held add_drained
  add_drained-held s x = elim (Bool-cases (is_there s.peer)) [
    | inl there ↦ elim (Bool-cases (member x s.drained)) [
      | inl waits ↦
          let less = count-remove_first c x s.drained waits in
          let more = count-add_candidate x s.peer there in
          rw (there, waits, more, less) (ground arith)
      | inr gone ↦ rw (there, gone) refl
    ]
    | inr absent ↦ rw (absent) refl
  ]

  added-describe : (peer : Option Peer) → added_to (describe accepts peer) ≡ added_to peer
  unfolding describe
  added-describe none = refl
  added-describe (some pc) = refl

  set_remote_description-held :
      (s : Ice) (answering : ℕ) (taken : Bool)
      → held c (set_remote_description accepts s answering taken) ≡ held c s
  unfolding held set_remote_description
  set_remote_description-held s zero taken = refl
  set_remote_description-held s (suc answering) true =
      ap (λ xs. count c xs + count c s.pending + count c s.early + count c s.drained)
        (added-describe s.peer)
  set_remote_description-held s (suc answering) false = refl

  drain-held : (s : Ice) (draining : ℕ) → held c (drain accepts s draining) ≡ held c s
  unfolding held drain count
  drain-held s zero = refl
  drain-held s (suc draining) = omega (arith, count-append c s.drained s.pending)

  test_answer-held : (s : Ice) (parses : Bool) → held c (test_answer accepts s parses) ≡ held c s
  unfolding held test_answer
  test_answer-held s parses =
      if_rule (λ (t : Ice). held c t ≡ held c s) (has_offer s.peer && parses) refl refl

  -- However the callbacks for the candidates and the answers of a sender interleave: a candidate that
  -- its connection accepts is added to it, in the buffer or in the hands of a callback as often as it
  -- was before and has come since: none is lost, and none is added twice.
  pub run-held : (s : Ice) (ts : List Turn) → held c (run accepts s ts) ≡ came c ts + held c s
  unfolding run turn came test_candidate
  run-held s [] = omega arith
  run-held s (comes none ∷ ts) = run-held s ts
  run-held s (comes (some x) ∷ ts) =
      let step = test_candidate-held s x in
      run-held (test_candidate accepts s (some x)) ts ∙ ground (arith, step)
  run-held s (buffers x ∷ ts) =
      run-held (buffer accepts s x) ts ∙ ap (λ n. came c ts + n) (buffer-held s x)
  run-held s (answers parses ∷ ts) =
      run-held (test_answer accepts s parses) ts
      ∙ ap (λ n. came c ts + n) (test_answer-held s parses)
  run-held s (sets taken ∷ ts) =
      run-held (set_remote_description accepts s s.answering taken) ts
      ∙ ap (λ n. came c ts + n) (set_remote_description-held s s.answering taken)
  run-held s (drains ∷ ts) =
      run-held (drain accepts s s.draining) ts ∙ ap (λ n. came c ts + n) (drain-held s s.draining)
  run-held s (adds x ∷ ts) =
      run-held (add_drained accepts s x) ts ∙ ap (λ n. came c ts + n) (add_drained-held s x)

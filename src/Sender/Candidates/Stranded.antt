-- ===== src/Sender/Candidates/Stranded.antt =====
-- Candidates that are buffered after the answer has taken the buffer.
use mistlink.Base.{
  ℕ, ◌+◌, ◌≡◌, refl, ◌∙◌, Bool, true, false, List, [], ◌∷◌, Option, none, some, arith, Bool-cases,
  inl, inr, if_rule, ◌&&◌,
}
use mistlink.Base.Members.{member}
use mistlink.Sender.Candidates.{
  Ice, Peer, Turn, comes, buffers, answers, sets, drains, adds, has_remote, has_offer, is_there,
  add_candidate, test_candidate, buffer, test_answer, set_remote_description, drain, add_drained,
  turn, run,
}
use mistlink.Sender.Candidates.Counts.{count, count-append, count-remove_first}

-- The answer is set and has taken the buffer, and no other is under way.
pub record IsAnswered (s : Ice) : Type 0 where
  pub remote : has_remote s.peer ≡ true
  pub no_offer : has_offer s.peer ≡ false
  pub none_answering : s.answering ≡ 0
  pub none_draining : s.draining ≡ 0

-- How often a candidate is in the buffer or about to be put there.
unfoldable pub too_late : ℕ → Ice → ℕ
too_late c s = count c s.pending + count c s.early

module _ (accepts : ℕ → Bool) (c : ℕ) where
  abbrev Stays : Ice → Ice → Type 0
  Stays s t = IsAnswered t × (too_late c t ≡ too_late c s)

  add_candidate-same :
      (x : ℕ) (peer : Option Peer)
      → (has_remote (add_candidate accepts x peer) ≡ has_remote peer)
        × (has_offer (add_candidate accepts x peer) ≡ has_offer peer)
  unfolding add_candidate has_remote has_offer
  add_candidate-same x none = (refl, refl)
  add_candidate-same x (some pc) = (ground arith, ground arith)

  added-IsAnswered :
      (s : Ice) (x : ℕ) (drained : List ℕ)
      → IsAnswered s
      → IsAnswered (record s { peer = add_candidate accepts x s.peer; drained = drained })
  added-IsAnswered s x drained a =
      let (remote, offer) = add_candidate-same x s.peer in
      record {
        remote = remote ∙ a.remote;
        no_offer = offer ∙ a.no_offer;
        none_answering = a.none_answering;
        none_draining = a.none_draining;
      }

  buffer-Stays : (s : Ice) (x : ℕ) → IsAnswered s → Stays s (buffer accepts s x)
  unfolding buffer too_late count
  buffer-Stays s x a = elim (Bool-cases (member x s.early)) [
    | inl there ↦
        let less = count-remove_first c x s.early there in
        let more = count-append c s.pending (x ∷ []) in
        rw (there, more, less)
          (
            record {
              remote = a.remote;
              no_offer = a.no_offer;
              none_answering = a.none_answering;
              none_draining = a.none_draining;
            },
            ground arith,
          )
    | inr gone ↦ rw (gone) (a, refl)
  ]

  turn-Stays : (s : Ice) (t : Turn) → IsAnswered s → Stays s (turn accepts s t)
  unfolding turn test_candidate test_answer set_remote_description drain add_drained too_late
  turn-Stays s (comes none) a = (a, refl)
  turn-Stays s (comes (some x)) a = rw (a.remote) (added-IsAnswered s x s.drained a, refl)
  turn-Stays s (buffers x) a = buffer-Stays s x a
  turn-Stays s (answers parses) a = rw (a.no_offer) (a, refl)
  turn-Stays s (sets taken) a = rw (a.none_answering, set_remote_description) (a, refl)
  turn-Stays s drains a = rw (a.none_draining, drain) (a, refl)
  turn-Stays s (adds x) a =
      if_rule (λ (t : Ice). Stays s t) (is_there s.peer && member x s.drained)
        (added-IsAnswered s x _ a, refl) (a, refl)

  -- Once the answer is set and has taken the buffer, and neither another answer nor a new offer is
  -- under way: whatever candidates and answers come and however their callbacks interleave, a
  -- candidate stays in the buffer, or in the hands of a callback that is about to buffer it, as
  -- often as it is there.
  pub run-too_late :
      (s : Ice) (ts : List Turn) → IsAnswered s → too_late c (run accepts s ts) ≡ too_late c s
  unfolding run
  run-too_late s [] a = refl
  run-too_late s (t ∷ ts) a =
      let (b, same) = turn-Stays s t a in run-too_late (turn accepts s t) ts b ∙ same

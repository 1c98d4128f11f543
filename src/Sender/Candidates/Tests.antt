-- ===== src/Sender/Candidates/Tests.antt =====
-- A candidate that is tested before the answer is set and buffered after it took the buffer.
use mistlink.Base.{ℕ, ◌+◌, ◌≡◌, refl, Bool, true, false, List, [], ◌∷◌, none, some, not, ◌==◌}
use mistlink.Sender.Candidates.{
  Ice, Turn, comes, buffers, answers, sets, drains, adds, has_remote, has_offer, test_candidate,
  describe, test_answer, set_remote_description, drain, turn, run,
}
use mistlink.Sender.Candidates.Counts.{held, came, run-held}
use mistlink.Sender.Candidates.Stranded.{IsAnswered, too_late, run-too_late}

abbrev takes : ℕ → Bool
takes c = not (c == 3)

abbrev offering : Ice
offering = record {
  peer = some (record { have_local_offer = true; remote_description = false; added = [] });
  pending = 1 ∷ [];
  early = [];
  answering = 0;
  draining = 0;
  drained = [];
}

abbrev answered : List Turn
answered = comes (some 2) ∷ answers true ∷ sets true ∷ drains ∷ []

abbrev afterwards : List Turn
afterwards = buffers 2 ∷ adds 1 ∷ comes (some 4) ∷ comes none ∷ answers true ∷ drains ∷ []

run-held_example : held 2 (run takes offering answered) ≡ came 2 answered + held 2 offering
run-held_example = run-held takes 2 refl offering answered

answered-IsAnswered : IsAnswered (run takes offering answered)
unfolding run turn test_candidate test_answer set_remote_description drain describe has_remote
    has_offer
answered-IsAnswered = record {
  remote = refl;
  no_offer = refl;
  none_answering = refl;
  none_draining = refl;
}

run-too_late_example :
    too_late 2 (run takes (run takes offering answered) afterwards)
    ≡ too_late 2 (run takes offering answered)
run-too_late_example =
    run-too_late takes 2 (run takes offering answered) afterwards answered-IsAnswered

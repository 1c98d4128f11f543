-- ===== src/Sender/Candidates.antt =====
-- internal/sender/callbacks.go, NewCandidateCallback and NewAnswerCallback: the ICE candidates of one
-- sender. Each call of a callback is a goroutine of its own; what runs between two goroutines' turns
-- is one step: a test of the connection, a section of `mu`, or a call of the library. The callbacks
-- touch only the sender's own connection and its entry of `pendingCandidates`.
pub mod Counts
pub mod Stranded
mod Tests
use mistlink.Base.{
  ℕ, zero, suc, ◌+◌, Bool, true, false, not, ◌&&◌, List, [], ◌∷◌, ◌++◌, Option, none, some,
  if◌then◌else◌,
}
use mistlink.Base.Members.{member, remove_first}

-- A connection: whether it has a local offer out, whether it has a remote description, and the
-- candidates added to it.
pub record Peer : Type 0 where
  pub have_local_offer : Bool
  pub remote_description : Bool
  pub added : List ℕ

-- The connection, the sender's entry of `pendingCandidates`, and what the goroutines hold: candidates
-- that were found to come too early, answers that were tested and that were set, and candidates that
-- an answer took out of the buffer.
pub record Ice : Type 0 where
  pub peer : Option Peer
  pub pending : List ℕ
  pub early : List ℕ
  pub answering : ℕ
  pub draining : ℕ
  pub drained : List ℕ

-- The next step of some goroutine. A candidate comes, unless it cannot be parsed, and is tested; one
-- that came too early is buffered. An answer comes, with whether it can be parsed, and is tested; it
-- is set, with whether `SetRemoteDescription` takes it; it takes the buffer; and it adds a candidate.
pub data Turn : Type 0 where
  comes : Option ℕ → Turn
  buffers : ℕ → Turn
  answers : Bool → Turn
  sets : Bool → Turn
  drains : Turn
  adds : ℕ → Turn

unfoldable pub has_remote : Option Peer → Bool
has_remote none = false
has_remote (some pc) = pc.remote_description

unfoldable pub is_there : Option Peer → Bool
is_there none = false
is_there (some pc) = true

unfoldable pub has_offer : Option Peer → Bool
has_offer none = false
has_offer (some pc) = pc.have_local_offer

module _ (accepts : ℕ → Bool) where
  -- `AddICECandidate`, whose error is logged only.
  unfoldable pub add_candidate : ℕ → Option Peer → Option Peer
  add_candidate c none = none
  add_candidate c (some pc) =
      some (if accepts c then record pc { added = pc.added ++ (c ∷ []) } else pc)

  -- `NewCandidateCallback` up to the buffer.
  unfoldable pub test_candidate : Ice → Option ℕ → Ice
  test_candidate s none = s
  test_candidate s (some c) =
      if has_remote s.peer
      then record s { peer = add_candidate c s.peer }
      else record s { early = c ∷ s.early }

  unfoldable pub buffer : Ice → ℕ → Ice
  buffer s c =
      if member c s.early
      then record s { early = remove_first c s.early; pending = s.pending ++ (c ∷ []) }
      else s

  -- `NewAnswerCallback` up to `SetRemoteDescription`.
  unfoldable pub test_answer : Ice → Bool → Ice
  test_answer s parses =
      if has_offer s.peer && parses then record s { answering = suc s.answering } else s

  unfoldable pub describe : Option Peer → Option Peer
  describe none = none
  describe (some pc) = some (record pc { have_local_offer = false; remote_description = true })

  unfoldable pub set_remote_description : Ice → ℕ → Bool → Ice
  set_remote_description s zero taken = s
  set_remote_description s (suc answering) taken =
      if taken
      then record s { peer = describe s.peer; answering = answering; draining = suc s.draining }
      else record s { answering = answering }

  -- An answer takes the buffer.
  unfoldable pub drain : Ice → ℕ → Ice
  drain s zero = s
  drain s (suc draining) = record s {
    pending = [];
    draining = draining;
    drained = s.drained ++ s.pending;
  }

  -- Only an answer to a connection takes a buffer.
  unfoldable pub add_drained : Ice → ℕ → Ice
  add_drained s c =
      if is_there s.peer && member c s.drained
      then record s { peer = add_candidate c s.peer; drained = remove_first c s.drained }
      else s

  unfoldable pub turn : Ice → Turn → Ice
  turn s (comes candidate) = test_candidate s candidate
  turn s (buffers c) = buffer s c
  turn s (answers parses) = test_answer s parses
  turn s (sets taken) = set_remote_description s s.answering taken
  turn s drains = drain s s.draining
  turn s (adds c) = add_drained s c

  unfoldable pub run : Ice → List Turn → Ice
  run s [] = s
  run s (t ∷ ts) = run (turn s t) ts

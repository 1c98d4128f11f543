-- ===== src/Logger/Outlets.antt =====
-- Where the records of a program end up, given which initialisation came first.
use Prim.Native.String.{String}
use mistlink.Base.{
  Bool-cases, inl, inr, ◌≡◌, refl, Bool, true, false, not, ◌&&◌, List, [], ◌∷◌, ◌++◌, Option, none,
  some, if◌then◌else◌, arith,
}
use mistlink.Logger.{
  Level, debug_level, info_level, warn_level, error_level, Output, log_file, stdout, stderr,
  Options, Logger, new_logger, cores_of, init_with_options, Entry, write, debugf, infof, warnf,
  errorf, debug, info, warn, error, log_error,
}

-- The calls of the package, in the order in which they are made.
pub data Call (A : Type 0) : Type 0 where
  inits : Options → Call A
  logs : Level → String → String → List A → Call A
  logs_error : String → Option String → Call A

module _ {A : Type 0} (takes : Level → Level → Bool) (sprintf : String → List A → String) where
  unfoldable pub log : Logger → Level → String → String → List A → List Entry
  log l debug_level category format args = debugf takes sprintf l category format args
  log l info_level category format args = infof takes sprintf l category format args
  log l warn_level category format args = warnf takes sprintf l category format args
  log l error_level category format args = errorf takes sprintf l category format args

  unfoldable pub run : Logger → List (Call A) → List Entry
  run l [] = []
  run l (inits opts ∷ cs) = run (init_with_options l opts) cs
  run l (logs level category format args ∷ cs) = log l level category format args ++ run l cs
  run l (logs_error category err ∷ cs) = log_error takes l category err ++ run l cs

abbrev pub is_debug : Level → Bool
is_debug debug_level = true
is_debug info_level = false
is_debug warn_level = false
is_debug error_level = false

-- The outputs of a record of some level, by the options.
abbrev pub outlets : Options → Level → List Output
outlets opts level =
    if is_debug level && not opts.debug
    then []
    else log_file
      ∷ (if opts.use_stderr then stderr ∷ [] else if opts.debug then stdout ∷ [] else [])

unfoldable pub entries : Level → String → String → List Output → List Entry
entries level category message [] = []
entries level category message (o ∷ os) =
    record { output = o; level = level; category = category; message = message }
    ∷ entries level category message os

module _ {A : Type 0} (sprintf : String → List A → String) where
  -- What is written once the options are set: later ones change nothing.
  unfoldable pub written : Options → List (Call A) → List Entry
  written opts [] = []
  written opts (inits later ∷ cs) = written opts cs
  written opts (logs level category format args ∷ cs) =
      entries level category (sprintf format args) (outlets opts level) ++ written opts cs
  written opts (logs_error category none ∷ cs) = written opts cs
  written opts (logs_error category (some text) ∷ cs) =
      entries error_level category text (outlets opts error_level) ++ written opts cs

  -- Nothing is written before they are.
  unfoldable pub all_written : List (Call A) → List Entry
  all_written [] = []
  all_written (inits opts ∷ cs) = written opts cs
  all_written (logs level category format args ∷ cs) = all_written cs
  all_written (logs_error category err ∷ cs) = all_written cs

  module _ (takes : Level → Level → Bool)
      (debug_takes : (level : Level) → takes debug_level level ≡ true)
      (info_takes : (level : Level) → takes info_level level ≡ not (is_debug level)) where
    abbrev ready : Options → Logger
    ready opts = record { cores = cores_of opts; once = true }

    write-outlets :
        (opts : Options) (level : Level) (category message : String)
        → write takes (cores_of opts) level category message
          ≡ entries level category message (outlets opts level)
    unfolding write cores_of entries
    write-outlets opts level category message = go opts.debug opts.use_stderr
      where
        go :
            (d u : Bool)
            → let o : Options = record { debug = d; use_stderr = u } in
              write takes (cores_of o) level category message
              ≡ entries level category message (outlets o level)
        go true true = rw (debug_takes level) (ground arith)
        go true false = rw (debug_takes level) (ground arith)
        go false true = elim (Bool-cases (is_debug level)) [
          | inl low ↦ rw (info_takes level, low) refl
          | inr high ↦ rw (info_takes level, high) refl
        ]
        go false false = elim (Bool-cases (is_debug level)) [
          | inl low ↦ rw (info_takes level, low) refl
          | inr high ↦ rw (info_takes level, high) refl
        ]

    log-outlets :
        (opts : Options) (level : Level) (category format : String) (args : List A)
        → log takes sprintf (ready opts) level category format args
          ≡ entries level category (sprintf format args) (outlets opts level)
    unfolding log debugf infof warnf errorf debug info warn error
    log-outlets opts debug_level category format args =
        write-outlets opts debug_level category (sprintf format args)
    log-outlets opts info_level category format args =
        write-outlets opts info_level category (sprintf format args)
    log-outlets opts warn_level category format args =
        write-outlets opts warn_level category (sprintf format args)
    log-outlets opts error_level category format args =
        write-outlets opts error_level category (sprintf format args)

    run-ready :
        (cs : List (Call A)) (opts : Options) → run takes sprintf (ready opts) cs ≡ written opts cs
    unfolding run written init_with_options log_error
    run-ready [] opts = refl
    run-ready (inits later ∷ cs) opts = run-ready cs opts
    run-ready (logs level category format args ∷ cs) opts =
        rw (log-outlets opts level category format args, run-ready cs opts) refl
    run-ready (logs_error category none ∷ cs) opts = run-ready cs opts
    run-ready (logs_error category (some text) ∷ cs) opts =
        rw (write-outlets opts error_level category text, run-ready cs opts) refl

    -- With a logging library whose cores take the levels from their own upwards: whatever is logged
    -- and however often the logger is initialised, nothing is written before the first
    -- initialisation, and its options decide of every later record: all but debug records, and with
    -- `Debug` these too, go to the file, and to standard error with `UseStderr`, or else to standard
    -- output with `Debug`.
    run-all_written : (cs : List (Call A)) → run takes sprintf new_logger cs ≡ all_written cs
    unfolding run all_written init_with_options log debugf infof warnf errorf debug info warn error
        write log_error
    run-all_written [] = refl
    run-all_written (inits opts ∷ cs) = run-ready cs opts
    run-all_written (logs debug_level category format args ∷ cs) = run-all_written cs
    run-all_written (logs info_level category format args ∷ cs) = run-all_written cs
    run-all_written (logs warn_level category format args ∷ cs) = run-all_written cs
    run-all_written (logs error_level category format args ∷ cs) = run-all_written cs
    run-all_written (logs_error category none ∷ cs) = run-all_written cs
    run-all_written (logs_error category (some text) ∷ cs) = run-all_written cs

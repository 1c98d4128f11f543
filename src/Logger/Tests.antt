-- ===== src/Logger/Tests.antt =====
-- A program that logs before it initialises its logger, and initialises it twice.
use Prim.Native.String.{String}
use mistlink.Base.{◌≡◌, refl, Bool, true, false, not, List, [], ◌∷◌, some}
use mistlink.Logger.{
  Level, debug_level, info_level, warn_level, error_level, new_logger, log_file, stderr,
  init_with_options, cores_of, debugf, warnf, debug, warn, log_error, write,
}
use mistlink.Logger.Outlets.{Call, inits, logs, logs_error, is_debug, run, log}

abbrev takes : Level → Level → Bool
takes debug_level level = true
takes info_level level = not (is_debug level)
takes warn_level level = false
takes error_level level = false

abbrev sprintf : String → List String → String
sprintf format args = format

abbrev calls : List (Call String)
calls =
    logs warn_level "main" "early" []
    ∷ inits (record { debug = false; use_stderr = true })
    ∷ logs debug_level "rtsp" "started" []
    ∷ inits (record { debug = true; use_stderr = false })
    ∷ logs_error "rtsp" (some "closed")
    ∷ []

warned :
    run takes sprintf new_logger calls
    ≡ record { output = log_file; level = error_level; category = "rtsp"; message = "closed" }
      ∷ record { output = stderr; level = error_level; category = "rtsp"; message = "closed" }
      ∷ []
unfolding run init_with_options cores_of log debugf warnf debug warn log_error write
warned = refl

-- ===== src/Logger.antt =====
-- internal/logger/logger.go: the package's logger, from its first initialisation on. Whether a core
-- takes a record of some level, and how arguments are formatted, is a parameter. The file that is
-- rotated, the encoders and the times are left to the logging library.
pub mod Outlets
mod Tests
use Prim.Native.String.{String}
use mistlink.Base.{Bool, true, false, ◌||◌, List, [], ◌∷◌, ◌++◌, Option, none, some, if◌then◌else◌}

-- The levels of `zapcore.Level` that the package uses.
pub data Level : Type 0 where
  debug_level info_level warn_level error_level : Level

pub data Output : Type 0 where
  log_file stdout stderr : Output

pub record Core : Type 0 where
  pub output : Output
  pub min_level : Level

pub record Options : Type 0 where
  pub debug : Bool
  pub use_stderr : Bool

-- `log`, whose cores are none before the first initialisation, and `once`.
pub record Logger : Type 0 where
  pub cores : List Core
  pub once : Bool

abbrev pub new_logger : Logger
new_logger = record { cores = []; once = false }

unfoldable pub cores_of : Options → List Core
cores_of opts =
    let log_level : Level = if opts.debug then debug_level else info_level in
    let file_core : Core = record { output = log_file; min_level = log_level } in
    let console_core : Core = record {
      output = if opts.use_stderr then stderr else stdout;
      min_level = log_level;
    } in
    file_core ∷ (if opts.debug || opts.use_stderr then console_core ∷ [] else [])

-- `InitWithOptions`
unfoldable pub init_with_options : Logger → Options → Logger
init_with_options l opts = if l.once then l else record { cores = cores_of opts; once = true }

-- `Init` and `InitWithDebug`
unfoldable pub init : Logger → Logger
init l = init_with_options l (record { debug = false; use_stderr = false })

unfoldable pub init_with_debug : Logger → Bool → Logger
init_with_debug l debug = init_with_options l (record { debug = debug; use_stderr = false })

-- What is written to an output.
pub record Entry : Type 0 where
  pub output : Output
  pub level : Level
  pub category : String
  pub message : String

module _ (takes : Level → Level → Bool) where
  -- A record goes to every core that takes its level.
  unfoldable pub write : List Core → Level → String → String → List Entry
  write [] level category message = []
  write (core ∷ cores) level category message =
      let rest = write cores level category message in
      if takes core.min_level level
      then record { output = core.output; level = level; category = category; message = message }
        ∷ rest
      else rest

  unfoldable pub debug : Logger → String → String → List Entry
  debug l category message = write l.cores debug_level category message

  unfoldable pub info : Logger → String → String → List Entry
  info l category message = write l.cores info_level category message

  unfoldable pub warn : Logger → String → String → List Entry
  warn l category message = write l.cores warn_level category message

  unfoldable pub error : Logger → String → String → List Entry
  error l category message = write l.cores error_level category message

  -- The text of the error, if there is one.
  unfoldable pub log_error : Logger → String → Option String → List Entry
  log_error l category none = []
  log_error l category (some text) = write l.cores error_level category text

  module _ {A : Type 0} (sprintf : String → List A → String) where
    unfoldable pub debugf : Logger → String → String → List A → List Entry
    debugf l category format args = debug l category (sprintf format args)

    unfoldable pub infof : Logger → String → String → List A → List Entry
    infof l category format args = info l category (sprintf format args)

    unfoldable pub warnf : Logger → String → String → List A → List Entry
    warnf l category format args = warn l category (sprintf format args)

    unfoldable pub errorf : Logger → String → String → List A → List Entry
    errorf l category format args = error l category (sprintf format args)

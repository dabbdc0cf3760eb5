-- ===== src/Platform/Logging.antt =====
-- internal/platform/logger/logger.go: the logger that `New` builds.
use event_observability_plat.Common.{String, Bool, str_eq, if◌then◌else◌}

pub data Level : Type 0 where
  debug info warn error : Level

-- A handler of slog on the standard output: from a level on, as text or as JSON.
pub record LogHandler : Type 0 where
  pub level : Level
  pub as_text : Bool

unfoldable pub level_of : String → Level
level_of level =
    if str_eq level "debug"
    then debug
    else if str_eq level "warn"
    then warn
    else if str_eq level "error"
    then error
    else info

unfoldable pub new_logger : String → String → LogHandler
unfolding level_of
new_logger level format = record { level = level_of level; as_text = str_eq format "text" }

-- ===== src/Logger.antt =====
-- internal/logger/logger.go: the level from which the log is written.
use playback_service.Prelude.{String, ◌==◌, if◌then◌else◌}
use playback_service.World.{Level, debug, info, warn, error}

unfoldable pub level_of : String → Level
level_of log_level =
    if log_level == "debug"
    then debug
    else if log_level == "warn"
    then warn
    else if log_level == "error"
    then error
    else info

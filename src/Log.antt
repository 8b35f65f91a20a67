-- ===== src/Log.antt =====
-- src/shared/logger.hpp: the levels of the log, their tags and names, and what is printed.
use draind.Base.{
  ℕ, [], ◌∷◌, ◌++◌, Text, codes, text_eq, Option, none, some, Result, ok, err, ltb, if◌then◌else◌,
}

pub data LogLevel : Type 0 where
  debug info warn error : LogLevel

unfoldable pub level_tag : LogLevel → Text
level_tag debug = codes "DEBUG"
level_tag info = codes "INFO "
level_tag warn = codes "WARN "
level_tag error = codes "ERROR"

-- What it throws is the text of the exception.
unfoldable pub parse_log_level : Text → Result LogLevel
parse_log_level s =
    if text_eq s (codes "debug")
    then ok debug
    else if text_eq s (codes "info")
    then ok info
    else if text_eq s (codes "warn")
    then ok warn
    else if text_eq s (codes "error")
    then ok error
    else err (codes "unknown log level: " ++ s)

-- The order of the levels.
unfoldable pub rank : LogLevel → ℕ
rank debug = 0
rank info = 1
rank warn = 2
rank error = 3

-- The line of an entry at a time of day, if its level is not below the threshold.
unfoldable pub entry : LogLevel → LogLevel → Text → Text → Option Text
unfolding level_tag rank
entry threshold level time text =
    if ltb (rank level) (rank threshold)
    then none
    else some (
        codes "["
        ++ (time ++ (codes "] " ++ (level_tag level ++ (codes "  " ++ (text ++ 10 ∷ []))))))

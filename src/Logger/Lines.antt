-- ===== src/Logger/Lines.antt =====
-- The lines of the log (`formatLogMessage` of src/logger.cpp, with utils::formatTimePoint of
-- include/utils.hpp), read back.
use priority_http_server.Prelude.{ℕ, ◌≡◌, refl, [], ◌∷◌, ◌++◌, ◌==◌, if◌then◌else◌}
use priority_http_server.Prelude.Text.{Text, codes}
use priority_http_server.TimePoint.{Tm, to_time_t, format_time_point}
use priority_http_server.TimePoint.Read.{
  drop, read_time, IsWritable, read_time-put_time, drop-put_time,
}
use priority_http_server.Logger.{
  LogLevel, debug, info, warning, error, LogMessage, log_level_to_str, string_to_log_level,
  format_log_message,
}
use priority_http_server.Logger.Levels.{string_to_log_level-log_level_to_str}

-- The text before the first `]`, and the one after it.
unfoldable pub cut : Text → Text × Text
cut [] = ([], [])
cut (c ∷ s) = let (before, after) = cut s in if c == b']' then ([], s) else (c ∷ before, after)

-- What a line of the log tells: `[time][level] message`.
abbrev pub read_line : Text → Tm × LogLevel × Text
read_line line =
    let (level, rest) = cut (drop 22 line) in
    (read_time (drop 1 line), string_to_log_level level, drop 1 rest)

cut-log_level_to_str :
    (l : LogLevel) (s : Text) → cut (log_level_to_str l ++ b']' ∷ s) ≡ (log_level_to_str l, s)
unfolding cut log_level_to_str
cut-log_level_to_str debug s = refl
cut-log_level_to_str info s = refl
cut-log_level_to_str warning s = refl
cut-log_level_to_str error s = refl

-- Each line of the log can be read back: the local time to the second, the level and the message,
-- whatever bytes are in it, while the year has four digits.
pub read_line-format_log_message :
    (localtime : ℕ → Tm) (msg : LogMessage)
    → IsWritable (localtime (to_time_t msg.timestamp))
    → read_line (format_log_message (format_time_point localtime) msg)
      ≡ (localtime (to_time_t msg.timestamp), msg.level, msg.message)
unfolding format_log_message format_time_point drop
read_line-format_log_message localtime msg w =
    let tm = localtime (to_time_t msg.timestamp) in
    let rest = log_level_to_str msg.level ++ (codes "] " ++ msg.message) in
    rw
      (
        read_time-put_time tm (b'[' ∷ rest) w,
        drop-put_time tm b']' b'[' rest w,
        cut-log_level_to_str msg.level (b' ' ∷ msg.message),
        string_to_log_level-log_level_to_str msg.level,
      )
      refl

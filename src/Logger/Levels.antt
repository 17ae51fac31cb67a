-- ===== src/Logger/Levels.antt =====
-- The names of the log levels.
use priority_http_server.Prelude.{◌≡◌, ◌≢◌, ◌↔◌, sym, ◌∙◌, refl, map, arith}
use priority_http_server.Prelude.Text.{
  Text, codes, text_eq, text_eq_iff, to_upper, to_lower, map-to_upper-to_lower,
}
use priority_http_server.Logger.{
  LogLevel, debug, info, warning, error, log_level_to_str, string_to_log_level,
}

-- `stringToLogLevel` reads back each name that `logLevelToStr` writes.
pub string_to_log_level-log_level_to_str :
    (l : LogLevel) → string_to_log_level (log_level_to_str l) ≡ l
unfolding string_to_log_level log_level_to_str text_eq to_upper
string_to_log_level-log_level_to_str debug = refl
string_to_log_level-log_level_to_str info = refl
string_to_log_level-log_level_to_str warning = refl
string_to_log_level-log_level_to_str error = refl

string_to_log_level-lower :
    (s : Text) → string_to_log_level (map to_lower s) ≡ string_to_log_level s
unfolding string_to_log_level
string_to_log_level-lower s = rw (map-to_upper-to_lower s)

read_name :
    (s : Text) (l : LogLevel) → map to_upper s ≡ log_level_to_str l → string_to_log_level s ≡ l
unfolding string_to_log_level log_level_to_str text_eq
read_name s debug e = rw e
read_name s info e = rw e
read_name s warning e = rw e
read_name s error e = rw e

name_of_read :
    (s : Text)
    → string_to_log_level s ≢ info
    → map to_upper s ≡ log_level_to_str (string_to_log_level s)
unfolding string_to_log_level log_level_to_str
name_of_read s h = ground (
  arith,
  text_eq_iff (map to_upper s) (codes "DEBUG"),
  text_eq_iff (map to_upper s) (codes "WARNING"),
  text_eq_iff (map to_upper s) (codes "ERROR"),
)

-- A level other than INFO is read from its own name, in whatever case, and from no other text.
pub string_to_log_level_iff :
    (s : Text) (l : LogLevel)
    → l ≢ info
    → (string_to_log_level s ≡ l) ↔ (map to_upper s ≡ log_level_to_str l)
string_to_log_level_iff s l h =
    ((λ e. rw e at (name_of_read s (λ i. h (sym e ∙ i)))), read_name s l)

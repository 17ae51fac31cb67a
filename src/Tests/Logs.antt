-- ===== src/Tests/Logs.antt =====
-- The logger on small inputs.
use priority_http_server.Prelude.{
  ℕ, ◌/◌, ◌%◌, ◌≡◌, refl, false, List, [], ◌∷◌, ◌++◌, map, some, arith,
}
use priority_http_server.Prelude.Text.{Text, codes}
use priority_http_server.Logger.{
  debug, info, warning, error, LogMessage, LogSink, AsyncLogger, async_logger, format_log_message,
  log_level_to_str, log, set_min_level, consume_round, pop, start, shutdown, destroy,
}
use priority_http_server.Numbers.{decimal, digits_onto}
use priority_http_server.TimePoint.{Tm, format_time_point, to_time_t}
use priority_http_server.Logger.Lines.{read_line, read_line-format_log_message}
use priority_http_server.Logger.Delivery.{
  Event, logs, sets_level, consumes, accepted, react, run, shutdown_delivers,
}

abbrev no_time : ℕ → Text
no_time t = codes "t"

abbrev append_line : LogMessage → LogSink → LogSink
append_line m sink = sink ++ format_log_message no_time m ∷ []

abbrev events : List Event
events =
    logs (codes "dropped") debug 1
    ∷ logs (codes "first") info 2
    ∷ consumes
    ∷ sets_level error
    ∷ logs (codes "dropped") warning 3
    ∷ logs (codes "second") error 4
    ∷ []

shutdown_delivers_example :
    (l : AsyncLogger) × (shutdown append_line 9
        (run no_time append_line (λ m s. refl) events (start (async_logger [])))
      ≡ some l)
    × (l.sink ≡ map (format_log_message no_time) (accepted info events))
    × (l.queue.queue ≡ [])
    × (l.running ≡ false)
    × ((fuel : ℕ) → destroy append_line fuel l ≡ some l)
unfolding run react log set_min_level consume_round pop start async_logger
shutdown_delivers_example =
    shutdown_delivers no_time append_line (λ m s. refl) events [] 9 (omega arith)

-- A time zone of one night.
abbrev localtime : ℕ → Tm
localtime t = record {
  year = 2024;
  month = 2;
  day = 29;
  hour = t / 3600 % 24;
  minute = t / 60 % 60;
  second = t % 60;
}

abbrev warns : LogMessage
warns = record { message = codes "a] b"; timestamp = 7325123456789; level = warning }

read_line-format_log_message_example :
    read_line (format_log_message (format_time_point localtime) warns)
    ≡ (localtime (to_time_t 7325123456789), warning, codes "a] b")
unfolding to_time_t
read_line-format_log_message_example = read_line-format_log_message localtime warns (record {
  year = (omega arith, omega arith);
  month = omega arith;
  day = omega arith;
  hour = omega arith;
  minute = omega arith;
  second = omega arith;
})

-- The bytes of a line.
warns_line :
    format_log_message (format_time_point localtime) warns
    ≡ codes "[2024-02-29 02:02:05][WARNING] a] b"
unfolding format_log_message format_time_point log_level_to_str decimal digits_onto
warns_line = refl

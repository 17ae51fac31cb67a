-- ===== src/Logger.antt =====
-- The asynchronous logger (include/logger.hpp, src/logger.cpp): levels, the message queue, the
-- sinks, and the consumer thread that moves messages from the queue to the sink. A call that holds
-- the mutex is one step. Rendering a time stamp is the argument `format_time_point`, which
-- TimePoint defines.
pub mod Levels
pub mod Lines
pub mod Delivery
use priority_http_server.Prelude.{
  ℕ, zero, suc, Bool, true, false, not, ◌||◌, List, [], ◌∷◌, ◌++◌, map, Option, none, some, ltb,
  if◌then◌else◌, length, is_empty,
}
use priority_http_server.Prelude.Text.{Text, codes, text_eq, to_upper}

pub data LogLevel : Type 0 where
  debug info warning error : LogLevel

-- The values of the enumeration, which `<` compares.
abbrev pub level_value : LogLevel → ℕ
level_value debug = 0
level_value info = 1
level_value warning = 2
level_value error = 3

pub record LogMessage : Type 0 where
  pub message : Text
  pub timestamp : ℕ
  pub level : LogLevel

unfoldable pub log_level_to_str : LogLevel → Text
log_level_to_str debug = codes "DEBUG"
log_level_to_str info = codes "INFO"
log_level_to_str warning = codes "WARNING"
log_level_to_str error = codes "ERROR"

-- The comparisons of `stringToLogLevel`, after `to_upper`.
unfoldable pub level_of_upper : Text → LogLevel
level_of_upper upper =
    if text_eq upper (codes "DEBUG")
    then debug
    else if text_eq upper (codes "INFO")
    then info
    else if text_eq upper (codes "WARNING")
    then warning
    else if text_eq upper (codes "ERROR")
    then error
    else info

unfoldable pub string_to_log_level : Text → LogLevel
unfolding level_of_upper
string_to_log_level level = level_of_upper (map to_upper level)

-- class MessageQueue
pub record MessageQueue : Type 0 where
  pub queue : List LogMessage
  pub done : Bool

abbrev pub empty_queue : MessageQueue
empty_queue = record { queue = []; done = false }

unfoldable pub push : LogMessage → MessageQueue → MessageQueue
push msg q = record q { queue = q.queue ++ msg ∷ [] }

-- `pop` waits, or returns a message, or `std::nullopt`.
pub data PopResult : Type 0 where
  blocked : PopResult
  returned : Option LogMessage → MessageQueue → PopResult

-- The body of `pop` after the wait.
unfoldable pub pop_front : List LogMessage → Bool → Option LogMessage × MessageQueue
pop_front [] done = (none, record { queue = []; done = done })
pop_front (msg ∷ rest) done = (some msg, record { queue = rest; done = done })

unfoldable pub pop : MessageQueue → PopResult
unfolding pop_front
pop q =
    let (msg, q') = pop_front q.queue q.done in
    if not (is_empty q.queue) || q.done then returned msg q' else blocked

unfoldable pub shutdown_queue : MessageQueue → MessageQueue
shutdown_queue q = record q { done = true }

unfoldable pub size : MessageQueue → ℕ
size q = length q.queue

-- A sink as the lines that it was given, in order.
abbrev pub LogSink : Type 0
LogSink = List Text

module _ (format_time_point : ℕ → Text) where
  unfoldable pub format_log_message : LogMessage → Text
  format_log_message msg =
      codes "["
      ++ (format_time_point msg.timestamp
          ++ (codes "][" ++ (log_level_to_str msg.level ++ (codes "] " ++ msg.message))))

  -- ConsoleSink::write
  unfoldable pub console_write : LogMessage → LogSink → LogSink
  console_write msg lines = lines ++ format_log_message msg ∷ []

  -- FileSink::write
  unfoldable pub file_write : LogMessage → LogSink → LogSink
  file_write msg lines = lines ++ format_log_message msg ∷ []

-- FileSink::FileSink: it appends to what the file holds, or throws if the file does not open.
unfoldable pub file_sink : Option (List Text) → Option LogSink
file_sink none = none
file_sink (some lines) = some lines

-- class AsyncLogger with its LogConsumer: `running` says that the consumer thread was started and
-- not joined. `write` is the sink's method.
pub record AsyncLogger : Type 0 where
  pub queue : MessageQueue
  pub sink : LogSink
  pub min_level : LogLevel
  pub running : Bool

unfoldable pub async_logger : LogSink → AsyncLogger
async_logger sink = record { queue = empty_queue; sink = sink; min_level = info; running = false }

unfoldable pub log : Text → LogLevel → ℕ → AsyncLogger → AsyncLogger
unfolding push
log message level now l =
    if ltb (level_value level) (level_value l.min_level) then l else record l {
      queue = push (record { message = message; timestamp = now; level = level }) l.queue;
    }

unfoldable pub start : AsyncLogger → AsyncLogger
start l = record l { running = true }

unfoldable pub set_min_level : LogLevel → AsyncLogger → AsyncLogger
set_min_level level l = record l { min_level = level }

module _ (write : LogMessage → LogSink → LogSink) where
  -- One round of the consumer's loop, by what `pop` gave: the thread waits, goes on or ends.
  unfoldable pub consume_round : AsyncLogger → AsyncLogger
  consume_round l = elim (pop l.queue) [
    | blocked ↦ l
    | returned none q ↦ record l { queue = q; running = false }
    | returned (some msg) q ↦ record l { queue = q; sink = write msg l.sink }
  ]

  -- The loop to its end; none if it waits, or the fuel is used up.
  unfoldable pub consume : ℕ → MessageQueue → LogSink → Option (MessageQueue × LogSink)
  consume zero q sink = none
  consume (suc fuel) q sink = elim (pop q) [
    | blocked ↦ none
    | returned none q' ↦ some (q', sink)
    | returned (some msg) q' ↦ consume fuel q' (write msg sink)
  ]

  -- `shutdown` waits for the consumer, if it runs.
  unfoldable pub shutdown : ℕ → AsyncLogger → Option AsyncLogger
  unfolding shutdown_queue
  shutdown fuel l =
      let ended : Option AsyncLogger = elim (consume fuel (shutdown_queue l.queue) l.sink) [
        | none ↦ none
        | some (q, sink) ↦ some (record l { queue = q; sink = sink; running = false })
      ] in
      if l.running then ended else some (record l { queue = shutdown_queue l.queue })

  -- `~AsyncLogger`, with that of its consumer, which joins a thread that still runs.
  unfoldable pub destroy : ℕ → AsyncLogger → Option AsyncLogger
  unfolding shutdown
  destroy fuel l = elim (shutdown fuel l) [
    | none ↦ none
    | some l' ↦
        if l'.running
        then elim (consume fuel l'.queue l'.sink) [
          | none ↦ none
          | some (q, sink) ↦ some (record l' { queue = q; sink = sink; running = false })
        ]
        else some l'
  ]

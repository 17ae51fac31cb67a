-- ===== src/Server/Lifecycle/Logging.antt =====
-- What the log of a server holds when it has ended (src/server.cpp, src/logger.cpp).
use priority_http_server.Prelude.{
  ℕ, suc, ◌≤◌, ◌<◌, ◌≡◌, refl, ap, ◌∙◌, Bool, List, [], ◌∷◌, ◌++◌, map, some, inl, inr, arith,
  Bool-cases, ltb, length,
}
use priority_http_server.Prelude.Text.{Text, codes}
use priority_http_server.Config.{Config}
use priority_http_server.Logger.{
  LogLevel, level_value, info, LogMessage, LogSink, format_log_message, AsyncLogger, async_logger,
}
use priority_http_server.Logger
use priority_http_server.Logger.Delivery.{
  Event, logs, sets_level, consumes, accepted, shutdown_delivers,
}
use priority_http_server.Logger.Delivery
use priority_http_server.Server.{
  ServerEffect, closes_session, joins_io_threads, shuts_pool_down, shuts_logger_down, HttpServer,
  http_server, shutdown, do_accept,
}
use priority_http_server.Server
use priority_http_server.Server.Lifecycle.{LifeEffect, sets_log_level, calls, IoEvent, live}
use priority_http_server.StaticFiles.{FileSystem}
use priority_http_server.Server.Lifecycle.LastCalls.{KeepsLevel, live_calls}

-- The calls of the logger among all calls; `clock` gives the time of each.
abbrev pub log_events : (ℕ → ℕ) → ℕ → List LifeEffect → List Event
log_events clock i [] = []
log_events clock i (sets_log_level level ∷ es) = sets_level level ∷ log_events clock i es
log_events clock i (calls (Server.logs level message) ∷ es) =
    logs message level (clock i) ∷ log_events clock (suc i) es
log_events clock i (_ ∷ es) = log_events clock i es

-- `es` with rounds of the consumer anywhere in between.
pub data Mixed : List Event → List Event → Type 0 where
  ended : Mixed [] []
  call : (e : Event) {es fs : List Event} → Mixed es fs → Mixed (e ∷ es) (e ∷ fs)
  round : {es fs : List Event} → Mixed es fs → Mixed es (consumes ∷ fs)

pub unmixed : (es : List Event) → Mixed es es
unmixed [] = ended
unmixed (e ∷ es) = call e (unmixed es)

accepted-Mixed :
    (level : LogLevel) {es fs : List Event} → Mixed es fs → accepted level fs ≡ accepted level es
accepted-Mixed level ended = refl
accepted-Mixed level (call (logs m l t) r) = ground (arith, accepted-Mixed level r)
accepted-Mixed level (call (sets_level l) r) = accepted-Mixed l r
accepted-Mixed level (call consumes r) = accepted-Mixed level r
accepted-Mixed level (round r) = accepted-Mixed level r

abbrev pub message_at : ℕ → LogMessage
message_at now = record { message = codes "Server stopped."; timestamp = now; level = info }

-- After all other calls, the last message is accepted.
last_accepted :
    (clock : ℕ → ℕ) (i : ℕ) (level : LogLevel) (es : List LifeEffect)
    → KeepsLevel es
    → level_value level ≤ 1
    → (ms : List LogMessage) × (now : ℕ) × (accepted level (
          log_events clock i (
            es
            ++ calls (Server.logs info (codes "Server stopped.")) ∷ calls shuts_logger_down ∷ []))
        ≡ ms ++ message_at now ∷ [])
last_accepted clock i level [] k low = ([], clock i, ground (arith, low))
last_accepted clock i level (calls (Server.logs l m) ∷ es) k low =
    let (ms, now, e) = last_accepted clock (suc i) level es k low in
    elim (Bool-cases (ltb (level_value l) (level_value level))) [
      | inl quiet ↦ (ms, now, rw quiet e)
      | inr loud ↦ (
        record { message = m; timestamp = clock i; level = l } ∷ ms,
        now,
        rw loud (ap (λ t. record { message = m; timestamp = clock i; level = l } ∷ t) e),
      )
    ]
last_accepted clock i level (sets_log_level l ∷ es) k low = absurd k
last_accepted clock i level (_ ∷ es) k low = last_accepted clock i level es k low

module _ (format_time_point : ℕ → Text) (write : LogMessage → LogSink → LogSink)
    (appends : (m : LogMessage) (s : LogSink)
      → write m s ≡ s ++ format_log_message format_time_point m ∷ []) where
  abbrev pub served_log : List Event → LogSink → AsyncLogger
  served_log events sink =
      Delivery.run format_time_point write appends events (Logger.start (async_logger sink))

  -- With a level of INFO or DEBUG the log of a server is complete and ends with the line "Server
  -- stopped.": its logger, run on the server's own calls in the whole of its life with rounds of
  -- the consumer anywhere in between, ends with every message written that the calls log at an accepted
  -- level, once and in their order, behind what the sink held, and the last of these is that line;
  -- whatever the handlers did, and also if `run` throws in `setup` or cannot listen. The sink appends
  -- a line for each message.
  pub live_log :
      (files : FileSystem) (listening : Bool) (events : List IoEvent) (abandoned : ℕ) (c : Config)
      (clock : ℕ → ℕ) (mixed : List Event) (sink : LogSink) (fuel : ℕ)
      → level_value c.log_level ≤ level_value info
      → let calls = log_events clock 0 (live files listening events abandoned c).effects in
        Mixed calls mixed
        → length (served_log mixed sink).queue.queue < fuel
        → (l : AsyncLogger) × (Logger.shutdown write fuel (served_log mixed sink) ≡ some l)
          × (l.sink ≡ sink ++ map (format_log_message format_time_point) (accepted info calls))
          × (ms : List LogMessage) × (now : ℕ) × (accepted info calls ≡ ms ++ message_at now ∷ [])
  live_log files listening events abandoned c clock mixed sink fuel low m enough =
      let (es, r, e) = live_calls files listening events abandoned c in
      let (ms, now, last) = last_accepted clock 0 c.log_level r.before r.keeps low in
      let (l, ends, written, empty, stopped, again) =
        shutdown_delivers format_time_point write appends mixed sink fuel enough in
      (
        l,
        ends,
        written
            ∙ ap (λ t. sink ++ map (format_log_message format_time_point) t)
                (accepted-Mixed info m),
        ms,
        now,
        ap (λ t. accepted info (log_events clock 0 t)) e
            ∙ ap (λ t. accepted c.log_level (log_events clock 0 t)) r.same
            ∙ last,
      )

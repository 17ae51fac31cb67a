-- ===== src/Logger/Delivery.antt =====
-- What the consumer of the logger (src/logger.cpp) writes of what is logged.
use mathlib.Core.List.{append-nil, append_assoc, map-append}
use priority_http_server.Prelude.{
  ℕ, zero, suc, ◌<◌, ◌≡◌, refl, ap, subst, true, false, List, [], ◌∷◌, ◌++◌, map, some, inl, inr,
  arith, ltb, if◌then◌else◌, length, Bool-cases,
}
use priority_http_server.Prelude.Text.{Text}
use priority_http_server.Logger.{
  LogLevel, level_value, LogMessage, info, pop, push, LogSink, format_log_message, AsyncLogger,
  async_logger, log, start, set_min_level, consume_round, consume, shutdown_queue, shutdown,
  destroy,
}

-- What the threads do before `shutdown`, in the order of the mutex: calls of `log` and
-- `setMinLevel`, and rounds of the consumer.
pub data Event : Type 0 where
  logs : Text → LogLevel → ℕ → Event
  sets_level : LogLevel → Event
  consumes : Event

-- The messages that pass the level of the time.
abbrev pub accepted : LogLevel → List Event → List LogMessage
accepted level [] = []
accepted level (logs message l now ∷ events) =
    if ltb (level_value l) (level_value level)
    then accepted level events
    else record { message = message; timestamp = now; level = l } ∷ accepted level events
accepted level (sets_level l ∷ events) = accepted l events
accepted level (consumes ∷ events) = accepted level events

module _ (format_time_point : ℕ → Text) (write : LogMessage → LogSink → LogSink)
    (appends : (m : LogMessage) (s : LogSink)
      → write m s ≡ s ++ format_log_message format_time_point m ∷ []) where
  abbrev lines : List LogMessage → List Text
  lines = map (format_log_message format_time_point)

  unfoldable pub react : Event → AsyncLogger → AsyncLogger
  react (logs message level now) l = log message level now l
  react (sets_level level) l = set_min_level level l
  react consumes l = consume_round write l

  unfoldable pub run : List Event → AsyncLogger → AsyncLogger
  run [] l = l
  run (e ∷ es) l = run es (react e l)

  -- The running consumer owes the sink what is queued.
  record Owes (out : List Text) (l : AsyncLogger) : Type 0 where
    written : l.sink ++ lines l.queue.queue ≡ out
    open_queue : l.queue.done ≡ false
    running : l.running ≡ true

  consume_round-Owes :
      (out : List Text) (l : AsyncLogger) (ms : List LogMessage)
      → l.queue.queue ≡ ms
      → Owes out l
      → Owes out (consume_round write l) × ((consume_round write l).min_level ≡ l.min_level)
  unfolding consume_round pop
  consume_round-Owes out l [] e o = ground (arith, e, o.written, o.open_queue, o.running)
  consume_round-Owes out l (m ∷ ms) e o = ground (
    arith,
    appends m l.sink,
    append_assoc l.sink (format_log_message format_time_point m ∷ []) (lines ms),
  )

  run-Owes :
      (es : List Event) (out : List Text) (l : AsyncLogger)
      → Owes out l
      → Owes (out ++ lines (accepted l.min_level es)) (run es l)
  unfolding run react log set_min_level push
  run-Owes [] out l o = rw append-nil o
  run-Owes (logs message level now ∷ es) out l o =
      let m : LogMessage = record { message = message; timestamp = now; level = level } in
      let line = format_log_message format_time_point m in
      elim (Bool-cases (ltb (level_value level) (level_value l.min_level))) [
        | inl e ↦ rw (e, log) (run-Owes es out l o)
        | inr e ↦
            rw (e, log)
              (rw append_assoc at (
                run-Owes es (out ++ line ∷ []) (record l { queue = push m l.queue })
                  (record {
                    written = rw (map-append, ← append_assoc) (ap (λ t. t ++ line ∷ []) o.written);
                    open_queue = o.open_queue;
                    running = o.running;
                  })))
      ]
  run-Owes (sets_level level ∷ es) out l o =
      run-Owes es out (record l { min_level = level })
        (record { written = o.written; open_queue = o.open_queue; running = o.running })
  run-Owes (consumes ∷ es) out l o =
      let (next, same) = consume_round-Owes out l l.queue.queue refl o in
      subst (λ level. Owes (out ++ lines (accepted level es)) (run es (consume_round write l))) same
        (run-Owes es out (consume_round write l) next)

  -- The consumer's loop on a closed queue ends and writes all of it.
  consume-all :
      (fuel : ℕ) (ms : List LogMessage) (sink : LogSink)
      → length ms < fuel
      → consume write fuel (record { queue = ms; done = true }) sink
        ≡ some (record { queue = []; done = true }, sink ++ lines ms)
  unfolding consume pop
  consume-all zero ms sink h = absurd (omega arith)
  consume-all (suc fuel) [] sink h = rw append-nil
  consume-all (suc fuel) (m ∷ ms) sink h =
      rw (consume-all fuel ms (write m sink) (omega arith), appends m sink)
        (ap (λ t. some (record { queue = []; done = true }, t))
          (append_assoc sink (format_log_message format_time_point m ∷ []) (lines ms)))

  -- With a sink that appends a line for each message, `shutdown` of a started logger returns after
  -- the consumer has written every accepted message, once and in the order of the calls, behind
  -- what the sink held; nothing is left in the queue. Fuel above the number of queued messages is
  -- enough. After that the destructor waits for nothing and writes nothing.
  pub shutdown_delivers :
      (es : List Event) (sink : LogSink) (fuel : ℕ)
      → let before = run es (start (async_logger sink)) in
        length before.queue.queue < fuel
        → (l : AsyncLogger) × (shutdown write fuel before ≡ some l)
          × (l.sink ≡ sink ++ lines (accepted info es))
          × (l.queue.queue ≡ [])
          × (l.running ≡ false)
          × ((fuel' : ℕ) → destroy write fuel' l ≡ some l)
  unfolding destroy shutdown start async_logger shutdown_queue
  shutdown_delivers es sink fuel h =
      let before = run es (start (async_logger sink)) in
      let o =
        run-Owes es sink (start (async_logger sink))
          (record { written = append-nil sink; open_queue = refl; running = refl }) in
      (
        record before {
          queue = record { queue = []; done = true };
          sink = before.sink ++ lines before.queue.queue;
          running = false;
        },
        rw (o.running, consume-all fuel before.queue.queue before.sink h),
        o.written,
        refl,
        refl,
        λ fuel'. refl,
      )

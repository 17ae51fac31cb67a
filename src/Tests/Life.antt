-- ===== src/Tests/Life.antt =====
-- The program from `main` to its end.
use priority_http_server.Prelude.{
  ℕ, suc, map, if◌then◌else◌, false, length, ◌≡◌, ◌↔◌, ◌⊎◌, refl, true, List, [], ◌∷◌, ◌++◌, some,
  none, arith,
}
use priority_http_server.Prelude.Text.{Text, codes, text_eq}
use priority_http_server.Config.{default_config, at_least_one_thread}
use priority_http_server.Config.Arguments.{has_help_flag, from_args, read_arguments}
use priority_http_server.Config.Help.{
  is_option, names, named_options, help_lines, is_option-eq-names,
}
use priority_http_server.Config.File.{Files, load_config}
use priority_http_server.Logger.{
  info, LogMessage, LogSink, AsyncLogger, shutdown, format_log_message,
}
use priority_http_server.Logger.Delivery.{Event}
use priority_http_server.Logger.Delivery
use priority_http_server.StaticFiles.{FileSystem}
use priority_http_server.ThreadPool.{thread_pool}
use priority_http_server.Server.{accepted}
use priority_http_server.Server.Lifecycle.{
  starts_logger, IoEvent, accepts, signals, ends_session, construct, live,
}
use priority_http_server.Server.Lifecycle.Ending.{
  milestones, started, ended, IsThreadCount, live_order,
}
use priority_http_server.Server.Lifecycle.Logging.{
  log_events, served_log, live_log, message_at, unmixed,
}
use priority_http_server.Main.{Environment, main, Serves, main_succeeds_iff}
use priority_http_server.Tests.Beast.{beast}
use priority_http_server.Tests.Values.{values}

-- A client comes, the signal follows, the client's session ends.
abbrev events : List IoEvent
events = accepts 0 accepted ∷ signals 15 ∷ ends_session 0 ∷ []

-- A file system with one directory.
abbrev static_only : FileSystem
static_only = record {
  join = λ root rest. root;
  weakly_canonical = λ path. if text_eq path (codes "static") then some (path ∷ []) else none;
  is_file = λ path. false;
  is_regular_file = λ path. false;
  file_size = λ path. none;
  read = λ path. none;
  extension = λ path. [];
}

live_order_example :
    (n : ℕ) × IsThreadCount (default_config 2) n
    × (milestones (live static_only true events 0 (default_config 2)).effects
        ≡ starts_logger
          ∷ (started (static_only.weakly_canonical (default_config 2).static_root) true n
              ++ ended (default_config 2)))
    × ((live static_only true events 0 (default_config 2)).server.shutdown_done ≡ true)
live_order_example = live_order static_only true events 0 (default_config 2)

abbrev no_time : ℕ → Text
no_time t = codes "t"

abbrev append_line : LogMessage → LogSink → LogSink
append_line m sink = sink ++ format_log_message no_time m ∷ []

abbrev calls : List Event
calls = log_events (λ i. i) 0 (live static_only true events 0 (default_config 2)).effects

-- As much fuel as there are queued messages, and one more.
abbrev enough : ℕ
enough = suc (length (served_log no_time append_line (λ m s. refl) calls []).queue.queue)

live_log_example :
    (l : AsyncLogger) × (shutdown append_line enough
        (served_log no_time append_line (λ m s. refl) calls [])
      ≡ some l)
    × (l.sink ≡ [] ++ map (format_log_message no_time) (Delivery.accepted info calls))
    × (ms : List LogMessage) × (now : ℕ) × (Delivery.accepted info calls
        ≡ ms ++ message_at now ∷ [])
unfolding default_config
live_log_example =
    live_log no_time append_line (λ m s. refl) static_only true events 0 (default_config 2) (λ i. i)
      calls [] enough (omega arith) (unmixed calls) (omega arith)

abbrev environment : Environment
environment = record {
  rights = record {
    findable = λ p. true;
    readable = λ p. true;
    writable = λ p. true;
    renamable = λ p. true;
  };
  hardware_concurrency = 2;
  allocates = λ i. true;
  log_file = λ p. none;
  file_system = static_only;
  can_listen = λ address port. true;
  events = events;
  abandoned = 0;
}

abbrev no_files : Files values
no_files p = none

main_succeeds_iff_example :
    (((main values beast environment [] no_files).code ≡ 0)
      ↔ ((has_help_flag [] ≡ true) ⊎ Serves values beast environment [] no_files))
    × (((main values beast environment [] no_files).code ≡ 0)
        ⊎ ((main values beast environment [] no_files).code ≡ 1))
main_succeeds_iff_example = main_succeeds_iff values beast environment [] no_files

served : (main values beast environment [] no_files).code ≡ 0
unfolding text_eq main has_help_flag load_config from_args read_arguments construct thread_pool
    at_least_one_thread default_config live
served = refl

is_option-eq-names_example :
    is_option (codes "--threads") ≡ names (codes "--threads") (named_options help_lines)
is_option-eq-names_example = is_option-eq-names (codes "--threads")

-- A root of the static files that has no canonical path ends the program with 1.
without_root :
    (main values beast
      (record environment { file_system = record static_only { weakly_canonical = λ p. none } })
      []
      no_files).code
    ≡ 1
unfolding text_eq main has_help_flag load_config from_args read_arguments construct thread_pool
    at_least_one_thread default_config live
without_root = refl

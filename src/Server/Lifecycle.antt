-- ===== src/Server/Lifecycle.antt =====
-- From the start to the end of a server (include/server.hpp, src/server.cpp): the constructor, `setup`,
-- `startAcceptorLoop`, the handlers that `m_ioc.run()` runs, `shutdown` and the destructor. What they
-- call shows as a list of calls, in order. The file system, whether the system lets the server listen,
-- what the handlers of the I/O context are called with, and how many workers the pool gives up (all of
-- them, where it was not started) are arguments.
pub mod Beginning
pub mod Ending
pub mod LastCalls
pub mod Logging
use priority_http_server.Prelude.{
  ℕ, zero, suc, ◌+◌, ◌*◌, ◌%◌, ◌^◌, Bool, true, false, List, [], ◌∷◌, ◌++◌, Option, none, some,
  ◌==◌, if◌then◌else◌, is_empty,
}
use priority_http_server.Prelude.Int.{ℤ, size_mod}
use priority_http_server.Prelude.Text.{Text, codes}
use priority_http_server.Numbers.{decimal}
use priority_http_server.Logger.{LogLevel, info, LogSink, file_sink}
use priority_http_server.ThreadPool.{ThreadPool, thread_pool}
use priority_http_server.Config.{Config}
use priority_http_server.StaticFiles.{FileSystem, StaticFileHandler, static_file_handler}
use priority_http_server.Server.{
  HttpServer, ServerEffect, logs, AcceptResult, http_server, do_accept, on_accept, on_reject,
  on_signal, on_drain_timer, end_session, shutdown,
}

-- What a route is given to.
pub data RouteTarget : Type 0 where
  status_handler : RouteTarget
  static_files : StaticFileHandler → RouteTarget

pub data LifeEffect : Type 0 where
  sets_log_level : LogLevel → LifeEffect
  starts_logger : LifeEffect
  adds_route : Text → Text → RouteTarget → LifeEffect
  starts_pool : LifeEffect
  waits_for_signals : LifeEffect
  listens_at : Text → ℕ → LifeEffect
  starts_io_thread : LifeEffect
  runs_io : LifeEffect
  calls : ServerEffect → LifeEffect

abbrev pub call_all : List ServerEffect → List LifeEffect
call_all [] = []
call_all (e ∷ es) = calls e ∷ call_all es

-- The sink of the constructor; none if the file cannot be opened. `log_file` is what it holds.
unfoldable pub choose_sink : Config → Option (List Text) → Option LogSink
choose_sink c log_file = if is_empty c.log_file_path then some [] else file_sink log_file

-- The constructor: the pool and the sink, or none for an exception.
unfoldable pub construct {ℓ} :
    (T : Type ℓ) → (ℕ → Bool) → Option (List Text) → Config → Option (ThreadPool T × LogSink)
unfolding choose_sink
construct T allocates log_file c = elim (thread_pool {T = T} allocates c.threads c.max_queue_size) [
  | none ↦ none
  | some pool ↦ elim (choose_sink c log_file) [ none ↦ none | some sink ↦ some (pool, sink) ]
]

-- The handler of both static routes, by its constructor; none if it throws.
unfoldable pub make_static_handler : FileSystem → Config → Option StaticFileHandler
unfolding static_file_handler
make_static_handler files c =
    static_file_handler files c.static_root (c.static_max_file_size_mb * 1024 * 1024 % size_mod)

-- The calls of `setup` before the static routes.
unfoldable pub setup_start : Config → List LifeEffect
setup_start c =
    starts_logger
    ∷ calls (
        logs info (
          codes "Server starting... Compute: "
          ++ (decimal c.threads
              ++ (codes " threads, I/O: " ++ (decimal c.io_threads ++ codes " threads")))))
    ∷ adds_route (codes "GET") (codes "/status") status_handler
    ∷ []

-- Its calls from the static routes on; the file system gives both handlers the same root.
unfoldable pub setup_rest : StaticFileHandler → List LifeEffect
setup_rest handler =
    adds_route (codes "GET") (codes "/static/") (static_files handler)
    ∷ adds_route (codes "HEAD") (codes "/static/") (static_files handler)
    ∷ starts_pool
    ∷ waits_for_signals
    ∷ []

-- `setup`: its calls, and whether an exception leaves it.
unfoldable pub setup : FileSystem → Config → List LifeEffect × Bool
unfolding make_static_handler setup_start setup_rest
setup files c = elim (make_static_handler files c) [
  | none ↦ (setup_start c, true)
  | some handler ↦ (setup_start c ++ setup_rest handler, false)
]

-- The loop that starts the I/O threads.
unfoldable pub start_io_threads : ℕ → List LifeEffect
start_io_threads zero = []
start_io_threads (suc n) = starts_io_thread ∷ start_io_threads n

unfoldable pub io_thread_count : Config → ℕ
io_thread_count c = if c.io_threads == 0 then 1 else c.io_threads

-- `startAcceptorLoop`, after `make_address` and the constructor of the acceptor have not thrown.
unfoldable pub start_acceptor_loop : Config → HttpServer → List LifeEffect
unfolding start_io_threads io_thread_count
start_acceptor_loop c s =
    listens_at c.bind_address c.port
    ∷ calls (
        logs info
          (codes "Server listening on " ++ (c.bind_address ++ (codes ":" ++ decimal c.port))))
    ∷ (call_all (do_accept c.max_connections s) ++ start_io_threads (io_thread_count c))

-- A handler that the I/O context runs.
pub data IoEvent : Type 0 where
  accepts : ℕ → AcceptResult → IoEvent
  rejects : AcceptResult → IoEvent
  signals : ℕ → IoEvent
  drain_timer : Bool → IoEvent
  ends_session : ℕ → IoEvent

unfoldable pub handle_event : Config → IoEvent → HttpServer → HttpServer × List ServerEffect
handle_event c (accepts id r) s = on_accept c.max_connections id r s
handle_event c (rejects r) s = on_reject c.max_connections r s
handle_event c (signals signal) s = on_signal c.drain_timeout_sec signal s
handle_event c (drain_timer aborted) s = on_drain_timer aborted s
handle_event c (ends_session id) s = end_session id s

-- `m_ioc.run()`: the handlers of the events, in order.
unfoldable pub serve : Config → List IoEvent → HttpServer → HttpServer × List ServerEffect
unfolding handle_event
serve c [] s = (s, [])
serve c (e ∷ es) s =
    let (s', effects) = handle_event c e s in
    let (s'', more) = serve c es s' in (s'', effects ++ more)

-- What becomes of a server: its state, its calls, and whether an exception leaves `run`.
pub record Life : Type 0 where
  pub server : HttpServer
  pub effects : List LifeEffect
  pub threw : Bool

-- `run` after `setup`, with whether the system lets the server listen and what happens on its I/O
-- context.
unfoldable pub run_after :
    List LifeEffect × Bool → Bool → List IoEvent → ℕ → Config → HttpServer → Life
unfolding start_acceptor_loop serve
run_after (before, true) listening events abandoned c s = record {
  server = s;
  effects = before;
  threw = true;
}
run_after (before, false) false events abandoned c s = record {
  server = s;
  effects = before;
  threw = true;
}
run_after (before, false) true events abandoned c s =
    let (served, io) = serve c events s in
    let (stopped, ending) = shutdown c.drain_timeout_sec abandoned served in
    record {
      server = stopped;
      effects = before ++ (start_acceptor_loop c s ++ (runs_io ∷ (call_all io ++ call_all ending)));
      threw = false;
    }

unfoldable pub run : FileSystem → Bool → List IoEvent → ℕ → Config → HttpServer → Life
unfolding setup run_after
run files listening events abandoned c s = run_after (setup files c) listening events abandoned c s

-- The calls around `run`: the constructor and `main` set the level, and the destructor calls
-- `shutdown`, after `run` or while an exception of `run` passes.
unfoldable pub destroy_after : ℕ → Config → Life → Life
destroy_after abandoned c life =
    let (destroyed, ending) = shutdown c.drain_timeout_sec abandoned life.server in
    record {
      server = destroyed;
      effects =
          sets_log_level c.log_level
          ∷ sets_log_level c.log_level
          ∷ (life.effects ++ call_all ending);
      threw = life.threw;
    }

-- A server from its construction to its destruction.
unfoldable pub live : FileSystem → Bool → List IoEvent → ℕ → Config → Life
unfolding run destroy_after
live files listening events abandoned c =
    destroy_after abandoned c (run files listening events abandoned c http_server)

-- ===== src/Server/Lifecycle/Ending.antt =====
-- The order in which a server starts and ends its parts (src/server.cpp), whatever its handlers do.
use mathlib.Core.List.{append-nil, append_assoc}
use priority_http_server.Prelude.{
  ℕ, zero, suc, ◌≡◌, refl, ap, ◌∙◌, Bool, true, false, List, [], ◌∷◌, ◌++◌, map, inl, inr, arith,
  ◌||◌, Bool-cases, Option, none, some, ◌≤◌, ◌<◌, sym, if◌then◌else◌, ltb, leb,
}
use priority_http_server.Prelude.Int.{ℤ}
use priority_http_server.Config.{Config}
use priority_http_server.Prelude.Text.{Text}
use priority_http_server.StaticFiles.{FileSystem}
use priority_http_server.Server.{
  HttpServer, ServerEffect, closes_session, joins_io_threads, shuts_pool_down, shuts_logger_down,
  accepted, operation_aborted, accept_error, http_server, check_drain_complete, remove_session,
  insert_session, do_accept, on_accept, on_reject, begin_drain, on_signal, on_drain_timer,
  end_session, shutdown,
}
use priority_http_server.Server.Lifecycle.Beginning.{SetupDone, fails, done, setup-SetupDone}
use priority_http_server.Server.Lifecycle.{
  LifeEffect, starts_logger, starts_pool, starts_io_thread, runs_io, calls, call_all, setup_start,
  setup_rest, run_after, destroy_after, start_io_threads, io_thread_count, start_acceptor_loop,
  IoEvent, accepts, rejects, signals, drain_timer, ends_session, handle_event, serve, run, live,
}

-- The calls that start and end threads, among all calls.
abbrev pub milestones : List LifeEffect → List LifeEffect
milestones [] = []
milestones (starts_logger ∷ es) = starts_logger ∷ milestones es
milestones (starts_pool ∷ es) = starts_pool ∷ milestones es
milestones (starts_io_thread ∷ es) = starts_io_thread ∷ milestones es
milestones (runs_io ∷ es) = runs_io ∷ milestones es
milestones (calls joins_io_threads ∷ es) = calls joins_io_threads ∷ milestones es
milestones (calls (shuts_pool_down t) ∷ es) = calls (shuts_pool_down t) ∷ milestones es
milestones (calls shuts_logger_down ∷ es) = calls shuts_logger_down ∷ milestones es
milestones (_ ∷ es) = milestones es

milestones-append :
    (es fs : List LifeEffect) → milestones (es ++ fs) ≡ milestones es ++ milestones fs
milestones-append [] fs = refl
milestones-append (e ∷ es) fs = ground (arith, milestones-append es fs)

pub call_all-append : (es fs : List ServerEffect) → call_all (es ++ fs) ≡ call_all es ++ call_all fs
call_all-append [] fs = refl
call_all-append (e ∷ es) fs = ap (λ t. calls e ∷ t) (call_all-append es fs)

-- No handler of the I/O context ends a thread, or shuts the server down.
pub record Quiet (s : HttpServer) (r : HttpServer × List ServerEffect) : Type 0 where
  pub no_milestone : milestones (call_all r.1) ≡ []
  pub not_down : r.0.shutdown_done ≡ s.shutdown_done

closes-no_milestone :
    (ids : List ℕ) (es : List ServerEffect)
    → milestones (call_all (map closes_session ids ++ es)) ≡ milestones (call_all es)
closes-no_milestone [] es = refl
closes-no_milestone (id ∷ ids) es = closes-no_milestone ids es

handle_event-Quiet : (c : Config) (e : IoEvent) (s : HttpServer) → Quiet s (handle_event c e s)
unfolding handle_event on_accept on_reject on_signal begin_drain check_drain_complete on_drain_timer
    end_session remove_session insert_session do_accept
handle_event-Quiet c (accepts id accepted) s = ground arith
handle_event-Quiet c (accepts id operation_aborted) s = record {
  no_milestone = refl;
  not_down = refl;
}
handle_event-Quiet c (accepts id (accept_error message)) s = ground arith
handle_event-Quiet c (rejects accepted) s = ground arith
handle_event-Quiet c (rejects operation_aborted) s = ground arith
handle_event-Quiet c (rejects (accept_error message)) s = ground arith
handle_event-Quiet c (signals signal) s = ground arith
handle_event-Quiet c (drain_timer aborted) s =
    let closing = closes-no_milestone s.sessions in
    ground (arith, closing [], closing (check_drain_complete (record s { drain_timer = false })).1)
handle_event-Quiet c (ends_session id) s = ground arith

pub serve-Quiet : (c : Config) (es : List IoEvent) (s : HttpServer) → Quiet s (serve c es s)
unfolding serve
serve-Quiet c [] s = record { no_milestone = refl; not_down = refl }
serve-Quiet c (e ∷ es) s =
    let first = handle_event-Quiet c e s in
    let rest = serve-Quiet c es (handle_event c e s).0 in
    record {
      no_milestone =
          ap milestones (call_all-append (handle_event c e s).1 _)
          ∙ milestones-append (call_all (handle_event c e s).1) _
          ∙ ground (arith, first.no_milestone, rest.no_milestone);
      not_down = rest.not_down ∙ first.not_down;
    }

-- The calls of the first `shutdown`.
pub shutdown-milestones :
    (t : ℤ) (abandoned : ℕ) (s : HttpServer)
    → s.shutdown_done ≡ false
    → (milestones (call_all (shutdown t abandoned s).1)
        ≡ calls joins_io_threads ∷ calls (shuts_pool_down t) ∷ calls shuts_logger_down ∷ [])
      × ((shutdown t abandoned s).0.shutdown_done ≡ true)
unfolding shutdown
shutdown-milestones t abandoned s e = elim (Bool-cases (ltb 0 abandoned)) [
  | inl some_abandoned ↦ rw (e, some_abandoned, closes-no_milestone s.sessions) (refl, refl)
  | inr none_abandoned ↦ rw (e, none_abandoned, closes-no_milestone s.sessions) (refl, refl)
]

-- A later one calls nothing.
pub shutdown_again :
    (t : ℤ) (abandoned : ℕ) (s : HttpServer)
    → s.shutdown_done ≡ true
    → shutdown t abandoned s ≡ (s, [])
unfolding shutdown
shutdown_again t abandoned s e =
    ap (λ b. if b then (s, []) else (shutdown t abandoned (record s { shutdown_done = false }))) e

start_io_threads-milestones :
    (n : ℕ) (es : List LifeEffect)
    → milestones (start_io_threads n ++ es) ≡ start_io_threads n ++ milestones es
unfolding start_io_threads
start_io_threads-milestones zero es = refl
start_io_threads-milestones (suc n) es =
    ap (λ t. starts_io_thread ∷ t) (start_io_threads-milestones n es)

accepting-milestones :
    (c : Config) (s : HttpServer) (es : List LifeEffect)
    → milestones (start_acceptor_loop c s ++ es)
      ≡ start_io_threads (io_thread_count c) ++ milestones es
unfolding start_acceptor_loop do_accept
accepting-milestones c s es =
    let loop = start_io_threads-milestones (io_thread_count c) es in
    elim (Bool-cases (s.stopped || s.draining)) [
      | inl e ↦ rw e loop
      | inr e ↦ elim (Bool-cases (leb c.max_connections s.active_sessions)) [
        | inl full ↦ rw (e, full) loop
        | inr free ↦ rw (e, free) loop
      ]
    ]

abbrev pub copies {ℓ} : {A : Type ℓ} → ℕ → A → List A
copies zero x = []
copies (suc n) x = x ∷ copies n x

start_io_threads-copies : (n : ℕ) → start_io_threads n ≡ copies n starts_io_thread
unfolding start_io_threads
start_io_threads-copies zero = refl
start_io_threads-copies (suc n) = ap (λ t. starts_io_thread ∷ t) (start_io_threads-copies n)

-- What a server starts after its logger: by the canonical path of the static files, if there is one,
-- whether it can listen, and the number of I/O threads.
abbrev pub started : Option (List Text) → Bool → ℕ → List LifeEffect
started none listening n = []
started (some root) true n = starts_pool ∷ (copies n starts_io_thread ++ runs_io ∷ [])
started (some root) false n = starts_pool ∷ []

abbrev pub ended : Config → List LifeEffect
ended c =
    calls joins_io_threads
    ∷ calls (shuts_pool_down c.drain_timeout_sec)
    ∷ calls shuts_logger_down
    ∷ []

run_order :
    (events : List IoEvent) (abandoned : ℕ) (c : Config)
    → let (served, io) = serve c events http_server in
      milestones (
        start_acceptor_loop c http_server
        ++ (runs_io ∷ (call_all io ++ call_all (shutdown c.drain_timeout_sec abandoned served).1)))
      ≡ copies (io_thread_count c) starts_io_thread ++ (runs_io ∷ ended c)
unfolding http_server
run_order events abandoned c =
    let served = serve-Quiet c events http_server in
    let first =
      shutdown-milestones c.drain_timeout_sec abandoned (serve c events http_server).0
        served.not_down in
    rw
      (
        accepting-milestones c http_server,
        milestones-append (call_all (serve c events http_server).1),
        served.no_milestone,
        first.0,
        start_io_threads-copies,
      )
      refl

-- The number of I/O threads that a server starts.
abbrev pub IsThreadCount : Config → ℕ → Type 0
IsThreadCount c n = (1 ≤ n) × (0 < c.io_threads → n ≡ c.io_threads) × (c.io_threads ≡ 0 → n ≡ 1)

io_thread_count-IsThreadCount : (c : Config) → IsThreadCount c (io_thread_count c)
unfolding io_thread_count
io_thread_count-IsThreadCount c = ground arith

-- The order, by how `setup` ended.
live_after_order :
    (files : FileSystem) (listening : Bool) (events : List IoEvent) (abandoned : ℕ) (c : Config)
    (r : List LifeEffect × Bool)
    → SetupDone files c r
    → let life = destroy_after abandoned c (run_after r listening events abandoned c http_server) in
      (milestones life.effects
        ≡ starts_logger
          ∷ (started (files.weakly_canonical c.static_root) listening (io_thread_count c)
              ++ ended c))
      × (life.server.shutdown_done ≡ true)
unfolding destroy_after run_after setup_start setup_rest http_server
live_after_order files listening events abandoned c _ (fails e) =
    let first = shutdown-milestones c.drain_timeout_sec abandoned http_server refl in
    rw e (ap (λ t. starts_logger ∷ t) first.0, first.1)
live_after_order files false events abandoned c _ (done root handler e) =
    let first = shutdown-milestones c.drain_timeout_sec abandoned http_server refl in
    rw e (ap (λ t. starts_logger ∷ starts_pool ∷ t) first.0, first.1)
live_after_order files true events abandoned c _ (done root handler e) =
    let (served, io) = serve c events http_server in
    let quiet = serve-Quiet c events http_server in
    let first = shutdown-milestones c.drain_timeout_sec abandoned served quiet.not_down in
    let again =
      shutdown_again c.drain_timeout_sec abandoned (shutdown c.drain_timeout_sec abandoned served).0
        first.1 in
    rw (e, again, append-nil)
      (
        ap (λ t. starts_logger ∷ starts_pool ∷ t)
            (run_order events abandoned c
              ∙ sym (
                  append_assoc (copies (io_thread_count c) starts_io_thread) (runs_io ∷ [])
                    (ended c))),
        first.1,
      )

-- A server starts its logger, its pool, its I/O threads (as many as configured, and one for 0) and
-- runs the context, in this order, and ends each of them once: the I/O threads are joined before the
-- pool is shut down, with the drain timeout, and the logger is shut down last. This holds whatever
-- its handlers do, and although the destructor calls `shutdown` again. If the root of the static
-- files has no canonical path, only the logger is started; if the server cannot listen, the logger
-- and the pool; and the same calls end them.
pub live_order :
    (files : FileSystem) (listening : Bool) (events : List IoEvent) (abandoned : ℕ) (c : Config)
    → (n : ℕ) × IsThreadCount c n
      × (milestones (live files listening events abandoned c).effects
          ≡ starts_logger ∷ (started (files.weakly_canonical c.static_root) listening n ++ ended c))
      × ((live files listening events abandoned c).server.shutdown_done ≡ true)
unfolding live run
live_order files listening events abandoned c =
    let order = live_after_order files listening events abandoned c _ (setup-SetupDone files c) in
    (io_thread_count c, io_thread_count-IsThreadCount c, order.0, order.1)

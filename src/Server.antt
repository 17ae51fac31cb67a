-- ===== src/Server.antt =====
-- class HttpServer (include/server.hpp, src/server.cpp): the sessions that it counts, the drain, the
-- acceptor and the shutdown. A session is known by a number, which stands for its shared pointer.
-- The pool, the logger and the sockets show in what the methods call, in order.
pub mod Table
pub mod World
pub mod Setup
pub mod Limit
pub mod KeepAlive
pub mod Lifecycle
use priority_http_server.Prelude.{
  ℕ, ◌+◌, ◌-◌, ◌%◌, Bool, true, false, not, ◌&&◌, ◌||◌, List, [], ◌∷◌, ◌++◌, map, Option, none,
  some, leb, ◌==◌, if◌then◌else◌, is_empty, ltb,
}
use priority_http_server.Prelude.Int.{ℤ, size_mod}
use priority_http_server.Prelude.Text.{Text, codes, text_eq, to_lower}
use priority_http_server.Numbers.{decimal}
use priority_http_server.Logger.{LogLevel, debug, info, warning, error}
use priority_http_server.Http.{Http, Request, server, access_control_allow_origin}

pub record HttpServer : Type 0 where
  pub sessions : List ℕ
  pub active_sessions : ℕ
  pub draining : Bool
  pub shutdown_done : Bool
  -- The I/O context was stopped; the drain timer is waited for.
  pub stopped : Bool
  pub drain_timer : Bool

-- What the methods call: the logger, the drain timer, the I/O context, sessions, the acceptor, the
-- threads, the pool.
pub data ServerEffect : Type 0 where
  logs : LogLevel → Text → ServerEffect
  expires_after : ℤ → ServerEffect
  cancels_timer : ServerEffect
  stops_io : ServerEffect
  closes_session : ℕ → ServerEffect
  starts_session : ℕ → ServerEffect
  accepts : ServerEffect
  accepts_to_reject : ServerEffect
  closes_socket : ServerEffect
  joins_io_threads : ServerEffect
  shuts_pool_down : ℤ → ServerEffect
  shuts_logger_down : ServerEffect

-- How an `async_accept` ends.
pub data AcceptResult : Type 0 where
  accepted operation_aborted : AcceptResult
  accept_error : Text → AcceptResult

unfoldable pub http_server : HttpServer
http_server = record {
  sessions = [];
  active_sessions = 0;
  draining = false;
  shutdown_done = false;
  stopped = false;
  drain_timer = false;
}

-- `erase` and `insert` of std::unordered_set.
unfoldable pub erase : ℕ → List ℕ → List ℕ
erase id [] = []
erase id (x ∷ xs) = if x == id then erase id xs else x ∷ erase id xs

unfoldable pub insert : ℕ → List ℕ → List ℕ
unfolding erase
insert id xs = id ∷ erase id xs

unfoldable pub check_drain_complete : HttpServer → HttpServer × List ServerEffect
check_drain_complete s =
    if s.draining && (s.active_sessions == 0)
    then (
      record s { stopped = true; drain_timer = false },
      cancels_timer ∷ logs info (codes "All sessions finished, stopping I/O") ∷ stops_io ∷ [],
    )
    else (s, [])

-- The part of `endSession` that holds the mutex.
unfoldable pub remove_session : ℕ → HttpServer → HttpServer × List ServerEffect
unfolding check_drain_complete
remove_session id s =
    let left = record s {
      sessions = erase id s.sessions;
      active_sessions = (s.active_sessions + size_mod - 1) % size_mod;
    } in
    if left.draining then check_drain_complete left else (left, [])

unfoldable pub end_session : ℕ → HttpServer → HttpServer × List ServerEffect
unfolding remove_session
end_session id s =
    let (s', effects) = remove_session id s in
    (s', effects ++ logs debug (codes "Session ended. Active: " ++ decimal s'.active_sessions) ∷ [])

-- The part of the accept handler that holds the mutex.
unfoldable pub insert_session : ℕ → HttpServer → HttpServer
insert_session id s = record s {
  sessions = insert id s.sessions;
  active_sessions = (s.active_sessions + 1) % size_mod;
}

-- `doAccept`: what the acceptor waits for next.
unfoldable pub do_accept : ℕ → HttpServer → List ServerEffect
do_accept max_connections s =
    if s.stopped || s.draining
    then []
    else if leb max_connections s.active_sessions
    then logs warning (
        codes "Max connections reached ("
        ++ decimal max_connections
        ++ codes "), rejecting new connection")
      ∷ accepts_to_reject
      ∷ []
    else accepts ∷ []

-- The handler of an accept under the limit; `id` is the session that it makes.
unfoldable pub on_accept : ℕ → ℕ → AcceptResult → HttpServer → HttpServer × List ServerEffect
unfolding do_accept insert_session
on_accept max_connections id accepted s =
    (insert_session id s, do_accept max_connections s ++ starts_session id ∷ [])
on_accept max_connections id operation_aborted s =
    (s, logs info (codes "Accept interrupted by shutdown, exiting...") ∷ [])
on_accept max_connections id (accept_error message) s =
    (s, logs error (codes "Accept error: " ++ message) ∷ do_accept max_connections s)

-- The handler of an accept at the limit, whose socket is closed at once.
unfoldable pub on_reject : ℕ → AcceptResult → HttpServer → HttpServer × List ServerEffect
unfolding do_accept
on_reject max_connections accepted s = (s, closes_socket ∷ do_accept max_connections s)
on_reject max_connections r s = (s, do_accept max_connections s)

-- The handler of SIGINT and SIGTERM up to its lock, and as a whole.
unfoldable pub begin_drain : ℤ → ℕ → HttpServer → HttpServer × List ServerEffect
begin_drain drain_timeout signal s = (
  record s { draining = true; drain_timer = true },
  logs info (codes "Shutdown signal received (SIG " ++ decimal signal ++ codes ")")
      ∷ expires_after drain_timeout
      ∷ [],
)

unfoldable pub on_signal : ℤ → ℕ → HttpServer → HttpServer × List ServerEffect
unfolding begin_drain check_drain_complete
on_signal drain_timeout signal s =
    let (s', effects) = begin_drain drain_timeout signal s in
    let (s'', more) = check_drain_complete s' in (s'', effects ++ more)

-- The handler of the drain timer.
unfoldable pub on_drain_timer : Bool → HttpServer → HttpServer × List ServerEffect
unfolding check_drain_complete
on_drain_timer aborted s =
    let fired = record s { drain_timer = false } in
    let (s', more) = check_drain_complete fired in
    if aborted then (s, []) else (
      s',
      (logs warning (codes "Drain timeout reached, forcing remaining sessions closed")
            ∷ map closes_session s.sessions)
          ++ more,
    )

-- `shutdown`; `abandoned` is what `shutdownWithTimeout` of the pool returns.
unfoldable pub shutdown : ℤ → ℕ → HttpServer → HttpServer × List ServerEffect
shutdown drain_timeout abandoned s = if s.shutdown_done then (s, []) else (
  record s { shutdown_done = true; draining = true },
  map closes_session s.sessions
      ++ joins_io_threads
        ∷ logs info (codes "Shutting down pool...")
        ∷ shuts_pool_down drain_timeout
        ∷ ((if ltb 0 abandoned then logs warning (abandoned_text abandoned) ∷ [] else [])
            ++ logs info (codes "Shutting down logger...")
              ∷ logs info (codes "Server stopped.")
              ∷ shuts_logger_down
              ∷ []),
)
  where
    abandoned_text : ℕ → Text
    abandoned_text n =
        codes "Warning: "
        ++ decimal n
        ++ codes
            " worker thread(s) did not finish within drain_timeout_sec and were abandoned (detached)"
        ++ codes " "
        ++ (226 ∷ 128 ∷ 148 ∷ [])
        ++ codes " server is exiting anyway"

module _ (http : Http) where
  -- `isKeepAlive`; none for a request that is not there. The header is `Connection`.
  unfoldable pub is_keep_alive : Option (Request http) → Bool
  is_keep_alive none = false
  is_keep_alive (some req) = elim (req.find (codes "Connection")) [
    | none ↦ true
    | some value ↦ not (text_eq (map to_lower value) (codes "close"))
  ]

  -- `sendResponse`: the response and the flag that the session gets.
  unfoldable pub send_response :
      Text → Text → Bool → Option (Request http) → http.Response → http.Response × Bool
  unfolding is_keep_alive
  send_response server_name cors_allow_origin enable_keepalive req res =
      let named = http.set server server_name res in
      (
        if is_empty cors_allow_origin
            then named
            else http.set access_control_allow_origin cors_allow_origin named,
        is_keep_alive req && enable_keepalive,
      )

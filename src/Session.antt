-- ===== src/Session.antt =====
-- class Session (include/session.hpp, src/session.cpp): the handlers of one connection. Those of
-- one session run one at a time, on its strand, so each is a function from the session to the
-- session and the calls that it makes, in order. `Server` and `Connections` say what the calls do.
pub mod Ending
pub mod Requests
use priority_http_server.Prelude.{
  ℕ, ◌+◌, ◌*◌, ◌%◌, ◌^◌, Bool, true, false, not, ◌&&◌, ◌||◌, List, [], ◌∷◌, ◌++◌, Option, none,
  some, ltb, ◌==◌, if◌then◌else◌,
}
use priority_http_server.Prelude.Int.{ℤ, pos, eqb_ℤ, size_mod}
use priority_http_server.Prelude.Text.{Text, codes}
use priority_http_server.Numbers.{decimal, decimal_int, stoi}
use priority_http_server.Logger.{LogLevel, debug, info, warning, error}
use priority_http_server.Http.{Http, Request, make_response, status_payload_too_large}

pub record Session : Type 0 where
  pub timeout : ℤ
  pub keep_alive : Bool
  pub closed : Bool
  pub ended : Bool
  pub max_keepalive_requests : ℕ
  pub enable_keepalive : Bool
  pub request_count : ℕ

-- How an `async_read` ends: with a request, or with one of the codes that `onRead` tells apart.
pub data ReadResult (http : Http) : Type 0 where
  received : Request http → ReadResult http
  end_of_stream eof operation_aborted body_limit connection_reset : ReadResult http
  read_error : Text → ReadResult http

pub data WriteResult : Type 0 where
  written broken_pipe : WriteResult
  write_error : Text → WriteResult

-- What a handler calls: the logger, the timer, the socket, the request processor, the server.
pub data Effect (http : Http) : Type 0 where
  logs : LogLevel → Text → Effect http
  posts_read : Effect http
  expires_after : ℤ → Effect http
  cancels_timer : Effect http
  reads : ℕ → Effect http
  processes : Request http → ℤ → Effect http
  writes : http.Response → Effect http
  closes_socket : Effect http
  ends_session : Effect http

unfoldable pub session : ℤ → ℕ → Bool → Session
session timeout max_keepalive_requests enable_keepalive = record {
  timeout = timeout;
  keep_alive = false;
  closed = false;
  ended = false;
  max_keepalive_requests = max_keepalive_requests;
  enable_keepalive = enable_keepalive;
  request_count = 0;
}

-- The header X-Priority: the priority, and whether it could be read.
unfoldable pub parse_priority : Option Text → ℤ × Bool
parse_priority none = (pos 0, true)
parse_priority (some value) = elim (stoi value) [ some p ↦ (p, true) | none ↦ (pos 0, false) ]

module _ (http : Http) where
  unfoldable pub start : ℕ → Session → Session × List (Effect http)
  start active s =
      (s, logs debug (codes "Session started. Active: " ++ decimal active) ∷ posts_read ∷ [])

  unfoldable pub do_read : ℕ → Session → Session × List (Effect http)
  do_read body_limit_mb s =
      if s.closed
      then (s, [])
      else (s, expires_after s.timeout ∷ reads (body_limit_mb * 1024 * 1024 % size_mod) ∷ [])

  unfoldable pub end_session : Session → Session × List (Effect http)
  end_session s = if s.ended then (s, []) else (record s { ended = true }, ends_session ∷ [])

  -- The function that `sendResponse` dispatches to the strand.
  unfoldable pub send_response : http.Response → Bool → Session → Session × List (Effect http)
  send_response response keep_alive s =
      if s.closed then (s, []) else (record s { keep_alive = keep_alive }, writes response ∷ [])

  -- The calls of an `onRead` that ends the session after logging.
  unfoldable pub fail_read : LogLevel → Text → Session → Session × List (Effect http)
  unfolding end_session
  fail_read level message s =
      let (s', ending) = end_session s in (s', cancels_timer ∷ logs level message ∷ ending)

  -- The branch of `onRead` for an error.
  unfoldable pub read_failed : ReadResult http → Session → Session × List (Effect http)
  unfolding fail_read send_response
  read_failed (received req) s = (s, [])
  read_failed end_of_stream s = fail_read info (codes "Connection closed by client") s
  read_failed eof s = fail_read info (codes "Connection closed by client") s
  read_failed operation_aborted s = fail_read debug (codes "Read aborted (shutdown or timeout)") s
  read_failed body_limit s =
      let res =
        make_response http status_payload_too_large (codes "413 Payload too large")
          (codes "text/plain") http.fresh in
      let (s', sending) = send_response res false s in
      (s', cancels_timer ∷ logs warning (codes "Request body too large (413)") ∷ sending)
  read_failed connection_reset s = fail_read debug (codes "Connection reset by peer") s
  read_failed (read_error message) s = fail_read error (codes "Read error: " ++ message) s

  -- The sampled log entry for a priority; none for the division by a sample rate of zero.
  unfoldable pub sample : ℕ → ℕ → ℤ → Option (List (Effect http))
  sample sample_rate current priority =
      if sample_rate == 0
      then none
      else if current % sample_rate == 0
      then some (
          logs info (
            codes "Request priority: "
            ++ (decimal_int priority
                ++ (codes " (sampled, total non-zero=" ++ (decimal current ++ codes ")"))))
          ∷ [])
      else some []

  -- The branch of `onRead` for a request. `counter` is `nonZeroCounter`, a 32-bit number that all
  -- sessions share; none if the program divides by zero.
  unfoldable pub read_request :
      ℕ → ℕ → Request http → Session → Option (Session × ℕ × List (Effect http))
  unfolding sample parse_priority
  read_request sample_rate counter req s =
      let s' = record s { request_count = (s.request_count + 1) % size_mod } in
      let (priority, valid) = parse_priority (req.find (codes "X-Priority")) in
      let complaint : List (Effect http) =
        if valid then [] else logs warning (codes "Invalid priority header") ∷ [] in
      let current = (counter + 1) % 2 ^ 32 in
      if eqb_ℤ priority (pos 0)
      then some (s', counter, cancels_timer ∷ (complaint ++ processes req priority ∷ []))
      else elim (sample sample_rate current priority) [
        | none ↦ none
        | some entry ↦
            some
              (s', current, cancels_timer ∷ (complaint ++ (entry ++ processes req priority ∷ [])))
      ]

  unfoldable pub on_read :
      ℕ → ℕ → ReadResult http → Session → Option (Session × ℕ × List (Effect http))
  on_read sample_rate counter (received req) s = read_request sample_rate counter req s
  on_read sample_rate counter r s =
      let (s', effects) = read_failed r s in some (s', counter, effects)

  -- The branch of `onWrite` for an error.
  unfoldable pub write_failed : LogLevel → Text → Session → Session × List (Effect http)
  unfolding end_session
  write_failed level message s =
      let (s', ending) = end_session s in (s', logs level message ∷ ending)

  -- The branch of `onWrite` for success; `draining` is what the server says.
  unfoldable pub write_done : ℕ → Bool → Session → Session × List (Effect http)
  unfolding write_failed do_read
  write_done body_limit_mb draining s =
      let should_keep_alive =
        s.keep_alive && (s.enable_keepalive && ltb s.request_count s.max_keepalive_requests) in
      let (s', reading) = do_read body_limit_mb s in
      if not should_keep_alive || draining
      then if draining
        then write_failed info (codes "Draining: closing connection") s
        else write_failed debug (codes "Connection closed") s
      else (s', logs debug (codes "Keep-Alive: continue") ∷ reading)

  unfoldable pub on_write : ℕ → Bool → WriteResult → Session → Session × List (Effect http)
  unfolding write_done
  on_write body_limit_mb draining written s = write_done body_limit_mb draining s
  on_write body_limit_mb draining broken_pipe s =
      write_failed debug (codes "Write error: broken pipe (client closed connection)") s
  on_write body_limit_mb draining (write_error message) s =
      write_failed error (codes "Write error: " ++ message) s

  -- `onTimeout`; true for a wait that was cancelled.
  unfoldable pub on_timeout : Bool → Session → Session × List (Effect http)
  unfolding write_failed
  on_timeout aborted s =
      if aborted then (s, []) else write_failed info (codes "Read timeout, closing session") s

  -- The function that `close` posts to the strand.
  unfoldable pub close : Session → Session × List (Effect http)
  unfolding end_session
  close s =
      let (s', ending) = end_session (record s { closed = true }) in
      if s.closed then (s, []) else (s', cancels_timer ∷ closes_socket ∷ ending)

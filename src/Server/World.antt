-- ===== src/Server/World.antt =====
-- The server with its sessions: accepts, handlers of sessions, the signal, the drain timer and the
-- shutdown in any order. The signal's handler sets the flag and takes the lock in two steps, so that
-- other handlers may run in between.
pub mod Invariant
pub mod Drain
use priority_http_server.Prelude.{ℕ, ◌≡◌, Bool, true, false, List, [], ◌∷◌, none, some}
use priority_http_server.Prelude.Int.{ℤ}
use priority_http_server.Http.{Http}
use priority_http_server.Session.{Session, Effect, session, ends_session}
use priority_http_server.Session.Ending.{Handler, handle}
use priority_http_server.Server.{
  HttpServer, accepted, http_server, check_drain_complete, end_session, on_accept, begin_drain,
  on_drain_timer, shutdown,
}
use priority_http_server.Server.Table.{Table, find, update}

pub record World : Type 0 where
  pub server : HttpServer
  pub table : Table
  -- The signal's handler has set the flag and not yet looked for sessions.
  pub checking : Bool

abbrev pub new_world : World
new_world = record { server = http_server; table = []; checking = false }

module _ (http : Http) where
  -- The calls of `endSession` among the calls of a session's handler reach the server.
  unfoldable pub report : ℕ → List (Effect http) → HttpServer → HttpServer
  report id [] s = s
  report id (ends_session ∷ effects) s = report id effects (end_session id s).0
  report id (_ ∷ effects) s = report id effects s

  pub data Step (w : World) : World → Type 0 where
    accepts :
        (max_connections id max_requests : ℕ) (timeout : ℤ) (enable : Bool)
        → find id w.table ≡ none
        → Step w (record w {
          server = (on_accept max_connections id accepted w.server).0;
          table = (id, session timeout max_requests enable) ∷ w.table;
        })
    handles :
        (id : ℕ) (h : Handler http) (s s' : Session) (effects : List (Effect http))
        → find id w.table ≡ some s
        → handle http h s ≡ some (s', effects)
        → Step w (record w { server = report id effects w.server; table = update id s' w.table })
    signals :
        (drain_timeout : ℤ) (signal : ℕ)
        → Step w
            (record w { server = (begin_drain drain_timeout signal w.server).0; checking = true })
    checks : Step w (record w { server = (check_drain_complete w.server).0; checking = false })
    drain_timer_fires :
        (aborted : Bool) → Step w (record w { server = (on_drain_timer aborted w.server).0 })
    -- `run` calls `shutdown` when the I/O context has stopped; the destructor calls it again.
    shuts_down :
        (drain_timeout : ℤ) (abandoned : ℕ)
        → w.server.stopped ≡ true
        → Step w (record w { server = (shutdown drain_timeout abandoned w.server).0 })

  pub data Reach : World → Type 0 where
    here : Reach new_world
    next : {v w : World} → Reach v → Step v w → Reach w

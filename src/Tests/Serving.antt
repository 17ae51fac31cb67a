-- ===== src/Tests/Serving.antt =====
-- The server on small inputs.
use priority_http_server.Prelude.{
  ◌≤◌, ◌+◌, ◌≡◌, refl, true, false, [], ◌∷◌, none, some, arith, count_if, if◌then◌else◌,
}
use priority_http_server.Prelude.Int.{pos}
use priority_http_server.Prelude.Text.{codes, to_lower, text_eq}
use priority_http_server.Http.{Request}
use priority_http_server.Session.{
  Session, session, written, on_write, close, send_response as session_response,
}
use priority_http_server.Session
use priority_http_server.Session.Ending.{closes, handle, is_end, is_io}
use priority_http_server.Server.{
  http_server, send_response, on_accept, insert_session, insert, erase, begin_drain,
  check_drain_complete, end_session, remove_session,
}
use priority_http_server.Server.Table.{find, update, live}
use priority_http_server.Server.World.{
  World, Step, accepts, handles, signals, checks, report, Reach, here, next,
}
use priority_http_server.Server.World.Invariant.{IsValid, Reach-IsValid}
use priority_http_server.Server.World.Drain.{stops_when_drained}
use priority_http_server.Server.Limit.Threads.{Acceptors, active, Runs, connections_bounded_threads}
use priority_http_server.Server.Limit.Threads.Crowd.{limit_exceeded_threads}
use priority_http_server.Server.KeepAlive.{close_ends_session}
use priority_http_server.Tests.Beast.{beast, get_verb}

-- One session is accepted, the signal comes, and the session is closed.
abbrev state : Session
state = session (pos 30) 500 true

abbrev draining_world : World
draining_world = record {
  server = record {
    sessions = 0 ∷ [];
    active_sessions = 1;
    draining = true;
    shutdown_done = false;
    stopped = false;
    drain_timer = true;
  };
  table = (0, state) ∷ [];
  checking = false;
}

draining_world-Reach : Reach beast draining_world
unfolding find on_accept insert_session insert erase http_server begin_drain check_drain_complete
draining_world-Reach =
    next (next (next here (accepts 10 0 500 (pos 30) true refl)) (signals (pos 5) 15)) checks

abbrev drained_world : World
drained_world = record {
  server = record {
    sessions = [];
    active_sessions = 0;
    draining = true;
    shutdown_done = false;
    stopped = true;
    drain_timer = false;
  };
  table = (0, record state { closed = true; ended = true }) ∷ [];
  checking = false;
}

last_session_ends : Step beast draining_world drained_world
unfolding find handle close Session.end_session session update report end_session remove_session
    check_drain_complete erase
last_session_ends =
    handles 0 closes state (record state { closed = true; ended = true }) _ refl refl

Reach-IsValid_example : IsValid draining_world
Reach-IsValid_example = Reach-IsValid beast draining_world draining_world-Reach (omega arith)

stops_when_drained_example :
    (drained_world.server.draining ≡ true) × (live drained_world.table ≡ [])
stops_when_drained_example =
    stops_when_drained beast draining_world drained_world draining_world-Reach last_session_ends
      (omega arith) refl refl

-- Two threads bring the sessions to two above a limit of three.
abbrev five_of_three : (a : Acceptors) × Runs 2 3 a × (active a ≡ 3 + 2)
five_of_three = limit_exceeded_threads 2 3 (omega arith) (omega arith) (omega arith)

connections_bounded_threads_example : active five_of_three.0 ≤ 3 + 2
connections_bounded_threads_example =
    connections_bounded_threads 2 3 five_of_three.0 (omega arith) five_of_three.1

limit_exceeded_threads_example : (a : Acceptors) × Runs 2 3 a × (active a ≡ 3 + 2)
limit_exceeded_threads_example =
    limit_exceeded_threads 2 3 (omega arith) (omega arith) (omega arith)

-- A request with `Connection: Close`.
abbrev closing : Request beast
closing = record {
  method = get_verb;
  target = codes "/status";
  find = λ f. if text_eq f (codes "Connection") then some (codes "Close") else none;
  body = [];
}

close_ends_session_example :
    let (sent, keep) =
      send_response beast (codes "S/2") (codes "*") true (some closing) beast.fresh in
    let after = on_write beast 10 false written (session_response beast sent keep state).0 in
    (after.0.ended ≡ true)
    × (count_if (is_end beast) after.1 ≡ 1)
    × (count_if (is_io beast) after.1 ≡ 0)
unfolding session text_eq to_lower
close_ends_session_example =
    close_ends_session beast (codes "S/2") (codes "*") (codes "Close") true false 10 closing
      beast.fresh state refl refl refl refl

-- ===== src/Tests/Connections.antt =====
-- Sessions on small inputs.
use priority_http_server.Prelude.{
  ◌↔◌, zero, if◌then◌else◌, ℕ, ◌≡◌, ◌≤◌, ◌⊎◌, refl, true, false, List, [], ◌∷◌, none, some, arith,
  count_if,
}
use priority_http_server.Prelude.Int.{pos, eqb_ℤ}
use priority_http_server.Prelude.Text.{codes, text_eq}
use priority_http_server.Http.{Request}
use priority_http_server.Session.{
  parse_priority, Session, Effect, writes, cancels_timer, processes, start, do_read, sample,
  received, written, session, on_timeout, read_request, send_response,
}
use priority_http_server.Session.Ending
use priority_http_server.Session.Ending.{
  Handler, run_handlers, Sound, run_handlers-Sound, read_request_fails_iff,
}
use priority_http_server.Session.Requests.{
  reading, processing, idle, Connection, connection, after, is_close, Reach, here, next, starts,
  begins_read, receives, next_phase, requests_bounded, timeout_keeps_connection,
}
use priority_http_server.Tests.Beast.{beast, get_verb}

abbrev request : Request beast
request = record { method = get_verb; target = codes "/"; find = λ f. none; body = [] }

-- A request, its response, and a timeout in the middle.
abbrev handlers : List (Handler beast)
handlers =
    Ending.starts 1
    ∷ Ending.begins_read 10
    ∷ Ending.times_out false
    ∷ Ending.ends_read 100 0 (received request)
    ∷ Ending.responds beast.fresh false
    ∷ Ending.ends_write 10 false written
    ∷ []

abbrev new_session : Session
new_session = session (pos 30) 500 true

run_handlers-Sound_example :
    (s : Session) × (effects : List (Effect beast)) × (run_handlers beast handlers new_session
      ≡ some (s, effects))
    × Sound beast new_session s effects
run_handlers-Sound_example = run_handlers-Sound beast handlers new_session (omega arith, tt)

abbrev new_connection : Connection
new_connection = connection beast (pos 30) 500 true

-- The session starts, posts its read and waits for a request, which it hands on.
abbrev serving : Connection
serving = record new_connection {
  session = record new_session { request_count = 1 };
  phase = processing;
  processed = 1;
  answered = 0;
}

serving_reached : Reach beast new_connection serving
unfolding connection session start next_phase count_if do_read read_request sample
serving_reached = next (next (next here (starts 1 refl refl refl)) (begins_read 10 refl)) (
    receives 100 0 0 request (record new_session { request_count = 1 })
      (cancels_timer ∷ processes request (pos 0) ∷ []) refl refl)

requests_bounded_example :
    ((serving.processed ≤ 1) ⊎ (serving.processed ≤ 500))
    × (serving.phase ≡ reading → serving.processed ≡ serving.answered)
requests_bounded_example =
    requests_bounded beast (pos 30) 500 true serving (omega arith) serving_reached

abbrev waiting : Connection
waiting = record new_connection { phase = reading }

timeout_keeps_connection_example :
    let d = after beast reading waiting (on_timeout beast false new_session) in
    (d.session.ended ≡ true)
    × (count_if (is_close beast) (on_timeout beast false new_session).1 ≡ 0)
    × (d.phase ≡ reading)
    × (s : Session) × (counter : ℕ) × (effects : List (Effect beast)) × (read_request beast 100 0
          request d.session
        ≡ some (s, counter, effects))
    × ((after beast idle d (s, effects)).phase ≡ processing)
    × ((send_response beast beast.fresh true s).1 ≡ writes beast.fresh ∷ [])
unfolding session connection
timeout_keeps_connection_example =
    timeout_keeps_connection beast waiting 100 0 request beast.fresh true refl refl (omega arith)

-- A request with `X-Priority: 7`.
abbrev urgent : Request beast
urgent = record {
  method = get_verb;
  target = codes "/";
  find = λ f. if text_eq f (codes "X-Priority") then some (codes "7") else none;
  body = [];
}

read_request_fails_iff_example :
    (read_request beast 0 0 urgent new_session ≡ none)
    ↔ ((0 ≡ zero) × (eqb_ℤ (parse_priority (urgent.find (codes "X-Priority"))).0 (pos 0) ≡ false))
read_request_fails_iff_example = read_request_fails_iff beast 0 0 urgent new_session

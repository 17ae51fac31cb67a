-- ===== src/Server/Lifecycle/LastCalls.antt =====
-- The calls with which a server ends (src/server.cpp): those of the first `shutdown`.
use mathlib.Core.List.{append-nil, append_assoc}
use priority_http_server.Prelude.{
  ℕ, zero, suc, ◌≡◌, refl, sym, ap, ◌∙◌, Bool, true, false, List, [], ◌∷◌, ◌++◌, map,
}
use priority_http_server.Prelude.Text.{codes}
use priority_http_server.Config.{Config}
use priority_http_server.Logger.{info}
use priority_http_server.Prelude.Int.{ℤ}
use priority_http_server.Server.{
  ServerEffect, closes_session, joins_io_threads, shuts_pool_down, shuts_logger_down, HttpServer,
  http_server, shutdown, do_accept,
}
use priority_http_server.Server
use priority_http_server.Server.Lifecycle.{
  LifeEffect, Life, setup_start, setup_rest, run_after, destroy_after, start_acceptor_loop,
  io_thread_count, runs_io, start_io_threads, sets_log_level, call_all, IoEvent, live, run, serve,
}
use priority_http_server.StaticFiles.{FileSystem}
use priority_http_server.Server.Lifecycle.Beginning.{SetupDone, fails, done, setup-SetupDone}
use priority_http_server.Server.Lifecycle.Ending.{
  call_all-append, serve-Quiet, shutdown-milestones, shutdown_again,
}

-- The level stays as it is.
abbrev pub KeepsLevel : List LifeEffect → Type 0
KeepsLevel [] = Unit
KeepsLevel (sets_log_level level ∷ es) = ⊥
KeepsLevel (_ ∷ es) = KeepsLevel es

KeepsLevel-append :
    (es fs : List LifeEffect) → KeepsLevel es → KeepsLevel fs → KeepsLevel (es ++ fs)
KeepsLevel-append [] fs h k = k
KeepsLevel-append (sets_log_level level ∷ es) fs h k = absurd h
KeepsLevel-append (_ ∷ es) fs h k = KeepsLevel-append es fs h k

KeepsLevel-call_all : (es : List ServerEffect) → KeepsLevel (call_all es)
KeepsLevel-call_all [] = tt
KeepsLevel-call_all (e ∷ es) = KeepsLevel-call_all es

KeepsLevel-start_io_threads : (n : ℕ) → KeepsLevel (start_io_threads n)
unfolding start_io_threads
KeepsLevel-start_io_threads zero = tt
KeepsLevel-start_io_threads (suc n) = KeepsLevel-start_io_threads n

-- The last two calls of a server are those of the first `shutdown`.
abbrev pub last_calls : List ServerEffect
last_calls = Server.logs info (codes "Server stopped.") ∷ shuts_logger_down ∷ []

abbrev pub EndsSo : List ServerEffect → Type 0
EndsSo es = (before : List ServerEffect) × (es ≡ before ++ last_calls)

append-EndsSo : (es fs : List ServerEffect) → EndsSo fs → EndsSo (es ++ fs)
append-EndsSo es fs (before, e) =
    (es ++ before, ap (λ t. es ++ t) e ∙ sym (append_assoc es before _))

cons-EndsSo : (e : ServerEffect) (fs : List ServerEffect) → EndsSo fs → EndsSo (e ∷ fs)
cons-EndsSo e fs (before, same) = (e ∷ before, ap (λ t. e ∷ t) same)

shutdown-EndsSo :
    (t : ℤ) (abandoned : ℕ) (s : HttpServer)
    → s.shutdown_done ≡ false
    → EndsSo (shutdown t abandoned s).1
unfolding shutdown
shutdown-EndsSo t abandoned s e = rw e (
    append-EndsSo (map closes_session s.sessions) _ (
      cons-EndsSo _ _
        (cons-EndsSo _ _ (cons-EndsSo _ _ (append-EndsSo _ _ (cons-EndsSo _ _ ([], refl)))))))

-- Calls that keep the level, and then the last two.
pub record EndsLife (es : List LifeEffect) : Type 0 where
  pub before : List LifeEffect
  pub keeps : KeepsLevel before
  pub same : es ≡ before ++ call_all last_calls

call_all-EndsLife : (es : List ServerEffect) → EndsSo es → EndsLife (call_all es)
call_all-EndsLife es (before, e) = record {
  before = call_all before;
  keeps = KeepsLevel-call_all before;
  same = ap call_all e ∙ call_all-append before last_calls;
}

append-EndsLife : (es fs : List LifeEffect) → KeepsLevel es → EndsLife fs → EndsLife (es ++ fs)
append-EndsLife es fs k r = record {
  before = es ++ r.before;
  keeps = KeepsLevel-append es r.before k r.keeps;
  same = ap (λ t. es ++ t) r.same ∙ sym (append_assoc es r.before _);
}

KeepsLevel-accepting : (c : Config) (s : HttpServer) → KeepsLevel (start_acceptor_loop c s)
unfolding start_acceptor_loop
KeepsLevel-accepting c s =
    KeepsLevel-append (call_all (do_accept c.max_connections s)) _
      (KeepsLevel-call_all (do_accept c.max_connections s))
      (KeepsLevel-start_io_threads (io_thread_count c))

-- The calls of a server after the two that set the level.
abbrev pub LastsSo : Config → Life → Type 0
LastsSo c life =
    (es : List LifeEffect) × EndsLife es
    × (life.effects ≡ sets_log_level c.log_level ∷ sets_log_level c.log_level ∷ es)

unserved_calls :
    (abandoned : ℕ) (c : Config) (before : List LifeEffect)
    → KeepsLevel before
    → LastsSo c (
        destroy_after abandoned c (record { server = http_server; effects = before; threw = true }))
unfolding destroy_after http_server
unserved_calls abandoned c before k =
    let ending = (shutdown c.drain_timeout_sec abandoned http_server).1 in
    (
      before ++ call_all ending,
      append-EndsLife before _ k (
          call_all-EndsLife ending
            (shutdown-EndsSo c.drain_timeout_sec abandoned http_server refl)),
      refl,
    )

live_after_calls :
    (files : FileSystem) (listening : Bool) (events : List IoEvent) (abandoned : ℕ) (c : Config)
    (r : List LifeEffect × Bool)
    → SetupDone files c r
    → LastsSo c (destroy_after abandoned c (run_after r listening events abandoned c http_server))
unfolding destroy_after run_after http_server setup_start setup_rest
live_after_calls files listening events abandoned c _ (fails e) =
    unserved_calls abandoned c (setup_start c) tt
live_after_calls files false events abandoned c _ (done root handler e) =
    unserved_calls abandoned c (setup_start c ++ setup_rest handler) tt
live_after_calls files true events abandoned c _ (done root handler e) =
    let before = setup_start c ++ setup_rest handler in
    let (served, io) = serve c events http_server in
    let quiet = serve-Quiet c events http_server in
    let first = shutdown-milestones c.drain_timeout_sec abandoned served quiet.not_down in
    let (stopped, ending) = shutdown c.drain_timeout_sec abandoned served in
    let again = shutdown_again c.drain_timeout_sec abandoned stopped first.1 in
    (
      before ++ (start_acceptor_loop c http_server ++ (runs_io ∷ (call_all io ++ call_all ending))),
      append-EndsLife before _ tt (
          append-EndsLife (start_acceptor_loop c http_server) _ (KeepsLevel-accepting c http_server)
            (append-EndsLife (runs_io ∷ []) _ tt (
              append-EndsLife (call_all io) _ (KeepsLevel-call_all io) (
                call_all-EndsLife ending
                  (shutdown-EndsSo c.drain_timeout_sec abandoned served quiet.not_down))))),
      rw (again, append-nil) refl,
    )

-- All calls of a server.
pub live_calls :
    (files : FileSystem) (listening : Bool) (events : List IoEvent) (abandoned : ℕ) (c : Config)
    → LastsSo c (live files listening events abandoned c)
unfolding live run
live_calls files listening events abandoned c =
    live_after_calls files listening events abandoned c _ (setup-SetupDone files c)

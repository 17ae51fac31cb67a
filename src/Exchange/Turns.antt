-- ===== src/Exchange/Turns.antt =====
-- What the events of the program make of the requests and the answers of one session
-- (src/request_processor.cpp).
use mathlib.Core.List.{filter_map-append, map-append}
use priority_http_server.Prelude.{
  ℕ, ◌+◌, ◌≡◌, refl, ◌==◌, true, false, List, [], ◌∷◌, ◌++◌, none, some, length, length-append, ◌∙◌,
  ap, Option,
}
use priority_http_server.Prelude.Int.{ℤ}
use priority_http_server.Heap.{HeapAlgorithms}
use priority_http_server.TaskQueue.{PrioritizedTask, compare_tasks}
use priority_http_server.Http.{Http, Request}
use priority_http_server.Router.{RouterTable}
use priority_http_server.HttpTask.{HttpTask, Compute}
use priority_http_server.RequestProcessor.{Answer, sends, posts}
use priority_http_server.Exchange.{
  Reply, Exchange, Event, receives, resumes, runs_posted, shuts_down, aborts, take_at, answered,
  receive, resume, react, delivered,
}
use priority_http_server.Exchange.Processing.{answered_tasks}
use priority_http_server.Exchange.Order.{asked, got, seen, seen-mine, seen-other, Waits}

module _ (http : Http) (s : ℕ) where
  -- An event that is no request of the session.
  abbrev pub Elsewhere : Event http → Type 0
  Elsewhere (receives now task priority) = (task.session == s) ≡ false
  Elsewhere _ = Unit

  module _ {B : Type 0} (set : IsSet B) (observe : HttpTask http → B)
      (heaps : HeapAlgorithms (PrioritizedTask (HttpTask http)) compare_tasks)
      (table : RouterTable (Request http → http.Response → http.Response))
      (compute : Compute http) where
    pub got-append :
        (x y : Exchange http) (given : List (Reply http))
        → y.sent ≡ x.sent ++ given
        → length (got http set observe s y)
          ≡ length (got http set observe s x)
            + length (seen http set observe s (answered_tasks http given))
    got-append x y given e = rw (e, map-append, filter_map-append) (length-append _ _)

    answered-received :
        (task : HttpTask http) (answers : List (Answer http)) (x : Exchange http)
        → (answered http task answers x).received ≡ x.received
    answered-received task [] x = refl
    answered-received task (sends response request ∷ answers) x = answered-received task answers _
    answered-received task (posts response request ∷ answers) x = answered-received task answers _

    delivered-received :
        (found : Option (Reply http × List (Reply http))) (x : Exchange http)
        → (delivered http found x).received ≡ x.received
    delivered-received none x = refl
    delivered-received (some (r, rest)) x = refl

    receive-received :
        (now : ℕ) (task : HttpTask http) (priority : ℤ) (x : Exchange http)
        → (receive http heaps table compute now task priority x).received ≡ x.received ++ task ∷ []
    unfolding receive
    receive-received now task priority x = rw answered-received refl

    pub asked_kept :
        (e : Event http) (x : Exchange http)
        → Elsewhere e
        → asked http set observe s (react http heaps table compute e x) ≡ asked http set observe s x
    unfolding react resume
    asked_kept (receives now task priority) x h =
        ap (seen http set observe s) (receive-received now task priority x)
        ∙ seen-other http set observe s x.received task h
    asked_kept (resumes i now) x h = refl
    asked_kept (runs_posted i) x h =
        ap (seen http set observe s) (delivered-received (take_at i x.posted) x)
    asked_kept shuts_down x h = refl
    asked_kept aborts x h = refl

    pub asked-mine :
        (now : ℕ) (task : HttpTask http) (priority : ℤ) (x : Exchange http)
        → (task.session == s) ≡ true
        → length (
            asked http set observe s
              (react http heaps table compute (receives now task priority) x))
          ≡ length (asked http set observe s x) + 1
    unfolding react
    asked-mine now task priority x h =
        ap (λ ts. length (seen http set observe s ts)) (receive-received now task priority x)
        ∙ ap length (seen-mine http set observe s x.received task h)
        ∙ length-append _ _

    pub Elsewhere-Waits :
        (e : Event http) (x : Exchange http)
        → Elsewhere e
        → Waits http set observe s heaps table compute e x
    Elsewhere-Waits (receives now task priority) x h = λ own. absurd (cc)
    Elsewhere-Waits (resumes i now) x h = tt
    Elsewhere-Waits (runs_posted i) x h = tt
    Elsewhere-Waits shuts_down x h = tt
    Elsewhere-Waits aborts x h = tt

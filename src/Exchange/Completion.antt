-- ===== src/Exchange/Completion.antt =====
-- The requests at a shutdown of the pool (src/thread_pool.cpp); the pool's side of an exchange is the
-- one of ThreadPool.Crew.
use mathlib.Core.List.{append-nil}
use priority_http_server.Prelude.{
  ◌++◌, ℕ, ◌+◌, ◌*◌, ◌≤◌, ◌<◌, ◌≡◌, refl, ap, ◌∙◌, true, false, List, [], ◌∷◌, length, Perm,
  if◌then◌else◌, Bool-cases, inl, inr, Option, none, some,
}
use priority_http_server.Prelude.Int.{ℤ}
use priority_http_server.Heap.{HeapAlgorithms, IsHeap}
use priority_http_server.TaskQueue.{PrioritizedTask, compare_tasks, push, shutdown}
use priority_http_server.ThreadPool.{ThreadPool, submit}
use priority_http_server.ThreadPool.Crew.{Crew, crew, turn, turns, submits}
use priority_http_server.ThreadPool.Crew.Accounts.{
  Accounts, crew-Accounts, turn-Accounts, turns-Accounts, running,
}
use priority_http_server.ThreadPool.Crew.Ending.{
  EndsRightly, crew-EndsRightly, turn-EndsRightly, turns-EndsRightly, advance_at-Shrinks,
}
use priority_http_server.ThreadPool.Crew.Progress.{resumed}
use priority_http_server.ThreadPool.Crew.Completion.{
  Completed, turns-Completed, exited-running, length-turns, length-crew,
}
use priority_http_server.Http.{Http, Request}
use priority_http_server.Router.{RouterTable}
use priority_http_server.HttpTask.{HttpTask, Compute}
use priority_http_server.RequestProcessor.{Answer, process, is_compute, sends, posts}
use priority_http_server.Exchange.{
  Exchange, Event, receives, resumes, runs_posted, shuts_down, aborts, receive, resume, react, run,
  answered, delivered, take_at, Reply,
}
use priority_http_server.Exchange.Processing.{Once, answered_tasks}
use priority_http_server.Exchange.Once.{exchange, exchange-Once, run-Once, react-Once}
use priority_http_server.ThreadPool.Crew as Pool

module _ (http : Http) where
  answered-crew :
      (task : HttpTask http) (answers : List (Answer http)) (x : Exchange http)
      → (answered http task answers x).crew ≡ x.crew
  answered-crew task [] x = refl
  answered-crew task (sends response request ∷ answers) x = answered-crew task answers _
  answered-crew task (posts response request ∷ answers) x = answered-crew task answers _

  delivered-crew :
      (found : Option (Reply http × List (Reply http))) (x : Exchange http)
      → (delivered http found x).crew ≡ x.crew
  delivered-crew none x = refl
  delivered-crew (some (r, rest)) x = refl

  -- The threads that go on, one after the other, each at a time.
  abbrev pub thread_steps : List (ℕ × ℕ) → List (Event http)
  thread_steps [] = []
  thread_steps ((i, now) ∷ steps) = resumes i now ∷ thread_steps steps

  module _ (heaps : HeapAlgorithms (PrioritizedTask (HttpTask http)) compare_tasks)
      (table : RouterTable (Request http → http.Response → http.Response))
      (compute : Compute http) where
    -- What the events are for the pool: only compute requests are submitted.
    abbrev pub pool_events : List (Event http) → List (Pool.Event (HttpTask http))
    pool_events [] = []
    pool_events (receives now task priority ∷ es) =
        let rest = pool_events es in
        if is_compute http heaps task.request then Pool.submits now task priority ∷ rest else rest
    pool_events (resumes i now ∷ es) = Pool.resumes i now ∷ pool_events es
    pool_events (runs_posted i ∷ es) = pool_events es
    pool_events (shuts_down ∷ es) = Pool.shuts_down ∷ pool_events es
    pool_events (aborts ∷ es) = Pool.aborts ∷ pool_events es

    submitted-crew :
        (now : ℕ) (task : HttpTask http) (priority : ℤ) (x : Exchange http)
        → is_compute http heaps task.request ≡ true
        → (receive http heaps table compute now task priority x).crew
          ≡ turn heaps (Pool.submits now task priority) x.crew
    unfolding receive process submit turn
    submitted-crew now task priority x c =
        elim (Bool-cases (push heaps now task priority x.crew.queue).0) [
          | inl ok ↦ rw (answered-crew, c, ok) refl
          | inr full ↦ rw (answered-crew, c, full) refl
        ]

    routed-crew :
        (now : ℕ) (task : HttpTask http) (priority : ℤ) (x : Exchange http)
        → is_compute http heaps task.request ≡ false
        → (receive http heaps table compute now task priority x).crew ≡ x.crew
    unfolding receive process
    routed-crew now task priority x c = rw (answered-crew, c, append-nil) refl

    -- The pool of an exchange is the crew of its threads.
    run-crew :
        (es : List (Event http)) (x : Exchange http)
        → (run http heaps table compute es x).crew ≡ turns heaps (pool_events es) x.crew
    unfolding run turns react resume turn
    run-crew [] x = refl
    run-crew (receives now task priority ∷ es) x =
        let later = run-crew es (receive http heaps table compute now task priority x) in
        elim (Bool-cases (is_compute http heaps task.request)) [
          | inl c ↦
              rw c
                (later ∙ ap (turns heaps (pool_events es)) (submitted-crew now task priority x c))
          | inr c ↦
              rw c (later ∙ ap (turns heaps (pool_events es)) (routed-crew now task priority x c))
        ]
    run-crew (resumes i now ∷ es) x = run-crew es _
    run-crew (runs_posted i ∷ es) x =
        run-crew es _ ∙ ap (turns heaps (pool_events es)) (delivered-crew (take_at i x.posted) x)
    run-crew (shuts_down ∷ es) x = run-crew es _
    run-crew (aborts ∷ es) x = run-crew es _

    -- What the threads of the pool leave alone.
    record Keeps (x y : Exchange http) : Type 0 where
      sent : y.sent ≡ x.sent
      received : y.received ≡ x.received
      abort : y.crew.queue.abort ≡ x.crew.queue.abort

    thread_steps-Keeps :
        (steps : List (ℕ × ℕ)) (x : Exchange http)
        → Once http x
        → Keeps x (run http heaps table compute (thread_steps steps) x)
    unfolding run react resume
    thread_steps-Keeps [] x o = record { sent = refl; received = refl; abort = refl }
    thread_steps-Keeps ((i, now) ∷ steps) x o =
        let later =
          thread_steps-Keeps steps _ (react-Once http heaps table compute (resumes i now) x o) in
        record {
          sent = later.sent;
          received = later.received;
          abort =
              later.abort
              ∙ (advance_at-Shrinks heaps i now x.crew.queue x.crew.threads o.heap).abort;
        }

    -- The shutdown of the server joins the I/O threads before that of the pool: after any events `es`
    -- of a program that starts with an empty queue and at least one thread, the queue is closed and
    -- only the threads of the pool go on. If each of them does so at least twice for each task that
    -- is queued by then and twice more, and the queue is not aborted, then no thread has a task left
    -- and none is queued; nothing more is sent, and each request that was given to `process` either
    -- was answered by then or has exactly one response that is posted and stays so.
    pub shutdown_drains :
        (pool : ThreadPool (HttpTask http)) (es : List (Event http)) (steps : List (ℕ × ℕ))
        → pool.queue.queue ≡ []
        → 0 < length pool.workers
        → let x = run http heaps table compute es (exchange http pool) in
          let closed = react http heaps table compute shuts_down x in
          let y = run http heaps table compute (thread_steps steps) closed in
          x.crew.queue.abort ≡ false
          → ((i : ℕ)
              → i < length pool.workers
              → 2 + 2 * length x.crew.queue.queue ≤ resumed i (pool_events (thread_steps steps)))
          → (running y.crew.threads ≡ [])
            × (y.crew.queue.queue ≡ [])
            × (y.sent ≡ x.sent)
            × Perm (answered_tasks http x.sent ++ answered_tasks http y.posted) x.received
    unfolding exchange react turn shutdown
    shutdown_drains pool es steps empty some_thread not_aborted often =
        let start = exchange http pool in
        let x = run http heaps table compute es start in
        let closed = react http heaps table compute shuts_down x in
        let fs = thread_steps steps in
        let y = run http heaps table compute fs closed in
        let heap : IsHeap compare_tasks pool.queue.queue = rw empty (λ c p x q. absurd (cc)) in
        let once =
          react-Once http heaps table compute shuts_down x
            (run-Once http heaps table compute es start (exchange-Once http pool empty)) in
        let kept = thread_steps-Keeps steps closed once in
        let before = run-crew es start in
        let accounts : Accounts x.crew =
          rw before (turns-Accounts heaps (pool_events es) (crew pool) (crew-Accounts pool heap)) in
        let rightly : EndsRightly x.crew = rw before (
          turns-EndsRightly heaps (pool_events es) (crew pool) (crew-Accounts pool heap)
            (crew-EndsRightly pool)) in
        let threads = length-turns heaps (pool_events es) (crew pool) ∙ length-crew pool in
        let open_queue : y.crew.queue.abort ≡ false = kept.abort ∙ not_aborted in
        let end : Completed closed.crew.accepted (turns heaps (pool_events fs) closed.crew) =
          turns-Completed heaps (pool_events fs) closed.crew
            (turn-Accounts heaps Pool.shuts_down x.crew accounts)
            (turn-EndsRightly heaps Pool.shuts_down x.crew accounts.heap rightly) refl
            (rw (before, threads) some_thread) (λ i l. often i (rw (before, threads) at l))
            (rw run-crew at open_queue) in
        let idle : running y.crew.threads ≡ [] =
          rw (run-crew fs closed) (exited-running _ end.all_exited) in
        let none_queued : y.crew.queue.queue ≡ [] = rw (run-crew fs closed) end.none_left in
        (
          idle,
          none_queued,
          kept.sent,
          rw (idle, none_queued, append-nil, kept.sent, kept.received) at
              (run-Once http heaps table compute fs closed once).same,
        )

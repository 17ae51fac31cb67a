-- ===== src/Exchange/Once.antt =====
-- Where the requests that reach `process` (src/request_processor.cpp) are: queued, with a thread of
-- the pool, posted to the I/O context or answered.
use mathlib.Core.List.{append_assoc, map-append}
use mathlib.Core.List.Perm
use priority_http_server.Prelude.{
  ◌≡◌, refl, ap, List, [], ◌∷◌, ◌++◌, map, some, inl, inr, arith, Option-cases, count_if,
}
use priority_http_server.Heap.{HeapAlgorithms}
use priority_http_server.TaskQueue.{PrioritizedTask, compare_tasks, shutdown, abort}
use priority_http_server.ThreadPool.{ThreadPool}
use priority_http_server.ThreadPool.Crew.{crew}
use priority_http_server.ThreadPool.Crew.Accounts.{running-started, advance_at-Moves}
use priority_http_server.Http.{Http, Request}
use priority_http_server.Router.{RouterTable}
use priority_http_server.HttpTask.{
  HttpTask, TaskEffect, logs_error, completes, Compute, is_completion, outcome,
  execute_completes_once,
}
use priority_http_server.Exchange.{
  Reply, Exchange, Event, receives, resumes, runs_posted, shuts_down, aborts, take_at,
  callback_posts, execute_all, receive, resume, react, run,
}
use priority_http_server.Exchange.Processing.{
  take_at-perm, answered_tasks, Once, process-Processed, received-Once,
}

-- The program before the first request.
unfoldable pub exchange : (http : Http) → ThreadPool (HttpTask http) → Exchange http
exchange http pool = record { crew = crew pool; posted = []; sent = []; received = [] }

module _ (http : Http) where
  pub exchange-Once :
      (pool : ThreadPool (HttpTask http)) → pool.queue.queue ≡ [] → Once http (exchange http pool)
  unfolding exchange crew
  exchange-Once pool e = record {
    heap = rw e (λ c p x q. absurd (cc));
    same = rw (running-started pool.workers, e) Perm.nil;
  }

  -- What an executed task posts is its own response.
  callback_posts-append :
      (task : HttpTask http) (es fs : List (TaskEffect http))
      → callback_posts http task (es ++ fs)
        ≡ callback_posts http task es ++ callback_posts http task fs
  callback_posts-append task [] fs = refl
  callback_posts-append task (logs_error m ∷ es) fs = callback_posts-append task es fs
  callback_posts-append task (completes r ∷ es) fs =
      ap (λ t. record { task = task; response = r; request = some task.request } ∷ t)
        (callback_posts-append task es fs)

  callback_posts-quiet :
      (task : HttpTask http) (es : List (TaskEffect http))
      → count_if (is_completion http) es ≡ 0
      → callback_posts http task es ≡ []
  unfolding count_if
  callback_posts-quiet task [] h = refl
  callback_posts-quiet task (logs_error m ∷ es) h = callback_posts-quiet task es (omega (arith, h))
  callback_posts-quiet task (completes r ∷ es) h = absurd (omega (arith, h))

  module _ (compute : Compute http) where
    -- The reply to a task that was executed.
    abbrev pub reply_of : HttpTask http → Reply http
    reply_of task = record {
      task = task;
      response = outcome http (compute task.request);
      request = some task.request;
    }

    pub execute_all-replies :
        (ts : List (HttpTask http)) → execute_all http compute ts ≡ map reply_of ts
    unfolding execute_all
    execute_all-replies [] = refl
    execute_all-replies (task ∷ ts) =
        let (before, e, quiet) = execute_completes_once http compute task.request in
        rw
          (
            e,
            callback_posts-append task before,
            callback_posts-quiet task before quiet,
            execute_all-replies ts,
          )
          refl

    reply_of-tasks : (ts : List (HttpTask http)) → answered_tasks http (map reply_of ts) ≡ ts
    reply_of-tasks [] = refl
    reply_of-tasks (t ∷ ts) = ap (λ us. t ∷ us) (reply_of-tasks ts)

  module _ (heaps : HeapAlgorithms (PrioritizedTask (HttpTask http)) compare_tasks)
      (table : RouterTable (Request http → http.Response → http.Response))
      (compute : Compute http) where
    pub react-Once :
        (e : Event http) (x : Exchange http)
        → Once http x
        → Once http (react http heaps table compute e x)
    unfolding react receive resume shutdown abort
    react-Once (receives now task priority) x o = received-Once http heaps table task x _ _ o (
        process-Processed http heaps table now task priority
          (record { queue = x.crew.queue; workers = [] }) o.heap)
    react-Once (resumes i now) x o =
        let m = advance_at-Moves heaps i now x.crew.queue x.crew.threads o.heap in
        record {
          heap = m.heap;
          same =
              rw
                (
                  execute_all-replies,
                  map-append,
                  reply_of-tasks,
                  append_assoc (answered_tasks http x.posted),
                )
                (Perm.trans
                  (Perm.append_left (answered_tasks http x.sent)
                    (Perm.append_left (answered_tasks http x.posted) m.same))
                  o.same);
        }
    react-Once (runs_posted i) x o = elim (Option-cases (take_at i x.posted)) [
      | inl n ↦ rw n o
      | inr ((r, rest), e) ↦ rw e (record {
        heap = o.heap;
        same =
            rw (map-append, append_assoc (answered_tasks http x.sent))
              (Perm.trans
                (Perm.append_left (answered_tasks http x.sent)
                  (Perm.append_right _ (Perm.map (λ p. p.task) (take_at-perm i x.posted r rest e))))
                o.same);
      })
    ]
    react-Once shuts_down x o = record { heap = o.heap; same = o.same }
    react-Once aborts x o = record { heap = o.heap; same = o.same }

    -- Each request that is given to `process` is, exactly once, among those whose response was handed
    -- to `HttpServer::sendResponse`, those whose response waits in the I/O context, those that a
    -- thread of the pool computes and those that are queued, if that is so at the start: in every
    -- interleaving of new requests, the threads of the pool, the I/O threads, `shutdown` and `abort`.
    pub run-Once :
        (es : List (Event http)) (x : Exchange http)
        → Once http x
        → Once http (run http heaps table compute es x)
    unfolding run
    run-Once [] x o = o
    run-Once (e ∷ es) x o = run-Once es (react http heaps table compute e x) (react-Once e x o)

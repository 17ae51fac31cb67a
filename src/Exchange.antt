-- ===== src/Exchange.antt =====
-- A request on its way through the program: `RequestProcessor::process` (src/request_processor.cpp),
-- the queue and the threads of the pool (src/thread_pool.cpp), `HttpTask::execute`
-- (src/http_task.cpp), and the responses that `sendResponseAsync` posts to the I/O context, in any
-- interleaving of the threads of the pool and the I/O threads.
pub mod Processing
pub mod Once
pub mod Order
pub mod Completion
pub mod Answers
pub mod Conversation
pub mod Turns
use priority_http_server.Prelude.{
  ℕ, zero, suc, is_empty, List, [], ◌∷◌, ◌++◌, Option, none, some, if◌then◌else◌,
}
use priority_http_server.Prelude.Int.{ℤ}
use priority_http_server.Heap.{HeapAlgorithms}
use priority_http_server.TaskQueue.{
  PrioritizedTask, TaskQueue, compare_tasks, shutdown as shutdown_queue, abort as abort_queue,
}
use priority_http_server.ThreadPool.{ThreadPool}
use priority_http_server.ThreadPool.Crew.{Crew, Advance, advance_at}
use priority_http_server.Http.{Http, Request}
use priority_http_server.Router.{RouterTable}
use priority_http_server.HttpTask.{HttpTask, TaskEffect, logs_error, completes, Compute, execute}
use priority_http_server.RequestProcessor.{Answer, sends, posts, process}

-- A response for a session, with the request that `sendResponse` gets; `task` is what it answers.
pub record Reply (http : Http) : Type 0 where
  pub task : HttpTask http
  pub response : http.Response
  pub request : Option (Request http)

-- `posted` waits in the I/O context, `sent` was handed to `HttpServer::sendResponse`; `received`
-- records the requests given to `process`.
pub record Exchange (http : Http) : Type 0 where
  pub crew : Crew (HttpTask http)
  pub posted : List (Reply http)
  pub sent : List (Reply http)
  pub received : List (HttpTask http)

pub data Event (http : Http) : Type 0 where
  receives : ℕ → HttpTask http → ℤ → Event http
  -- Thread `i` of the pool goes on, at a time.
  resumes : ℕ → ℕ → Event http
  -- An I/O thread runs one of the posted functions.
  runs_posted : ℕ → Event http
  shuts_down : Event http
  aborts : Event http

-- One element, and the others.
unfoldable pub take_at {ℓ} : {A : Type ℓ} → ℕ → List A → Option (A × List A)
take_at i [] = none
take_at zero (x ∷ xs) = some (x, xs)
take_at (suc i) (x ∷ xs) = elim (take_at i xs) [ none ↦ none | some (y, rest) ↦ some (y, x ∷ rest) ]

module _ (http : Http) where
  -- What `process` answers itself.
  abbrev pub answered : HttpTask http → List (Answer http) → Exchange http → Exchange http
  answered task [] x = x
  answered task (sends response request ∷ answers) x = answered task answers (record x {
    sent = x.sent ++ record { task = task; response = response; request = request } ∷ [];
  })
  answered task (posts response request ∷ answers) x = answered task answers (record x {
    posted = x.posted ++ record { task = task; response = response; request = request } ∷ [];
  })

  -- The callback of a task posts the response.
  abbrev pub callback_posts : HttpTask http → List (TaskEffect http) → List (Reply http)
  callback_posts task [] = []
  callback_posts task (logs_error message ∷ effects) = callback_posts task effects
  callback_posts task (completes response ∷ effects) =
      record { task = task; response = response; request = some task.request }
      ∷ callback_posts task effects

  -- The tasks that a thread has executed post their responses.
  unfoldable pub execute_all : Compute http → List (HttpTask http) → List (Reply http)
  execute_all compute [] = []
  execute_all compute (task ∷ tasks) =
      callback_posts task (execute http compute (λ r. none) task.request).0
      ++ execute_all compute tasks

  abbrev pub delivered : Option (Reply http × List (Reply http)) → Exchange http → Exchange http
  delivered none x = x
  delivered (some (r, rest)) x = record x { posted = rest; sent = x.sent ++ r ∷ [] }

  module _ (heaps : HeapAlgorithms (PrioritizedTask (HttpTask http)) compare_tasks)
      (table : RouterTable (Request http → http.Response → http.Response))
      (compute : Compute http) where
    -- `process`, which uses of the pool its queue; the threads are those of the crew.
    unfoldable pub receive : ℕ → HttpTask http → ℤ → Exchange http → Exchange http
    receive now task priority x =
        let pool : ThreadPool (HttpTask http) = record { queue = x.crew.queue; workers = [] } in
        let (pool', answers) =
          process http heaps now table task.request priority task.session pool in
        answered task answers (record x {
          crew = record x.crew {
            queue = pool'.queue;
            accepted = x.crew.accepted ++ (if is_empty answers then task ∷ [] else []);
          };
          received = x.received ++ task ∷ [];
        })

    unfoldable pub resume : ℕ → ℕ → Exchange http → Exchange http
    unfolding execute_all
    resume i now x =
        let step = advance_at heaps i now x.crew.queue x.crew.threads in
        record x {
          crew = record x.crew {
            queue = step.left;
            threads = step.doing;
            finished = x.crew.finished ++ step.ended;
          };
          posted = x.posted ++ execute_all compute step.ended;
        }

    unfoldable pub react : Event http → Exchange http → Exchange http
    unfolding receive resume take_at
    react (receives now task priority) x = receive now task priority x
    react (resumes i now) x = resume i now x
    react (runs_posted i) x = delivered (take_at i x.posted) x
    react shuts_down x = record x { crew = record x.crew { queue = shutdown_queue x.crew.queue } }
    react aborts x = record x { crew = record x.crew { queue = abort_queue x.crew.queue } }

    unfoldable pub run : List (Event http) → Exchange http → Exchange http
    unfolding react
    run [] x = x
    run (e ∷ es) x = run es (react e x)

-- ===== src/Tests/Exchanges.antt =====
-- Requests on their way through the program.
use priority_http_server.Prelude.{
  ◌++◌, ℕ, ◌+◌, ◌*◌, length, zero, suc, ◌≤◌, ◌<◌, arith, ◌≡◌, refl, true, false, List, [], ◌∷◌,
  Perm, none, inr,
}
use priority_http_server.Prelude.Int.{pos}
use priority_http_server.Prelude.Text.{codes, text_eq}
use priority_http_server.Http.{Request}
use priority_http_server.Heap.Sorted.{sort_heap, pop_sorted}
use priority_http_server.Router.{
  route_handler, find_handler, find_prefix_handler, prefix_loop, find,
}
use priority_http_server.TaskQueue.{
  task_queue, push, pop, ready, after_wait, take_best, split_last, apply_aging, age_loop, overdue,
}
use priority_http_server.ThreadPool.{ThreadPool, submit}
use priority_http_server.ThreadPool.Crew.{crew, advance, advance_at}
use priority_http_server.ThreadPool.Crew.Accounts.{running}
use priority_http_server.HttpTask.{HttpTask, Compute, execute}
use priority_http_server.RequestProcessor.{compute, process, is_compute}
use priority_http_server.Exchange.{
  Event, receives, resumes, runs_posted, shuts_down, execute_all, run, Exchange, react,
}
use priority_http_server.Exchange.Processing.{Once, answered_tasks}
use priority_http_server.Exchange.Once.{exchange, exchange-Once, run-Once}
use priority_http_server.Exchange.Completion.{pool_events, thread_steps, shutdown_drains}
use priority_http_server.ThreadPool.Crew.Progress.{resumed}
use priority_http_server.Exchange.Answers.{Answers, exchange-Answers, run-Answers}
use priority_http_server.Tests.Beast.{beast, get_verb}
use priority_http_server.Tests.Answers.{request_heaps, posted, no_routes, two_numbers}

abbrev pub pool : ThreadPool (HttpTask beast)
pool = record {
  queue = task_queue 5;
  workers = record { id = 0; joinable = true; abandoned = false } ∷ [];
}

abbrev asks_status : Request beast
asks_status = record { method = get_verb; target = codes "/status"; find = λ f. none; body = [] }

abbrev pub task : HttpTask beast
task = record { request = posted; session = 1 }

abbrev other : HttpTask beast
other = record { request = asks_status; session = 2 }

-- A compute request and one that is routed; the only thread computes, and its response is sent.
abbrev events : List (Event beast)
events =
    receives 5 task (pos 1)
    ∷ receives 6 other (pos 0)
    ∷ resumes 0 7
    ∷ resumes 0 8
    ∷ runs_posted 0
    ∷ []

abbrev pub sort_body : Compute beast
sort_body req = inr (compute beast two_numbers req)

abbrev start : Exchange beast
start = exchange beast pool

run-Once_example : Once beast (run beast request_heaps no_routes sort_body events start)
unfolding task_queue
run-Once_example =
    run-Once beast request_heaps no_routes sort_body events start (exchange-Once beast pool refl)

run-Answers_example :
    Answers beast request_heaps no_routes sort_body
      (run beast request_heaps no_routes sort_body events start)
unfolding task_queue
run-Answers_example =
    run-Answers beast request_heaps no_routes sort_body events start (exchange-Once beast pool refl)
      (exchange-Answers beast request_heaps no_routes sort_body pool refl)

-- Nothing is left to do at the end.
abbrev end : Exchange beast
end = run beast request_heaps no_routes sort_body events start

all_done :
    (end.posted ≡ [])
    × (running end.crew.threads ≡ [])
    × (end.crew.queue.queue ≡ [])
    × (answered_tasks beast end.sent ≡ other ∷ task ∷ [])
unfolding task_queue run process is_compute text_eq submit push exchange crew advance_at advance pop
    ready sort_heap after_wait take_best split_last pop_sorted apply_aging age_loop overdue
    execute_all execute route_handler find_handler find_prefix_handler prefix_loop find
all_done = (refl, refl, refl, refl)

-- A request that is answered, and two that are in the pool when it is shut down.
abbrev serving : List (Event beast)
serving =
    receives 6 other (pos 0) ∷ receives 7 task (pos 1) ∷ resumes 0 8 ∷ receives 9 task (pos 9) ∷ []

abbrev joined : Exchange beast
joined = run beast request_heaps no_routes sort_body serving start

abbrev steps : List (ℕ × ℕ)
steps = (0, 10) ∷ (0, 11) ∷ (0, 12) ∷ (0, 13) ∷ []

abbrev closed : Exchange beast
closed = react beast request_heaps no_routes sort_body shuts_down joined

abbrev drained : Exchange beast
drained = run beast request_heaps no_routes sort_body (thread_steps beast steps) closed

at_join : (joined.crew.queue.abort ≡ false) × (2 + 2 * length joined.crew.queue.queue ≤ 4)
unfolding task_queue run process is_compute text_eq submit push exchange crew advance_at advance pop
    ready sort_heap after_wait take_best split_last pop_sorted apply_aging age_loop overdue
    execute_all execute route_handler find_handler find_prefix_handler prefix_loop find
at_join = (refl, omega arith)

often_enough :
    (i : ℕ)
    → i < 1
    → 4 ≤ resumed i (pool_events beast request_heaps no_routes sort_body (thread_steps beast steps))
often_enough zero l = omega arith
often_enough (suc i) l = absurd (omega (arith, l))

shutdown_drains_example :
    (running drained.crew.threads ≡ [])
    × (drained.crew.queue.queue ≡ [])
    × (drained.sent ≡ joined.sent)
    × Perm (answered_tasks beast joined.sent ++ answered_tasks beast drained.posted) joined.received
unfolding task_queue
shutdown_drains_example =
    shutdown_drains beast request_heaps no_routes sort_body pool serving steps refl (omega arith)
      at_join.0 (λ i l. omega (arith, often_enough i l, at_join.1))

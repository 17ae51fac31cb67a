-- ===== src/Tests/Conversations.antt =====
-- A session in conversation with the program.
use native.Mathlib.Nat.{ℕ_set}
use priority_http_server.Prelude.{ℕ, refl, true, [], ◌∷◌, length, count_if}
use priority_http_server.Prelude.Int.{pos}
use priority_http_server.Prelude.Text.{codes, text_eq}
use priority_http_server.Heap.Sorted.{sort_heap, pop_sorted}
use priority_http_server.TaskQueue.{
  task_queue, push, pop, ready, after_wait, take_best, split_last, apply_aging, age_loop, overdue,
}
use priority_http_server.ThreadPool.{submit}
use priority_http_server.ThreadPool.Crew.{crew, advance, advance_at}
use priority_http_server.HttpTask.{HttpTask, execute}
use priority_http_server.RequestProcessor.{process, is_compute}
use priority_http_server.Session.{
  session, start, do_read, read_request, sample, cancels_timer, processes,
}
use priority_http_server.Session.Requests.{
  Connection, connection, next_phase, starts, begins_read, processing,
}
use priority_http_server.Exchange.{
  receives, resumes, runs_posted, execute_all, receive, resume, react, take_at,
}
use priority_http_server.Exchange.Once.{exchange, reply_of}
use priority_http_server.Exchange.Order.{InOrder}
use priority_http_server.Exchange.Conversation.{
  Conversation, Reach, here, next, elsewhere, asks, handles, hand_all, conversation-InOrder,
}
use priority_http_server.Tests.Beast.{beast}
use priority_http_server.Tests.Answers.{request_heaps, no_routes}
use priority_http_server.Tests.Exchanges.{pool, task, sort_body}

abbrev new_connection : Connection
new_connection = connection beast (pos 30) 500 true

abbrev before : Conversation beast
before = record { exchange = exchange beast pool; connection = new_connection }

abbrev asking : Connection
asking = record new_connection {
  session = record new_connection.session { request_count = 1 };
  phase = processing;
  processed = 1;
}

-- The session asks, the only thread of the pool computes, and the session gets its response.
abbrev after_all : Conversation beast
after_all = record {
  exchange = react beast request_heaps no_routes sort_body (runs_posted 0) (
      react beast request_heaps no_routes sort_body (resumes 0 8) (
        react beast request_heaps no_routes sort_body (resumes 0 7) (
          react beast request_heaps no_routes sort_body (receives 5 task (pos 1))
            (exchange beast pool))));
  connection =
      hand_all beast (codes "S") (codes "*") true 1 (reply_of beast sort_body task ∷ []) asking;
}

reached :
    Reach beast (codes "S") (codes "*") true 1 request_heaps no_routes sort_body before after_all
unfolding task_queue react receive resume process is_compute text_eq submit push exchange crew
    advance_at advance pop ready sort_heap after_wait take_best split_last pop_sorted apply_aging
    age_loop overdue execute_all execute take_at connection session start next_phase count_if
    do_read read_request sample
reached =
    next
      (next
        (next
          (next
            (next (next here (handles _ (starts 1 refl refl refl) refl refl))
              (handles _ (begins_read 10 refl) refl refl))
            (asks 5 100 0 0 task (pos 1) asking.session
              (cancels_timer ∷ processes task.request (pos 0) ∷ []) [] refl refl refl refl))
          (elsewhere (resumes 0 7) [] tt refl))
        (elsewhere (resumes 0 8) [] tt refl))
      (elsewhere (runs_posted 0) (reply_of beast sort_body task ∷ []) tt refl)

abbrev target_length : HttpTask beast → ℕ
target_length t = length t.request.target

conversation-InOrder_example : InOrder beast ℕ_set target_length 1 after_all.exchange
unfolding task_queue
conversation-InOrder_example =
    conversation-InOrder beast (codes "S") (codes "*") true 1 request_heaps no_routes sort_body
      ℕ_set target_length pool (pos 30) 500 true after_all refl reached

-- ===== src/Tests/Crew.antt =====
-- Two threads over one queue.
use priority_http_server.Prelude.{
  ℕ, zero, suc, ◌≤◌, ◌<◌, ◌≡◌, refl, true, false, List, [], ◌∷◌, arith,
}
use priority_http_server.Prelude.Int.{pos}
use priority_http_server.TaskQueue.{
  pop, ready, after_wait, take_best, split_last, apply_aging, age_loop, overdue, push,
}
use priority_http_server.Heap.Sorted.{pop_sorted}
use priority_http_server.WorkerThread.{WorkerThread}
use priority_http_server.ThreadPool.Crew.{
  Crew, Event, submits, resumes, crew, turn, turns, advance_at, advance,
}
use priority_http_server.ThreadPool.Crew.Accounts.{Accounts, crew-Accounts, turns-Accounts}
use priority_http_server.ThreadPool.Crew.Ending.{crew-EndsRightly}
use priority_http_server.ThreadPool.Crew.Progress.{resumed}
use priority_http_server.ThreadPool.Crew.Completion.{Completed, turns-Completed}
use priority_http_server.Tests.Queue.{heaps, one_queued, one_queued-IsValid}

abbrev workers : List WorkerThread
workers =
    record { id = 0; joinable = true; abandoned = false }
    ∷ record { id = 1; joinable = true; abandoned = false }
    ∷ []

abbrev two : Crew ℕ
two = crew (record { queue = one_queued; workers = workers })

-- Both threads hold a task when the third is submitted.
abbrev es : List (Event ℕ)
es = resumes 0 5 ∷ submits 6 8 (pos 3) ∷ resumes 1 7 ∷ submits 8 9 (pos 2) ∷ resumes 0 9 ∷ []

turns-Accounts_example : Accounts (turns heaps es two)
turns-Accounts_example =
    turns-Accounts heaps es two
      (crew-Accounts (record { queue = one_queued; workers = workers }) one_queued-IsValid.heap)

abbrev closed_two : Crew ℕ
closed_two = crew (record { queue = record one_queued { done = true }; workers = workers })

abbrev drain : List (Event ℕ)
drain =
    resumes 1 5
    ∷ resumes 0 6
    ∷ submits 6 8 (pos 3)
    ∷ resumes 0 7
    ∷ resumes 1 8
    ∷ resumes 0 9
    ∷ resumes 1 10
    ∷ resumes 1 11
    ∷ resumes 0 12
    ∷ []

often : (i : ℕ) → i < 2 → 4 ≤ resumed i drain
often zero l = omega arith
often (suc zero) l = omega arith
often (suc (suc i)) l = absurd (omega arith)

not_aborted : (turns heaps drain closed_two).queue.abort ≡ false
unfolding crew turns turn advance_at advance pop ready after_wait take_best split_last pop_sorted
    apply_aging age_loop overdue push
not_aborted = refl

turns-Completed_example : Completed (7 ∷ []) (turns heaps drain closed_two)
unfolding crew
turns-Completed_example =
    turns-Completed heaps drain closed_two
      (crew-Accounts (record { queue = record one_queued { done = true }; workers = workers })
        one_queued-IsValid.heap)
      (crew-EndsRightly (record { queue = record one_queued { done = true }; workers = workers }))
      refl (omega arith) often not_aborted

-- ===== src/ThreadPool/Workers.antt =====
-- The workers of a new pool, and the shutdown of a pool whose workers come to an end in time.
use priority_http_server.Prelude.{
  ℕ, zero, suc, ◌+◌, ◌*◌, ◌≤◌, ◌≡◌, refl, Bool, true, false, Option, none, some, List, [], ◌∷◌,
  ◌==◌, arith, if◌then◌else◌, length,
}
use priority_http_server.Prelude.Int.{pos}
use priority_http_server.TaskQueue.{TaskQueue, task_queue}
use priority_http_server.TaskQueue
use priority_http_server.WorkerThread.{WorkerThread, worker_thread, ms, wait_for, join_with_timeout}
use priority_http_server.WorkerThread
use priority_http_server.ThreadPool.{
  ThreadPool, Stopped, remaining, join_pass, none_pending, make_workers, start_all, thread_pool,
  start, shutdown_bounded, shutdown_with_timeout,
}
use priority_http_server.ThreadPool.Shutdown.{AllDetached}

-- Each worker sets its promise at least a millisecond before the deadline.
abbrev pub AllExit : (ℕ → Option ℕ) → ℕ → List WorkerThread → Type 0
AllExit exits deadline [] = Unit
AllExit exits deadline (w ∷ ws) =
    ((t : ℕ) × (exits w.id ≡ some t) × (t + ms ≤ deadline)) × AllExit exits deadline ws

join_with_timeout-ready :
    (exits : Option ℕ) (t deadline now : ℕ) (w : WorkerThread)
    → exits ≡ some t
    → t + ms ≤ deadline
    → w.abandoned ≡ false
    → (join_with_timeout exits (remaining deadline now) now w).0 ≡ true
unfolding join_with_timeout remaining
join_with_timeout-ready none t deadline now w e h a = absurd (cc)
join_with_timeout-ready (some u) t deadline now w e h a = ground arith

join_pass-none_pending :
    (exits : ℕ → Option ℕ) (deadline now : ℕ) (ws : List WorkerThread)
    → AllExit exits deadline ws
    → none_pending (join_pass exits deadline now ws).0 ≡ true
unfolding join_pass none_pending
join_pass-none_pending exits deadline now [] h = refl
join_pass-none_pending exits deadline now (w ∷ ws) h =
    let ((t, e, early), rest) = h in
    let later = (join_with_timeout (exits w.id) (remaining deadline now) now w).2 in
    ground (
      arith,
      join_with_timeout-ready (exits w.id) t deadline now w e early,
      join_pass-none_pending exits deadline now ws rest,
      join_pass-none_pending exits deadline later ws rest,
    )

make_workers_lem :
    (allocates : ℕ → Bool) (i left : ℕ)
    → ((k : ℕ) → allocates k ≡ true)
    → (ws : List WorkerThread) × (make_workers allocates i left ≡ some ws)
      × (length ws ≡ left)
      × AllDetached (start_all ws)
unfolding make_workers start_all worker_thread WorkerThread.start
make_workers_lem allocates i zero h = ([], refl, refl, tt)
make_workers_lem allocates i (suc left) h =
    let (ws, e, size, detached) = make_workers_lem allocates (suc i) left h in
    (worker_thread i ∷ ws, rw (h i, e), omega (arith, size), ((λ a. absurd (cc)), detached))

module _ {ℓ} {T : Type ℓ} where
  -- A graceful shutdown: with a positive timeout, when every worker comes to an end a millisecond
  -- before it, none is abandoned, and the queue is closed and otherwise as it was, so not aborted.
  pub shutdown_with_timeout_graceful :
      (exits : Option ℕ → ℕ → Option ℕ) (n now : ℕ) (p : ThreadPool T)
      → AllExit (exits none) (now + suc n * ms) p.workers
      → (r : Stopped T) × (shutdown_with_timeout exits (pos (suc n)) now p ≡ some r)
        × (r.abandoned ≡ 0)
        × (r.pool.queue ≡ TaskQueue.shutdown p.queue)
  unfolding shutdown_with_timeout shutdown_bounded
  shutdown_with_timeout_graceful exits n now p h =
      let e = join_pass-none_pending (exits none) (now + suc n * ms) now p.workers h in
      (shutdown_bounded exits (suc n) now p, refl, rw e, rw e)

  -- If no allocation throws, a new pool has as many workers as were asked for, and one where none
  -- were; the workers of a started pool are fit for `shutdownWithTimeout`.
  pub thread_pool_workers :
      (allocates : ℕ → Bool) (num_threads max_queue_size : ℕ)
      → ((k : ℕ) → allocates k ≡ true)
      → (p : ThreadPool T) × (thread_pool allocates num_threads max_queue_size ≡ some p)
        × (length p.workers ≡ (if num_threads == 0 then 1 else num_threads))
        × (p.queue ≡ task_queue max_queue_size)
        × AllDetached (start p).workers
  unfolding thread_pool start
  thread_pool_workers allocates num_threads max_queue_size h =
      let (ws, e, size, detached) =
        make_workers_lem allocates 0 (if num_threads == 0 then 1 else num_threads) h in
      (
        record { queue = task_queue max_queue_size; workers = ws },
        rw (e, thread_pool),
        size,
        refl,
        detached,
      )

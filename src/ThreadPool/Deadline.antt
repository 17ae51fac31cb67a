-- ===== src/ThreadPool/Deadline.antt =====
-- How long the waits of `shutdownWithTimeout` (src/thread_pool.cpp) take.
use priority_http_server.Prelude.{ℕ, ◌≤◌, Bool, Option, none, some, List, [], ◌∷◌, arith}
use priority_http_server.WorkerThread.{WorkerThread, join_with_timeout}
use priority_http_server.ThreadPool.{remaining, join_pass, abandon_pass}

-- A wait for what remains ends by the deadline, if it begins by then.
wait_in_time :
    (exits : Option ℕ) (deadline now : ℕ) (w : WorkerThread)
    → now ≤ deadline
    → (now ≤ (join_with_timeout exits (remaining deadline now) now w).2)
      × ((join_with_timeout exits (remaining deadline now) now w).2 ≤ deadline)
unfolding join_with_timeout remaining
wait_in_time none deadline now w h = ground arith
wait_in_time (some t) deadline now w h = ground arith

pub join_pass_in_time :
    (exits : ℕ → Option ℕ) (deadline now : ℕ) (ws : List WorkerThread)
    → now ≤ deadline
    → (now ≤ (join_pass exits deadline now ws).1) × ((join_pass exits deadline now ws).1 ≤ deadline)
unfolding join_pass
join_pass_in_time exits deadline now [] h = (omega arith, h)
join_pass_in_time exits deadline now (w ∷ ws) h =
    let later = (join_with_timeout (exits w.id) (remaining deadline now) now w).2 in
    ground (
      arith,
      wait_in_time (exits w.id) deadline now w h,
      join_pass_in_time exits deadline later ws,
      join_pass_in_time exits deadline now ws h,
    )

pub abandon_pass_in_time :
    (exits : ℕ → Option ℕ) (deadline now : ℕ) (ws : List (WorkerThread × Bool))
    → now ≤ deadline
    → (now ≤ (abandon_pass exits deadline now ws).2)
      × ((abandon_pass exits deadline now ws).2 ≤ deadline)
unfolding abandon_pass
abandon_pass_in_time exits deadline now [] h = (omega arith, h)
abandon_pass_in_time exits deadline now ((w, pending) ∷ ws) h =
    let later = (join_with_timeout (exits w.id) (remaining deadline now) now w).2 in
    ground (
      arith,
      wait_in_time (exits w.id) deadline now w h,
      abandon_pass_in_time exits deadline later ws,
      abandon_pass_in_time exits deadline now ws h,
    )

-- ===== src/ThreadPool/Shutdown.antt =====
-- `shutdownWithTimeout` (src/thread_pool.cpp) with a positive timeout: when it comes back, and what
-- it leaves to join.
use priority_http_server.Prelude.{
  ℕ, suc, ◌+◌, ◌*◌, ◌≤◌, ◌<◌, ◌≡◌, refl, Bool, true, false, Option, none, some, List, [], ◌∷◌, inl,
  inr, arith, Bool-cases, count_if,
}
use priority_http_server.Prelude.Int.{pos}
use priority_http_server.TaskQueue
use priority_http_server.WorkerThread
use priority_http_server.WorkerThread.{WorkerThread, ms, join_with_timeout, abandon}
use priority_http_server.ThreadPool.{
  ThreadPool, Stopped, abort_grace, remaining, join_pass, abandon_pass, none_pending, unmark,
  shutdown_bounded, shutdown_with_timeout, shutdown, destroy, destroy_workers, join_all,
}
use priority_http_server.ThreadPool.Deadline.{join_pass_in_time, abandon_pass_in_time}

-- A worker of which nothing is left to join.
abbrev pub IsSettled : WorkerThread → Type 0
IsSettled w = w.joinable ≡ false

abbrev pub AllSettled : List WorkerThread → Type 0
AllSettled [] = Unit
AllSettled (w ∷ ws) = IsSettled w × AllSettled ws

-- An abandoned worker was detached before.
abbrev pub AllDetached : List WorkerThread → Type 0
AllDetached [] = Unit
AllDetached (w ∷ ws) = (w.abandoned ≡ true → IsSettled w) × AllDetached ws

-- Workers that the first loop does not mark have nothing left to join.
abbrev MarkedRest : List (WorkerThread × Bool) → Type 0
MarkedRest [] = Unit
MarkedRest ((w, pending) ∷ ws) =
    (pending ≡ false → IsSettled w) × (pending ≡ true → w.abandoned ≡ false) × MarkedRest ws

join_pass_marks :
    (exits : ℕ → Option ℕ) (deadline now : ℕ) (ws : List WorkerThread)
    → AllDetached ws
    → MarkedRest (join_pass exits deadline now ws).0
unfolding join_pass join_with_timeout
join_pass_marks exits deadline now [] d = tt
join_pass_marks exits deadline now (w ∷ ws) d =
    let later = (join_with_timeout (exits w.id) (remaining deadline now) now w).2 in
    ground (
      arith,
      join_pass_marks exits deadline now ws d.1,
      join_pass_marks exits deadline later ws d.1,
    )

abandon_pass-AllSettled :
    (exits : ℕ → Option ℕ) (deadline now : ℕ) (ws : List (WorkerThread × Bool))
    → MarkedRest ws
    → AllSettled (abandon_pass exits deadline now ws).0
unfolding abandon_pass join_with_timeout abandon
abandon_pass-AllSettled exits deadline now [] m = tt
abandon_pass-AllSettled exits deadline now ((w, pending) ∷ ws) m =
    let later = (join_with_timeout (exits w.id) (remaining deadline now) now w).2 in
    ground (
      arith,
      abandon_pass-AllSettled exits deadline now ws m.2,
      abandon_pass-AllSettled exits deadline later ws m.2,
    )

unmark-AllSettled :
    (ws : List (WorkerThread × Bool))
    → MarkedRest ws
    → none_pending ws ≡ true
    → AllSettled (unmark ws)
unfolding none_pending unmark
unmark-AllSettled [] m e = tt
unmark-AllSettled ((w, pending) ∷ ws) m e = ground (arith, unmark-AllSettled ws m.2)

abbrev pub abandoned_count : List WorkerThread → ℕ
abandoned_count = count_if (λ w. w.abandoned)

join_pass-count :
    (exits : ℕ → Option ℕ) (deadline now : ℕ) (ws : List WorkerThread)
    → abandoned_count (unmark (join_pass exits deadline now ws).0) ≡ abandoned_count ws
unfolding join_pass join_with_timeout unmark count_if
join_pass-count exits deadline now [] = refl
join_pass-count exits deadline now (w ∷ ws) =
    let later = (join_with_timeout (exits w.id) (remaining deadline now) now w).2 in
    ground (arith, join_pass-count exits deadline now ws, join_pass-count exits deadline later ws)

abandon_pass-count :
    (exits : ℕ → Option ℕ) (deadline now : ℕ) (ws : List (WorkerThread × Bool))
    → MarkedRest ws
    → abandoned_count (abandon_pass exits deadline now ws).0
      ≡ (abandon_pass exits deadline now ws).1 + abandoned_count (unmark ws)
unfolding abandon_pass join_with_timeout abandon unmark count_if
abandon_pass-count exits deadline now [] m = refl
abandon_pass-count exits deadline now ((w, pending) ∷ ws) m =
    let later = (join_with_timeout (exits w.id) (remaining deadline now) now w).2 in
    ground (
      arith,
      abandon_pass-count exits deadline now ws m.2,
      abandon_pass-count exits deadline later ws m.2,
    )

-- Joining and destroying settled workers takes no time.
join_all-AllSettled :
    (exits : ℕ → Option ℕ) (now : ℕ) (ws : List WorkerThread)
    → AllSettled ws
    → join_all exits now ws ≡ some (ws, now)
unfolding join_all WorkerThread.join
join_all-AllSettled exits now [] s = refl
join_all-AllSettled exits now (w ∷ ws) s = rw (s.0, join_all-AllSettled exits now ws s.1) refl

destroy_workers-AllSettled :
    (exits : ℕ → Option ℕ) (now : ℕ) (ws : List WorkerThread)
    → AllSettled ws
    → destroy_workers exits now ws ≡ some now
unfolding destroy_workers WorkerThread.destroy WorkerThread.join
destroy_workers-AllSettled exits now [] s = refl
destroy_workers-AllSettled exits now (w ∷ ws) s =
    let rest = destroy_workers-AllSettled exits now ws s.1 in
    elim (Bool-cases w.abandoned) [ inl a ↦ rw (a, rest) refl | inr a ↦ rw (a, s.0, rest) refl ]

-- A shutdown that began at `now` with the workers `before`.
pub record StopsInTime {ℓ} {T : Type ℓ} (now timeout : ℕ) (before : List WorkerThread)
    (r : Stopped T) : Type 0 where
  pub in_time : r.time ≤ now + timeout * ms + abort_grace * ms
  pub settled : AllSettled r.pool.workers
  pub counted : abandoned_count r.pool.workers ≡ r.abandoned + abandoned_count before
  pub closed : r.pool.queue.done ≡ true
  pub aborted : 0 < r.abandoned → r.pool.queue.abort ≡ true

module _ {ℓ} {T : Type ℓ} where
  destroy-AllSettled :
      (exits : ℕ → Option ℕ) (now : ℕ) (p : ThreadPool T)
      → AllSettled p.workers
      → destroy exits now p ≡ some now
  unfolding destroy shutdown
  destroy-AllSettled exits now p s =
      rw (destroy, shutdown, join_all-AllSettled exits now p.workers s)
        (destroy_workers-AllSettled exits now p.workers s)

  shutdown_bounded-StopsInTime :
      (exits : Option ℕ → ℕ → Option ℕ) (timeout now : ℕ) (p : ThreadPool T)
      → AllDetached p.workers
      → StopsInTime now timeout p.workers (shutdown_bounded exits timeout now p)
  unfolding shutdown_bounded TaskQueue.shutdown TaskQueue.abort
  shutdown_bounded-StopsInTime exits timeout now p d =
      let deadline = now + timeout * ms in
      let first = join_pass (exits none) deadline now p.workers in
      let time = join_pass_in_time (exits none) deadline now p.workers (omega arith) in
      let marks = join_pass_marks (exits none) deadline now p.workers d in
      let same = join_pass-count (exits none) deadline now p.workers in
      elim (Bool-cases (none_pending first.0)) [
        | inl e ↦ rw e (record {
          in_time = omega (arith, time.1);
          settled = unmark-AllSettled first.0 marks e;
          counted = omega (arith, same);
          closed = refl;
          aborted = λ h. absurd (omega arith);
        })
        | inr e ↦
            let grace = first.1 + abort_grace * ms in
            rw e (record {
              in_time = omega (
                arith,
                time.1,
                abandon_pass_in_time (exits (some first.1)) grace first.1 first.0 (omega arith),
              );
              settled = abandon_pass-AllSettled (exits (some first.1)) grace first.1 first.0 marks;
              counted = omega (
                arith,
                same,
                abandon_pass-count (exits (some first.1)) grace first.1 first.0 marks,
              );
              closed = refl;
              aborted = λ h. refl;
            })
      ]

  -- With a positive timeout `shutdownWithTimeout` returns, whatever the running tasks do, if the
  -- workers abandoned before are detached: at most the timeout and 500 ms of grace later, with no
  -- thread left to join, the queue closed, and the number of the workers that it abandoned, zero
  -- unless it aborted the queue. After that the destructor of the pool returns at once, also with
  -- threads that never end.
  pub shutdown_with_timeout-StopsInTime :
      (exits : Option ℕ → ℕ → Option ℕ) (n now : ℕ) (p : ThreadPool T)
      → AllDetached p.workers
      → (r : Stopped T) × (shutdown_with_timeout exits (pos (suc n)) now p ≡ some r)
        × StopsInTime now (suc n) p.workers r
        × ((ends : ℕ → Option ℕ) (later : ℕ) → destroy ends later r.pool ≡ some later)
  unfolding shutdown_with_timeout
  shutdown_with_timeout-StopsInTime exits n now p d =
      let stops = shutdown_bounded-StopsInTime exits (suc n) now p d in
      (
        shutdown_bounded exits (suc n) now p,
        refl,
        stops,
        λ ends later. destroy-AllSettled ends later _ stops.settled,
      )

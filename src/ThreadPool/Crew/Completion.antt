-- ===== src/ThreadPool/Crew/Completion.antt =====
-- What a shutdown without abort leaves (src/thread_pool.cpp), with any number of threads.
use mathlib.Core.List.{append-nil}
use priority_http_server.Prelude.{
  ℕ, zero, suc, ◌+◌, ◌*◌, ◌≤◌, ◌<◌, ◌≡◌, refl, ap, ◌∙◌, true, false, List, [], ◌∷◌, length, inl,
  inr, Perm, some, arith, get_elem?,
}
use priority_http_server.Heap.{HeapAlgorithms}
use priority_http_server.TaskQueue.{PrioritizedTask, TaskQueue, compare_tasks}
use priority_http_server.WorkerThread.{WorkerThread}
use priority_http_server.ThreadPool.{ThreadPool}
use priority_http_server.ThreadPool.Crew.{
  Doing, at_pop, executing, exited, Crew, Event, submits, resumes, shuts_down, aborts, advance_at,
  started, crew, turn, turns,
}
use priority_http_server.ThreadPool.Crew.Accounts.{Accounts, running, turn-Accounts}
use priority_http_server.ThreadPool.Crew.Ending.{EndsRightly, Over, any_exited, turn-EndsRightly}
use priority_http_server.ThreadPool.Crew.Progress.{
  resumed, turn-closed, closed_push, distance-le, thread_ends,
}
use priority_http_server.Heap.Root.{get_elem?-some_of_lt}

-- Each thread is past its loop, each accepted task was executed exactly once, none is left.
pub record Completed {ℓ} {T : Type ℓ} (accepted : List T) (c : Crew T) : Type ℓ where
  pub all_exited : (i : ℕ) → i < length c.threads → get_elem? c.threads i ≡ some exited
  pub executed : Perm c.finished accepted
  pub none_left : c.queue.queue ≡ []

length-started {ℓ} : (T : Type ℓ) (ws : List WorkerThread) → length (started {T = T} ws) ≡ length ws
length-started T [] = refl
length-started T (w ∷ ws) = ap suc (length-started T ws)

module _ {ℓ} {T : Type ℓ} where
  -- Threads that are all past the loop hold no task.
  pub exited-running :
      (ds : List (Doing T))
      → ((i : ℕ) → i < length ds → get_elem? ds i ≡ some exited)
      → running ds ≡ []
  exited-running [] h = refl
  exited-running (at_pop ∷ ds) h = exited-running ds λ i l. h (suc i) (omega arith)
  exited-running (executing t ∷ ds) h = let e = h 0 (omega arith) in absurd (ground (arith, e))
  exited-running (exited ∷ ds) h = exited-running ds λ i l. h (suc i) (omega arith)

  pub length-crew : (p : ThreadPool T) → length (crew p).threads ≡ length p.workers
  unfolding crew
  length-crew p = length-started T p.workers

  first_exited : (ds : List (Doing T)) → get_elem? ds 0 ≡ some exited → any_exited ds ≡ true
  first_exited [] h = absurd (cc)
  first_exited (at_pop ∷ ds) h = absurd (ground arith)
  first_exited (executing t ∷ ds) h = absurd (ground arith)
  first_exited (exited ∷ ds) h = refl

  emptied : (c : Crew T) → c.queue.abort ≡ false → Over c.queue → c.queue.queue ≡ []
  emptied c a (inl b) = absurd (cc)
  emptied c a (inr (e, d)) = e

  module _ (heaps : HeapAlgorithms (PrioritizedTask T) compare_tasks) where
    length-advance_at :
        (i now : ℕ) (q : TaskQueue T) (ds : List (Doing T))
        → length (advance_at heaps i now q ds).doing ≡ length ds
    unfolding advance_at
    length-advance_at i now q [] = refl
    length-advance_at zero now q (d ∷ ds) = refl
    length-advance_at (suc i) now q (d ∷ ds) = ap suc (length-advance_at i now q ds)

    length-turn : (e : Event T) (c : Crew T) → length (turn heaps e c).threads ≡ length c.threads
    unfolding turn
    length-turn (submits now task priority) c = refl
    length-turn (resumes i now) c = length-advance_at i now c.queue c.threads
    length-turn shuts_down c = refl
    length-turn aborts c = refl

    pub length-turns :
        (es : List (Event T)) (c : Crew T) → length (turns heaps es c).threads ≡ length c.threads
    unfolding turns
    length-turns [] c = refl
    length-turns (e ∷ es) c = length-turns es (turn heaps e c) ∙ length-turn e c

    turn-accepted :
        (e : Event T) (c : Crew T) → c.queue.done ≡ true → (turn heaps e c).accepted ≡ c.accepted
    unfolding turn
    turn-accepted (submits now task priority) c d =
        rw (closed_push heaps now task priority c.queue d) (append-nil c.accepted)
    turn-accepted (resumes i now) c d = refl
    turn-accepted shuts_down c d = refl
    turn-accepted aborts c d = refl

    -- What all turns of a closed queue keep.
    pub record Keeps (c c' : Crew T) : Type ℓ where
      pub accounts : Accounts c'
      pub rightly : EndsRightly c'
      pub threads : length c'.threads ≡ length c.threads
      pub accepted : c'.accepted ≡ c.accepted

    turns-Keeps :
        (es : List (Event T)) (c : Crew T)
        → Accounts c
        → EndsRightly c
        → c.queue.done ≡ true
        → Keeps c (turns heaps es c)
    unfolding turns
    turns-Keeps [] c v o d = record { accounts = v; rightly = o; threads = refl; accepted = refl }
    turns-Keeps (e ∷ es) c v o d =
        let k =
          turns-Keeps es (turn heaps e c) (turn-Accounts heaps e c v)
            (turn-EndsRightly heaps e c v.heap o) (turn-closed heaps e c v.heap d).0 in
        record {
          accounts = k.accounts;
          rightly = k.rightly;
          threads = k.threads ∙ length-turn e c;
          accepted = k.accepted ∙ turn-accepted e c d;
        }

    -- After `shutdown`, if the queue is not aborted, and each of the threads (there is at least one)
    -- is resumed at least twice for each queued task and twice more, in any order among any other
    -- events, then every thread has left its loop, every task that was accepted has been executed
    -- exactly once, and nothing is queued. The crew starts with its tasks accounted for and no
    -- thread gone before its time.
    pub turns-Completed :
        (es : List (Event T)) (c : Crew T)
        → Accounts c
        → EndsRightly c
        → c.queue.done ≡ true
        → 0 < length c.threads
        → ((i : ℕ) → i < length c.threads → 2 + 2 * length c.queue.queue ≤ resumed i es)
        → (turns heaps es c).queue.abort ≡ false
        → Completed c.accepted (turns heaps es c)
    turns-Completed es c v o done some_thread often not_aborted =
        let k = turns-Keeps es c v o done in
        let c' = turns heaps es c in
        let gone : (i : ℕ) → i < length c'.threads → get_elem? c'.threads i ≡ some exited = λ i l.
          let inside : i < length c.threads = omega (arith, l, k.threads) in
          let (d, at) = get_elem?-some_of_lt c.threads i inside in
          thread_ends heaps es i c d v.heap done at
            (omega (arith, distance-le d (length c.queue.queue), often i inside)) in
        let empty =
          emptied c' not_aborted (
            k.rightly (first_exited c'.threads (gone 0 (omega (arith, some_thread, k.threads))))) in
        record {
          all_exited = gone;
          executed =
              rw k.accepted at
                (rw (exited-running c'.threads gone, empty, append-nil) at k.accounts.same);
          none_left = empty;
        }

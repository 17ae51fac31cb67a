-- ===== src/ThreadPool/Crew/Ending.antt =====
-- The end of the threads: the loop of `WorkerThread::start` ends only after an abort, or when the
-- queue is closed and empty, and after `shutdown` it ends whatever the other threads do.
use priority_http_server.Prelude.{
  ℕ, zero, suc, ◌≤◌, ◌≡◌, refl, ap, Bool, true, false, List, [], ◌∷◌, ◌||◌, leb, length, inl, inr,
  ◌⊎◌, Bool-cases, arith, length-perm,
}
use priority_http_server.Prelude.Int.{ℤ}
use priority_http_server.Heap.{HeapAlgorithms, IsHeap}
use priority_http_server.TaskQueue.{
  PrioritizedTask, TaskQueue, PopOutcome, compare_tasks, push, pop, shutdown, abort,
}
use priority_http_server.TaskQueue.Lists.{length-age}
use priority_http_server.TaskQueue.Pop.{PopEnds, waits, stops, takes, pop-PopEnds}
use priority_http_server.ThreadPool.Crew.Accounts.{Accounts, turn-Accounts}
use priority_http_server.WorkerThread.{WorkerThread}
use priority_http_server.ThreadPool.{ThreadPool}
use priority_http_server.ThreadPool.Crew.{
  Doing, at_pop, executing, exited, Crew, Event, submits, resumes, shuts_down, aborts, fetched,
  started, crew, advance, advance_at, turn, turns,
}

-- Whether some thread has left its loop.
abbrev pub any_exited {ℓ} : {T : Type ℓ} → List (Doing T) → Bool
any_exited [] = false
any_exited (at_pop ∷ ds) = any_exited ds
any_exited (executing t ∷ ds) = any_exited ds
any_exited (exited ∷ ds) = true

any_exited-started {ℓ} :
    (T : Type ℓ) (ws : List WorkerThread) → any_exited {T = T} (started ws) ≡ false
any_exited-started T [] = refl
any_exited-started T (w ∷ ws) = any_exited-started T ws

module _ {ℓ} {T : Type ℓ} where
  -- Nothing is left to be executed.
  abbrev pub Over : TaskQueue T → Type ℓ
  Over q = (q.abort ≡ true) ⊎ ((q.queue ≡ []) × (q.done ≡ true))

  -- No thread has left its loop before its time.
  abbrev pub EndsRightly : Crew T → Type ℓ
  EndsRightly c = any_exited c.threads ≡ true → Over c.queue

  pub crew-EndsRightly : (p : ThreadPool T) → EndsRightly (crew p)
  unfolding crew
  crew-EndsRightly p x = absurd (ground (arith, x, any_exited-started T p.workers))

  -- How one step leaves the queue: a heap, not longer, the flags untouched, over if it was.
  pub record Shrinks (q left : TaskQueue T) : Type ℓ where
    pub heap : IsHeap compare_tasks left.queue
    pub shorter : length left.queue ≤ length q.queue
    pub done : left.done ≡ q.done
    pub abort : left.abort ≡ q.abort
    pub over : Over q → Over left

  Shrinks-self : (q : TaskQueue T) → IsHeap compare_tasks q.queue → Shrinks q q
  Shrinks-self q h = record {
    heap = h;
    shorter = omega arith;
    done = refl;
    abort = refl;
    over = λ o. o;
  }

  fetched-Shrinks :
      (now : ℕ) (q : TaskQueue T) (r : PopOutcome T)
      → IsHeap compare_tasks q.queue
      → PopEnds now q r
      → Shrinks q (fetched q r).left
  fetched-Shrinks now q _ h (waits e d a) = Shrinks-self q h
  fetched-Shrinks now q _ h (stops s) = Shrinks-self q h
  fetched-Shrinks now q _ h (takes item rest a t) = record {
    heap = t.heap;
    shorter = omega (arith, length-perm t.split, length-age now q.queue);
    done = refl;
    abort = refl;
    over = λ o. elim o [
      | inl b ↦ inl b
      | inr (e, d) ↦
          absurd (omega (arith, length-perm t.split, length-age now q.queue, ap length e))
    ];
  }

  fetched-exited :
      (now : ℕ) (q : TaskQueue T) (r : PopOutcome T)
      → PopEnds now q r
      → any_exited ((fetched q r).doing ∷ []) ≡ true
      → Over (fetched q r).left
  fetched-exited now q _ (waits e d a) x = absurd (cc)
  fetched-exited now q _ (stops s) x = s
  fetched-exited now q _ (takes item rest a t) x = absurd (cc)

  any_exited-cons :
      (d : Doing T) (ds : List (Doing T))
      → any_exited (d ∷ ds) ≡ true
      → (any_exited (d ∷ []) ≡ true) ⊎ (any_exited ds ≡ true)
  any_exited-cons at_pop ds h = inr h
  any_exited-cons (executing t) ds h = inr h
  any_exited-cons exited ds h = inl refl

  any_exited-tail :
      (d : Doing T) (ds : List (Doing T)) → any_exited ds ≡ true → any_exited (d ∷ ds) ≡ true
  any_exited-tail at_pop ds h = h
  any_exited-tail (executing t) ds h = h
  any_exited-tail exited ds h = refl

  any_exited-head :
      (d : Doing T) (ds : List (Doing T)) → any_exited (d ∷ []) ≡ true → any_exited (d ∷ ds) ≡ true
  any_exited-head at_pop ds h = absurd (cc)
  any_exited-head (executing t) ds h = absurd (cc)
  any_exited-head exited ds h = refl

  module _ (heaps : HeapAlgorithms (PrioritizedTask T) compare_tasks) where
    advance-Shrinks :
        (now : ℕ) (q : TaskQueue T) (d : Doing T)
        → IsHeap compare_tasks q.queue
        → Shrinks q (advance heaps now q d).left
    unfolding advance
    advance-Shrinks now q at_pop h =
        fetched-Shrinks now q (pop heaps now q) h (pop-PopEnds heaps now q h)
    advance-Shrinks now q (executing t) h = Shrinks-self q h
    advance-Shrinks now q exited h = Shrinks-self q h

    advance-exited :
        (now : ℕ) (q : TaskQueue T) (d : Doing T)
        → IsHeap compare_tasks q.queue
        → (any_exited (d ∷ []) ≡ true → Over q)
        → any_exited ((advance heaps now q d).doing ∷ []) ≡ true
        → Over (advance heaps now q d).left
    unfolding advance
    advance-exited now q at_pop h o x =
        fetched-exited now q (pop heaps now q) (pop-PopEnds heaps now q h) x
    advance-exited now q (executing t) h o x = absurd (cc)
    advance-exited now q exited h o x = o x

    pub advance_at-Shrinks :
        (i now : ℕ) (q : TaskQueue T) (ds : List (Doing T))
        → IsHeap compare_tasks q.queue
        → Shrinks q (advance_at heaps i now q ds).left
    unfolding advance_at
    advance_at-Shrinks i now q [] h = Shrinks-self q h
    advance_at-Shrinks zero now q (d ∷ ds) h = advance-Shrinks now q d h
    advance_at-Shrinks (suc i) now q (d ∷ ds) h = advance_at-Shrinks i now q ds h

    advance_at-exited :
        (i now : ℕ) (q : TaskQueue T) (ds : List (Doing T))
        → IsHeap compare_tasks q.queue
        → (any_exited ds ≡ true → Over q)
        → any_exited (advance_at heaps i now q ds).doing ≡ true
        → Over (advance_at heaps i now q ds).left
    unfolding advance_at
    advance_at-exited i now q [] h o x = absurd (cc)
    advance_at-exited zero now q (d ∷ ds) h o x =
        elim (any_exited-cons (advance heaps now q d).doing ds x) [
          | inl here ↦ advance-exited now q d h (λ y. o (any_exited-head d ds y)) here
          | inr there ↦ (advance-Shrinks now q d h).over (o (any_exited-tail d ds there))
        ]
    advance_at-exited (suc i) now q (d ∷ ds) h o x =
        let s = advance_at-Shrinks i now q ds h in
        elim (any_exited-cons d _ x) [
          | inl here ↦ s.over (o (any_exited-head d ds here))
          | inr there ↦ advance_at-exited i now q ds h (λ y. o (any_exited-tail d ds y)) there
        ]

    push-Over :
        (now : ℕ) (task : T) (priority : ℤ) (q : TaskQueue T)
        → Over q
        → Over (push heaps now task priority q).1
    unfolding push
    push-Over now task priority q (inl a) =
        elim (Bool-cases (q.done || leb q.max_queue_size (length q.queue))) [
          | inl e ↦ rw e (inl a)
          | inr e ↦ rw e (inl a)
        ]
    push-Over now task priority q (inr (e, d)) =
        rw (ap (λ b. b || leb q.max_queue_size (length q.queue)) d) (inr (e, d))

    pub turn-EndsRightly :
        (e : Event T) (c : Crew T)
        → IsHeap compare_tasks c.queue.queue
        → EndsRightly c
        → EndsRightly (turn heaps e c)
    unfolding turn shutdown abort
    turn-EndsRightly (submits now task priority) c h o x = push-Over now task priority c.queue (o x)
    turn-EndsRightly (resumes i now) c h o x = advance_at-exited i now c.queue c.threads h o x
    turn-EndsRightly shuts_down c h o x = elim (o x) [ inl a ↦ inl a | inr (e, d) ↦ inr (e, refl) ]
    turn-EndsRightly aborts c h o x = inl refl

    -- A thread leaves its loop only after an abort, or when the queue is closed and empty: in every
    -- run of the threads that `start` starts over a heap, as long as there has been neither abort
    -- nor shutdown, every thread is still at `pop` or executing a task.
    pub turns-EndsRightly :
        (es : List (Event T)) (c : Crew T)
        → Accounts c
        → EndsRightly c
        → EndsRightly (turns heaps es c)
    unfolding turns
    turns-EndsRightly [] c v o = o
    turns-EndsRightly (e ∷ es) c v o =
        turns-EndsRightly es (turn heaps e c) (turn-Accounts heaps e c v)
          (turn-EndsRightly e c v.heap o)

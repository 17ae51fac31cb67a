-- ===== src/ThreadPool/Crew/Progress.antt =====
-- After `shutdown` every thread that keeps being resumed leaves its loop, and then every accepted
-- task has been executed (src/thread_pool.cpp).
use priority_http_server.Prelude.{
  ℕ, zero, suc, ◌+◌, ◌-◌, ◌*◌, ◌≤◌, ◌≡◌, refl, ap, ◌∙◌, true, false, List, [], ◌∷◌, ◌||◌, leb,
  length, inl, inr, some, Bool-cases, arith, get_elem?, ◌==◌, if◌then◌else◌, length-perm,
}
use priority_http_server.Prelude.Int.{ℤ}
use priority_http_server.Heap.{HeapAlgorithms, IsHeap}
use priority_http_server.TaskQueue.{
  PrioritizedTask, TaskQueue, PopOutcome, compare_tasks, push, pop, shutdown, abort,
}
use priority_http_server.TaskQueue.Lists.{length-age}
use priority_http_server.TaskQueue.Pop.{PopEnds, waits, stops, takes, pop-PopEnds}
use priority_http_server.ThreadPool.Crew.{
  Doing, at_pop, executing, exited, Crew, Event, submits, resumes, shuts_down, aborts, fetched,
  advance, advance_at, turn, turns,
}
use priority_http_server.ThreadPool.Crew.Ending.{advance_at-Shrinks}

module _ {ℓ} {T : Type ℓ} where
  -- How often thread `i` is resumed.
  abbrev pub resumed : ℕ → List (Event T) → ℕ
  resumed i [] = 0
  resumed i (submits now task priority ∷ es) = resumed i es
  resumed i (resumes j now ∷ es) = if i == j then suc (resumed i es) else resumed i es
  resumed i (shuts_down ∷ es) = resumed i es
  resumed i (aborts ∷ es) = resumed i es

  resumed-cons :
      (i : ℕ) (e : Event T) (es : List (Event T))
      → resumed i (e ∷ es) ≡ resumed i (e ∷ []) + resumed i es
  resumed-cons i (submits now task priority) es = omega arith
  resumed-cons i (resumes j now) es = ground arith
  resumed-cons i shuts_down es = omega arith
  resumed-cons i aborts es = omega arith

  -- How many steps a thread is from the end of its loop, at most, if the queue is closed and holds
  -- `n` tasks.
  abbrev pub distance : Doing T → ℕ → ℕ
  distance at_pop n = 1 + 2 * n
  distance (executing t) n = 2 + 2 * n
  distance exited n = 0

  distance_mono : (d : Doing T) (m n : ℕ) → m ≤ n → distance d m ≤ distance d n
  distance_mono at_pop m n h = omega arith
  distance_mono (executing t) m n h = omega arith
  distance_mono exited m n h = omega arith

  pub distance-le : (d : Doing T) (n : ℕ) → distance d n ≤ 2 + 2 * n
  distance-le at_pop n = omega arith
  distance-le (executing t) n = omega arith
  distance-le exited n = omega arith

  distance-exited : (d : Doing T) (n : ℕ) → distance d n ≡ 0 → d ≡ exited
  distance-exited at_pop n h = absurd (omega (arith, h))
  distance-exited (executing t) n h = absurd (omega (arith, h))
  distance-exited exited n h = refl

  fetched-distance :
      (now : ℕ) (q : TaskQueue T) (r : PopOutcome T)
      → q.done ≡ true
      → PopEnds now q r
      → let step = fetched q r in distance step.doing (length step.left.queue) ≤ 2 * length q.queue
  fetched-distance now q _ done (waits e d a) = absurd (cc)
  fetched-distance now q _ done (stops s) = omega arith
  fetched-distance now q _ done (takes item rest a t) =
      omega (arith, length-perm t.split, length-age now q.queue)

  module _ (heaps : HeapAlgorithms (PrioritizedTask T) compare_tasks) where
    -- A step of a thread brings it nearer to the end of its loop.
    advance-distance :
        (now : ℕ) (q : TaskQueue T) (d : Doing T)
        → IsHeap compare_tasks q.queue
        → q.done ≡ true
        → let step = advance heaps now q d in
          distance step.doing (length step.left.queue) ≤ distance d (length q.queue) - 1
    unfolding advance
    advance-distance now q at_pop h done =
        omega (arith, fetched-distance now q (pop heaps now q) done (pop-PopEnds heaps now q h))
    advance-distance now q (executing t) h done = omega arith
    advance-distance now q exited h done = omega arith

    advance_at-same :
        (i now : ℕ) (q : TaskQueue T) (ds : List (Doing T)) (d : Doing T)
        → get_elem? ds i ≡ some d
        → let step = advance_at heaps i now q ds in
          (step.left ≡ (advance heaps now q d).left)
          × (get_elem? step.doing i ≡ some (advance heaps now q d).doing)
    unfolding advance_at
    advance_at-same i now q [] d e = absurd (cc)
    advance_at-same zero now q (x ∷ ds) d e =
        let same : x ≡ d = ground arith in rw same (refl, refl)
    advance_at-same (suc i) now q (x ∷ ds) d e = advance_at-same i now q ds d e

    advance_at-other :
        (i j now : ℕ) (q : TaskQueue T) (ds : List (Doing T))
        → (i == j) ≡ false
        → get_elem? (advance_at heaps j now q ds).doing i ≡ get_elem? ds i
    unfolding advance_at
    advance_at-other i j now q [] e = refl
    advance_at-other zero zero now q (x ∷ ds) e = absurd (cc)
    advance_at-other (suc i) zero now q (x ∷ ds) e = refl
    advance_at-other zero (suc j) now q (x ∷ ds) e = refl
    advance_at-other (suc i) (suc j) now q (x ∷ ds) e = advance_at-other i j now q ds (ground arith)

    pub closed_push :
        (now : ℕ) (task : T) (priority : ℤ) (q : TaskQueue T)
        → q.done ≡ true
        → push heaps now task priority q ≡ (false, q)
    unfolding push
    closed_push now task priority q d =
        elim (Bool-cases (q.done || leb q.max_queue_size (length q.queue))) [
          | inl e ↦ rw e refl
          | inr e ↦ absurd (ground (arith, e, d))
        ]

    -- A closed queue stays closed and takes no tasks.
    pub turn-closed :
        (e : Event T) (c : Crew T)
        → IsHeap compare_tasks c.queue.queue
        → c.queue.done ≡ true
        → ((turn heaps e c).queue.done ≡ true)
          × (length (turn heaps e c).queue.queue ≤ length c.queue.queue)
          × IsHeap compare_tasks (turn heaps e c).queue.queue
    unfolding turn shutdown abort
    turn-closed (submits now task priority) c h d =
        rw (closed_push now task priority c.queue d) (d, omega arith, h)
    turn-closed (resumes i now) c h d =
        let s = advance_at-Shrinks heaps i now c.queue c.threads h in
        (s.done ∙ d, s.shorter, s.heap)
    turn-closed shuts_down c h d = (refl, omega arith, h)
    turn-closed aborts c h d = (d, omega arith, h)

    -- What a turn does to thread `i`.
    turn-distance :
        (i : ℕ) (e : Event T) (c : Crew T) (d : Doing T)
        → IsHeap compare_tasks c.queue.queue
        → c.queue.done ≡ true
        → get_elem? c.threads i ≡ some d
        → (d' : Doing T) × (get_elem? (turn heaps e c).threads i ≡ some d')
          × (distance d' (length (turn heaps e c).queue.queue)
              ≤ distance d (length c.queue.queue) - resumed i (e ∷ []))
    unfolding turn shutdown abort
    turn-distance i (submits now task priority) c d h done at =
        rw (closed_push now task priority c.queue done) (d, at, omega arith)
    turn-distance i (resumes j now) c d h done at = elim (Bool-cases (i == j)) [
      | inl e ↦
          let same : j ≡ i = ground (arith, e) in
          let step = advance_at-same i now c.queue c.threads d at in
          (
            (advance heaps now c.queue d).doing,
            rw same step.1,
            rw (e, same, step.0) (omega (arith, advance-distance now c.queue d h done)),
          )
      | inr e ↦
          let s = advance_at-Shrinks heaps j now c.queue c.threads h in
          (
            d,
            rw (advance_at-other i j now c.queue c.threads e) at,
            rw e (omega (arith, distance_mono d _ _ s.shorter)),
          )
    ]
    turn-distance i shuts_down c d h done at = (d, at, omega arith)
    turn-distance i aborts c d h done at = (d, at, omega arith)

    pub thread_ends :
        (es : List (Event T)) (i : ℕ) (c : Crew T) (d : Doing T)
        → IsHeap compare_tasks c.queue.queue
        → c.queue.done ≡ true
        → get_elem? c.threads i ≡ some d
        → distance d (length c.queue.queue) ≤ resumed i es
        → get_elem? (turns heaps es c).threads i ≡ some exited
    unfolding turns
    thread_ends [] i c d h done at near =
        at ∙ ap some (distance-exited d (length c.queue.queue) (omega (arith, near)))
    thread_ends (e ∷ es) i c d h done at near =
        let closed = turn-closed e c h done in
        let (d', at', nearer) = turn-distance i e c d h done at in
        thread_ends es i (turn heaps e c) d' closed.2 closed.0 at'
          (omega (arith, nearer, resumed-cons i e es))

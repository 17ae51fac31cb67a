-- ===== src/TaskQueue/Snapshot.antt =====
-- The items of a task queue (src/thread_pool.cpp) as a line: the relation between the two, and what
-- the line replies to each call.
use mathlib.Core.List.{mem-cons_self, mem-cons_of_mem}
use mathlib.Core.List.Perm
use priority_http_server.Prelude.{
  ℕ, suc, ◌<◌, ◌≡◌, refl, ap, ◌∙◌, Bool, true, false, List, [], ◌∷◌, ◌++◌, ◌||◌, map, Mem, Perm,
  arith, leb, length, length-perm, none, some, if◌then◌else◌,
}
use priority_http_server.Prelude.Int.{ℤ}
use priority_http_server.Heap.{HeapAlgorithms}
use priority_http_server.TaskQueue.{
  PrioritizedTask, TaskQueue, PopOutcome, task_queue, blocked, returned, compare_tasks, overdue,
  push, pop, shutdown, abort,
}
use priority_http_server.TaskQueue.Lists.{age, age-order}
use priority_http_server.TaskQueue.Run.{Call, pushes, pops, shuts_down, aborts, popped}
use priority_http_server.TaskQueue.Line.{
  Waiting, Line, Reply, accepts, hangs, gives, silent, first_best, promote, promote_all, line_pop,
  given, joined, line_push,
}
use priority_http_server.TaskQueue.Best.{item_rank, After, Rising}

module _ {ℓ} {T : Type ℓ} where
  -- What the line keeps of an item.
  abbrev pub waiting : PrioritizedTask T → Waiting T
  waiting x = record { task = x.task; since = x.added; rank = x.effective_priority }

  -- A queue and a line that hold the same tasks.
  pub record Holds (q : TaskQueue T) (l : Line T) : Type ℓ where
    pub items : List (PrioritizedTask T)
    pub same : Perm q.queue items
    pub rising : Rising items
    pub line : map waiting items ≡ l.waiting
    pub closed : q.done ≡ l.closed
    pub aborted : q.abort ≡ l.aborted
    pub limit : q.max_queue_size ≡ l.limit

  abbrev pub pop_reply : TaskQueue T → PopOutcome T → Reply T × TaskQueue T
  pop_reply q blocked = (hangs, q)
  pop_reply q (returned t q') = (gives t, q')

  abbrev pub push_reply : Bool × TaskQueue T → Reply T × TaskQueue T
  push_reply (ok, q) = (accepts ok, q)

  module _ (heaps : HeapAlgorithms (PrioritizedTask T) compare_tasks) where
    -- A call of the code, and what its caller sees.
    unfoldable pub answer : Call T → TaskQueue T → Reply T × TaskQueue T
    answer (pushes now task priority) q = push_reply (push heaps now task priority q)
    answer (pops now) q = pop_reply q (pop heaps now q)
    answer shuts_down q = (silent, shutdown q)
    answer aborts q = (silent, abort q)

    unfoldable pub replies : List (Call T) → TaskQueue T → List (Reply T)
    replies [] q = []
    replies (call ∷ calls) q = let (reply, q') = answer call q in reply ∷ replies calls q'

  promote-waiting :
      (now : ℕ) (x : PrioritizedTask T) → waiting (age now x) ≡ promote now (waiting x)
  unfolding overdue
  promote-waiting now x = ground arith

  promote_all-waiting :
      (now : ℕ) (xs : List (PrioritizedTask T))
      → map waiting (map (age now) xs) ≡ promote_all now (map waiting xs)
  promote_all-waiting now [] = refl
  promote_all-waiting now (x ∷ xs) = cc (promote-waiting now x, promote_all-waiting now xs)

  pub After-age :
      (now n : ℕ) (xs : List (PrioritizedTask T)) → After n xs → After n (map (age now) xs)
  After-age now n [] a = tt
  After-age now n (x ∷ xs) a = (rw (age-order now x) a.0, After-age now n xs a.1)

  pub Rising-age : (now : ℕ) (xs : List (PrioritizedTask T)) → Rising xs → Rising (map (age now) xs)
  Rising-age now [] r = tt
  Rising-age now (x ∷ xs) r =
      (rw (age-order now x) (After-age now x.order xs r.0), Rising-age now xs r.1)

  After-append :
      (n : ℕ) (xs : List (PrioritizedTask T)) (x : PrioritizedTask T)
      → After n xs
      → n < x.order
      → After n (xs ++ x ∷ [])
  After-append n [] x a h = (h, tt)
  After-append n (y ∷ ys) x a h = (a.0, After-append n ys x a.1 h)

  pub Rising-append :
      (xs : List (PrioritizedTask T)) (x : PrioritizedTask T)
      → Rising xs
      → ((y : PrioritizedTask T) → Mem y xs → y.order < x.order)
      → Rising (xs ++ x ∷ [])
  Rising-append [] x r h = (tt, tt)
  Rising-append (y ∷ ys) x r h = (
    After-append y.order ys x r.0 (h y mem-cons_self),
    Rising-append ys x r.1 λ z m. h z (mem-cons_of_mem y m),
  )

  -- `first_best` on items and on what the line keeps of them.
  first_best-waiting :
      (x : PrioritizedTask T) (xs : List (PrioritizedTask T))
      → first_best (λ v. v.rank) (waiting x) (map waiting xs)
        ≡ (waiting (first_best item_rank x xs).0, map waiting (first_best item_rank x xs).1)
  unfolding first_best
  first_best-waiting x [] = refl
  first_best-waiting x (y ∷ ys) = rw (first_best-waiting y ys) (ground (arith))

  -- The orders of two items that are not behind each other are one.
  pub same_order :
      (x y : PrioritizedTask T)
      → compare_tasks x y ≡ false
      → compare_tasks y x ≡ false
      → x.order ≡ y.order
  unfolding compare_tasks
  same_order x y h k = ground arith

  pub pop_reply-popped :
      (q : TaskQueue T) (r : PopOutcome T) → (pop_reply q r).1 ≡ (popped q r).final
  pop_reply-popped q blocked = refl
  pop_reply-popped q (returned none q') = refl
  pop_reply-popped q (returned (some t) q') = refl

  length-waiting : (xs : List (PrioritizedTask T)) → length (map waiting xs) ≡ length xs
  length-waiting [] = refl
  length-waiting (x ∷ xs) = ap suc (length-waiting xs)

  pub full_line :
      (q : TaskQueue T) (l : Line T)
      → Holds q l
      → (l.closed || leb l.limit (length l.waiting))
        ≡ (q.done || leb q.max_queue_size (length q.queue))
  full_line q l h =
      rw (h.closed, h.limit, length-perm h.same, ← length-waiting h.items, h.line) refl

  pub push_replies :
      (now : ℕ) (task : T) (priority : ℤ) (l : Line T) (full : Bool)
      → (l.closed || leb l.limit (length l.waiting)) ≡ full
      → line_push now task priority l
        ≡ (if full then (accepts false, l) else (accepts true, joined now task priority l))
  unfolding line_push
  push_replies now task priority l full e =
      ap (λ b. if b then (accepts false, l) else (accepts true, joined now task priority l)) e

  pub empty_replies :
      (now : ℕ) (l : Line T) (stopped : Bool)
      → (l.aborted || l.closed) ≡ stopped
      → line_pop now [] l ≡ (if stopped then (gives none, l) else (hangs, l))
  unfolding line_pop
  empty_replies now l stopped e = ap (λ b. if b then (gives none, l) else (hangs, l)) e

  pub aborted_replies :
      (now : ℕ) (w : Waiting T) (ws : List (Waiting T)) (l : Line T)
      → l.aborted ≡ true
      → line_pop now (w ∷ ws) l ≡ (gives none, l)
  unfolding line_pop
  aborted_replies now w ws l e =
      ap
        (λ b.
          if b
          then (gives none, l)
          else given l (first_best (λ v. v.rank) (promote now w) (promote_all now ws)))
        e

  abbrev pub promoted_best :
      ℕ → PrioritizedTask T → List (PrioritizedTask T) → Waiting T × List (Waiting T)
  promoted_best now x xs =
      first_best (λ v. v.rank) (promote now (waiting x)) (promote_all now (map waiting xs))

  pub best-promoted :
      (now : ℕ) (x : PrioritizedTask T) (xs : List (PrioritizedTask T))
      → promoted_best now x xs ≡ (
          let (best, others) = first_best item_rank (age now x) (map (age now) xs) in
          (waiting best, map waiting others))
  best-promoted now x xs =
      rw (← promote-waiting now x, ← promote_all-waiting now xs)
        (first_best-waiting (age now x) (map (age now) xs))

  pub served_replies :
      (now : ℕ) (x : PrioritizedTask T) (xs : List (PrioritizedTask T)) (l : Line T)
      → l.aborted ≡ false
      → line_pop now (map waiting (x ∷ xs)) l
        ≡ given l (
            let (best, others) = first_best item_rank (age now x) (map (age now) xs) in
            (waiting best, map waiting others))
  unfolding line_pop
  served_replies now x xs l e =
      ap (λ b. if b then (gives none, l) else given l (promoted_best now x xs)) e
      ∙ ap (given l) (best-promoted now x xs)

  -- An empty queue and an empty line.
  pub task_queue-Holds :
      (n : ℕ)
      → Holds
          (task_queue {T = T} n)
          (record { waiting = []; closed = false; aborted = false; limit = n })
  unfolding task_queue
  task_queue-Holds n = record {
    items = [];
    same = Perm.nil;
    rising = tt;
    line = refl;
    closed = refl;
    aborted = refl;
    limit = refl;
  }

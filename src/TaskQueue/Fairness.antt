-- ===== src/TaskQueue/Fairness.antt =====
-- What aging (`applyAging` of src/thread_pool.cpp) does for tasks that have waited long.
use mathlib.Core.Logic.{∥∥₁_elim, ∥∥₁_map}
use mathlib.Core.Logic.Or
use mathlib.Core.List.{
  Nodup, Nodup-cons, Memᴰ, Mem-prop, mem-map_of_mem, mem-append_left, exists_of_mem-map,
  not-mem-nil, eq-or-mem_of_mem-cons, mem-cons_self, mem-cons_of_mem,
}
use mathlib.Core.List.Perm
use priority_http_server.Prelude.{
  ℕ, suc, ◌+◌, ◌-◌, ◌≤◌, ◌<◌, ◌≡◌, refl, sym, ap, ◌∙◌, true, false, List, [], ◌∷◌, ◌++◌, ◌||◌, map,
  inl, inr, Mem, arith, ltb, leb, length, Bool-cases, count_if, count_if-perm, count_if-cons,
  count_if-nil, count_if-append, ℕ_discrete, ◌⊎◌,
}
use priority_http_server.Prelude.Int.{ℤ, ◌≤ℤ◌, int_max, size_mod}
use priority_http_server.Heap.{HeapAlgorithms}
use priority_http_server.TaskQueue.{
  PrioritizedTask, TaskQueue, PopOutcome, aging_threshold, compare_tasks, overdue, push, shutdown,
}
use priority_http_server.TaskQueue.Order.{compare_tasks-eq-false}
use priority_http_server.TaskQueue.Lists.{age, age-order, age-task, age-added}
use priority_http_server.TaskQueue.Pop.{Taken, PopEnds, waits, stops, takes, pop-PopEnds}
use priority_http_server.TaskQueue.Invariant.{
  IsValid, orders, flags-IsValid, push-IsValid, Taken-IsValid, Taken-capped,
}
use priority_http_server.TaskQueue.Run.{Call, pushes, pops, shuts_down, aborts, popped, run, step}

-- How many items were pushed before the `n`-th.
abbrev pub ahead {ℓ} : {T : Type ℓ} → ℕ → List (PrioritizedTask T) → ℕ
ahead n = count_if (λ x. ltb x.order n)

module _ {ℓ} {T : Type ℓ} where
  -- Every `pop` of the calls comes more than a second after `added`, what is pushed is an `int`,
  -- order numbers do not wrap, and nobody aborts the queue.
  abbrev pub Ages : ℕ → ℕ → List (Call T) → Type 0
  Ages added order [] = Unit
  Ages added order (pushes now task priority ∷ calls) =
      (priority ≤ℤ int_max) × (order + 1 < size_mod) × Ages added (order + 1) calls
  Ages added order (pops now ∷ calls) = (aging_threshold < now - added) × Ages added order calls
  Ages added order (shuts_down ∷ calls) = Ages added order calls
  Ages added order (aborts ∷ calls) = ⊥

  abbrev pub pop_count : List (Call T) → ℕ
  pop_count [] = 0
  pop_count (pushes now task priority ∷ calls) = pop_count calls
  pop_count (pops now ∷ calls) = suc (pop_count calls)
  pop_count (shuts_down ∷ calls) = pop_count calls
  pop_count (aborts ∷ calls) = pop_count calls

  Ages-mono :
      (added m n : ℕ) (calls : List (Call T)) → m ≤ n → Ages added n calls → Ages added m calls
  Ages-mono added m n [] h f = tt
  Ages-mono added m n (pushes now task priority ∷ calls) h f =
      (f.0, omega arith, Ages-mono added (m + 1) (n + 1) calls (omega arith) f.2)
  Ages-mono added m n (pops now ∷ calls) h f = (f.0, Ages-mono added m n calls h f.1)
  Ages-mono added m n (shuts_down ∷ calls) h f = Ages-mono added m n calls h f
  Ages-mono added m n (aborts ∷ calls) h f = absurd f

  ahead-age : (n now : ℕ) (xs : List (PrioritizedTask T)) → ahead n (map (age now) xs) ≡ ahead n xs
  ahead-age n now [] = refl
  ahead-age n now (x ∷ xs) = simp (count_if-cons, age-order now x, ahead-age n now xs)

  -- With distinct order numbers, an order number belongs to one item.
  pub same_item :
      (xs : List (PrioritizedTask T)) (x y : PrioritizedTask T)
      → Nodup (orders xs)
      → Memᴰ x xs
      → Memᴰ y xs
      → x.order ≡ y.order
      → x ≡ y
  same_item [] x y d m n e = elim m [ ]
  same_item (z ∷ xs) x y d (Memᴰ.head p) (Memᴰ.head q) e = p ∙ sym q
  same_item (z ∷ xs) x y d (Memᴰ.head p) (Memᴰ.tail m) e =
      absurd ((Nodup-cons.0 d).0 (rw (← p, e) (mem-map_of_mem (λ w. w.order) ∣ m ∣₁)))
  same_item (z ∷ xs) x y d (Memᴰ.tail m) (Memᴰ.head p) e =
      absurd ((Nodup-cons.0 d).0 (rw (← p, ← e) (mem-map_of_mem (λ w. w.order) ∣ m ∣₁)))
  same_item (z ∷ xs) x y d (Memᴰ.tail m) (Memᴰ.tail n) e = same_item xs x y (Nodup-cons.0 d).1 m n e

  -- An overdue item gives way to earlier ones alone.
  overdue_before :
      (now : ℕ) (x item : PrioritizedTask T)
      → aging_threshold < now - x.added
      → item.effective_priority ≤ℤ int_max
      → compare_tasks item (age now x) ≡ false
      → item.order ≤ x.order
  unfolding overdue
  overdue_before now x item late cap h = ground (arith, compare_tasks-eq-false item (age now x) h)

  module _ (heaps : HeapAlgorithms (PrioritizedTask T) compare_tasks) where
    -- One `pop`: it returns the overdue task, or one less is ahead of it.
    Taken-ahead :
        (now : ℕ) (q : TaskQueue T) (x item : PrioritizedTask T) (rest : List (PrioritizedTask T))
        → IsValid q
        → Mem x q.queue
        → aging_threshold < now - x.added
        → Taken now q.queue item rest
        → (item.order ≡ x.order)
          ⊎ (Mem (age now x) rest × (suc (ahead x.order rest) ≡ ahead x.order q.queue))
    Taken-ahead now q x item rest v m late t = elim (ℕ_discrete item.order x.order) [
      | yes e ↦ inl e
      | no ne ↦ inr (
        Or.elim Mem-prop
            (eq-or-mem_of_mem-cons ((Perm.mem_iff t.split).1 (mem-map_of_mem (age now) m)))
            (λ e. absurd (ne (ap (λ w. w.order) (sym e) ∙ age-order now x))) (λ h. h),
        ground (
          arith,
          count_if-perm (λ w. ltb w.order x.order) t.split,
          count_if-cons (λ w. ltb w.order x.order) item rest,
          ahead-age x.order now q.queue,
          overdue_before now x item late (Taken-capped heaps now q item rest v t)
              (t.first (age now x) (mem-map_of_mem (age now) m)),
        ),
      )
    ]

    -- An item that is taken under the order number of `x` carries the task of `x`.
    Taken-task :
        (now : ℕ) (q : TaskQueue T) (x item : PrioritizedTask T) (rest : List (PrioritizedTask T))
        → IsValid q
        → Mem x q.queue
        → Taken now q.queue item rest
        → item.order ≡ x.order
        → ∥ item.task ≡ x.task ∥₁
    Taken-task now q x item rest v m t e = ∥∥₁_elim m squash₁ λ here.
        ∥∥₁_elim (exists_of_mem-map ((Perm.mem_iff t.split).0 mem-cons_self)) squash₁
          λ (y, there, aged). ∥∥₁_map there λ at.
            let same =
              same_item q.queue y x v.distinct at here
                (sym (age-order now y) ∙ ap (λ w. w.order) aged ∙ e) in
            ap (λ w. w.task) (sym aged) ∙ age-task now y ∙ ap (λ w. w.task) same

    push-Mem :
        (now : ℕ) (task : T) (priority : ℤ) (q : TaskQueue T) (x : PrioritizedTask T)
        → Mem x q.queue
        → Mem x (push heaps now task priority q).1.queue
    unfolding push
    push-Mem now task priority q x m =
        elim (Bool-cases (q.done || leb q.max_queue_size (length q.queue))) [
          | inl e ↦ rw e m
          | inr e ↦ rw e ((Perm.mem_iff (heaps.push_heap-perm _)).1 (mem-append_left _ m))
        ]

    push-ahead :
        (now : ℕ) (task : T) (priority : ℤ) (q : TaskQueue T) (n : ℕ)
        → n ≤ q.order
        → ahead n (push heaps now task priority q).1.queue ≡ ahead n q.queue
    unfolding push
    push-ahead now task priority q n h =
        elim (Bool-cases (q.done || leb q.max_queue_size (length q.queue))) [
          | inl e ↦ rw e
          | inr e ↦
              rw
                (
                  e,
                  count_if-perm _ (heaps.push_heap-perm _),
                  count_if-append,
                  count_if-cons,
                  count_if-nil,
                )
                (ground arith)
        ]

    push-kept :
        (now : ℕ) (task : T) (priority : ℤ) (q : TaskQueue T)
        → q.order + 1 < size_mod
        → ((push heaps now task priority q).1.abort ≡ q.abort)
          × (((push heaps now task priority q).1.order ≡ q.order)
              ⊎ ((push heaps now task priority q).1.order ≡ q.order + 1))
    unfolding push
    push-kept now task priority q h = ground arith

    -- The calls serve the task of `x`.
    abbrev Served : List (Call T) → Type ℓ
    Served calls =
        (q : TaskQueue T) (x : PrioritizedTask T)
        → IsValid q
        → Mem x q.queue
        → q.abort ≡ false
        → Ages x.added q.order calls
        → ahead x.order q.queue < pop_count calls
        → Mem x.task (run heaps calls q).taken

    pop-Served :
        (now : ℕ) (calls : List (Call T)) (q : TaskQueue T) (x : PrioritizedTask T)
        (r : PopOutcome T)
        → Served calls
        → PopEnds now q r
        → IsValid q
        → Mem x q.queue
        → q.abort ≡ false
        → Ages x.added q.order (pops now ∷ calls)
        → ahead x.order q.queue < suc (pop_count calls)
        → Mem x.task ((popped q r).taken ++ (run heaps calls (popped q r).final).taken)
    pop-Served now calls q x _ ih (waits e d a) v m b f h = absurd (not-mem-nil (rw e at m))
    pop-Served now calls q x _ ih (stops (inl a)) v m b f h = absurd (cc)
    pop-Served now calls q x _ ih (stops (inr e)) v m b f h = absurd (not-mem-nil (rw e.0 at m))
    pop-Served now calls q x _ ih (takes item rest a t) v m b f h =
        elim (Taken-ahead now q x item rest v m f.0 t) [
          | inl e ↦
              ∥∥₁_elim (Taken-task now q x item rest v m t e) Mem-prop λ same. rw same mem-cons_self
          | inr (here, less) ↦ mem-cons_of_mem item.task (
              rw (age-task now x) at (
                ih (record q { queue = rest }) (age now x) (Taken-IsValid heaps now q item rest v t)
                  here a (rw (age-added now x) f.1) (rw (age-order now x) (omega arith))))
        ]

    -- No starvation: on a valid queue that is not aborted, once a task has waited for more than a
    -- second, it is returned by the time that one more `pop` has been made than there are tasks
    -- that were pushed before it, whatever else is pushed in between and at whatever priority,
    -- fewer than 2^64 tasks in all.
    pub overdue_served :
        (calls : List (Call T)) (q : TaskQueue T) (x : PrioritizedTask T)
        → IsValid q
        → Mem x q.queue
        → q.abort ≡ false
        → Ages x.added q.order calls
        → ahead x.order q.queue < pop_count calls
        → Mem x.task (run heaps calls q).taken
    unfolding run step shutdown
    overdue_served [] q x v m a f h = absurd (omega arith)
    overdue_served (pushes now task priority ∷ calls) q x v m a f h =
        let q' = (push heaps now task priority q).1 in
        let kept = push-kept now task priority q f.1 in
        overdue_served calls q' x (push-IsValid heaps now task priority q f.0 f.1 v)
          (push-Mem now task priority q x m) (kept.0 ∙ a)
          (Ages-mono x.added q'.order (q.order + 1) calls (omega (arith, kept.1)) f.2)
          (rw (push-ahead now task priority q x.order (omega (arith, v.fresh x m))) h)
    overdue_served (pops now ∷ calls) q x v m a f h =
        pop-Served now calls q x _ (overdue_served calls) (pop-PopEnds heaps now q v.heap) v m a f h
    overdue_served (shuts_down ∷ calls) q x v m a f h =
        overdue_served calls (record q { done = true }) x (flags-IsValid q true q.abort v) m a f h
    overdue_served (aborts ∷ calls) q x v m a f h = absurd f

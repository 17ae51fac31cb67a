-- ===== src/TaskQueue/Invariant.antt =====
-- The invariant of the queue, and that each method keeps it.
use native.Mathlib.Bridge.{le_prop}
use native.Mathlib.Nat.{lt_irrefl}
use mathlib.Core.HLevel.{⊥_prop}
use mathlib.Core.Logic.{∥∥₁_elim}
use mathlib.Core.Logic.Or
use mathlib.Core.List.{
  Nodup, Nodup-cons, Nodup-nil, exists_of_mem-map, not-mem-nil, eq-or-mem_of_mem-cons,
  mem-cons_self, mem-cons_of_mem, perm_append_singleton,
}
use mathlib.Core.List.Perm
use priority_http_server.Prelude.{
  ℕ, ◌+◌, ◌%◌, ◌≤◌, ◌<◌, Bool, List, [], ◌∷◌, ◌++◌, ◌||◌, map, inl, inr, Mem, Perm, arith, length,
  length-perm, length-append, Bool-cases, leb,
}
use priority_http_server.Prelude.Int.{ℤ, ◌≤ℤ◌, int_max, size_mod}
use priority_http_server.Heap.{HeapAlgorithms, IsHeap}
use priority_http_server.TaskQueue.{
  PrioritizedTask, TaskQueue, compare_tasks, task_queue, push, abort,
}
use priority_http_server.TaskQueue.Lists.{age, age-order, orders-age, length-age}
use priority_http_server.TaskQueue.Pop.{Taken}

abbrev pub orders {ℓ} : {T : Type ℓ} → List (PrioritizedTask T) → List ℕ
orders = map (λ x. x.order)

-- The queue is a heap within its limit; the order numbers are those of earlier pushes, all
-- different; no effective priority is above that of an aged task.
pub record IsValid {ℓ} {T : Type ℓ} (q : TaskQueue T) : Type ℓ where
  pub heap : IsHeap compare_tasks q.queue
  pub bounded : length q.queue ≤ q.max_queue_size
  pub fresh : (x : PrioritizedTask T) → Mem x q.queue → x.order < q.order
  pub distinct : Nodup (orders q.queue)
  pub capped : (x : PrioritizedTask T) → Mem x q.queue → x.effective_priority ≤ℤ int_max

module _ {ℓ} {T : Type ℓ} where
  pub task_queue-IsValid : (n : ℕ) → IsValid (task_queue {T = T} n)
  unfolding task_queue
  task_queue-IsValid n = record {
    heap = λ c p x e. absurd (cc);
    bounded = omega arith;
    fresh = λ x m. absurd (not-mem-nil m);
    distinct = Nodup-nil;
    capped = λ x m. absurd (not-mem-nil m);
  }

  -- The flags are no part of the invariant.
  pub flags-IsValid :
      (q : TaskQueue T) (done abort : Bool)
      → IsValid q
      → IsValid (record q { done = done; abort = abort })
  flags-IsValid q done abort v = record {
    heap = v.heap;
    bounded = v.bounded;
    fresh = v.fresh;
    distinct = v.distinct;
    capped = v.capped;
  }

  -- A bound on every item of the queue is a bound on every item after aging.
  mem-age :
      {P : PrioritizedTask T → Type 0}
      → ((x : PrioritizedTask T) → IsProp (P x))
      → (now : ℕ) (xs : List (PrioritizedTask T))
      → ((x : PrioritizedTask T) → Mem x xs → P (age now x))
      → (y : PrioritizedTask T) → Mem y (map (age now) xs)
      → P y
  mem-age prop now xs h y m =
      ∥∥₁_elim (exists_of_mem-map m) (prop y) λ (x, here, e). rw (← e) (h x here)

  age-capped :
      (now : ℕ) (x : PrioritizedTask T)
      → x.effective_priority ≤ℤ int_max
      → (age now x).effective_priority ≤ℤ int_max
  age-capped now x h = ground arith

  -- One more item of the present order number.
  grown :
      {P : PrioritizedTask T → Type 0}
      → ((x : PrioritizedTask T) → IsProp (P x))
      → (xs : List (PrioritizedTask T)) (y : PrioritizedTask T)
      → ((x : PrioritizedTask T) → Mem x xs → P x)
      → P y
      → (x : PrioritizedTask T) → Mem x (y ∷ xs)
      → P x
  grown prop xs y h p x m = Or.elim (prop x) (eq-or-mem_of_mem-cons m) (λ e. rw e p) (h x)

  not-mem-orders :
      (n : ℕ) (xs : List (PrioritizedTask T))
      → ((x : PrioritizedTask T) → Mem x xs → x.order < n)
      → ¬ Mem n (orders xs)
  not-mem-orders n xs h m =
      ∥∥₁_elim (exists_of_mem-map m) ⊥_prop λ (x, here, e). lt_irrefl n (rw e at (h x here))

  module _ (heaps : HeapAlgorithms (PrioritizedTask T) compare_tasks) where
    pub push-IsValid :
        (now : ℕ) (task : T) (priority : ℤ) (q : TaskQueue T)
        → priority ≤ℤ int_max
        → q.order + 1 < size_mod
        → IsValid q
        → IsValid (push heaps now task priority q).1
    unfolding push
    push-IsValid now task priority q small room v =
        elim (Bool-cases (q.done || leb q.max_queue_size (length q.queue))) [
          | inl e ↦ rw e v
          | inr e ↦ rw e (record {
            heap = heaps.push_heap-IsHeap q.queue _ v.heap;
            bounded = ground (arith, length-perm same, length-append q.queue (item ∷ []));
            fresh = λ x m.
                grown {P = λ y. y.order < (q.order + 1) % size_mod} (λ y. le_prop) q.queue item
                  (λ y h. omega (arith, v.fresh y h)) (omega arith) x ((Perm.mem_iff same).0 m);
            distinct =
                Perm.nodup (Perm.symm (Perm.map _ same))
                  (Nodup-cons.1 (not-mem-orders q.order q.queue v.fresh, v.distinct));
            capped = λ x m.
                grown {P = λ y. y.effective_priority ≤ℤ int_max} (λ y. le_prop) q.queue item
                  v.capped small x ((Perm.mem_iff same).0 m);
          })
        ]
      where
        item : PrioritizedTask T
        item = record {
          priority = priority;
          order = q.order;
          task = task;
          added = now;
          effective_priority = priority;
        }

        same : Perm (heaps.push_heap (q.queue ++ item ∷ [])) (item ∷ q.queue)
        same = Perm.trans (heaps.push_heap-perm _) (perm_append_singleton item q.queue)

    -- What is left of the aged queue when an item is taken.
    pub Taken-IsValid :
        (now : ℕ) (q : TaskQueue T) (item : PrioritizedTask T) (rest : List (PrioritizedTask T))
        → IsValid q
        → Taken now q.queue item rest
        → IsValid (record q { queue = rest })
    Taken-IsValid now q item rest v t = record {
      heap = t.heap;
      bounded = omega (arith, length-perm t.split, length-age now q.queue, v.bounded);
      fresh = λ x m.
          mem-age {P = λ y. y.order < q.order} (λ y. le_prop) now q.queue
            (λ y h. rw (age-order now y) (v.fresh y h)) x
            ((Perm.mem_iff t.split).0 (mem-cons_of_mem item m));
      distinct =
          (Nodup-cons.0 (
            Perm.nodup (Perm.symm (Perm.map (λ x. x.order) t.split))
              (rw (orders-age now q.queue) v.distinct))).1;
      capped = λ x m.
          mem-age {P = λ y. y.effective_priority ≤ℤ int_max} (λ y. le_prop) now q.queue
            (λ y h. age-capped now y (v.capped y h)) x
            ((Perm.mem_iff t.split).0 (mem-cons_of_mem item m));
    }

    pub Taken-capped :
        (now : ℕ) (q : TaskQueue T) (item : PrioritizedTask T) (rest : List (PrioritizedTask T))
        → IsValid q
        → Taken now q.queue item rest
        → item.effective_priority ≤ℤ int_max
    Taken-capped now q item rest v t =
        mem-age {P = λ y. y.effective_priority ≤ℤ int_max} (λ y. le_prop) now q.queue
          (λ y h. age-capped now y (v.capped y h)) item ((Perm.mem_iff t.split).0 mem-cons_self)

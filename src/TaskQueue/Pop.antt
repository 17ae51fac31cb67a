-- ===== src/TaskQueue/Pop.antt =====
-- What `pop` takes: the first item in the order of `Compare`, after aging.
use mathlib.Core.List.Perm
use priority_http_server.Prelude.{
  ℕ, ◌<◌, ◌≡◌, refl, ap, true, false, List, [], ◌∷◌, map, some, none, inl, inr, ◌⊎◌, Mem, Perm,
  arith, length, length-perm, Bool-cases,
}
use priority_http_server.Heap.{HeapAlgorithms, IsHeap}
use priority_http_server.Heap.Root.{root_first}
use priority_http_server.TaskQueue.{
  PrioritizedTask, TaskQueue, PopOutcome, blocked, returned, compare_tasks, apply_aging, take_best,
  after_wait, ready, pop,
}
use priority_http_server.TaskQueue.Order.{compare_tasks_irreflexive, compare_tasks_weak_order}
use priority_http_server.TaskQueue.Lists.{
  age, apply_aging-perm, apply_aging-IsHeap, split_last-append, length-age,
}

-- The item that a call takes, and the queue that it leaves.
pub record Taken {ℓ} {T : Type ℓ} (now : ℕ) (xs : List (PrioritizedTask T))
    (item : PrioritizedTask T) (rest : List (PrioritizedTask T)) : Type ℓ where
  pub split : Perm (item ∷ rest) (map (age now) xs)
  pub heap : IsHeap compare_tasks rest
  pub first : (x : PrioritizedTask T) → Mem x (map (age now) xs) → compare_tasks item x ≡ false

-- How a call of `pop` can end: it waits, only on an empty queue that is open; it returns a null
-- pointer and changes nothing, only when aborted, or empty after `shutdown`; or it takes an item.
pub data PopEnds {ℓ} {T : Type ℓ} (now : ℕ) (q : TaskQueue T) : PopOutcome T → Type ℓ where
  waits : q.queue ≡ [] → q.done ≡ false → q.abort ≡ false → PopEnds now q blocked
  stops : (q.abort ≡ true) ⊎ ((q.queue ≡ []) × (q.done ≡ true)) → PopEnds now q (returned none q)
  takes :
      (item : PrioritizedTask T) (rest : List (PrioritizedTask T))
      → q.abort ≡ false
      → Taken now q.queue item rest
      → PopEnds now q (returned (some item.task) (record q { queue = rest }))

module _ {ℓ} {T : Type ℓ} (heaps : HeapAlgorithms (PrioritizedTask T) compare_tasks) where
  open heaps use {pop_heap}

  -- A heap with an element has a root, and `pop_heap` moves it to the end.
  pop_heap-Taken :
      (now : ℕ) (q : TaskQueue T) (ys : List (PrioritizedTask T))
      → apply_aging heaps now q.queue ≡ ys
      → IsHeap compare_tasks q.queue
      → 0 < length q.queue
      → (item : PrioritizedTask T) × (rest : List (PrioritizedTask T)) × (take_best heaps now q
          ≡ (some item.task, record q { queue = rest }))
        × Taken now q.queue item rest
  unfolding take_best
  pop_heap-Taken now q [] e h pos = absurd (
      omega (
        arith,
        length-perm (apply_aging-perm heaps now q.queue),
        ap length e,
        length-age now q.queue,
      ))
  pop_heap-Taken now q (x ∷ ys) e h pos =
      let heap = rw e at (apply_aging-IsHeap heaps now q.queue h) in
      let same = rw e at (apply_aging-perm heaps now q.queue) in
      let (rest, popped, rest_heap, perm) = heaps.pop_heap_lem x ys heap in
      let split = Perm.trans (Perm.cons x perm) same in
      (
        x,
        rest,
        rw (e, popped, split_last-append, take_best),
        record {
          split = split;
          heap = rest_heap;
          first = λ y m.
              root_first compare_tasks compare_tasks_irreflexive compare_tasks_weak_order x y ys
                heap ((Perm.mem_iff same).1 m);
        },
      )

  pub take_best-Taken :
      (now : ℕ) (q : TaskQueue T)
      → IsHeap compare_tasks q.queue
      → 0 < length q.queue
      → (item : PrioritizedTask T) × (rest : List (PrioritizedTask T)) × (take_best heaps now q
          ≡ (some item.task, record q { queue = rest }))
        × Taken now q.queue item rest
  take_best-Taken now q = pop_heap-Taken now q (apply_aging heaps now q.queue) refl

  -- On a queue that is a heap, holds a task and was not aborted, `pop` does not wait; it returns
  -- the task of an item that, after aging, is behind no other, and leaves a heap of the others.
  pub pop_takes_first :
      (now : ℕ) (q : TaskQueue T)
      → IsHeap compare_tasks q.queue
      → 0 < length q.queue
      → q.abort ≡ false
      → (item : PrioritizedTask T) × (rest : List (PrioritizedTask T)) × (pop heaps now q
          ≡ returned (some item.task) (record q { queue = rest }))
        × Taken now q.queue item rest
  unfolding pop after_wait ready
  pop_takes_first now q h pos e =
      let (item, rest, taken, t) = take_best-Taken now q h pos in
      (item, rest, ground (arith, taken), t)

  pop_waits :
      (now : ℕ) (q : TaskQueue T)
      → q.queue ≡ []
      → q.done ≡ false
      → q.abort ≡ false
      → pop heaps now q ≡ blocked
  unfolding pop after_wait ready
  pop_waits now q e d a = ground arith

  pop_stops :
      (now : ℕ) (q : TaskQueue T)
      → (q.abort ≡ true) ⊎ ((q.queue ≡ []) × (q.done ≡ true))
      → pop heaps now q ≡ returned none q
  unfolding pop after_wait ready
  pop_stops now q (inl a) = ground arith
  pop_stops now q (inr e) = ground arith

  pop-PopEnds_queue :
      (now : ℕ) (q : TaskQueue T) (xs : List (PrioritizedTask T))
      → q.queue ≡ xs
      → IsHeap compare_tasks q.queue
      → PopEnds now q (pop heaps now q)
  pop-PopEnds_queue now q [] e h = elim (Bool-cases q.abort) [
    | inl a ↦ rw (pop_stops now q (inl a)) (stops (inl a))
    | inr a ↦ elim (Bool-cases q.done) [
      | inl d ↦ rw (pop_stops now q (inr (e, d))) (stops (inr (e, d)))
      | inr d ↦ rw (pop_waits now q e d a) (waits e d a)
    ]
  ]
  pop-PopEnds_queue now q (x ∷ xs) e h = elim (Bool-cases q.abort) [
    | inl a ↦ rw (pop_stops now q (inl a)) (stops (inl a))
    | inr a ↦
        let (item, rest, eq, t) = pop_takes_first now q h (omega (arith, ap length e)) a in
        rw eq (takes item rest a t)
  ]

  -- On a queue that is a heap, every call of `pop` ends in one of the three ways, each under its
  -- condition: it waits on an empty open queue, returns a null pointer with the queue unchanged, or
  -- takes an item that is first in the order of `Compare` after aging.
  pub pop-PopEnds :
      (now : ℕ) (q : TaskQueue T) → IsHeap compare_tasks q.queue → PopEnds now q (pop heaps now q)
  pop-PopEnds now q = pop-PopEnds_queue now q q.queue refl

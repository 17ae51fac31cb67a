-- ===== src/TaskQueue/Lists.antt =====
-- `applyAging` seen as a map over the queue, and `back`/`pop_back` on a list with a known end.
use mathlib.Core.List.Perm
use priority_http_server.Prelude.{
  ℕ, ◌≡◌, refl, false, List, [], ◌∷◌, ◌++◌, map, inl, inr, some, Perm, arith, if◌then◌else◌, length,
  Bool-cases,
}
use priority_http_server.Heap.{HeapAlgorithms, IsHeap}
use priority_http_server.TaskQueue.{
  PrioritizedTask, compare_tasks, overdue, raised, age_loop, apply_aging, split_last,
}

module _ {ℓ} {T : Type ℓ} where
  -- One item after `applyAging`.
  abbrev pub age : ℕ → PrioritizedTask T → PrioritizedTask T
  age now item = if overdue now item then raised item else item

  pub age_loop-map :
      (now : ℕ) (items : List (PrioritizedTask T)) → (age_loop now items).0 ≡ map (age now) items
  unfolding age_loop
  age_loop-map now [] = refl
  age_loop-map now (x ∷ xs) = ground (arith, age_loop-map now xs)

  age_loop-unchanged :
      (now : ℕ) (items : List (PrioritizedTask T))
      → (age_loop now items).1 ≡ false
      → (age_loop now items).0 ≡ items
  unfolding age_loop
  age_loop-unchanged now [] h = refl
  age_loop-unchanged now (x ∷ xs) h = ground (arith, age_loop-unchanged now xs)

  pub age-order : (now : ℕ) (x : PrioritizedTask T) → (age now x).order ≡ x.order
  age-order now x = ground arith

  pub age-task : (now : ℕ) (x : PrioritizedTask T) → (age now x).task ≡ x.task
  age-task now x = ground arith

  pub age-added : (now : ℕ) (x : PrioritizedTask T) → (age now x).added ≡ x.added
  age-added now x = ground arith

  pub orders-age :
      (now : ℕ) (xs : List (PrioritizedTask T))
      → map (λ x. x.order) (map (age now) xs) ≡ map (λ x. x.order) xs
  orders-age now [] = refl
  orders-age now (x ∷ xs) = cc (age-order now x, orders-age now xs)

  pub tasks-age :
      (now : ℕ) (xs : List (PrioritizedTask T))
      → map (λ x. x.task) (map (age now) xs) ≡ map (λ x. x.task) xs
  tasks-age now [] = refl
  tasks-age now (x ∷ xs) = cc (age-task now x, tasks-age now xs)

  pub length-age : (now : ℕ) (xs : List (PrioritizedTask T)) → length (map (age now) xs) ≡ length xs
  length-age now [] = refl
  length-age now (x ∷ xs) = cc (length-age now xs)

  pub split_last-append :
      (xs : List (PrioritizedTask T)) (x : PrioritizedTask T)
      → split_last (xs ++ x ∷ []) ≡ some (xs, x)
  unfolding split_last
  split_last-append [] x = refl
  split_last-append (y ∷ xs) x = rw (split_last-append xs x)

  module _ (heaps : HeapAlgorithms (PrioritizedTask T) compare_tasks) where
    pub apply_aging-perm :
        (now : ℕ) (xs : List (PrioritizedTask T))
        → Perm (apply_aging heaps now xs) (map (age now) xs)
    unfolding apply_aging
    apply_aging-perm now xs = elim (Bool-cases (age_loop now xs).1) [
      | inl e ↦ rw (e, age_loop-map) (heaps.make_heap-perm _)
      | inr e ↦ rw (e, age_loop-map) Perm.rfl
    ]

    pub apply_aging-IsHeap :
        (now : ℕ) (xs : List (PrioritizedTask T))
        → IsHeap compare_tasks xs
        → IsHeap compare_tasks (apply_aging heaps now xs)
    unfolding apply_aging
    apply_aging-IsHeap now xs h = elim (Bool-cases (age_loop now xs).1) [
      | inl e ↦ rw e (heaps.make_heap-IsHeap _)
      | inr e ↦ rw (e, age_loop-unchanged now xs e) h
    ]

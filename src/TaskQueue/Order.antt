-- ===== src/TaskQueue/Order.antt =====
-- `Compare` is a strict weak order, by effective priority and then by age in the queue.
use priority_http_server.Prelude.{◌≤◌, ◌≡◌, true, false, arith}
use priority_http_server.Prelude.Int.{◌≤ℤ◌}
use priority_http_server.TaskQueue.{PrioritizedTask, compare_tasks}

module _ {ℓ} {T : Type ℓ} where
  pub compare_tasks_irreflexive : (x : PrioritizedTask T) → compare_tasks x x ≡ false
  unfolding compare_tasks
  compare_tasks_irreflexive x = ground arith

  pub compare_tasks_asymmetric :
      (x y : PrioritizedTask T) → compare_tasks x y ≡ true → compare_tasks y x ≡ false
  unfolding compare_tasks
  compare_tasks_asymmetric x y h = ground arith

  pub compare_tasks_weak_order :
      (x y z : PrioritizedTask T)
      → compare_tasks x y ≡ false
      → compare_tasks y z ≡ false
      → compare_tasks x z ≡ false
  unfolding compare_tasks
  compare_tasks_weak_order x y z h k = ground arith

  -- What it means that `x` is not behind `y`.
  pub compare_tasks-eq-false :
      (x y : PrioritizedTask T)
      → compare_tasks x y ≡ false
      → (y.effective_priority ≤ℤ x.effective_priority)
        × (x.effective_priority ≤ℤ y.effective_priority → x.order ≤ y.order)
  unfolding compare_tasks
  compare_tasks-eq-false x y h = ground arith

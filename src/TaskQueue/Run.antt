-- ===== src/TaskQueue/Run.antt =====
-- Histories of a queue: the calls that threads make on it, in the order in which they get the
-- mutex, with the tasks that came in and out.
use priority_http_server.Prelude.{
  ℕ, suc, ◌+◌, ◌≤◌, ◌<◌, ◌≡◌, refl, Bool, true, List, [], ◌∷◌, ◌++◌, some, none, arith,
  if◌then◌else◌,
}
use priority_http_server.Prelude.Int.{ℤ, ◌≤ℤ◌, int_max, size_mod}
use priority_http_server.Heap.{HeapAlgorithms}
use priority_http_server.TaskQueue.{
  PrioritizedTask, TaskQueue, PopOutcome, blocked, returned, compare_tasks, push, pop, shutdown,
  abort,
}
use priority_http_server.TaskQueue.Pop.{PopEnds, waits, stops, takes, pop-PopEnds}
use priority_http_server.TaskQueue.Invariant.{IsValid, flags-IsValid, push-IsValid, Taken-IsValid}

pub data Call {ℓ} (T : Type ℓ) : Type ℓ where
  pushes : ℕ → T → ℤ → Call T
  pops : ℕ → Call T
  shuts_down : Call T
  aborts : Call T

pub record History {ℓ} (T : Type ℓ) : Type ℓ where
  pub accepted : List T
  pub taken : List T
  pub final : TaskQueue T

module _ {ℓ} {T : Type ℓ} where
  abbrev pub pushed : T → Bool × TaskQueue T → History T
  pushed task (ok, q) = record { accepted = if ok then task ∷ [] else []; taken = []; final = q }

  -- A call of `pop` that waits leaves the mutex to the others, and is made again.
  abbrev pub popped : TaskQueue T → PopOutcome T → History T
  popped q blocked = record { accepted = []; taken = []; final = q }
  popped q (returned none q') = record { accepted = []; taken = []; final = q' }
  popped q (returned (some t) q') = record { accepted = []; taken = t ∷ []; final = q' }

  -- The bound on what is pushed: `priority` is an `int`.
  abbrev pub Fits : List (Call T) → Type 0
  Fits [] = Unit
  Fits (pushes now task priority ∷ calls) = (priority ≤ℤ int_max) × Fits calls
  Fits (pops now ∷ calls) = Fits calls
  Fits (shuts_down ∷ calls) = Fits calls
  Fits (aborts ∷ calls) = Fits calls

  abbrev pub push_count : List (Call T) → ℕ
  push_count [] = 0
  push_count (pushes now task priority ∷ calls) = suc (push_count calls)
  push_count (pops now ∷ calls) = push_count calls
  push_count (shuts_down ∷ calls) = push_count calls
  push_count (aborts ∷ calls) = push_count calls

  module _ (heaps : HeapAlgorithms (PrioritizedTask T) compare_tasks) where
    unfoldable pub step : Call T → TaskQueue T → History T
    step (pushes now task priority) q = pushed task (push heaps now task priority q)
    step (pops now) q = popped q (pop heaps now q)
    step shuts_down q = record { accepted = []; taken = []; final = shutdown q }
    step aborts q = record { accepted = []; taken = []; final = abort q }

    unfoldable pub run : List (Call T) → TaskQueue T → History T
    run [] q = record { accepted = []; taken = []; final = q }
    run (call ∷ calls) q =
        let first = step call q in
        let rest = run calls first.final in
        record {
          accepted = first.accepted ++ rest.accepted;
          taken = first.taken ++ rest.taken;
          final = rest.final;
        }

    pub popped-IsValid :
        (now : ℕ) (q : TaskQueue T) (r : PopOutcome T)
        → PopEnds now q r
        → IsValid q
        → IsValid (popped q r).final
    popped-IsValid now q _ (waits e d a) v = v
    popped-IsValid now q _ (stops s) v = v
    popped-IsValid now q _ (takes item rest a t) v = Taken-IsValid heaps now q item rest v t

    pub push-order :
        (now : ℕ) (task : T) (priority : ℤ) (q : TaskQueue T)
        → q.order + 1 < size_mod
        → (push heaps now task priority q).1.order ≤ q.order + 1
    unfolding push
    push-order now task priority q h = ground arith

    pub popped-order :
        (now : ℕ) (q : TaskQueue T) (r : PopOutcome T)
        → PopEnds now q r
        → (popped q r).final.order ≡ q.order
    popped-order now q _ (waits e d a) = refl
    popped-order now q _ (stops s) = refl
    popped-order now q _ (takes item rest a t) = refl

    -- Every history of pushes, pops, shutdowns and aborts keeps the invariant, as long as fewer
    -- than 2^64 tasks are pushed, with priorities that are ints: heap order, size limit, order
    -- numbers in use once.
    pub run-IsValid :
        (calls : List (Call T)) (q : TaskQueue T)
        → Fits calls
        → q.order + push_count calls < size_mod
        → IsValid q
        → IsValid (run calls q).final
    unfolding run step shutdown abort
    run-IsValid [] q f room v = v
    run-IsValid (pushes now task priority ∷ calls) q f room v =
        run-IsValid calls _ f.1 (omega (arith, push-order now task priority q))
          (push-IsValid heaps now task priority q f.0 (omega arith) v)
    run-IsValid (pops now ∷ calls) q f room v =
        let ends = pop-PopEnds heaps now q v.heap in
        run-IsValid calls _ f (omega (arith, popped-order now q _ ends))
          (popped-IsValid now q _ ends v)
    run-IsValid (shuts_down ∷ calls) q f room v =
        run-IsValid calls _ f room (flags-IsValid q true q.abort v)
    run-IsValid (aborts ∷ calls) q f room v =
        run-IsValid calls _ f room (flags-IsValid q q.done true v)

-- ===== src/TaskQueue/Refinement.antt =====
-- The task queue of src/thread_pool.cpp against `Line`, in whatever arrangement the heap algorithms
-- give to the queue.
use mathlib.Core.Logic.{∥∥₁_elim}
use mathlib.Core.HLevel.{×_prop}
use mathlib.Core.List.{mem-cons_self, map-append}
use mathlib.Core.List.Perm
use priority_http_server.Prelude.{
  ℕ, ◌+◌, ◌<◌, ◌≡◌, refl, sym, ap, ap₂, ◌∙◌, true, false, List, [], ◌∷◌, ◌++◌, ◌||◌, map, inl, inr,
  Perm, arith, leb, length, length-perm, Bool-cases, some,
}
use priority_http_server.Prelude.Int.{ℤ, size_mod}
use priority_http_server.Heap.{HeapAlgorithms}
use priority_http_server.TaskQueue.{
  PrioritizedTask, TaskQueue, PopOutcome, compare_tasks, push, pop, shutdown, abort,
}
use priority_http_server.TaskQueue.Lists.{age, orders-age, length-age}
use priority_http_server.TaskQueue.Pop.{Taken, PopEnds, waits, stops, takes, pop-PopEnds}
use priority_http_server.TaskQueue.Invariant.{IsValid, flags-IsValid, push-IsValid}
use priority_http_server.TaskQueue.Fairness.{same_item}
use priority_http_server.TaskQueue.Run.{
  Call, pushes, pops, shuts_down, aborts, Fits, push_count, push-order, popped-order,
  popped-IsValid,
}
use priority_http_server.TaskQueue.Line.{
  Line, Reply, gives, silent, first_best, line_pop, line_push, line_call, line_replies,
}
use priority_http_server.TaskQueue.Best.{
  item_rank, Rising, Rising-first_best, first_best-perm, first_best-first,
}
use priority_http_server.TaskQueue.Snapshot.{
  waiting, Holds, pop_reply, push_reply, answer, replies, Rising-age, Rising-append, same_order,
  pop_reply-popped, full_line, push_replies, empty_replies, aborted_replies, served_replies,
}

module _ {ℓ} {T : Type ℓ} where
  module _ (set : IsSet T) where
    -- `pop` takes the item that the line gives, and leaves the items that the line leaves.
    Taken-best :
        (now : ℕ) (q : TaskQueue T) (x item : PrioritizedTask T)
        (xs rest : List (PrioritizedTask T))
        → IsValid q
        → Perm q.queue (x ∷ xs)
        → Rising (x ∷ xs)
        → Taken now q.queue item rest
        → let (best, others) = first_best item_rank (age now x) (map (age now) xs) in
          (item.task ≡ best.task) × Perm rest others
    Taken-best now q x item xs rest v same rising t =
        let aged = Perm.map (age now) same in
        let whole = Perm.trans t.split aged in
        let (best, others) = first_best item_rank (age now x) (map (age now) xs) in
        let picked = first_best-perm (age now x) (map (age now) xs) in
        let best_in = (Perm.mem_iff (Perm.symm aged)).0 ((Perm.mem_iff picked).0 mem-cons_self) in
        let item_in = (Perm.mem_iff t.split).0 mem-cons_self in
        let orders_same = same_order item best (t.first best best_in) (
          first_best-first (age now x) (map (age now) xs) (Rising-age now (x ∷ xs) rising) item
            ((Perm.mem_iff aged).0 item_in)) in
        ∥∥₁_elim item_in (×_prop (set _ _) squash₁) λ here.
          ∥∥₁_elim best_in (×_prop (set _ _) squash₁) λ there.
            let e =
              same_item (map (age now) q.queue) item best (rw (orders-age now q.queue) v.distinct)
                here there orders_same in
            (ap (λ w. w.task) e, Perm.cons_inv (rw e at (Perm.trans whole (Perm.symm picked))))

    pub record Agrees (c : Reply T × TaskQueue T) (a : Reply T × Line T) : Type ℓ where
      pub reply : c.0 ≡ a.0
      pub holds : Holds c.1 a.1

    popped-Agrees :
        (now : ℕ) (q : TaskQueue T) (l : Line T) (r : PopOutcome T) (xs : List (PrioritizedTask T))
        → IsValid q
        → Holds q l
        → Perm q.queue xs
        → Rising xs
        → PopEnds now q r
        → Agrees (pop_reply q r) (line_pop now (map waiting xs) l)
    popped-Agrees now q l _ [] v h same rising (waits e d a) =
        rw (empty_replies now l false (ground (arith, h.closed, h.aborted, d, a)))
          (record { reply = refl; holds = h })
    popped-Agrees now q l _ [] v h same rising (stops s) =
        rw (empty_replies now l true (ground (arith, s, h.closed, h.aborted)))
          (record { reply = refl; holds = h })
    popped-Agrees now q l _ [] v h same rising (takes item rest a t) =
        absurd (omega (arith, length-perm t.split, length-age now q.queue, length-perm same))
    popped-Agrees now q l _ (x ∷ xs) v h same rising (waits e d a) =
        absurd (omega (arith, ap length e, length-perm same))
    popped-Agrees now q l _ (x ∷ xs) v h same rising (stops (inl a)) =
        rw (aborted_replies now (waiting x) (map waiting xs) l (sym h.aborted ∙ a))
          (record { reply = refl; holds = h })
    popped-Agrees now q l _ (x ∷ xs) v h same rising (stops (inr s)) =
        absurd (omega (arith, ap length s.0, length-perm same))
    popped-Agrees now q l _ (x ∷ xs) v h same rising (takes item rest a t) =
        let (best, others) = first_best item_rank (age now x) (map (age now) xs) in
        let taken = Taken-best now q x item xs rest v same rising t in
        rw (served_replies now x xs l (sym h.aborted ∙ a)) (record {
          reply = ap (λ y. gives (some y)) taken.0;
          holds = record {
            items = others;
            same = taken.1;
            rising =
                Rising-first_best (age now x) (map (age now) xs) (Rising-age now (x ∷ xs) rising);
            line = refl;
            closed = h.closed;
            aborted = h.aborted;
            limit = h.limit;
          };
        })

    module _ (heaps : HeapAlgorithms (PrioritizedTask T) compare_tasks) where
      push-Agrees :
          (now : ℕ) (task : T) (priority : ℤ) (q : TaskQueue T) (l : Line T)
          → IsValid q
          → Holds q l
          → Agrees (push_reply (push heaps now task priority q)) (line_push now task priority l)
      unfolding push
      push-Agrees now task priority q l v h =
          elim (Bool-cases (q.done || leb q.max_queue_size (length q.queue))) [
            | inl e ↦
                rw (e, push_replies now task priority l true (full_line q l h ∙ e))
                  (record { reply = refl; holds = h })
            | inr e ↦
                rw (e, push_replies now task priority l false (full_line q l h ∙ e))
                  (record {
                    reply = refl;
                    holds = record {
                      items = h.items ++ item ∷ [];
                      same = Perm.trans (heaps.push_heap-perm _) (Perm.append_right _ h.same);
                      rising =
                          Rising-append h.items item h.rising
                            λ y m. v.fresh y ((Perm.mem_iff h.same).1 m);
                      line = rw (map-append waiting h.items, h.line) refl;
                      closed = h.closed;
                      aborted = h.aborted;
                      limit = h.limit;
                    };
                  })
          ]
        where
          item : PrioritizedTask T
          item = record {
            priority = priority;
            order = q.order;
            task = task;
            added = now;
            effective_priority = priority;
          }

      -- The queue refines the line: where the tasks are a set, every sequence of calls gets from a
      -- valid queue, call by call, the replies that the line of its tasks gives (accepted or not, a
      -- wait, a null pointer, which task), as long as fewer than 2^64 tasks are pushed, with
      -- priorities that are ints. So no caller can tell how the heap is arranged.
      pub replies-eq-line_replies :
          (calls : List (Call T)) (q : TaskQueue T) (l : Line T)
          → Fits calls
          → q.order + push_count calls < size_mod
          → IsValid q
          → Holds q l
          → replies heaps calls q ≡ line_replies calls l
      unfolding replies answer line_replies line_call shutdown abort
      replies-eq-line_replies [] q l f room v h = refl
      replies-eq-line_replies (pushes now task priority ∷ calls) q l f room v h =
          let a = push-Agrees now task priority q l v h in
          ap₂ ◌∷◌ a.reply (
            replies-eq-line_replies calls _ _ f.1
              (omega (arith, push-order heaps now task priority q))
              (push-IsValid heaps now task priority q f.0 (omega arith) v) a.holds)
      replies-eq-line_replies (pops now ∷ calls) q l f room v h =
          let ends = pop-PopEnds heaps now q v.heap in
          let a = rw h.line at (popped-Agrees now q l _ h.items v h h.same h.rising ends) in
          ap₂ ◌∷◌ a.reply (
            replies-eq-line_replies calls _ _ f
              (rw (pop_reply-popped q (pop heaps now q), popped-order heaps now q _ ends) room)
              (rw (pop_reply-popped q (pop heaps now q)) (popped-IsValid heaps now q _ ends v))
              a.holds)
      replies-eq-line_replies (shuts_down ∷ calls) q l f room v h =
          ap (λ rs. silent ∷ rs)
            (replies-eq-line_replies calls _ _ f room (flags-IsValid q true q.abort v) (record {
              items = h.items;
              same = h.same;
              rising = h.rising;
              line = h.line;
              closed = refl;
              aborted = h.aborted;
              limit = h.limit;
            }))
      replies-eq-line_replies (aborts ∷ calls) q l f room v h =
          ap (λ rs. silent ∷ rs)
            (replies-eq-line_replies calls _ _ f room (flags-IsValid q q.done true v) (record {
              items = h.items;
              same = h.same;
              rising = h.rising;
              line = h.line;
              closed = h.closed;
              aborted = refl;
              limit = h.limit;
            }))

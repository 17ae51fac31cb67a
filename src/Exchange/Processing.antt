-- ===== src/Exchange/Processing.antt =====
-- How `process` (src/request_processor.cpp) leaves a request: queued, refused or answered.
use mathlib.Core.List.{append-nil, append_assoc, map-append, perm_middle, perm_append_singleton}
use mathlib.Core.List.Perm
use priority_http_server.Prelude.{
  ℕ, zero, suc, ◌≡◌, refl, true, false, List, [], ◌∷◌, ◌++◌, map, none, some, inl, inr, Perm, arith,
  Bool-cases, Option-cases,
}
use priority_http_server.Prelude.Int.{ℤ}
use priority_http_server.Heap.{HeapAlgorithms, IsHeap}
use priority_http_server.TaskQueue.{PrioritizedTask, TaskQueue, compare_tasks, push}
use priority_http_server.TaskQueue.Conservation.{tasks, push-Conserves}
use priority_http_server.ThreadPool.{ThreadPool, submit}
use priority_http_server.ThreadPool.Crew.Accounts.{running}
use priority_http_server.Http.{
  Http, Request, make_response, send_not_found, status_service_unavailable,
}
use priority_http_server.Prelude.Text.{codes}
use priority_http_server.Router.{RouterTable, route}
use priority_http_server.HttpTask.{HttpTask}
use priority_http_server.RequestProcessor.{Answer, sends, posts, process, is_compute}
use priority_http_server.Exchange.{Reply, Exchange, take_at, answered}

pub take_at-perm {ℓ} :
    {A : Type ℓ} (i : ℕ) (xs : List A) (y : A) (rest : List A)
    → take_at i xs ≡ some (y, rest)
    → Perm (y ∷ rest) xs
unfolding take_at
take_at-perm i [] y rest e = absurd (cc)
take_at-perm zero (x ∷ xs) y rest e =
    let same : (x ≡ y) × (xs ≡ rest) = ground (arith, e) in rw (same.0, same.1) Perm.rfl
take_at-perm (suc i) (x ∷ xs) y rest e = elim (Option-cases (take_at i xs)) [
  | inl n ↦ absurd (ground (arith, n, e))
  | inr ((z, others), f) ↦
      let same : (z ≡ y) × (x ∷ others ≡ rest) = ground (arith, e, f) in
      rw (← same.0, ← same.1)
        (Perm.trans (Perm.swap x z others) (Perm.cons x (take_at-perm i xs z others f)))
]

module _ (http : Http) where
  abbrev pub answered_tasks : List (Reply http) → List (HttpTask http)
  answered_tasks = map (λ r. r.task)

  -- The requests that have been received, each once.
  pub record Once (x : Exchange http) : Type 0 where
    pub heap : IsHeap compare_tasks x.crew.queue.queue
    pub same :
        Perm
          (answered_tasks x.sent
            ++ (answered_tasks x.posted ++ (running x.crew.threads ++ tasks x.crew.queue.queue)))
          x.received

  -- The response to a request that the pool refuses, and to one that is routed.
  abbrev pub refusal : http.Response
  refusal =
      make_response http status_service_unavailable (codes "503 Server overloaded")
        (codes "text/plain") http.fresh

  abbrev pub routed_response :
      RouterTable (Request http → http.Response → http.Response) → Request http → http.Response
  routed_response table req =
      http.prepare_payload (elim (route http (λ handle. handle) req http.fresh table) [
        | none ↦ send_not_found http http.fresh
        | some res ↦ res
      ])

  module _ (heaps : HeapAlgorithms (PrioritizedTask (HttpTask http)) compare_tasks)
      (table : RouterTable (Request http → http.Response → http.Response)) where
    -- How `process` can end: the request is queued, refused, or answered at once.
    pub data Processed (task : HttpTask http) (q : TaskQueue (HttpTask http))
        : ThreadPool (HttpTask http) × List (Answer http) → Type 0 where
      queued :
          (pool : ThreadPool (HttpTask http))
          → is_compute http heaps task.request ≡ true
          → IsHeap compare_tasks pool.queue.queue
          → Perm (tasks pool.queue.queue) (tasks q.queue ++ task ∷ [])
          → Processed task q (pool, [])
      refused :
          (pool : ThreadPool (HttpTask http))
          → is_compute http heaps task.request ≡ true
          → IsHeap compare_tasks pool.queue.queue
          → Perm (tasks pool.queue.queue) (tasks q.queue)
          → Processed task q (pool, posts refusal none ∷ [])
      routed :
          (pool : ThreadPool (HttpTask http))
          → is_compute http heaps task.request ≡ false
          → pool.queue ≡ q
          → Processed task q
              (pool, sends (routed_response table task.request) (some task.request) ∷ [])

    pub process-Processed :
        (now : ℕ) (task : HttpTask http) (priority : ℤ) (pool : ThreadPool (HttpTask http))
        → IsHeap compare_tasks pool.queue.queue
        → Processed task pool.queue
            (process http heaps now table task.request priority task.session pool)
    unfolding process submit
    process-Processed now task priority pool h =
        let kept = push-Conserves heaps now task priority pool.queue h in
        elim (Bool-cases (is_compute http heaps task.request)) [
          | inl c ↦ elim (Bool-cases (push heaps now task priority pool.queue).0) [
            | inl ok ↦ rw (c, ok) (queued _ c kept.heap (rw ok at kept.same))
            | inr full ↦ rw (c, full) (refused _ c kept.heap (rw (full, append-nil) at kept.same))
          ]
          | inr c ↦ rw c (routed pool c refl)
        ]

    -- One more task in the lists, and one more request.
    joins :
        (xs ys r : List (HttpTask http)) (t : HttpTask http)
        → Perm (xs ++ ys) r
        → Perm (xs ++ t ∷ ys) (r ++ t ∷ [])
    joins xs ys r t p =
        Perm.trans (perm_middle xs ys)
          (Perm.trans (Perm.cons t p) (Perm.symm (perm_append_singleton t r)))

    -- Sent, posted, running and queued tasks, with one more of the last, the second and the first.
    one_queued :
        (s p u q q' r : List (HttpTask http)) (t : HttpTask http)
        → Perm (s ++ (p ++ (u ++ q))) r
        → Perm q' (q ++ t ∷ [])
        → Perm (s ++ (p ++ (u ++ q'))) (r ++ t ∷ [])
    one_queued s p u q q' r t h k =
        Perm.trans (Perm.append_left s (Perm.append_left p (Perm.append_left u k)))
          (rw (← append_assoc u, ← append_assoc p, ← append_assoc s) (Perm.append_right (t ∷ []) h))

    one_posted :
        (s p u q q' r : List (HttpTask http)) (t : HttpTask http)
        → Perm (s ++ (p ++ (u ++ q))) r
        → Perm q' q
        → Perm (s ++ ((p ++ t ∷ []) ++ (u ++ q'))) (r ++ t ∷ [])
    one_posted s p u q q' r t h k =
        rw (append_assoc p, ← append_assoc s)
          (joins (s ++ p) (u ++ q') r t (
            rw append_assoc
              (Perm.trans (Perm.append_left s (Perm.append_left p (Perm.append_left u k))) h)))

    one_sent :
        (s rest r : List (HttpTask http)) (t : HttpTask http)
        → Perm (s ++ rest) r
        → Perm ((s ++ t ∷ []) ++ rest) (r ++ t ∷ [])
    one_sent s rest r t h = rw append_assoc (joins s rest r t h)

    pub received-Once :
        (task : HttpTask http) (x : Exchange http) (accepted : List (HttpTask http))
        (r : ThreadPool (HttpTask http) × List (Answer http))
        → Once x
        → Processed task x.crew.queue r
        → Once (
            answered http task r.1 (record x {
              crew = record x.crew { queue = r.0.queue; accepted = accepted };
              received = x.received ++ task ∷ [];
            }))
    received-Once task x accepted _ o (queued pool c heap k) = record {
      heap = heap;
      same =
          one_queued (answered_tasks x.sent) (answered_tasks x.posted) (running x.crew.threads) _ _
            _ task o.same k;
    }
    received-Once task x accepted _ o (refused pool c heap k) = record {
      heap = heap;
      same = rw map-append (
          one_posted (answered_tasks x.sent) (answered_tasks x.posted) (running x.crew.threads) _ _
            _ task o.same k);
    }
    received-Once task x accepted _ o (routed pool c e) = record {
      heap = rw e o.heap;
      same = rw (map-append, e) (one_sent (answered_tasks x.sent) _ _ task o.same);
    }

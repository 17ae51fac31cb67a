-- ===== src/Exchange/Answers.antt =====
-- Which response a request gets, on its way through the program.
use mathlib.Core.List.{append_assoc, perm_append_singleton}
use mathlib.Core.List.Perm
use priority_http_server.Prelude.{
  ℕ, zero, suc, ◌≡◌, true, false, List, [], ◌∷◌, ◌++◌, map, none, some, inl, inr, Perm, arith,
  Option-cases,
}
use priority_http_server.Heap.{HeapAlgorithms}
use priority_http_server.TaskQueue.{PrioritizedTask, compare_tasks, shutdown, abort}
use priority_http_server.TaskQueue.Conservation.{tasks}
use priority_http_server.ThreadPool.{ThreadPool}
use priority_http_server.ThreadPool.Crew.{crew, advance_at}
use priority_http_server.ThreadPool.Crew.Accounts.{running, running-started, advance_at-Moves}
use priority_http_server.Http.{Http, Request}
use priority_http_server.Router.{RouterTable}
use priority_http_server.HttpTask.{HttpTask, Compute}
use priority_http_server.RequestProcessor.{Answer, is_compute}
use priority_http_server.Exchange.{
  Reply, Exchange, Event, receives, resumes, runs_posted, shuts_down, aborts, take_at, answered,
  receive, resume, react, run,
}
use priority_http_server.Exchange.Processing.{
  Processed, queued, refused, routed, refusal, routed_response, Once, process-Processed,
}
use priority_http_server.Exchange.Once.{exchange, reply_of, execute_all-replies, react-Once}
use mathlib.Core.List.{
  not-mem-nil, mem-cons_self, mem-cons_of_mem, mem-append_left, mem-append_right,
  eq-or-mem_of_mem-cons,
}
use mathlib.Core.Logic.Or
use mathlib.Core.Bool.{Bool-set}
use priority_http_server.Prelude.{Mem}

module _ (http : Http) (heaps : HeapAlgorithms (PrioritizedTask (HttpTask http)) compare_tasks)
    (table : RouterTable (Request http → http.Response → http.Response))
    (compute : Compute http) where
  -- A compute request is answered with what the task makes of it, or refused; any other request is
  -- answered by its route.
  pub data IsAnswer : Reply http → Type 0 where
    computed :
        (t : HttpTask http)
        → is_compute http heaps t.request ≡ true
        → IsAnswer (reply_of http compute t)
    overloaded :
        (t : HttpTask http)
        → is_compute http heaps t.request ≡ true
        → IsAnswer (record { task = t; response = refusal http; request = none })
    by_route :
        (t : HttpTask http)
        → is_compute http heaps t.request ≡ false
        → IsAnswer (record {
          task = t;
          response = routed_response http table t.request;
          request = some t.request;
        })

  abbrev pub AllAnswers : List (Reply http) → Type 0
  AllAnswers [] = Unit
  AllAnswers (r ∷ rs) = IsAnswer r × AllAnswers rs

  -- The tasks of the pool are those of compute requests.
  abbrev pub OnlyCompute : List (HttpTask http) → Type 0
  OnlyCompute ts = (t : HttpTask http) → Mem t ts → is_compute http heaps t.request ≡ true

  pub record Answers (x : Exchange http) : Type 0 where
    pub sent : AllAnswers x.sent
    pub posted : AllAnswers x.posted
    pub in_pool : OnlyCompute (running x.crew.threads ++ tasks x.crew.queue.queue)

  pub exchange-Answers :
      (pool : ThreadPool (HttpTask http)) → pool.queue.queue ≡ [] → Answers (exchange http pool)
  unfolding exchange crew
  exchange-Answers pool e = record {
    sent = tt;
    posted = tt;
    in_pool = λ t m. absurd (not-mem-nil (rw (running-started pool.workers, e) at m));
  }

  AllAnswers-append :
      (rs ss : List (Reply http)) → AllAnswers rs → AllAnswers ss → AllAnswers (rs ++ ss)
  AllAnswers-append [] ss h k = k
  AllAnswers-append (r ∷ rs) ss h k = (h.0, AllAnswers-append rs ss h.1 k)

  AllAnswers-take_at :
      (i : ℕ) (rs : List (Reply http)) (r : Reply http) (rest : List (Reply http))
      → take_at i rs ≡ some (r, rest)
      → AllAnswers rs
      → AllAnswers (r ∷ rest)
  unfolding take_at
  AllAnswers-take_at i [] r rest e h = absurd (cc)
  AllAnswers-take_at zero (x ∷ rs) r rest e h =
      let same : (x ≡ r) × (rs ≡ rest) = ground (arith, e) in rw (← same.0, ← same.1) h
  AllAnswers-take_at (suc i) (x ∷ rs) r rest e h = elim (Option-cases (take_at i rs)) [
    | inl n ↦ absurd (ground (arith, n, e))
    | inr ((z, others), f) ↦
        let same : (z ≡ r) × (x ∷ others ≡ rest) = ground (arith, e, f) in
        let later = AllAnswers-take_at i rs z others f h.1 in
        rw (← same.0, ← same.1) (later.0, (h.0, later.1))
  ]

  replies-AllAnswers :
      (ts : List (HttpTask http)) → OnlyCompute ts → AllAnswers (map (reply_of http compute) ts)
  replies-AllAnswers [] h = tt
  replies-AllAnswers (t ∷ ts) h =
      (computed t (h t mem-cons_self), replies-AllAnswers ts λ u m. h u (mem-cons_of_mem t m))

  OnlyCompute-perm : (ts us : List (HttpTask http)) → Perm ts us → OnlyCompute us → OnlyCompute ts
  OnlyCompute-perm ts us p h t m = h t ((Perm.mem_iff p).0 m)

  OnlyCompute-cons :
      (t : HttpTask http) (ts : List (HttpTask http))
      → is_compute http heaps t.request ≡ true
      → OnlyCompute ts
      → OnlyCompute (t ∷ ts)
  OnlyCompute-cons t ts c h u m =
      Or.elim (Bool-set _ _) (eq-or-mem_of_mem-cons m) (λ e. rw e c) (h u)

  received-Answers :
      (task : HttpTask http) (x : Exchange http) (accepted : List (HttpTask http))
      (r : ThreadPool (HttpTask http) × List (Answer http))
      → Answers x
      → Processed http heaps table task x.crew.queue r
      → Answers (
          answered http task r.1 (record x {
            crew = record x.crew { queue = r.0.queue; accepted = accepted };
            received = x.received ++ task ∷ [];
          }))
  received-Answers task x accepted _ a (queued pool c heap k) = record {
    sent = a.sent;
    posted = a.posted;
    in_pool =
        OnlyCompute-perm _ _
          (Perm.trans (Perm.append_left (running x.crew.threads) k)
            (rw (← append_assoc (running x.crew.threads)) (perm_append_singleton task _)))
          (OnlyCompute-cons task _ c a.in_pool);
  }
  received-Answers task x accepted _ a (refused pool c heap k) = record {
    sent = a.sent;
    posted = AllAnswers-append x.posted _ a.posted (overloaded task c, tt);
    in_pool = OnlyCompute-perm _ _ (Perm.append_left (running x.crew.threads) k) a.in_pool;
  }
  received-Answers task x accepted _ a (routed pool c e) = record {
    sent = AllAnswers-append x.sent _ a.sent (by_route task c, tt);
    posted = a.posted;
    in_pool = rw e a.in_pool;
  }

  react-Answers :
      (e : Event http) (x : Exchange http)
      → Once http x
      → Answers x
      → Answers (react http heaps table compute e x)
  unfolding react receive resume shutdown abort
  react-Answers (receives now task priority) x o a = received-Answers task x _ _ a (
      process-Processed http heaps table now task priority
        (record { queue = x.crew.queue; workers = [] }) o.heap)
  react-Answers (resumes i now) x o a =
      let m = advance_at-Moves heaps i now x.crew.queue x.crew.threads o.heap in
      let moved = OnlyCompute-perm _ _ m.same a.in_pool in
      let ended = (advance_at heaps i now x.crew.queue x.crew.threads).ended in
      record {
        sent = a.sent;
        posted = AllAnswers-append x.posted _ a.posted (
            rw execute_all-replies (replies-AllAnswers ended λ t k. moved t (mem-append_left _ k)));
        in_pool = λ t k. moved t (mem-append_right ended k);
      }
  react-Answers (runs_posted i) x o a = elim (Option-cases (take_at i x.posted)) [
    | inl n ↦ rw n a
    | inr ((r, rest), e) ↦
        let split = AllAnswers-take_at i x.posted r rest e a.posted in
        rw e (record {
          sent = AllAnswers-append x.sent _ a.sent (split.0, tt);
          posted = split.1;
          in_pool = a.in_pool;
        })
  ]
  react-Answers shuts_down x o a = record { sent = a.sent; posted = a.posted; in_pool = a.in_pool }
  react-Answers aborts x o a = record { sent = a.sent; posted = a.posted; in_pool = a.in_pool }

  -- Every response that was sent or waits to be sent is the right one, for its own request and
  -- session: what the task of a compute request made of it (500 where the computation throws), 503
  -- for a compute request that the pool refused, the answer of the route, or 404, for any other; if
  -- that holds at the start, where only compute requests are in the pool.
  pub run-Answers :
      (es : List (Event http)) (x : Exchange http)
      → Once http x
      → Answers x
      → Answers (run http heaps table compute es x)
  unfolding run
  run-Answers [] x o a = a
  run-Answers (e ∷ es) x o a =
      run-Answers es (react http heaps table compute e x)
        (react-Once http heaps table compute e x o) (react-Answers e x o a)

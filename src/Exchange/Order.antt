-- ===== src/Exchange/Order.antt =====
-- In which order the requests of one session are answered, on their way through the program: what the
-- session has asked and got (src/request_processor.cpp, src/thread_pool.cpp).
use mathlib.Core.List.{
  filter_map, filter_map-append, map-append, append-nil, append_assoc, not-mem-nil, mem-cons_self,
  eq-or-mem_of_mem-cons, perm-append_left_iff,
}
use mathlib.Core.List.Perm
use mathlib.Core.Logic.Or
use priority_http_server.Prelude.{
  ℕ, ◌+◌, ◌≡◌, refl, ◌⊎◌, ◌==◌, true, false, List, [], ◌∷◌, ◌++◌, none, some, inl, inr, Perm, arith,
  Option-cases, Bool-cases, Option, if◌then◌else◌, length, length-append, length-perm, ◌∙◌, ap,
}
use priority_http_server.Heap.{HeapAlgorithms}
use priority_http_server.TaskQueue.{PrioritizedTask, compare_tasks}
use priority_http_server.ThreadPool.{ThreadPool}
use priority_http_server.Http.{Http, Request}
use priority_http_server.Router.{RouterTable}
use priority_http_server.HttpTask.{HttpTask, Compute}
use priority_http_server.RequestProcessor.{Answer}
use priority_http_server.Exchange.{
  Exchange, Event, receives, resumes, runs_posted, shuts_down, aborts, take_at, answered, receive,
  resume, react,
}
use priority_http_server.Exchange.Processing.{
  Processed, queued, refused, routed, Once, process-Processed, answered_tasks,
}
use priority_http_server.Exchange.Once.{react-Once}

-- A list that has one element, in any order.
perm_one {ℓ} :
    {B : Type ℓ} (set : IsSet B) (a : B) (rest : List B) (b : B) → Perm (a ∷ rest) (b ∷ []) → a ≡ b
perm_one set a rest b p =
    Or.elim (set a b) (eq-or-mem_of_mem-cons ((Perm.mem_iff p).0 mem-cons_self)) (λ e. e)
      (λ m. absurd (not-mem-nil m))

-- `observe` is what is seen of a request, `s` the session that is looked at.
module _ (http : Http) {B : Type 0} (set : IsSet B) (observe : HttpTask http → B) (s : ℕ) where
  abbrev pick : HttpTask http → Option B
  pick task = if task.session == s then some (observe task) else none

  -- The requests of the session.
  abbrev pub seen : List (HttpTask http) → List B
  seen = filter_map pick

  abbrev pub asked : Exchange http → List B
  asked x = seen x.received

  abbrev pub got : Exchange http → List B
  got x = seen (answered_tasks http x.sent)

  -- The session has got the answers to its requests, in their order, but for the last at most.
  abbrev pub InOrder : Exchange http → Type 0
  InOrder x = (asked x ≡ got x) ⊎ ((last : B) × (asked x ≡ got x ++ last ∷ []))

  pub seen-mine :
      (ts : List (HttpTask http)) (t : HttpTask http)
      → (t.session == s) ≡ true
      → seen (ts ++ t ∷ []) ≡ seen ts ++ observe t ∷ []
  unfolding filter_map
  seen-mine ts t h = filter_map-append pick ts (t ∷ []) ∙ rw h refl

  pub seen-other :
      (ts : List (HttpTask http)) (t : HttpTask http)
      → (t.session == s) ≡ false
      → seen (ts ++ t ∷ []) ≡ seen ts
  unfolding filter_map
  seen-other ts t h = filter_map-append pick ts (t ∷ []) ∙ rw h (append-nil (seen ts))

  pub InOrder-length :
      (x : Exchange http)
      → InOrder x
      → (length (asked x) ≡ length (got x)) ⊎ (length (asked x) ≡ length (got x) + 1)
  InOrder-length x (inl e) = inl (ap length e)
  InOrder-length x (inr (b, e)) = inr (ap length e ∙ length-append (got x) (b ∷ []))

  -- No request of the session is open if as many were answered as received.
  none_open : (x : Exchange http) → InOrder x → length (asked x) ≡ length (got x) → asked x ≡ got x
  none_open x (inl e) h = e
  none_open x (inr (b, e)) h =
      absurd (omega (arith, h, ap length e, length-append (got x) (b ∷ [])))

  -- The response that is handed over next is to the open request.
  sent-InOrder :
      (x : Exchange http) (t : HttpTask http) (rest : List (HttpTask http))
      → Perm ((answered_tasks http x.sent ++ t ∷ []) ++ rest) x.received
      → InOrder x
      → (t.session == s) ≡ true
      → asked x ≡ got x ++ observe t ∷ []
  sent-InOrder x t rest p o h =
      let q : Perm (got x ++ observe t ∷ seen rest) (asked x) =
        rw (filter_map-append, seen-mine (answered_tasks http x.sent) t h, append_assoc (got x)) at
          (Perm.filter_map pick p) in
      elim o [
        | inl e ↦ absurd (
            omega
              (arith, length-perm q, ap length e, length-append (got x) (observe t ∷ seen rest)))
        | inr (b, e) ↦
            let one = (perm-append_left_iff (got x)).0 (rw e at q) in
            rw (perm_one set (observe t) (seen rest) b one) e
      ]

  -- A request that is not answered at once.
  opened-InOrder :
      (x : Exchange http) (task : HttpTask http)
      → InOrder x
      → ((task.session == s) ≡ true → length (asked x) ≡ length (got x))
      → InOrder (record x { received = x.received ++ task ∷ [] })
  opened-InOrder x task o idle = elim (Bool-cases (task.session == s)) [
    | inl h ↦ inr (observe task, rw (seen-mine x.received task h, none_open x o (idle h)) refl)
    | inr h ↦ rw (seen-other x.received task h) o
  ]

  module _ (heaps : HeapAlgorithms (PrioritizedTask (HttpTask http)) compare_tasks)
      (table : RouterTable (Request http → http.Response → http.Response))
      (compute : Compute http) where
    received-InOrder :
        (task : HttpTask http) (x : Exchange http) (accepted : List (HttpTask http))
        (r : ThreadPool (HttpTask http) × List (Answer http))
        → InOrder x
        → ((task.session == s) ≡ true → length (asked x) ≡ length (got x))
        → Processed http heaps table task x.crew.queue r
        → InOrder (
            answered http task r.1 (record x {
              crew = record x.crew { queue = r.0.queue; accepted = accepted };
              received = x.received ++ task ∷ [];
            }))
    received-InOrder task x accepted _ o idle (queued pool c heap k) = opened-InOrder x task o idle
    received-InOrder task x accepted _ o idle (refused pool c heap k) = opened-InOrder x task o idle
    received-InOrder task x accepted _ o idle (routed pool c e) =
        let sent = answered_tasks http x.sent in
        elim (Bool-cases (task.session == s)) [
          | inl h ↦ inl (
              rw
                (
                  map-append,
                  seen-mine x.received task h,
                  seen-mine sent task h,
                  none_open x o (idle h),
                )
                refl)
          | inr h ↦ rw (map-append, seen-other x.received task h, seen-other sent task h) o
        ]

    posted-InOrder :
        (x : Exchange http) (i : ℕ)
        → Once http (react http heaps table compute (runs_posted i) x)
        → InOrder x
        → InOrder (react http heaps table compute (runs_posted i) x)
    unfolding react
    posted-InOrder x i after o = elim (Option-cases (take_at i x.posted)) [
      | inl n ↦ rw n o
      | inr ((r, rest), e) ↦
          let sent = answered_tasks http x.sent in
          rw (e, map-append)
            (elim (Bool-cases (r.task.session == s)) [
              | inl h ↦ inl (
                  rw (seen-mine sent r.task h)
                    (sent-InOrder x r.task _ (rw (e, map-append) at after.same) o h))
              | inr h ↦ rw (seen-other sent r.task h) o
            ])
    ]

    -- The session gives a request only when it has got all answers.
    abbrev pub Waits : Event http → Exchange http → Type 0
    Waits (receives now task priority) x =
        (task.session == s) ≡ true → length (asked x) ≡ length (got x)
    Waits _ x = Unit

    pub react-InOrder :
        (e : Event http) (x : Exchange http)
        → Once http x
        → InOrder x
        → Waits e x
        → InOrder (react http heaps table compute e x)
    unfolding react receive resume
    react-InOrder (receives now task priority) x once o idle = received-InOrder task x _ _ o idle (
        process-Processed http heaps table now task priority
          (record { queue = x.crew.queue; workers = [] }) once.heap)
    react-InOrder (resumes i now) x once o w = o
    react-InOrder (runs_posted i) x once o w =
        posted-InOrder x i (react-Once http heaps table compute (runs_posted i) x once) o
    react-InOrder shuts_down x once o w = o
    react-InOrder aborts x once o w = o

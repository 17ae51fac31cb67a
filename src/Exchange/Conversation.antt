-- ===== src/Exchange/Conversation.antt =====
-- A session (src/session.cpp) in conversation with the program: it reads a request, which goes its way
-- through `RequestProcessor::process` and the pool, and `HttpServer::sendResponse` (src/server.cpp)
-- gives it the response, among requests of other sessions. What `sendResponse` dispatches to the
-- strand of the session runs in the same step.
use mathlib.Core.List.{filter_map}
use priority_http_server.Prelude.{
  ℕ, ◌+◌, ◌<◌, ◌≡◌, refl, ◌==◌, Bool, true, List, [], ◌∷◌, ◌++◌, some, inl, inr, arith, Bool-cases,
  if◌then◌else◌, length, ◌∙◌, ap, count_if, sym, ◌≤◌,
}
use priority_http_server.Prelude.Int.{ℤ}
use priority_http_server.Prelude.Text.{Text}
use priority_http_server.Heap.{HeapAlgorithms}
use priority_http_server.TaskQueue.{PrioritizedTask, compare_tasks}
use priority_http_server.ThreadPool.{ThreadPool}
use priority_http_server.Http.{Http, Request}
use priority_http_server.Router.{RouterTable}
use priority_http_server.HttpTask.{HttpTask, Compute}
use priority_http_server.Session.{Session, Effect, read_request, send_response}
use priority_http_server.Session.Requests.{
  Phase, starting, reading, processing, writing, idle, Connection, connection, after, Move,
  TakesTurns, open_requests, Move-TakesTurns, read_request_serves, next_phase,
}
use priority_http_server.Server
use priority_http_server.Exchange.{Reply, Exchange, Event, receives, react}
use priority_http_server.Exchange.Processing.{Once, answered_tasks}
use priority_http_server.Exchange.Once.{exchange, exchange-Once, react-Once}
use priority_http_server.Exchange.Order.{
  InOrder, asked, got, seen, react-InOrder, InOrder-length, Waits,
}
use priority_http_server.Exchange.Turns.{
  Elsewhere, Elsewhere-Waits, got-append, asked_kept, asked-mine,
}

pub record Conversation (http : Http) : Type 0 where
  pub exchange : Exchange http
  pub connection : Connection

module _ (http : Http) (server_name origin : Text) (enable : Bool) (s : ℕ) where
  -- `HttpServer::sendResponse`, and what it makes the session do, whatever it is doing.
  abbrev pub hand_over : Reply http → Connection → Connection
  hand_over r c =
      let (response, keep) =
        Server.send_response http server_name origin enable r.request r.response in
      record (after http idle c (send_response http response keep c.session)) {
        answered = c.answered + 1;
      }

  -- The responses that the server gives out; the session gets its own.
  abbrev pub hand_all : List (Reply http) → Connection → Connection
  hand_all [] c = c
  hand_all (r ∷ rs) c =
      let mine = hand_all rs (hand_over r c) in
      let other = hand_all rs c in if r.task.session == s then mine else other

  module _ (heaps : HeapAlgorithms (PrioritizedTask (HttpTask http)) compare_tasks)
      (table : RouterTable (Request http → http.Response → http.Response))
      (compute : Compute http) where
    -- The program goes on elsewhere, the session gives a request to `process`, or one of its other
    -- handlers runs. `given` is what the step hands to `sendResponse`.
    pub data Step (w : Conversation http) : Conversation http → Type 0 where
      elsewhere :
          (e : Event http) (given : List (Reply http))
          → Elsewhere http s e
          → (react http heaps table compute e w.exchange).sent ≡ w.exchange.sent ++ given
          → Step w (record {
            exchange = react http heaps table compute e w.exchange;
            connection = hand_all given w.connection;
          })
      asks :
          (now rate counter counter' : ℕ) (task : HttpTask http) (priority : ℤ) (s' : Session)
          (effects : List (Effect http)) (given : List (Reply http))
          → (task.session == s) ≡ true
          → w.connection.phase ≡ reading
          → read_request http rate counter task.request w.connection.session
            ≡ some (s', counter', effects)
          → (react http heaps table compute (receives now task priority) w.exchange).sent
            ≡ w.exchange.sent ++ given
          → Step w (record {
            exchange = react http heaps table compute (receives now task priority) w.exchange;
            connection = hand_all given (after http idle w.connection (s', effects));
          })
      handles :
          (d : Connection)
          → Move http w.connection d
          → d.processed ≡ w.connection.processed
          → d.answered ≡ w.connection.answered
          → Step w (record w { connection = d })

    pub data Reach (w : Conversation http) : Conversation http → Type 0 where
      here : Reach w w
      next : {v u : Conversation http} → Reach w v → Step v u → Reach w u

    module _ {B : Type 0} (set : IsSet B) (observe : HttpTask http → B) where
      abbrev mine : List (Reply http) → ℕ
      mine rs = length (seen http set observe s (answered_tasks http rs))

      -- What responses do to a connection.
      record Handed (c d : Connection) (n : ℕ) : Type 0 where
        processed : d.processed ≡ c.processed
        answered : d.answered ≡ c.answered + n
        same : n ≡ 0 → d.phase ≡ c.phase
        closed : 0 < n → open_requests http d.phase ≡ 0

      hand_over-phase :
          (r : Reply http) (c : Connection)
          → (open_requests http (hand_over r c).phase ≡ 0)
            × ((hand_over r c).processed ≡ c.processed)
      unfolding send_response next_phase count_if
      hand_over-phase r c = ground arith

      hand_all-Handed :
          (rs : List (Reply http)) (c : Connection) → Handed c (hand_all rs c) (mine rs)
      unfolding filter_map
      hand_all-Handed [] c = record {
        processed = refl;
        answered = omega arith;
        same = λ h. refl;
        closed = λ h. absurd (omega (arith, h));
      }
      hand_all-Handed (r ∷ rs) c = elim (Bool-cases (r.task.session == s)) [
        | inl e ↦
            let h = hand_all-Handed rs (hand_over r c) in
            let p = hand_over-phase r c in
            rw e (record {
              processed = h.processed ∙ p.1;
              answered = omega (arith, h.answered);
              same = λ n. absurd (omega (arith, n));
              closed = λ n. elim (Bool-cases (mine rs == 0)) [
                | inl z ↦ ap (open_requests http) (h.same (ground (arith, z))) ∙ p.0
                | inr z ↦ h.closed (ground (arith, z))
              ];
            })
        | inr e ↦
            let h = hand_all-Handed rs c in
            rw e (record {
              processed = h.processed;
              answered = h.answered;
              same = h.same;
              closed = h.closed;
            })
      ]

      open-le : (p : Phase) → open_requests http p ≤ 1
      open-le starting = omega arith
      open-le reading = omega arith
      open-le processing = omega arith
      open-le writing = omega arith
      open-le idle = omega arith

      -- What the session and the program know of each other.
      record Tied (w : Conversation http) : Type 0 where
        once : Once http w.exchange
        order : InOrder http set observe s w.exchange
        turns : TakesTurns http w.connection
        asked_same : length (asked http set observe s w.exchange) ≡ w.connection.processed
        got_same : length (got http set observe s w.exchange) ≡ w.connection.answered

      -- A step of the program and what it hands to the session.
      stepped :
          (w : Conversation http) (e : Event http) (given : List (Reply http)) (own : Connection)
          → Tied w
          → Waits http set observe s heaps table compute e w.exchange
          → (react http heaps table compute e w.exchange).sent ≡ w.exchange.sent ++ given
          → length (asked http set observe s (react http heaps table compute e w.exchange))
            ≡ own.processed
          → own.answered ≡ w.connection.answered
          → TakesTurns http own
          → Tied (record {
            exchange = react http heaps table compute e w.exchange;
            connection = hand_all given own;
          })
      stepped w e given own t waits sent count same turns =
          let x = react http heaps table compute e w.exchange in
          let order =
            react-InOrder http set observe s heaps table compute e w.exchange t.once t.order
              waits in
          let h = hand_all-Handed given own in
          let more = got-append http s set observe heaps table compute w.exchange x given sent in
          let between = InOrder-length http set observe s x order in
          record {
            once = react-Once http heaps table compute e w.exchange t.once;
            order = order;
            turns = elim (Bool-cases (mine given == 0)) [
              | inl z ↦
                  let none_given : mine given ≡ 0 = ground (arith, z) in
                  omega (
                    arith,
                    h.processed,
                    h.answered,
                    none_given,
                    ap (open_requests http) (h.same none_given),
                    turns,
                  )
              | inr z ↦
                  let some_given : 0 < mine given = ground (arith, z) in
                  ground (
                    arith,
                    h.processed,
                    h.answered,
                    some_given,
                    h.closed some_given,
                    turns,
                    open-le own.phase,
                    between,
                    more,
                    count,
                    same,
                    t.got_same,
                  )
            ];
            asked_same = count ∙ sym h.processed;
            got_same = omega (arith, more, t.got_same, h.answered, same);
          }

      Step-Tied : {w v : Conversation http} → Tied w → Step w v → Tied v
      Step-Tied {w} t (elsewhere e given other sent) =
          stepped w e given w.connection t
            (Elsewhere-Waits http s set observe heaps table compute e w.exchange other) sent
            (ap length (asked_kept http s set observe heaps table compute e w.exchange other)
              ∙ t.asked_same)
            refl t.turns
      Step-Tied {w} t
            (asks now rate counter counter' task priority s' effects given own reads r sent) =
          let serves =
            read_request_serves http rate counter counter' task.request w.connection.session s'
              effects r in
          let idle_before : w.connection.processed ≡ w.connection.answered =
            ground (arith, t.turns, reads) in
          stepped w (receives now task priority) given (after http idle w.connection (s', effects))
            t (λ m. omega (arith, t.asked_same, t.got_same, idle_before)) sent
            (omega (
              arith,
              asked-mine http s set observe heaps table compute now task priority w.exchange own,
              t.asked_same,
              serves.2,
            ))
            refl (ground (arith, serves.0, serves.2, idle_before))
      Step-Tied {w} t (handles d m p a) = record {
        once = t.once;
        order = t.order;
        turns = Move-TakesTurns http t.turns m;
        asked_same = t.asked_same ∙ sym p;
        got_same = t.got_same ∙ sym a;
      }

      Reach-Tied : {w v : Conversation http} → Tied w → Reach w v → Tied v
      Reach-Tied t here = t
      Reach-Tied t (next r m) = Step-Tied (Reach-Tied t r) m

      -- A session gets the answers to its requests in the order in which it asked, and at most the
      -- last one is open, whatever the priorities, the other sessions, the threads of the pool, the
      -- functions posted to the I/O context, a shutdown or an abort do. The program starts with an
      -- empty queue, and the session with its connection. What is observed of a request is in a set.
      pub conversation-InOrder :
          (pool : ThreadPool (HttpTask http)) (timeout : ℤ) (max : ℕ) (keep_alive : Bool)
          (w : Conversation http)
          → pool.queue.queue ≡ []
          → Reach
              (record {
                exchange = exchange http pool;
                connection = connection http timeout max keep_alive;
              })
              w
          → InOrder http set observe s w.exchange
      unfolding exchange connection filter_map
      conversation-InOrder pool timeout max keep_alive w empty r =
          let start : Conversation http = record {
            exchange = exchange http pool;
            connection = connection http timeout max keep_alive;
          } in
          let tied : Tied start = record {
            once = exchange-Once http pool empty;
            order = inl refl;
            turns = refl;
            asked_same = refl;
            got_same = refl;
          } in
          (Reach-Tied tied r).order

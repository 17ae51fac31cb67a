-- ===== src/Server/Limit/Threads.antt =====
-- The limit on the connections with several threads in `m_ioc.run()` (src/server.cpp): the handler of
-- an accept calls `doAccept` first and counts its session later, and in between other threads may
-- run the handlers of further accepts. `startAcceptorLoop` starts `io_threads` of these threads, at
-- least one, and `run` is one more.
pub mod Crowd
use priority_http_server.Prelude.{
  ℕ, zero, suc, ◌+◌, ◌-◌, ◌≤◌, ◌<◌, ◌≡◌, ◌≢◌, refl, sym, ap, ◌∙◌, false, arith, if◌then◌else◌, ◌==◌,
}
use priority_http_server.Prelude.Int.{ℤ, size_mod}
use priority_http_server.Server.{
  HttpServer, operation_aborted, accept_error, AcceptResult, accepted, http_server, end_session,
  insert_session, do_accept, on_accept, on_reject, begin_drain,
}
use priority_http_server.Server.Limit.{
  Waits, nothing, a_session, a_rejection, Acceptor, armed, first_accept, after, armed_below_limit,
  insert_session-count, end_session-count,
}

-- `inside` handlers have called `doAccept` and have not yet counted their session.
pub record Acceptors : Type 0 where
  pub acceptor : Acceptor
  pub inside : ℕ

pub data Move (threads max : ℕ) (a : Acceptors) : Acceptors → Type 0 where
  arrives :
      a.acceptor.waits ≡ a_session
      → a.inside < threads
      → Move threads max a (record {
        acceptor = record a.acceptor { waits = armed (do_accept max a.acceptor.server) };
        inside = a.inside + 1;
      })
  counts :
      (id : ℕ)
      → 0 < a.inside
      → Move threads max a (record {
        acceptor = record a.acceptor { server = insert_session id a.acceptor.server };
        inside = a.inside - 1;
      })
  fails :
      (id : ℕ) (r : AcceptResult)
      → r ≢ accepted
      → a.acceptor.waits ≡ a_session
      → Move threads max a (record a { acceptor = after (on_accept max id r a.acceptor.server) })
  rejects :
      (r : AcceptResult)
      → a.acceptor.waits ≡ a_rejection
      → Move threads max a (record a { acceptor = after (on_reject max r a.acceptor.server) })
  ends :
      (id : ℕ)
      → a.acceptor.server.active_sessions ≢ 0
      → Move threads max a (record a {
        acceptor = record a.acceptor { server = (end_session id a.acceptor.server).0 };
      })
  drains :
      (drain_timeout : ℤ) (signal : ℕ)
      → Move threads max a (record a {
        acceptor = record a.acceptor {
          server = (begin_drain drain_timeout signal a.acceptor.server).0;
        };
      })

pub data Runs (threads max : ℕ) : Acceptors → Type 0 where
  begins : Runs threads max (record { acceptor = first_accept max; inside = 0 })
  moves : {a b : Acceptors} → Runs threads max a → Move threads max a b → Runs threads max b

abbrev pub active : Acceptors → ℕ
active a = a.acceptor.server.active_sessions

-- Sessions counted, and those that will be.
record Within (threads max : ℕ) (a : Acceptors) : Type 0 where
  bound : active a + a.inside ≤ max + threads
  threads_bound : a.inside ≤ threads
  armed_below : a.acceptor.waits ≡ a_session → active a + a.inside < max + threads

module _ (threads max : ℕ) where
  begins-Within : Within threads max (record { acceptor = first_accept max; inside = 0 })
  unfolding first_accept armed do_accept http_server
  begins-Within = record {
    bound = omega arith;
    threads_bound = omega arith;
    armed_below = λ e. omega (arith, armed_below_limit max http_server e);
  }

  fails-Within :
      (id : ℕ) (r : AcceptResult) (a : Acceptors)
      → r ≢ accepted
      → Within threads max a
      → Within threads max (record a { acceptor = after (on_accept max id r a.acceptor.server) })
  unfolding on_accept armed
  fails-Within id accepted a n w = absurd (n refl)
  fails-Within id operation_aborted a n w = record {
    bound = w.bound;
    threads_bound = w.threads_bound;
    armed_below = λ e. absurd (cc);
  }
  fails-Within id (accept_error message) a n w = record {
    bound = w.bound;
    threads_bound = w.threads_bound;
    armed_below = λ e. omega (arith, armed_below_limit max a.acceptor.server e, w.threads_bound);
  }

  rejects-Within :
      (r : AcceptResult) (a : Acceptors)
      → Within threads max a
      → Within threads max (record a { acceptor = after (on_reject max r a.acceptor.server) })
  unfolding on_reject armed
  rejects-Within accepted a w = record {
    bound = w.bound;
    threads_bound = w.threads_bound;
    armed_below = λ e. omega (arith, armed_below_limit max a.acceptor.server e, w.threads_bound);
  }
  rejects-Within operation_aborted a w = record {
    bound = w.bound;
    threads_bound = w.threads_bound;
    armed_below = λ e. omega (arith, armed_below_limit max a.acceptor.server e, w.threads_bound);
  }
  rejects-Within (accept_error message) a w = record {
    bound = w.bound;
    threads_bound = w.threads_bound;
    armed_below = λ e. omega (arith, armed_below_limit max a.acceptor.server e, w.threads_bound);
  }

  Move-Within :
      {a b : Acceptors}
      → max + threads < size_mod
      → Within threads max a
      → Move threads max a b
      → Within threads max b
  unfolding begin_drain
  Move-Within {a = a} m w (arrives e free) = record {
    bound = omega (arith, w.armed_below e);
    threads_bound = omega arith;
    armed_below = λ q. omega (arith, armed_below_limit max a.acceptor.server q);
  }
  Move-Within {a = a} m w (counts id some_inside) =
      let count = insert_session-count id a.acceptor.server (omega (arith, w.bound)) in
      record {
        bound = omega (arith, count, w.bound);
        threads_bound = omega (arith, w.threads_bound);
        armed_below = λ q. omega (arith, count, w.armed_below q);
      }
  Move-Within {a = a} m w (fails id r n e) = fails-Within id r a n w
  Move-Within {a = a} m w (rejects r e) = rejects-Within r a w
  Move-Within {a = a} m w (ends id e) =
      let count = end_session-count id a.acceptor.server e (omega (arith, w.bound)) in
      record {
        bound = omega (arith, count, w.bound);
        threads_bound = w.threads_bound;
        armed_below = λ q. omega (arith, count, w.armed_below q);
      }
  Move-Within m w (drains drain_timeout signal) = record {
    bound = w.bound;
    threads_bound = w.threads_bound;
    armed_below = w.armed_below;
  }

  Runs-Within :
      (a : Acceptors) → max + threads < size_mod → Runs threads max a → Within threads max a
  Runs-Within a m begins = begins-Within
  Runs-Within b m (moves {a = a} r s) = Move-Within m (Runs-Within a m r) s

  -- With several I/O threads the server has at most `max_connections` active sessions and one more
  -- for each thread that runs handlers, whatever the clients do, in every interleaving of accept
  -- handlers (which check the limit before they count their session), ends of sessions and the
  -- drain, if that sum is below 2^64.
  pub connections_bounded_threads :
      (a : Acceptors) → max + threads < size_mod → Runs threads max a → active a ≤ max + threads
  connections_bounded_threads a m r = omega (arith, (Runs-Within a m r).bound)

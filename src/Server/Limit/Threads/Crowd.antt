-- ===== src/Server/Limit/Threads/Crowd.antt =====
-- How many sessions accept handlers on several threads can bring above the limit (src/server.cpp).
use priority_http_server.Prelude.{
  ℕ, zero, suc, ◌+◌, ◌-◌, ◌≤◌, ◌<◌, ◌≡◌, refl, sym, ◌∙◌, false, arith,
}
use priority_http_server.Prelude.Int.{size_mod}
use priority_http_server.Server.{HttpServer, http_server, insert_session, do_accept}
use priority_http_server.Server.Limit.{Waits, a_session, armed, first_accept, insert_session-count}
use priority_http_server.Server.Limit.Threads.{
  Acceptors, active, Runs, begins, moves, arrives, counts,
}

module _ (threads max : ℕ) where
  abbrev Open : Acceptors → Type 0
  Open a = (a.acceptor.server.draining ≡ false) × (a.acceptor.server.stopped ≡ false)

  -- An open server that has `k` sessions, with `inside` handlers on their way.
  record Reached (k inside : ℕ) (waits : Waits) : Type 0 where
    state : Acceptors
    run : Runs threads max state
    open_still : Open state
    active_now : active state ≡ k
    inside_now : state.inside ≡ inside
    waits_now : state.acceptor.waits ≡ waits

  renumbered : {k l i j : ℕ} {waits : Waits} → k ≡ l → i ≡ j → Reached k i waits → Reached l j waits
  renumbered e d r = record {
    state = r.state;
    run = r.run;
    open_still = r.open_still;
    active_now = r.active_now ∙ e;
    inside_now = r.inside_now ∙ d;
    waits_now = r.waits_now;
  }

  -- Below the limit the acceptor waits for a session.
  armed_open :
      (s : HttpServer)
      → s.draining ≡ false
      → s.stopped ≡ false
      → s.active_sessions < max
      → armed (do_accept max s) ≡ a_session
  unfolding armed do_accept
  armed_open s d p h = ground (arith, d, p)

  counted :
      (k inside : ℕ) (waits : Waits)
      → k + 1 < size_mod
      → Reached k (suc inside) waits
      → Reached (k + 1) inside waits
  unfolding insert_session
  counted k inside waits m r = record {
    state = record {
      acceptor = record r.state.acceptor { server = insert_session 0 r.state.acceptor.server };
      inside = r.state.inside - 1;
    };
    run = moves r.run (counts 0 (omega (arith, r.inside_now)));
    open_still = r.open_still;
    active_now =
        insert_session-count 0 r.state.acceptor.server (omega (arith, r.active_now))
        ∙ omega (arith, r.active_now);
    inside_now = omega (arith, r.inside_now);
    waits_now = r.waits_now;
  }

  -- The last handler before the limit is reached.
  arrived :
      (k inside : ℕ)
      → inside < threads
      → Reached k inside a_session
      → (waits : Waits) × Reached k (inside + 1) waits × (k < max → waits ≡ a_session)
  arrived k inside free r =
      let s = r.state.acceptor.server in
      (
        armed (do_accept max s),
        record {
          state = record {
            acceptor = record r.state.acceptor { waits = armed (do_accept max s) };
            inside = r.state.inside + 1;
          };
          run = moves r.run (arrives r.waits_now (omega (arith, r.inside_now)));
          open_still = r.open_still;
          active_now = r.active_now;
          inside_now = omega (arith, r.inside_now);
          waits_now = refl;
        },
        λ below. armed_open s r.open_still.0 r.open_still.1 (omega (arith, r.active_now)),
      )

  arrived_below :
      (k inside : ℕ)
      → inside < threads
      → k < max
      → Reached k inside a_session
      → Reached k (inside + 1) a_session
  arrived_below k inside free below r =
      let (waits, next, e) = arrived k inside free r in rw (e below) at next

  -- `k` sessions are admitted, one after the other.
  filled : (k : ℕ) → max + threads < size_mod → 0 < threads → k < max → Reached k 0 a_session
  unfolding first_accept http_server
  filled zero m some_thread below = record {
    state = record { acceptor = first_accept max; inside = 0 };
    run = begins;
    open_still = (refl, refl);
    active_now = refl;
    inside_now = refl;
    waits_now = armed_open http_server refl refl below;
  }
  filled (suc k) m some_thread below = renumbered (omega arith) refl (
      counted k 0 a_session (omega arith)
        (arrived_below k 0 some_thread (omega arith) (filled k m some_thread (omega arith))))

  -- All threads are in accept handlers that saw one session less than the limit allows.
  crowded :
      (k inside : ℕ)
      → max + threads < size_mod
      → suc k ≡ max
      → 0 < threads
      → inside ≤ threads
      → Reached k inside a_session
  crowded k zero m e some_thread free = filled k m some_thread (omega arith)
  crowded k (suc inside) m e some_thread free = renumbered refl (omega arith) (
      arrived_below k inside (omega arith) (omega arith)
        (crowded k inside m e some_thread (omega arith)))

  all_counted :
      (k inside : ℕ) (waits : Waits)
      → k + inside < size_mod
      → Reached k inside waits
      → Reached (k + inside) 0 waits
  all_counted k zero waits m r = renumbered (omega arith) refl r
  all_counted k (suc inside) waits m r =
      renumbered (omega arith) refl
        (all_counted (k + 1) inside waits (omega arith) (counted k inside waits (omega arith) r))

  full :
      (k n : ℕ)
      → max + threads < size_mod
      → suc k ≡ max
      → suc n ≡ threads
      → (waits : Waits) × Reached max threads waits
  full k n m e t =
      let crowd = crowded k threads m e (omega arith) (omega arith) in
      let one_less : Reached (k + 1) n a_session =
        counted k n a_session (omega arith) (renumbered refl (sym t) crowd) in
      let (waits, r, below) =
        arrived max n (omega arith) (renumbered (omega arith) refl one_less) in
      (waits, renumbered refl (omega arith) r)

  -- The bound is reached: with a positive limit and at least one thread, there is a run that ends
  -- with as many active sessions as the limit and the number of threads that run handlers, if that
  -- sum is below 2^64.
  pub limit_exceeded_threads :
      max + threads < size_mod
      → 0 < max
      → 0 < threads
      → (a : Acceptors) × Runs threads max a × (active a ≡ max + threads)
  limit_exceeded_threads m some_limit some_thread =
      let (waits, r) = full (max - 1) (threads - 1) m (omega arith) (omega arith) in
      let all = all_counted max threads waits m r in (all.state, all.run, all.active_now)

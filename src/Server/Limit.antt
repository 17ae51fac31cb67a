-- ===== src/Server/Limit.antt =====
-- The limit on the connections: the loop of the acceptor among sessions that end and the drain.
pub mod Threads
use priority_http_server.Prelude.{
  ℕ, zero, suc, ◌+◌, ◌≤◌, ◌<◌, ◌≡◌, ◌≢◌, sym, ◌∙◌, false, List, [], ◌∷◌, ◌++◌, arith,
}
use priority_http_server.Prelude.Int.{ℤ, size_mod}
use priority_http_server.Server.{
  HttpServer, ServerEffect, starts_session, operation_aborted, accept_error, accepts,
  accepts_to_reject, AcceptResult, accepted, http_server, end_session, remove_session,
  check_drain_complete, insert_session, do_accept, on_accept, on_reject, begin_drain,
}

-- What the acceptor waits for.
pub data Waits : Type 0 where
  nothing a_session a_rejection : Waits

pub record Acceptor : Type 0 where
  pub server : HttpServer
  pub waits : Waits

unfoldable pub armed : List ServerEffect → Waits
armed [] = nothing
armed (accepts ∷ effects) = a_session
armed (accepts_to_reject ∷ effects) = a_rejection
armed (_ ∷ effects) = armed effects

-- `startAcceptorLoop` calls `doAccept` once.
unfoldable pub first_accept : ℕ → Acceptor
unfolding armed
first_accept max = record { server = http_server; waits = armed (do_accept max http_server) }

abbrev pub after : HttpServer × List ServerEffect → Acceptor
after (s, effects) = record { server = s; waits = armed effects }

pub data Move (max : ℕ) (a : Acceptor) : Acceptor → Type 0 where
  admits :
      (id : ℕ) (r : AcceptResult)
      → a.waits ≡ a_session
      → Move max a (after (on_accept max id r a.server))
  rejects :
      (r : AcceptResult) → a.waits ≡ a_rejection → Move max a (after (on_reject max r a.server))
  ends :
      (id : ℕ)
      → a.server.active_sessions ≢ 0
      → Move max a (record a { server = (end_session id a.server).0 })
  drains :
      (drain_timeout : ℤ) (signal : ℕ)
      → Move max a (record a { server = (begin_drain drain_timeout signal a.server).0 })

pub data Runs (max : ℕ) : Acceptor → Type 0 where
  begins : Runs max (first_accept max)
  moves : {a b : Acceptor} → Runs max a → Move max a b → Runs max b

-- An accept under the limit was armed with at most one session not yet counted.
record Within (max : ℕ) (a : Acceptor) : Type 0 where
  bound : a.server.active_sessions ≤ max + 1
  armed_below : a.waits ≡ a_session → a.server.active_sessions ≤ max

first_accept-Within : (max : ℕ) → Within max (first_accept max)
unfolding first_accept armed do_accept http_server
first_accept-Within max = record { bound = omega arith; armed_below = λ e. omega arith }

-- An accept under the limit is armed only below it, as the count stood before.
pub armed_below_limit :
    (max : ℕ) (s : HttpServer) → armed (do_accept max s) ≡ a_session → s.active_sessions < max
unfolding armed do_accept
armed_below_limit max s e = ground (arith, e)

armed_before :
    (max id : ℕ) (s : HttpServer)
    → armed (do_accept max s ++ starts_session id ∷ []) ≡ armed (do_accept max s)
unfolding armed do_accept
armed_before max id s = ground arith

pub insert_session-count :
    (id : ℕ) (s : HttpServer)
    → s.active_sessions + 1 < size_mod
    → (insert_session id s).active_sessions ≡ s.active_sessions + 1
unfolding insert_session
insert_session-count id s h = ground arith

pub end_session-count :
    (id : ℕ) (s : HttpServer)
    → s.active_sessions ≢ 0
    → s.active_sessions < size_mod
    → (end_session id s).0.active_sessions + 1 ≡ s.active_sessions
unfolding end_session remove_session check_drain_complete
end_session-count id s h small = ground arith

admits-Within :
    (max id : ℕ) (r : AcceptResult) (a : Acceptor)
    → max + 1 < size_mod
    → a.server.active_sessions ≤ max
    → Within max (after (on_accept max id r a.server))
unfolding on_accept armed
admits-Within max id accepted a m h =
    let count = insert_session-count id a.server (omega arith) in
    record {
      bound = omega (arith, count);
      armed_below = λ e.
          omega
            (arith, count, armed_below_limit max a.server (sym (armed_before max id a.server) ∙ e));
    }
admits-Within max id operation_aborted a m h = record {
  bound = omega arith;
  armed_below = λ e. absurd (cc);
}
admits-Within max id (accept_error message) a m h = record {
  bound = omega arith;
  armed_below = λ e. omega (arith, h);
}

rejects-Within :
    (max : ℕ) (r : AcceptResult) (a : Acceptor)
    → Within max a
    → Within max (after (on_reject max r a.server))
unfolding on_reject armed
rejects-Within max accepted a w = record {
  bound = w.bound;
  armed_below = λ e. omega (arith, armed_below_limit max a.server e);
}
rejects-Within max operation_aborted a w = record {
  bound = w.bound;
  armed_below = λ e. omega (arith, armed_below_limit max a.server e);
}
rejects-Within max (accept_error message) a w = record {
  bound = w.bound;
  armed_below = λ e. omega (arith, armed_below_limit max a.server e);
}

Move-Within :
    (max : ℕ) {a b : Acceptor} → max + 1 < size_mod → Within max a → Move max a b → Within max b
unfolding begin_drain
Move-Within max {a = a} m w (admits id r e) = admits-Within max id r a m (w.armed_below e)
Move-Within max {a = a} m w (rejects r e) = rejects-Within max r a w
Move-Within max {a = a} m w (ends id e) =
    let count = end_session-count id a.server e (omega (arith, w.bound)) in
    record {
      bound = omega (arith, count, w.bound);
      armed_below = λ q. omega (arith, count, w.armed_below q);
    }
Move-Within max m w (drains drain_timeout signal) = record {
  bound = w.bound;
  armed_below = w.armed_below;
}

Runs-Within : (max : ℕ) (a : Acceptor) → max + 1 < size_mod → Runs max a → Within max a
Runs-Within max a m begins = first_accept-Within max
Runs-Within max b m (moves {a = a} r s) = Move-Within max m (Runs-Within max a m r) s

-- The server never has more than one session above `max_connections`, whatever the clients do,
-- with the handlers of accepts run one at a time and a limit of less than 2^64 - 1.
pub connections_bounded :
    (max : ℕ) (a : Acceptor) → max + 1 < size_mod → Runs max a → a.server.active_sessions ≤ max + 1
connections_bounded max a m r = (Runs-Within max a m r).bound

-- The first `k` connections are admitted, and the acceptor waits for one more.
admitted :
    (max k : ℕ)
    → max + 1 < size_mod
    → 0 < max
    → k ≤ max
    → (a : Acceptor) × Runs max a
      × (a.waits ≡ a_session)
      × (a.server.active_sessions ≡ k)
      × (a.server.draining ≡ false)
      × (a.server.stopped ≡ false)
unfolding first_accept armed do_accept http_server on_accept insert_session
admitted max zero m pos h =
    (first_accept max, begins, ground arith, ground arith, ground arith, ground arith)
admitted max (suc k) m pos h =
    let (a, r, e, count, open_still, stopped) = admitted max k m pos (omega arith) in
    (
      after (on_accept max k accepted a.server),
      moves r (admits k accepted e),
      ground (arith, count, open_still, stopped),
      ground (arith, count),
      open_still,
      stopped,
    )

-- The limit can be exceeded: for every positive `max_connections` below 2^64 - 1 there is a run in
-- which one more session than that is active.
pub limit_exceeded :
    (max : ℕ)
    → max + 1 < size_mod
    → 0 < max
    → (a : Acceptor) × Runs max a × (a.server.active_sessions ≡ max + 1)
unfolding on_accept
limit_exceeded max m pos =
    let (a, r, e, count, open_still, stopped) = admitted max max m pos (omega arith) in
    (
      after (on_accept max max accepted a.server),
      moves r (admits max accepted e),
      omega (arith, count, insert_session-count max a.server (omega (arith, count))),
    )

-- ===== src/Session/Ending.antt =====
-- The handlers of a session (src/session.cpp) in any order: when it ends, and what it does once closed.
use priority_http_server.Prelude.{
  ℕ, ◌+◌, ◌≡◌, Bool, true, false, List, [], ◌∷◌, ◌++◌, Option, none, some, inl, inr, arith,
  if◌then◌else◌, count_if, ◌↔◌, count_if-append, Option-cases, ◌<◌, ◌≢◌,
}
use priority_http_server.Prelude.Int.{eqb_ℤ, pos}
use priority_http_server.Prelude.Text.{codes}
use priority_http_server.Http.{Http, Request}
use priority_http_server.Session.{
  parse_priority, sample, Session, ReadResult, received, end_of_stream, eof, WriteResult, written,
  Effect, reads, writes, ends_session, start, do_read, send_response, read_failed, read_request,
  on_read, on_write, on_timeout, close,
}

-- The handlers that the event loop runs on a session, with what they are given.
pub data Handler (http : Http) : Type 0 where
  starts : ℕ → Handler http
  begins_read : ℕ → Handler http
  ends_read : ℕ → ℕ → ReadResult http → Handler http
  responds : http.Response → Bool → Handler http
  ends_write : ℕ → Bool → WriteResult → Handler http
  times_out : Bool → Handler http
  closes : Handler http

module _ (http : Http) where
  abbrev pub is_end : Effect http → Bool
  is_end ends_session = true
  is_end _ = false

  -- Reading from the socket or writing to it.
  abbrev pub is_io : Effect http → Bool
  is_io (reads n) = true
  is_io (writes r) = true
  is_io _ = false

  -- One handler; none if the program divides by zero.
  unfoldable pub handle : Handler http → Session → Option (Session × List (Effect http))
  handle (starts active) s = some (start http active s)
  handle (begins_read limit) s = some (do_read http limit s)
  handle (ends_read rate counter r) s = elim (on_read http rate counter r s) [
    | none ↦ none
    | some (s', counter', effects) ↦ some (s', effects)
  ]
  handle (responds response keep_alive) s = some (send_response http response keep_alive s)
  handle (ends_write limit draining r) s = some (on_write http limit draining r s)
  handle (times_out aborted) s = some (on_timeout http aborted s)
  handle closes s = some (close http s)

  unfoldable pub run_handlers :
      List (Handler http) → Session → Option (Session × List (Effect http))
  run_handlers [] s = some (s, [])
  run_handlers (h ∷ hs) s = elim (handle h s) [
    | none ↦ none
    | some (s', effects) ↦ elim (run_handlers hs s') [
      | none ↦ none
      | some (s'', more) ↦ some (s'', effects ++ more)
    ]
  ]

  -- What every handler keeps: the session tells the server of its end exactly when it becomes
  -- ended, and once closed it stays so and starts no more input or output.
  pub record Sound (s s' : Session) (effects : List (Effect http)) : Type 0 where
    pub counted : count_if is_end effects + (if s.ended then 1 else 0) ≡ (if s'.ended then 1 else 0)
    pub still_closed : s.closed ≡ true → s'.closed ≡ true
    pub quiet : s.closed ≡ true → count_if is_io effects ≡ 0

  read_request-Sound :
      (rate counter : ℕ) (req : Request http) (s s' : Session) (c : ℕ)
      (effects : List (Effect http))
      → read_request http rate counter req s ≡ some (s', c, effects)
      → Sound s s' effects
  unfolding read_request count_if
  read_request-Sound rate counter req s s' c effects h = ground arith

  read_failed-Sound :
      (r : ReadResult http) (s : Session)
      → Sound s (read_failed http r s).0 (read_failed http r s).1
  unfolding read_failed count_if
  read_failed-Sound (received req) s = ground arith
  read_failed-Sound end_of_stream s = ground arith
  read_failed-Sound _ s = ground arith

  on_write-Sound :
      (limit : ℕ) (draining : Bool) (r : WriteResult) (s : Session)
      → Sound s (on_write http limit draining r s).0 (on_write http limit draining r s).1
  unfolding on_write count_if
  on_write-Sound limit draining written s = ground arith
  on_write-Sound limit draining _ s = ground arith

  pub handle-Sound :
      (h : Handler http) (s s' : Session) (effects : List (Effect http))
      → handle h s ≡ some (s', effects)
      → Sound s s' effects
  unfolding handle start do_read send_response on_timeout close on_read count_if
  handle-Sound (starts active) s s' effects e = ground arith
  handle-Sound (begins_read limit) s s' effects e = ground arith
  handle-Sound (ends_read rate counter (received req)) s s' effects e =
      elim (Option-cases (read_request http rate counter req s)) [
        | inl n ↦ absurd (ground (arith, n))
        | inr ((t, c, fs), q) ↦
            let same : (t ≡ s') × (fs ≡ effects) = ground (arith, q) in
            rw (← same.0, ← same.1) (read_request-Sound rate counter req s t c fs q)
      ]
  handle-Sound (ends_read rate counter end_of_stream) s s' effects e =
      ground (arith, read_failed-Sound end_of_stream s)
  handle-Sound (ends_read rate counter r) s s' effects e = ground (arith, read_failed-Sound r s)
  handle-Sound (responds response keep_alive) s s' effects e = ground arith
  handle-Sound (ends_write limit draining r) s s' effects e =
      ground (arith, on_write-Sound limit draining r s)
  handle-Sound (times_out aborted) s s' effects e = ground arith
  handle-Sound closes s s' effects e = ground arith

  Sound-append :
      (s t u : Session) (es fs : List (Effect http))
      → Sound s t es
      → Sound t u fs
      → Sound s u (es ++ fs)
  Sound-append s t u es fs a b = record {
    counted = rw count_if-append (omega (arith, a.counted, b.counted));
    still_closed = λ c. b.still_closed (a.still_closed c);
    quiet = λ c. rw count_if-append (omega (arith, a.quiet c, b.quiet (a.still_closed c)));
  }

  run_handlers_result-Sound :
      (hs : List (Handler http)) (s s' : Session) (effects : List (Effect http))
      → run_handlers hs s ≡ some (s', effects)
      → Sound s s' effects
  unfolding run_handlers count_if
  run_handlers_result-Sound [] s s' effects e = ground arith
  run_handlers_result-Sound (h ∷ hs) s s' effects e = elim (Option-cases (handle h s)) [
    | inl n ↦ absurd (ground (arith, n))
    | inr ((t, es), q) ↦ elim (Option-cases (run_handlers hs t)) [
      | inl n ↦ absurd (ground (arith, n, q))
      | inr ((u, fs), r) ↦
          let same : (u ≡ s') × (es ++ fs ≡ effects) = ground (arith, q, r) in
          rw (← same.0, ← same.1)
            (Sound-append s t u es fs (handle-Sound h s t es q)
              (run_handlers_result-Sound hs t u fs r))
    ]
  ]

  -- Every read is sampled at a positive rate.
  abbrev pub RatesPositive : List (Handler http) → Type 0
  RatesPositive [] = Unit
  RatesPositive (starts active ∷ hs) = RatesPositive hs
  RatesPositive (begins_read limit ∷ hs) = RatesPositive hs
  RatesPositive (ends_read rate counter r ∷ hs) = (0 < rate) × RatesPositive hs
  RatesPositive (responds response keep_alive ∷ hs) = RatesPositive hs
  RatesPositive (ends_write limit draining r ∷ hs) = RatesPositive hs
  RatesPositive (times_out aborted ∷ hs) = RatesPositive hs
  RatesPositive (closes ∷ hs) = RatesPositive hs

  pub read_request_total :
      (rate counter : ℕ) (req : Request http) (s : Session)
      → 0 < rate
      → read_request http rate counter req s ≢ none
  unfolding read_request
  read_request_total rate counter req s h = ground arith

  handle_total :
      (h : Handler http) (hs : List (Handler http)) (s : Session)
      → RatesPositive (h ∷ hs)
      → (handle h s ≢ none) × RatesPositive hs
  unfolding handle on_read
  handle_total (starts active) hs s p = ((λ e. cc), p)
  handle_total (begins_read limit) hs s p = ((λ e. cc), p)
  handle_total (ends_read rate counter (received req)) hs s p =
      ((λ e. ground (arith, read_request_total rate counter req s p.0)), p.1)
  handle_total (ends_read rate counter eof) hs s p = ((λ e. cc), p.1)
  handle_total (ends_read rate counter r) hs s p = ((λ e. cc), p.1)
  handle_total (responds response keep_alive) hs s p = ((λ e. cc), p)
  handle_total (ends_write limit draining r) hs s p = ((λ e. cc), p)
  handle_total (times_out aborted) hs s p = ((λ e. cc), p)
  handle_total closes hs s p = ((λ e. cc), p)

  run_handlers_total :
      (hs : List (Handler http)) (s : Session) → RatesPositive hs → run_handlers hs s ≢ none
  unfolding run_handlers
  run_handlers_total [] s p = λ e. cc
  run_handlers_total (h ∷ hs) s p = λ e. elim (Option-cases (handle h s)) [
    | inl n ↦ (handle_total h hs s p).0 n
    | inr ((t, es), q) ↦ elim (Option-cases (run_handlers hs t)) [
      | inl n ↦ run_handlers_total hs t (handle_total h hs s p).1 n
      | inr ((u, fs), r) ↦ ground (arith, q, r)
    ]
  ]

  -- Whatever handlers run on a session, in whatever order, with a positive sample rate: all of them
  -- return; the session reports its end to the server once if it became ended in their course, and
  -- otherwise not at all; and if it was closed, it stays closed and nothing is read or written.
  pub run_handlers-Sound :
      (hs : List (Handler http)) (s : Session)
      → RatesPositive hs
      → (s' : Session) × (effects : List (Effect http)) × (run_handlers hs s ≡ some (s', effects))
        × Sound s s' effects
  run_handlers-Sound hs s p = elim (Option-cases (run_handlers hs s)) [
    | inl n ↦ absurd (run_handlers_total hs s p n)
    | inr ((s', effects), e) ↦ (s', effects, e, run_handlers_result-Sound hs s s' effects e)
  ]

  -- Processing a received request divides by zero exactly when the sample rate is 0 and the request
  -- names a priority other than 0.
  pub read_request_fails_iff :
      (rate counter : ℕ) (req : Request http) (s : Session)
      → (read_request http rate counter req s ≡ none)
        ↔ ((rate ≡ 0) × (eqb_ℤ (parse_priority (req.find (codes "X-Priority"))).0 (pos 0) ≡ false))
  unfolding read_request sample
  read_request_fails_iff rate counter req s = ground arith

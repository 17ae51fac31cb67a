-- ===== src/Session/Requests.antt =====
-- The protocol of one connection: which operation is under way, how many requests it gets, and
-- what a read timeout does to it.
use priority_http_server.Prelude.{
  ℕ, ◌+◌, ◌≤◌, ◌<◌, ◌≡◌, refl, Bool, true, false, List, [], ◌∷◌, some, arith, ◌⊎◌, inl, inr,
  count_if, Option-cases,
}
use priority_http_server.Prelude.Int.{ℤ, size_mod}
use priority_http_server.Http.{Http, Request}
use priority_http_server.Session.{
  Session, ReadResult, end_of_stream, WriteResult, written, Effect, posts_read, reads, processes,
  writes, closes_socket, session, start, do_read, send_response, read_failed, read_request,
  on_write, on_timeout, close,
}
use priority_http_server.Session.Ending.{read_request_total}

-- The operation that the next handler of the connection completes.
pub data Phase : Type 0 where
  starting reading processing writing idle : Phase

pub record Connection : Type 0 where
  pub session : Session
  pub phase : Phase
  pub processed : ℕ
  -- The responses that were given to the session for them.
  pub answered : ℕ

module _ (http : Http) where
  -- The operation that a handler's calls begin; the one before them if they begin none.
  unfoldable pub next_phase : Phase → List (Effect http) → Phase
  next_phase p [] = p
  next_phase p (posts_read ∷ es) = next_phase starting es
  next_phase p (reads n ∷ es) = next_phase reading es
  next_phase p (processes r q ∷ es) = next_phase processing es
  next_phase p (writes r ∷ es) = next_phase writing es
  next_phase p (_ ∷ es) = next_phase p es

  abbrev pub is_process : Effect http → Bool
  is_process (processes r q) = true
  is_process _ = false

  -- A handler has run: it leaves the session, and its calls begin the next operation.
  abbrev pub after : Phase → Connection → Session × List (Effect http) → Connection
  after p c (s, effects) = record {
    session = s;
    phase = next_phase p effects;
    processed = c.processed + count_if is_process effects;
    answered = c.answered;
  }

  -- A handler that completes an operation runs only in its phase; a timeout or a close comes at any
  -- time. What the client sends, how long it takes and whether the server drains is open.
  pub data Move (c : Connection) : Connection → Type 0 where
    starts :
        (active : ℕ)
        → c.phase ≡ idle
        → c.processed ≡ 0
        → c.session.request_count ≡ 0
        → Move c (after idle c (start http active c.session))
    begins_read :
        (limit : ℕ) → c.phase ≡ starting → Move c (after idle c (do_read http limit c.session))
    receives :
        (rate counter counter' : ℕ) (req : Request http) (s : Session)
        (effects : List (Effect http))
        → c.phase ≡ reading
        → read_request http rate counter req c.session ≡ some (s, counter', effects)
        → Move c (after idle c (s, effects))
    fails :
        (r : ReadResult http)
        → c.phase ≡ reading
        → Move c (after idle c (read_failed http r c.session))
    responds :
        (response : http.Response) (keep_alive : Bool)
        → c.phase ≡ processing
        → Move c (record (after idle c (send_response http response keep_alive c.session)) {
          answered = c.answered + 1;
        })
    ends_write :
        (limit : ℕ) (draining : Bool) (r : WriteResult)
        → c.phase ≡ writing
        → Move c (after idle c (on_write http limit draining r c.session))
    times_out : (aborted : Bool) → Move c (after c.phase c (on_timeout http aborted c.session))
    closes : Move c (after c.phase c (close http c.session))

  pub data Reach (c : Connection) : Connection → Type 0 where
    here : Reach c c
    next : {d e : Connection} → Reach c d → Move d e → Reach c e

  -- While the next request may come, the count of the session is below its limit, or it is the
  -- first one.
  pub record Within (max : ℕ) (c : Connection) : Type 0 where
    pub limit : c.session.max_keepalive_requests ≡ max
    pub counted : c.processed ≡ c.session.request_count
    pub bounded : (c.session.request_count ≤ 1) ⊎ (c.session.request_count ≤ max)
    pub waiting :
        (c.phase ≡ starting) ⊎ (c.phase ≡ reading)
        → (c.session.request_count ≡ 0) ⊎ (c.session.request_count < max)

  Move-Within :
      (max : ℕ) {c d : Connection} → max < size_mod → Within max c → Move c d → Within max d
  unfolding next_phase count_if start do_read read_request read_failed send_response on_write
      on_timeout close
  Move-Within max m w (starts active p z n) = ground arith
  Move-Within max m w (begins_read limit p) = ground arith
  Move-Within max m w (receives rate counter counter' req s effects p e) = ground arith
  Move-Within max m w (fails end_of_stream p) = ground arith
  Move-Within max m w (fails r p) = ground arith
  Move-Within max m w (responds response keep_alive p) = ground arith
  Move-Within max m w (ends_write limit draining written p) = ground arith
  Move-Within max m w (ends_write limit draining r p) = ground arith
  Move-Within max m w (times_out aborted) = ground arith
  Move-Within max m w closes = ground arith

  -- A request is open only while it is processed.
  abbrev pub open_requests : Phase → ℕ
  open_requests processing = 1
  open_requests _ = 0

  abbrev pub TakesTurns : Connection → Type 0
  TakesTurns c = c.processed ≡ c.answered + open_requests c.phase

  pub Move-TakesTurns : {c d : Connection} → TakesTurns c → Move c d → TakesTurns d
  unfolding next_phase count_if start do_read read_request read_failed send_response on_write
      on_timeout close
  Move-TakesTurns w (starts active p z n) = ground arith
  Move-TakesTurns w (begins_read limit p) = ground arith
  Move-TakesTurns w (receives rate counter counter' req s effects p e) = ground arith
  Move-TakesTurns w (fails end_of_stream p) = ground arith
  Move-TakesTurns w (fails r p) = ground arith
  Move-TakesTurns w (responds response keep_alive p) = ground arith
  Move-TakesTurns w (ends_write limit draining written p) = ground arith
  Move-TakesTurns w (ends_write limit draining r p) = ground arith
  Move-TakesTurns w (times_out aborted) = ground arith
  Move-TakesTurns w closes = ground arith

  Reach-TakesTurns : {c d : Connection} → TakesTurns c → Reach c d → TakesTurns d
  Reach-TakesTurns w here = w
  Reach-TakesTurns w (next r s) = Move-TakesTurns (Reach-TakesTurns w r) s

  unfoldable pub connection : ℤ → ℕ → Bool → Connection
  connection timeout max enable = record {
    session = session timeout max enable;
    phase = idle;
    processed = 0;
    answered = 0;
  }

  Reach-Within :
      (max : ℕ) {c d : Connection} → max < size_mod → Within max c → Reach c d → Within max d
  Reach-Within max m w here = w
  Reach-Within max m w (next r s) = Move-Within max m (Reach-Within max m w r) s

  -- However the client, the tasks, the timer and the shutdown interleave, a connection hands at
  -- most `max_keepalive_requests` requests to the processor, or one if that limit is 0, and one at a
  -- time: while it reads the next request, each one before has got its response; the limit is a
  -- value of size_t.
  pub requests_bounded :
      (timeout : ℤ) (max : ℕ) (enable : Bool) (d : Connection)
      → max < size_mod
      → Reach (connection timeout max enable) d
      → ((d.processed ≤ 1) ⊎ (d.processed ≤ max)) × (d.phase ≡ reading → d.processed ≡ d.answered)
  unfolding connection session
  requests_bounded timeout max enable d m r =
      let w =
        Reach-Within max m
          (record {
            limit = refl;
            counted = refl;
            bounded = inl (omega arith);
            waiting = λ p. inl refl;
          })
          r in
      let turns : TakesTurns d = Reach-TakesTurns refl r in
      (ground (arith, w.counted, w.bounded), λ p. ground (arith, p, turns))

  abbrev pub is_close : Effect http → Bool
  is_close closes_socket = true
  is_close _ = false

  pub read_request_serves :
      (rate counter counter' : ℕ) (req : Request http) (s s' : Session)
      (effects : List (Effect http))
      → read_request http rate counter req s ≡ some (s', counter', effects)
      → (next_phase idle effects ≡ processing)
        × (s'.closed ≡ s.closed)
        × (count_if is_process effects ≡ 1)
  unfolding read_request next_phase count_if
  read_request_serves rate counter counter' req s s' effects e = ground arith

  -- A read timeout on an open connection, with a positive sample rate: the session counts as
  -- ended, but nothing closes the socket, the read goes on, a request that comes later is
  -- processed like any other, and its response is written.
  pub timeout_keeps_connection :
      (c : Connection) (rate counter : ℕ) (req : Request http) (response : http.Response)
      (keep_alive : Bool)
      → c.phase ≡ reading
      → c.session.closed ≡ false
      → 0 < rate
      → let d = after c.phase c (on_timeout http false c.session) in
        (d.session.ended ≡ true)
        × (count_if is_close (on_timeout http false c.session).1 ≡ 0)
        × (d.phase ≡ reading)
        × (s : Session) × (counter' : ℕ) × (effects : List (Effect http)) × (read_request http rate
              counter req d.session
            ≡ some (s, counter', effects))
        × ((after idle d (s, effects)).phase ≡ processing)
        × ((send_response http response keep_alive s).1 ≡ writes response ∷ [])
  unfolding on_timeout next_phase count_if send_response
  timeout_keeps_connection c rate counter req response keep_alive p o h =
      let t = (on_timeout http false c.session).0 in
      let open_still : t.closed ≡ false = ground arith in
      elim (Option-cases (read_request http rate counter req t)) [
        | inl n ↦ absurd (read_request_total http rate counter req t h n)
        | inr ((s, counter', effects), e) ↦
            let serves = read_request_serves rate counter counter' req t s effects e in
            (
              ground arith,
              ground arith,
              ground arith,
              s,
              counter',
              effects,
              e,
              serves.0,
              ground (arith, serves.1),
            )
      ]

-- ===== src/Server/World/Invariant.antt =====
-- The set of sessions, their count and the end of a drain, in every order of the handlers.
use priority_http_server.Prelude.{
  ◌⊎◌, ℕ, ◌+◌, ◌≤◌, ◌<◌, ◌≡◌, refl, ap, sym, ◌∙◌, Bool, true, false, List, [], ◌∷◌, none, some,
  arith, length, inl, inr, count_if,
}
use priority_http_server.Prelude.Int.{ℤ, size_mod}
use priority_http_server.Http.{Http}
use priority_http_server.Session.{Session, Effect, session, ends_session}
use priority_http_server.Session.Ending.{is_end, Sound, handle-Sound}
use priority_http_server.Server.{
  HttpServer, accepted, http_server, erase, insert, check_drain_complete, remove_session,
  end_session, insert_session, on_accept, begin_drain, on_drain_timer, shutdown,
}
use priority_http_server.Server.Table.{
  find, update, live, Distinct, live-update-same, live-update-ended, erase-live-absent,
  update-Distinct, length-update, length-live,
}
use priority_http_server.Server.World.{
  World, new_world, report, Step, accepts, handles, signals, checks, drain_timer_fires, shuts_down,
  Reach, here, next,
}

-- The set and the count are those of the sessions that have not ended, and a drain that is not
-- being checked is complete exactly when none is left.
pub record IsValid (w : World) : Type 0 where
  pub distinct : Distinct w.table
  pub sessions : w.server.sessions ≡ live w.table
  pub counted : w.server.active_sessions ≡ length (live w.table)
  pub complete :
      w.server.draining ≡ true
      → length (live w.table) ≡ 0
      → w.checking ≡ false
      → w.server.stopped ≡ true

module _ (http : Http) where
  pub report-none :
      (id : ℕ) (effects : List (Effect http)) (s : HttpServer)
      → count_if (is_end http) effects ≡ 0
      → report http id effects s ≡ s
  unfolding report count_if
  report-none id [] s h = refl
  report-none id (ends_session ∷ effects) s h = absurd (omega arith)
  report-none id (_ ∷ effects) s h = report-none id effects s (omega (arith, h))

  pub report-one :
      (id : ℕ) (effects : List (Effect http)) (s : HttpServer)
      → count_if (is_end http) effects ≡ 1
      → report http id effects s ≡ (end_session id s).0
  unfolding report count_if
  report-one id [] s h = absurd (omega arith)
  report-one id (ends_session ∷ effects) s h =
      report-none id effects (end_session id s).0 (omega arith)
  report-one id (_ ∷ effects) s h = report-one id effects s (omega (arith, h))

  new_world-IsValid : IsValid new_world
  unfolding http_server live
  new_world-IsValid = record {
    distinct = tt;
    sessions = refl;
    counted = refl;
    complete = λ d z c. ground arith;
  }

  -- A session that ends leaves the set and the count, and completes a drain if it was the last.
  end_session-removes :
      (id n : ℕ) (s : HttpServer)
      → s.active_sessions ≡ n + 1
      → n < size_mod
      → let r = (end_session id s).0 in
        (r.sessions ≡ erase id s.sessions)
        × (r.active_sessions ≡ n)
        × (s.draining ≡ true → n ≡ 0 → r.stopped ≡ true)
        × (r.draining ≡ s.draining)
  unfolding end_session remove_session check_drain_complete
  end_session-removes id n s e h = ground arith

  accepts-IsValid :
      (w : World) (max_connections id max_requests : ℕ) (timeout : ℤ) (enable : Bool)
      → length w.table + 1 < size_mod
      → find id w.table ≡ none
      → IsValid w
      → IsValid (record w {
        server = (on_accept max_connections id accepted w.server).0;
        table = (id, session timeout max_requests enable) ∷ w.table;
      })
  unfolding on_accept insert_session insert live session
  accepts-IsValid w max_connections id max_requests timeout enable room e v =
      let small = length-live w.table in
      let absent = erase-live-absent id w.table e in
      record {
        distinct = (e, v.distinct);
        sessions = rw v.sessions (ap (λ xs. id ∷ xs) absent);
        counted = ground (arith, v.counted, small, room);
        complete = λ d z c. absurd (omega (arith, z));
      }

  -- A handler of a session reports no end and changes none, or reports the one that it makes.
  pub Sound-cases :
      (s s' : Session) (effects : List (Effect http))
      → Sound http s s' effects
      → ((s'.ended ≡ s.ended) × (count_if (is_end http) effects ≡ 0))
        ⊎ ((s.ended ≡ false) × (s'.ended ≡ true) × (count_if (is_end http) effects ≡ 1))
  Sound-cases s s' effects sound = ground (arith, sound.counted)

  handles-IsValid :
      (w : World) (id : ℕ) (s s' : Session) (effects : List (Effect http))
      → length w.table < size_mod
      → find id w.table ≡ some s
      → Sound http s s' effects
      → IsValid w
      → IsValid
          (record w { server = report http id effects w.server; table = update id s' w.table })
  handles-IsValid w id s s' effects room e sound v = elim (Sound-cases s s' effects sound) [
    | inl (same, quiet) ↦
        let kept = live-update-same id s s' w.table e same in
        rw (report-none id effects w.server quiet) (record {
          distinct = update-Distinct id s' w.table v.distinct;
          sessions = v.sessions ∙ sym kept;
          counted = v.counted ∙ ap length (sym kept);
          complete = λ d z c. v.complete d (ap length (sym kept) ∙ z) c;
        })
    | inr (open_before, ended, once) ↦
        let (erased, fewer) = live-update-ended id s s' w.table v.distinct e open_before ended in
        let left = length (live (update id s' w.table)) in
        let (sessions_left, count_left, completes, drains) =
          end_session-removes id left w.server (v.counted ∙ sym fewer)
            (omega (arith, fewer, length-live w.table)) in
        rw (report-one id effects w.server once) (record {
          distinct = update-Distinct id s' w.table v.distinct;
          sessions = sessions_left ∙ ap (erase id) v.sessions ∙ sym erased;
          counted = count_left;
          complete = λ d z c. completes (sym drains ∙ d) z;
        })
  ]

  checks-IsValid :
      (w : World)
      → IsValid w
      → IsValid (record w { server = (check_drain_complete w.server).0; checking = false })
  unfolding check_drain_complete
  checks-IsValid w v = record {
    distinct = v.distinct;
    sessions = ground (arith, v.sessions);
    counted = ground (arith, v.counted);
    complete = λ d z c. ground (arith, v.counted, d, z);
  }

  drain_timer-IsValid :
      (w : World) (aborted : Bool)
      → IsValid w
      → IsValid (record w { server = (on_drain_timer aborted w.server).0 })
  unfolding on_drain_timer check_drain_complete
  drain_timer-IsValid w aborted v = record {
    distinct = v.distinct;
    sessions = ground (arith, v.sessions);
    counted = ground (arith, v.counted);
    complete = λ d z c. ground (arith, v.counted, d, z, c, v.complete);
  }

  shuts_down-IsValid :
      (w : World) (drain_timeout : ℤ) (abandoned : ℕ)
      → w.server.stopped ≡ true
      → IsValid w
      → IsValid (record w { server = (shutdown drain_timeout abandoned w.server).0 })
  unfolding shutdown
  shuts_down-IsValid w drain_timeout abandoned e v = record {
    distinct = v.distinct;
    sessions = ground (arith, v.sessions);
    counted = ground (arith, v.counted);
    complete = λ d z c. ground (arith, e);
  }

  Step-length : {v w : World} → Step http v w → length v.table ≤ length w.table
  Step-length (accepts max_connections id max_requests timeout enable e) = omega arith
  Step-length {v = v} (handles id h s s' effects e r) = omega (arith, length-update id s' v.table)
  Step-length (signals drain_timeout signal) = omega arith
  Step-length checks = omega arith
  Step-length (drain_timer_fires aborted) = omega arith
  Step-length (shuts_down drain_timeout abandoned e) = omega arith

  Step-IsValid : {v w : World} → length w.table < size_mod → IsValid v → Step http v w → IsValid w
  Step-IsValid {v = v} room h (accepts max_connections id max_requests timeout enable e) =
      accepts-IsValid v max_connections id max_requests timeout enable (omega (arith, room)) e h
  Step-IsValid {v = v} room h (handles id handler s s' effects e r) =
      handles-IsValid v id s s' effects (omega (arith, room, length-update id s' v.table)) e
        (handle-Sound http handler s s' effects r) h
  Step-IsValid room h (signals drain_timeout signal) = record {
    distinct = h.distinct;
    sessions = unfold begin_drain in h.sessions;
    counted = unfold begin_drain in h.counted;
    complete = λ d z c. cc;
  }
  Step-IsValid {v = v} room h checks = checks-IsValid v h
  Step-IsValid {v = v} room h (drain_timer_fires aborted) = drain_timer-IsValid v aborted h
  Step-IsValid {v = v} room h (shuts_down drain_timeout abandoned e) =
      shuts_down-IsValid v drain_timeout abandoned e h

  -- In every order of accepts, handlers of sessions, signal, drain timer and shutdown: the server's
  -- set holds exactly the sessions that have not ended, its count is their number, and a drain that
  -- has been checked for never misses that no session is left. Fewer than 2^64 sessions are made.
  pub Reach-IsValid : (w : World) → Reach http w → length w.table < size_mod → IsValid w
  Reach-IsValid w here room = new_world-IsValid
  Reach-IsValid w (next {v = v} r st) room =
      Step-IsValid room (Reach-IsValid v r (omega (arith, Step-length st, room))) st

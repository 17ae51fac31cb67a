-- ===== src/Server/World/Drain.antt =====
-- When the I/O context is stopped.
use priority_http_server.Prelude.{
  ℕ, ◌<◌, ◌≡◌, refl, sym, ◌∙◌, true, false, [], ◌∷◌, arith, length, inl, inr,
}
use priority_http_server.Prelude.Int.{size_mod}
use priority_http_server.Http.{Http}
use priority_http_server.Session.Ending.{handle-Sound}
use priority_http_server.Server.{
  HttpServer, check_drain_complete, remove_session, end_session, insert_session, on_accept,
  begin_drain, on_drain_timer, shutdown,
}
use priority_http_server.Server.Table.{Table, live}
use priority_http_server.Server.World.{
  World, Step, accepts, handles, signals, checks, drain_timer_fires, shuts_down, Reach, next,
}
use priority_http_server.Server.World.Invariant.{
  Reach-IsValid, Sound-cases, report-none, report-one,
}

module _ (http : Http) where
  end_session-stops :
      (id : ℕ) (s : HttpServer)
      → s.stopped ≡ false
      → (end_session id s).0.stopped ≡ true
      → ((end_session id s).0.draining ≡ true) × ((end_session id s).0.active_sessions ≡ 0)
  unfolding end_session remove_session check_drain_complete
  end_session-stops id s before after = ground (arith, before, after)

  Step-stops :
      {v w : World}
      → Step http v w
      → v.server.stopped ≡ false
      → w.server.stopped ≡ true
      → (w.server.draining ≡ true) × (w.server.active_sessions ≡ 0)
  unfolding on_accept insert_session begin_drain check_drain_complete on_drain_timer shutdown
  Step-stops (accepts max_connections id max_requests timeout enable e) before after = absurd (cc)
  Step-stops {v = v} (handles id h s s' effects e r) before after =
      elim (Sound-cases http s s' effects (handle-Sound http h s s' effects r)) [
        | inl (same, quiet) ↦
            absurd (ground (arith, before, after, report-none http id effects v.server quiet))
        | inr (open_before, ended, once) ↦
            let one = report-one http id effects v.server once in
            rw one (end_session-stops id v.server before (rw one at after))
      ]
  Step-stops (signals drain_timeout signal) before after = absurd (cc)
  Step-stops checks before after = ground (arith, before, after)
  Step-stops (drain_timer_fires aborted) before after = ground (arith, before, after)
  Step-stops (shuts_down drain_timeout abandoned e) before after = absurd (cc)

  none_live : (t : Table) → length (live t) ≡ 0 → live t ≡ []
  none_live t h =
      elim (live t) as (λ xs. length xs ≡ 0 → xs ≡ []) [
        | [] ↦ λ e. refl
        | x ∷ xs ↦ λ e. absurd (omega (arith, e))
      ]
        h

  -- A handler that stops the I/O context of a reachable server finds it draining and leaves no
  -- session that has not ended, if fewer than 2^64 sessions are made.
  pub stops_when_drained :
      (v w : World)
      → Reach http v
      → Step http v w
      → length w.table < size_mod
      → v.server.stopped ≡ false
      → w.server.stopped ≡ true
      → (w.server.draining ≡ true) × (live w.table ≡ [])
  stops_when_drained v w r st room before after =
      let valid = Reach-IsValid http w (next r st) room in
      let (drains, none_active) = Step-stops st before after in
      (drains, none_live w.table (sym valid.counted ∙ none_active))

-- ===== src/Server/KeepAlive.antt =====
-- `sendResponse` and `isKeepAlive` of the server, with what the session makes of the flag.
use priority_http_server.Prelude.{
  ℕ, ◌≡◌, ◌↔◌, refl, Bool, true, false, [], ◌∷◌, map, Option, some, arith, if◌then◌else◌, count_if,
  inl, inr, is_empty, Option-cases,
}
use priority_http_server.Prelude.Text.{Text, codes, text_eq_iff, to_lower}
use priority_http_server.Http.{
  Http, Request, server, access_control_allow_origin, content_type, content_length,
}
use priority_http_server.Session.{
  Session, written, on_write, write_done, write_failed, end_session,
  send_response as session_response,
}
use priority_http_server.Session.Ending.{is_end, is_io}
use priority_http_server.Server.{is_keep_alive, send_response}

module _ (http : Http) where
  asks_close :
      (req : Request http) (value : Text)
      → req.find (codes "Connection") ≡ some value
      → map to_lower value ≡ codes "close"
      → is_keep_alive http (some req) ≡ false
  unfolding is_keep_alive
  asks_close req value h c = rw (is_keep_alive, h) (rw ((text_eq_iff _ _).1 c) refl)

  -- The connection is not kept exactly for a request whose Connection header is `close`, in whatever
  -- case.
  pub is_keep_alive_iff :
      (req : Request http)
      → (is_keep_alive http (some req) ≡ false) ↔ (
          (value : Text) × (req.find (codes "Connection") ≡ some value)
          × (map to_lower value ≡ codes "close"))
  unfolding is_keep_alive
  is_keep_alive_iff req = (
    (λ k. elim (Option-cases (req.find (codes "Connection"))) [
      | inl e ↦ absurd (ground (arith, e, k))
      | inr (value, e) ↦ (value, e, (text_eq_iff _ _).0 (ground (arith, e, k)))
    ]),
    λ c. asks_close req c.0 c.1 c.2,
  )

  -- The server names itself in every response, and names the allowed origin where one is
  -- configured; the type and the length of the content, the status and the body stay.
  pub send_response_fields :
      (server_name origin : Text) (enable : Bool) (req : Option (Request http))
      (res : http.Response)
      → let sent = (send_response http server_name origin enable req res).0 in
        (http.field_of server sent ≡ some server_name)
        × (http.field_of access_control_allow_origin sent ≡ (
            if is_empty origin then http.field_of access_control_allow_origin res else some origin))
        × (http.field_of content_type sent ≡ http.field_of content_type res)
        × (http.field_of content_length sent ≡ http.field_of content_length res)
        × (http.status_of sent ≡ http.status_of res)
        × (http.body_of sent ≡ http.body_of res)
  unfolding send_response
  send_response_fields server_name [] enable req res =
      simp (http.field-set, http.status-set, http.body-set) (refl, refl, refl, refl, refl, refl)
  send_response_fields server_name (c ∷ origin) enable req res =
      simp (http.field-set, http.status-set, http.body-set) (refl, refl, refl, refl, refl, refl)

  unkept_ends :
      (limit : ℕ) (draining : Bool) (sent : http.Response) (s : Session)
      → s.closed ≡ false
      → s.ended ≡ false
      → let after = on_write http limit draining written (session_response http sent false s).0 in
        (after.0.ended ≡ true)
        × (count_if (is_end http) after.1 ≡ 1)
        × (count_if (is_io http) after.1 ≡ 0)
  unfolding session_response on_write write_done write_failed end_session count_if
  unkept_ends limit draining sent s o e = ground (arith, o, e)

  -- Once a response to a request that asks to close is written on a session that is neither closed
  -- nor ended, the session ends, reports its end once, and reads and writes nothing more.
  pub close_ends_session :
      (server_name origin value : Text) (enable draining : Bool) (limit : ℕ) (req : Request http)
      (res : http.Response) (s : Session)
      → s.closed ≡ false
      → s.ended ≡ false
      → req.find (codes "Connection") ≡ some value
      → map to_lower value ≡ codes "close"
      → let (sent, keep) = send_response http server_name origin enable (some req) res in
        let after = on_write http limit draining written (session_response http sent keep s).0 in
        (after.0.ended ≡ true)
        × (count_if (is_end http) after.1 ≡ 1)
        × (count_if (is_io http) after.1 ≡ 0)
  unfolding send_response
  close_ends_session server_name origin value enable draining limit req res s o e h c =
      rw (asks_close req value h c) (
        unkept_ends limit draining (send_response http server_name origin enable (some req) res).0 s
          o e)

-- ===== src/StaticFiles/Head.antt =====
-- What a HEAD request for a static file gets.
use priority_http_server.Prelude.{
  ℕ, ◌≡◌, refl, sym, ap, ◌∙◌, true, false, [], ◌∷◌, some, if◌then◌else◌, arith, length, Bool-cases,
  inl, inr,
}
use priority_http_server.Prelude.Int.{ℤ}
use priority_http_server.Prelude.Text.{codes, text_eq, text_eq_iff}
use priority_http_server.Numbers.{decimal}
use priority_http_server.Heap.{HeapAlgorithms}
use priority_http_server.TaskQueue.{PrioritizedTask, compare_tasks}
use priority_http_server.ThreadPool.{ThreadPool}
use priority_http_server.Http.{
  Http, Request, content_length, make_response, status_ok, field-make_response,
}
use priority_http_server.HttpTask.{HttpTask}
use priority_http_server.Router.{RouterTable, route_handler, route}
use priority_http_server.RequestProcessor.{sends, is_compute, process}
use priority_http_server.StaticFiles.{FileSystem, StaticFileHandler, handle_static, get_mime_type}
use priority_http_server.StaticFiles.Serving.{Served, handle_static_answer}

names_apart : text_eq (codes "HEAD") (codes "POST") ≡ false
unfolding text_eq
names_apart = refl

module _ (http : Http) where
  head_not_post : http.verb_eq http.head http.post ≡ false
  head_not_post = elim (Bool-cases (http.verb_eq http.head http.post)) [
    | inl e ↦
        let same : codes "HEAD" ≡ codes "POST" =
          sym http.verb_name-head
          ∙ ap http.verb_name ((http.verb_eq_iff http.head http.post).0 e)
          ∙ http.verb_name-post in
        absurd (ground (arith, (text_eq_iff (codes "HEAD") (codes "POST")).1 same, names_apart))
    | inr e ↦ e
  ]

  -- The body of a served HEAD request is empty, and its length that of the file.
  head_response :
      (files : FileSystem) (handler : StaticFileHandler) (req : Request http) (res : http.Response)
      → req.method ≡ http.head
      → http.status_of (handle_static http files handler req res) ≡ 200
      → (served : Served files handler req.target) × (http.body_of
            (handle_static http files handler req res)
          ≡ [])
        × (http.field_of content_length (handle_static http files handler req res)
            ≡ some (decimal (length served.content)))
  head_response files handler req res m h =
      let (served, answer) = handle_static_answer http files handler req res h in
      let is_head : http.verb_eq req.method http.head ≡ true =
        (http.verb_eq_iff req.method http.head).1 m in
      let made =
        make_response http status_ok served.content (get_mime_type (files.extension served.path))
          res in
      let emptied : handle_static http files handler req res ≡ http.body [] made =
        answer ∙ ap (λ b. if b then http.body [] made else made) is_head in
      (
        served,
        ap http.body_of emptied ∙ http.body-body [] made,
        ap (http.field_of content_length) emptied
            ∙ http.field-body content_length [] made
            ∙ field-make_response http content_length status_ok served.content _ res,
      )

  module _ (heaps : HeapAlgorithms (PrioritizedTask (HttpTask http)) compare_tasks) where
    -- A HEAD request for a file that is served: the handler sets the length of the file, but `process`
    -- prepares the emptied response once more, and it is sent with Content-Length 0.
    pub head_loses_length :
        (files : FileSystem) (handler : StaticFileHandler) (now : ℕ)
        (table : RouterTable (Request http → http.Response → http.Response)) (req : Request http)
        (priority : ℤ) (session : ℕ) (pool : ThreadPool (HttpTask http))
        → req.method ≡ http.head
        → route_handler http req table ≡ some (handle_static http files handler)
        → http.status_of (handle_static http files handler req http.fresh) ≡ 200
        → (served : Served files handler req.target) × (sent : http.Response) × (http.field_of
              content_length
              (handle_static http files handler req http.fresh)
            ≡ some (decimal (length served.content)))
          × ((process http heaps now table req priority session pool).1
              ≡ sends sent (some req) ∷ [])
          × (http.field_of content_length sent ≡ some (decimal 0))
    unfolding process route is_compute
    head_loses_length files handler now table req priority session pool m routed h =
        let (served, empty, sized) = head_response files handler req http.fresh m h in
        let res = handle_static http files handler req http.fresh in
        (
          served,
          http.prepare_payload res,
          sized,
          rw (process, is_compute, route, routed, m, head_not_post) refl,
          http.field-prepare_payload content_length res ∙ ap (λ b. some (decimal (length b))) empty,
        )

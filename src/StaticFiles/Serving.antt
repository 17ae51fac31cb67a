-- ===== src/StaticFiles/Serving.antt =====
-- Which files the handler serves, and what HEAD gets.
use priority_http_server.Prelude.{
  ℕ, ◌≤◌, ◌≡◌, refl, true, List, [], some, if◌then◌else◌, arith, length, Bool-cases, Option-cases,
  inl, inr,
}
use priority_http_server.Prelude.Text.{Text, codes}
use priority_http_server.Http.{
  Http, Request, make_response, send_not_found, status_ok, status_payload_too_large,
  status_not_found, status-make_response, body-make_response,
}
use priority_http_server.StaticFiles.{
  FileSystem, StaticFileHandler, is_inside, drop, serve, locate, handle_static, get_mime_type,
}

-- The file of a request that is served: it is inside the root, regular, and not too large.
pub record Served (files : FileSystem) (handler : StaticFileHandler) (target : Text) : Type 0 where
  pub path : Text
  pub canonical : List Text
  pub size : ℕ
  pub content : Text
  pub named : path ≡ files.join handler.root_path (drop (length (codes "/static/")) target)
  pub resolves : files.weakly_canonical path ≡ some canonical
  pub inside : is_inside handler.root_canonical canonical ≡ true
  pub regular : files.is_regular_file path ≡ true
  pub sized : files.file_size path ≡ some size
  pub small : size ≤ handler.max_file_size
  pub opens : files.read path ≡ some content

module _ (http : Http) (files : FileSystem) where
  pub not_found_status : (res : http.Response) → http.status_of (send_not_found http res) ≡ 404
  unfolding send_not_found
  not_found_status res = status-make_response http status_not_found _ _ res

  pub too_large_status :
      (res : http.Response)
      → http.status_of (
          make_response http status_payload_too_large
            (codes "413 Payload Too Large")
            (codes "text/plain")
            res)
        ≡ 413
  too_large_status res = status-make_response http status_payload_too_large _ _ res

  -- A response with status 200 is the one of a file.
  pub handle_static_answer :
      (handler : StaticFileHandler) (req : Request http) (res : http.Response)
      → http.status_of (handle_static http files handler req res) ≡ 200
      → (served : Served files handler req.target) × (handle_static http files handler req res ≡ (
          if http.verb_eq req.method http.head
          then http.body [] (
              make_response http status_ok served.content
                (get_mime_type (files.extension served.path))
                res)
          else make_response http status_ok served.content
              (get_mime_type (files.extension served.path))
              res))
  unfolding handle_static locate serve
  handle_static_answer handler req res h =
      let relative = drop (length (codes "/static/")) req.target in
      let path = files.join handler.root_path relative in
      let missing = not_found_status res in
      let large = too_large_status res in
      elim (Option-cases (files.weakly_canonical path)) [
        | inl e ↦ absurd (ground (arith, e, h, missing))
        | inr (canonical, e) ↦ elim (Option-cases (files.file_size path)) [
          | inl f ↦ absurd (ground (arith, e, f, h, missing))
          | inr (size, f) ↦ elim (Option-cases (files.read path)) [
            | inl g ↦ absurd (ground (arith, e, f, g, h, missing, large))
            | inr (content, g) ↦ (
              record {
                path = path;
                canonical = canonical;
                size = size;
                content = content;
                named = refl;
                resolves = e;
                inside = ground (arith, e, h, missing);
                regular = ground (arith, e, h, missing);
                sized = f;
                small = ground (arith, e, f, h, missing, large);
                opens = g;
              },
              ground (arith, e, f, g, h, missing, large),
            )
          ]
        ]
      ]

  -- No traversal: a response with status 200 has for its body the content of a regular file (none for
  -- HEAD) that is inside the root, whatever the target of the request, and within the size limit.
  pub handle_static_inside :
      (handler : StaticFileHandler) (req : Request http) (res : http.Response)
      → let answer = handle_static http files handler req res in
        http.status_of answer ≡ 200
        → (served : Served files handler req.target) × (http.body_of answer
            ≡ (if http.verb_eq req.method http.head then [] else served.content))
  handle_static_inside handler req res h =
      let (served, e) = handle_static_answer handler req res h in
      let mime = get_mime_type (files.extension served.path) in
      let body = body-make_response http status_ok served.content mime res in
      elim (Bool-cases (http.verb_eq req.method http.head)) [
        | inl k ↦ (served, rw (e, k) (http.body-body [] _))
        | inr k ↦ (served, rw (e, k) body)
      ]

-- ===== src/StaticFiles.antt =====
-- class StaticFileHandler (include/static_file_handler.hpp, src/static_file_handler.cpp) and class
-- StatusHandler (src/status_handler.cpp). The file system is a parameter; a canonical path is the list
-- of its components.
pub mod Serving
pub mod Head
use priority_http_server.Prelude.{
  ℕ, Bool, true, false, not, ◌&&◌, ◌||◌, List, [], ◌∷◌, Option, none, some, if◌then◌else◌, is_empty,
  length, ltb,
}
use priority_http_server.Prelude.Text.{Text, codes, text_eq, starts_with}
use priority_http_server.Json.{Json}
use priority_http_server.Http.{
  Http, Request, make_response, send_not_found, status_ok, status_payload_too_large,
}
use priority_http_server.ThreadPool.{ThreadPool, thread_count, pending_tasks}
use priority_http_server.RequestProcessor.{make_json_success}

-- What the handler asks of std::filesystem and std::ifstream; none stands for an error code or a file
-- that does not open.
pub record FileSystem : Type 0 where
  -- `operator/`
  pub join : Text → Text → Text
  pub weakly_canonical : Text → Option (List Text)
  pub is_file : Text → Bool
  pub is_regular_file : Text → Bool
  pub file_size : Text → Option ℕ
  pub read : Text → Option Text
  pub extension : Text → Text

pub record StaticFileHandler : Type 0 where
  pub root_path : Text
  pub max_file_size : ℕ
  pub root_canonical : List Text

-- The constructor; none if it throws.
unfoldable pub static_file_handler : FileSystem → Text → ℕ → Option StaticFileHandler
static_file_handler files root_path max_file_size = elim (files.weakly_canonical root_path) [
  | none ↦ none
  | some root ↦
      some (record { root_path = root_path; max_file_size = max_file_size; root_canonical = root })
]

abbrev pub mime_map : List (Text × Text)
mime_map =
    (codes ".html", codes "text/html")
    ∷ (codes ".htm", codes "text/html")
    ∷ (codes ".css", codes "text/css")
    ∷ (codes ".js", codes "application/javascript")
    ∷ (codes ".json", codes "application/json")
    ∷ (codes ".png", codes "image/png")
    ∷ (codes ".jpg", codes "image/jpeg")
    ∷ (codes ".jpeg", codes "image/jpeg")
    ∷ (codes ".gif", codes "image/gif")
    ∷ (codes ".svg", codes "image/svg+xml")
    ∷ (codes ".ico", codes "image/x-icon")
    ∷ (codes ".txt", codes "text/plain")
    ∷ (codes ".xml", codes "application/xml")
    ∷ (codes ".pdf", codes "application/pdf")
    ∷ (codes ".zip", codes "application/zip")
    ∷ []

unfoldable pub find_mime : Text → List (Text × Text) → Text
find_mime extension [] = codes "application/octet-stream"
find_mime extension ((e, mime) ∷ rest) =
    if text_eq e extension then mime else find_mime extension rest

unfoldable pub get_mime_type : Text → Text
unfolding find_mime
get_mime_type extension = find_mime extension mime_map

-- `std::mismatch` comes to the end of the root: the root is the beginning of the path.
unfoldable pub is_inside : List Text → List Text → Bool
is_inside [] path = true
is_inside (r ∷ root) [] = false
is_inside (r ∷ root) (p ∷ path) = text_eq r p && is_inside root path

-- `substr`
unfoldable pub drop : ℕ → Text → Text
drop ℕ.zero s = s
drop (ℕ.suc n) [] = []
drop (ℕ.suc n) (c ∷ s) = drop n s

module _ (http : Http) (files : FileSystem) where
  -- From step 6 on: the file is inside the root.
  unfoldable pub serve : StaticFileHandler → Text → http.Verb → http.Response → http.Response
  unfolding get_mime_type
  serve handler full_path method res =
      if not (files.is_file full_path) || not (files.is_regular_file full_path)
      then send_not_found http res
      else elim (files.file_size full_path) [
        | none ↦ send_not_found http res
        | some size ↦
            if ltb handler.max_file_size size
            then make_response http status_payload_too_large (codes "413 Payload Too Large")
                (codes "text/plain") res
            else elim (files.read full_path) [
              | none ↦ send_not_found http res
              | some content ↦
                  let answer =
                    make_response http status_ok content (get_mime_type (files.extension full_path))
                      res in
                  if http.verb_eq method http.head then http.body [] answer else answer
            ]
      ]

  -- Steps 3 to 5: the path of the file, which must be inside the root.
  unfoldable pub locate : StaticFileHandler → Text → http.Verb → http.Response → http.Response
  unfolding serve is_inside
  locate handler relative_path method res =
      let full_path = files.join handler.root_path relative_path in
      elim (files.weakly_canonical full_path) [
        | none ↦ send_not_found http res
        | some canonical ↦
            if is_inside handler.root_canonical canonical
            then serve handler full_path method res
            else send_not_found http res
      ]

  unfoldable pub handle_static : StaticFileHandler → Request http → http.Response → http.Response
  unfolding locate drop
  handle_static handler req res =
      let relative_path = drop (length (codes "/static/")) req.target in
      if not (starts_with (codes "/static/") req.target)
      then send_not_found http res
      else if is_empty relative_path
      then send_not_found http res
      else locate handler relative_path req.method res

module _ {ℓ} {T : Type ℓ} (http : Http) (json : Json) where
  -- StatusHandler::handle
  unfoldable pub handle_status : ThreadPool T → Request http → http.Response → http.Response
  handle_status pool req res =
      make_json_success http json
        (json.object (
          (codes "threads", json.unsigned (thread_count pool))
          ∷ (codes "queue_size", json.unsigned (pending_tasks pool))
          ∷ []))
        res

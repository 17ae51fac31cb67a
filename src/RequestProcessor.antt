-- ===== src/RequestProcessor.antt =====
-- class RequestProcessor (include/request_processor.hpp, src/request_processor.cpp), with the JSON
-- answers of include/utils.hpp. A session is known by a number, as in `Server`.
pub mod Compute
use priority_http_server.Prelude.{
  ℕ, Bool, ◌&&◌, List, [], ◌∷◌, Option, none, some, if◌then◌else◌, length,
}
use priority_http_server.Prelude.Int.{ℤ, ltb_ℤ}
use priority_http_server.Prelude.Text.{Text, codes, text_eq}
use priority_http_server.Heap.{HeapAlgorithms}
use priority_http_server.TaskQueue.{PrioritizedTask, compare_tasks}
use priority_http_server.ThreadPool.{ThreadPool, submit}
use priority_http_server.Json.{Json}
use priority_http_server.Http.{
  Http, Request, make_response, send_not_found, status_ok, status_bad_request,
  status_service_unavailable,
}
use priority_http_server.Router.{RouterTable, route}
use priority_http_server.HttpTask.{HttpTask}

-- std::sort on a vector of int
unfoldable pub insert_int : ℤ → List ℤ → List ℤ
insert_int x [] = x ∷ []
insert_int x (y ∷ ys) = let rest = insert_int x ys in if ltb_ℤ y x then y ∷ rest else x ∷ y ∷ ys

unfoldable pub sort : List ℤ → List ℤ
unfolding insert_int
sort [] = []
sort (x ∷ xs) = insert_int x (sort xs)

-- `m_server.sendResponse` now, or posted to the I/O context by `sendResponseAsync`; the request is a
-- null pointer for none.
pub data Answer (http : Http) : Type 0 where
  sends posts : http.Response → Option (Request http) → Answer http

module _ (http : Http) (json : Json) where
  -- utils::makeJsonSuccess, whose status is ok in every call
  unfoldable pub make_json_success : json.Value → http.Response → http.Response
  make_json_success data_value res =
      make_response http status_ok
        (json.dump (
          json.object
            ((codes "status", json.string (codes "ok")) ∷ (codes "data", data_value) ∷ [])))
        (codes "application/json") res

  -- utils::makeJsonError, whose status is bad_request in every call
  unfoldable pub make_json_error : Text → http.Response → http.Response
  make_json_error message res =
      make_response http status_bad_request
        (json.dump (
          json.object (
            (codes "status", json.string (codes "error"))
            ∷ (codes "message", json.string message)
            ∷ [])))
        (codes "application/json") res

  abbrev pub sorted_data : List ℤ → json.Value
  sorted_data numbers =
      json.object
        ((codes "sorted", json.ints numbers) ∷ (codes "size", json.unsigned (length numbers)) ∷ [])

  unfoldable pub compute_numbers : List ℤ → http.Response
  unfolding make_json_success make_json_error sort
  compute_numbers [] =
      make_json_error (codes "Request body must be an array of integers") http.fresh
  compute_numbers (n ∷ numbers) = make_json_success (sorted_data (sort (n ∷ numbers))) http.fresh

  -- The function of `createComputeStrategy`; an exception of nlohmann/json is caught.
  unfoldable pub compute : Request http → http.Response
  unfolding compute_numbers make_json_error
  compute req = elim (json.parse req.body) [
    | none ↦ make_json_error (codes "Invalid JSON") http.fresh
    | some value ↦
        if json.is_array value
        then elim (json.get_ints value) [
          | none ↦ make_json_error (codes "Invalid JSON") http.fresh
          | some numbers ↦ compute_numbers numbers
        ]
        else make_json_error (codes "Request body must be an array of integers") http.fresh
  ]

module _ (http : Http)
    (heaps : HeapAlgorithms (PrioritizedTask (HttpTask http)) compare_tasks) where
  unfoldable pub is_compute : Request http → Bool
  is_compute req = http.verb_eq req.method http.post && text_eq req.target (codes "/compute")

  -- `process`: the pool after it, and the answer that it gives itself. `now` is the time of the push.
  unfoldable pub process :
      ℕ
      → RouterTable (Request http → http.Response → http.Response)
      → Request http
      → ℤ
      → ℕ
      → ThreadPool (HttpTask http)
      → ThreadPool (HttpTask http) × List (Answer http)
  unfolding is_compute
  process now table req priority session pool =
      let task : HttpTask http = record { request = req; session = session } in
      let (accepted, pool') = submit heaps now task priority pool in
      let refusal =
        make_response http status_service_unavailable (codes "503 Server overloaded")
          (codes "text/plain") http.fresh in
      let routed = http.prepare_payload (elim (route http (λ handle. handle) req http.fresh table) [
        | none ↦ send_not_found http http.fresh
        | some res ↦ res
      ]) in
      if is_compute req
      then if accepted then (pool', []) else (pool', posts refusal none ∷ [])
      else (pool, sends routed (some req) ∷ [])

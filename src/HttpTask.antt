-- ===== src/HttpTask.antt =====
-- class HttpTask (include/http_task.hpp, src/http_task.cpp): a task of the pool that computes the
-- response to a request and hands it to a callback.
use priority_http_server.Prelude.{
  ℕ, ◌≡◌, ◌⊎◌, inl, inr, refl, Bool, true, false, List, [], ◌∷◌, ◌++◌, Option, none, some, count_if,
  arith,
}
use priority_http_server.Prelude.Text.{Text, codes}
use priority_http_server.Http.{Http, Request, make_response, status_internal_server_error}

-- A task of the pool: its request, and the session that its callback holds.
pub record HttpTask (http : Http) : Type 0 where
  pub request : Request http
  pub session : ℕ

-- An exception: a std::exception with its text, or another one.
pub data Failure : Type 0 where
  std_exception : Text → Failure
  unknown : Failure

pub data TaskEffect (http : Http) : Type 0 where
  logs_error : Text → TaskEffect http
  completes : http.Response → TaskEffect http

module _ (http : Http) where
  -- What `m_computeFn` makes of the request, and what a call of the callback throws, if it does.
  abbrev pub Compute : Type 0
  Compute = Request http → Failure ⊎ http.Response

  abbrev pub Callback : Type 0
  Callback = http.Response → Option Failure

  unfoldable pub failure_message : Failure → Text
  failure_message (std_exception what) = codes "HttpTask error: " ++ what
  failure_message unknown = codes "HttpTask unknown error"

  -- `sendError`: its calls, and the exception that leaves it.
  unfoldable pub send_error : Callback → Text → List (TaskEffect http) × Option Failure
  send_error done message =
      let res =
        make_response http status_internal_server_error (codes "500 Internal Server Error")
          (codes "text/plain") http.fresh in
      (logs_error message ∷ completes res ∷ [], done res)

  -- `execute`: the calls of the callback and of the logger, and the exception that leaves it.
  unfoldable pub execute :
      Compute → Callback → Request http → List (TaskEffect http) × Option Failure
  unfolding send_error failure_message
  execute compute done req = elim (compute req) [
    | inl failure ↦ send_error done (failure_message failure)
    | inr response ↦ elim (done response) [
      | none ↦ (completes response ∷ [], none)
      | some failure ↦
          let (effects, escaped) = send_error done (failure_message failure) in
          (completes response ∷ effects, escaped)
    ]
  ]

  abbrev pub is_completion : TaskEffect http → Bool
  is_completion (completes r) = true
  is_completion (logs_error m) = false

  -- The response that a task gives: the computed one, or 500 for a computation that throws.
  abbrev pub outcome : Failure ⊎ http.Response → http.Response
  outcome (inl failure) =
      make_response http status_internal_server_error (codes "500 Internal Server Error")
        (codes "text/plain") http.fresh
  outcome (inr response) = response

  execute-outcome :
      (compute : Compute) (req : Request http) (result : Failure ⊎ http.Response)
      → compute req ≡ result
      → (before : List (TaskEffect http)) × (execute compute (λ r. none) req
          ≡ (before ++ completes (outcome result) ∷ [], none))
        × (count_if is_completion before ≡ 0)
  unfolding execute send_error count_if
  execute-outcome compute req (inl failure) e =
      (logs_error (failure_message failure) ∷ [], rw (execute, e) refl, omega arith)
  execute-outcome compute req (inr response) e = ([], rw (execute, e) refl, omega arith)

  -- With a callback that returns, a task calls it exactly once, last, whether the computation returns
  -- or throws, and no exception leaves the task.
  pub execute_completes_once :
      (compute : Compute) (req : Request http)
      → (before : List (TaskEffect http)) × (execute compute (λ r. none) req
          ≡ (before ++ completes (outcome (compute req)) ∷ [], none))
        × (count_if is_completion before ≡ 0)
  execute_completes_once compute req = execute-outcome compute req (compute req) refl

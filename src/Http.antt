-- ===== src/Http.antt =====
-- What the server uses of Boost.Beast: verbs, the parts of a request that it reads, and responses
-- with the effect that Beast documents for each of their setters. Then the helpers of
-- include/utils.hpp that fill a response.
use priority_http_server.Prelude.{
  ℕ, ◌≡◌, ◌↔◌, Bool, true, Option, none, some, if◌then◌else◌, length, Mem,
}
use priority_http_server.Prelude.Text.{Text, codes}
use priority_http_server.Numbers.{decimal}

-- The header fields of a response that the program names.
pub data Field : Type 0 where
  content_type content_length server access_control_allow_origin : Field

abbrev pub is_content_length : Field → Bool
is_content_length content_length = true
is_content_length _ = Bool.false

abbrev pub same_field : Field → Field → Bool
same_field content_type content_type = true
same_field content_length content_length = true
same_field server server = true
same_field access_control_allow_origin access_control_allow_origin = true
same_field _ _ = Bool.false

-- The status codes of http::status that the program uses.
abbrev pub status_ok : ℕ
status_ok = 200

abbrev pub status_bad_request : ℕ
status_bad_request = 400

abbrev pub status_not_found : ℕ
status_not_found = 404

abbrev pub status_payload_too_large : ℕ
status_payload_too_large = 413

abbrev pub status_internal_server_error : ℕ
status_internal_server_error = 500

abbrev pub status_service_unavailable : ℕ
status_service_unavailable = 503

pub record Http : Type 1 where
  pub Verb : Type 0
  pub get : Verb
  pub head : Verb
  pub post : Verb
  pub verb_eq : Verb → Verb → Bool
  -- http::to_string
  pub verb_name : Verb → Text
  -- http::response<http::string_body>, and a default one
  pub Response : Type 0
  pub fresh : Response
  pub result : ℕ → Response → Response
  pub body : Text → Response → Response
  pub set : Field → Text → Response → Response
  pub prepare_payload : Response → Response
  pub status_of : Response → ℕ
  pub body_of : Response → Text
  pub field_of : Field → Response → Option Text
  pub verb_eq_iff : (a b : Verb) → (verb_eq a b ≡ true) ↔ (a ≡ b)
  pub verb_name-get : verb_name get ≡ codes "GET"
  pub verb_name-head : verb_name head ≡ codes "HEAD"
  pub verb_name-post : verb_name post ≡ codes "POST"
  pub verb_name_injective : (a b : Verb) → verb_name a ≡ verb_name b → a ≡ b
  -- A method is a token, which holds no space.
  pub verb_name_no_space : (a : Verb) → ¬ Mem b' ' (verb_name a)
  pub body-fresh : body_of fresh ≡ codes ""
  pub field-fresh : (f : Field) → field_of f fresh ≡ none
  pub status-result : (s : ℕ) (r : Response) → status_of (result s r) ≡ s
  pub body-result : (s : ℕ) (r : Response) → body_of (result s r) ≡ body_of r
  pub field-result : (f : Field) (s : ℕ) (r : Response) → field_of f (result s r) ≡ field_of f r
  pub status-body : (b : Text) (r : Response) → status_of (body b r) ≡ status_of r
  pub body-body : (b : Text) (r : Response) → body_of (body b r) ≡ b
  pub field-body : (f : Field) (b : Text) (r : Response) → field_of f (body b r) ≡ field_of f r
  pub status-set : (f : Field) (v : Text) (r : Response) → status_of (set f v r) ≡ status_of r
  pub body-set : (f : Field) (v : Text) (r : Response) → body_of (set f v r) ≡ body_of r
  pub field-set :
      (f g : Field) (v : Text) (r : Response)
      → field_of f (set g v r) ≡ (if same_field f g then some v else field_of f r)
  pub status-prepare_payload : (r : Response) → status_of (prepare_payload r) ≡ status_of r
  pub body-prepare_payload : (r : Response) → body_of (prepare_payload r) ≡ body_of r
  -- Content-Length becomes the size of the body; the other fields here stay.
  pub field-prepare_payload :
      (f : Field) (r : Response)
      → field_of f (prepare_payload r)
        ≡ (if is_content_length f then some (decimal (length (body_of r))) else field_of f r)

-- The parts of a request that the program reads. `find` is a lookup among its header fields.
pub record Request (http : Http) : Type 0 where
  pub method : http.Verb
  pub target : Text
  pub find : Text → Option Text
  pub body : Text

module _ (http : Http) where
  open http use {Response}

  -- utils::makeResponse
  unfoldable pub make_response : ℕ → Text → Text → Response → Response
  make_response status body mime res =
      http.prepare_payload (http.set content_type mime (http.body body (http.result status res)))

  -- utils::sendNotFound
  unfoldable pub send_not_found : Response → Response
  unfolding make_response
  send_not_found res =
      make_response status_not_found (codes "404 Not Found") (codes "text/plain") res

  pub status-make_response :
      (status : ℕ) (body mime : Text) (res : Response)
      → http.status_of (make_response status body mime res) ≡ status
  unfolding make_response
  status-make_response status body mime res =
      simp (http.status-prepare_payload, http.status-set, http.status-body, http.status-result)

  pub body-make_response :
      (status : ℕ) (body mime : Text) (res : Response)
      → http.body_of (make_response status body mime res) ≡ body
  unfolding make_response
  body-make_response status body mime res =
      simp (http.body-prepare_payload, http.body-set, http.body-body)

  pub field-make_response :
      (f : Field) (status : ℕ) (body mime : Text) (res : Response)
      → http.field_of f (make_response status body mime res) ≡ (
          if is_content_length f
          then some (decimal (length body))
          else if same_field f content_type
          then some mime
          else http.field_of f res)
  unfolding make_response
  field-make_response f status body mime res = simp (
    http.field-prepare_payload, http.field-set, http.field-body, http.field-result, http.body-set,
    http.body-body,
  )

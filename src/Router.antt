-- ===== src/Router.antt =====
-- The routes (include/router.hpp, src/router.cpp). The unordered map of the source is a list of
-- its entries in the order in which the loop of `findPrefixHandler` meets them; that order is not
-- specified, and `Router.Order` proves that it does not matter. `H` is the type of the handlers.
pub mod Lookup
pub mod Prefix
pub mod Order
use priority_http_server.Prelude.{
  ℕ, ◌&&◌, List, [], ◌∷◌, ◌++◌, Option, none, some, ltb, if◌then◌else◌, length,
}
use priority_http_server.Prelude.Text.{Text, codes, text_eq, starts_with}
use priority_http_server.Http.{Http, Request}

-- m_routes: keys with their handlers.
abbrev pub RouterTable {ℓ} : Type ℓ → Type ℓ
RouterTable H = List (Text × H)

-- The variables of the loop of `findPrefixHandler`.
pub record Best {ℓ} (H : Type ℓ) : Type ℓ where
  pub best : Option H
  pub best_length : ℕ

unfoldable pub make_key : (http : Http) → http.Verb → Text → Text
make_key http method path = http.verb_name method ++ (codes " " ++ path)

module _ {ℓ} {H : Type ℓ} where
  -- `m_routes[key] = handler`
  unfoldable pub assign : Text → H → RouterTable H → RouterTable H
  assign key handler [] = (key, handler) ∷ []
  assign key handler ((k, h) ∷ table) =
      if text_eq k key then (k, handler) ∷ table else (k, h) ∷ assign key handler table

  -- `m_routes.find(key)`
  unfoldable pub find : Text → RouterTable H → Option H
  find key [] = none
  find key ((k, h) ∷ table) = if text_eq k key then some h else find key table

  -- One round of the loop of `findPrefixHandler`.
  unfoldable pub prefix_round : Text → Text × H → Best H → Best H
  prefix_round full_path (key, handler) b =
      if starts_with key full_path && ltb b.best_length (length key)
      then record { best = some handler; best_length = length key }
      else b

  unfoldable pub prefix_loop : Text → RouterTable H → Best H → Best H
  prefix_loop full_path [] b = b
  prefix_loop full_path (entry ∷ table) b =
      prefix_loop full_path table (prefix_round full_path entry b)

  module _ (http : Http) where
    unfoldable pub add_route : http.Verb → Text → H → RouterTable H → RouterTable H
    add_route method path handler table = assign (make_key http method path) handler table

    unfoldable pub find_handler : http.Verb → Text → RouterTable H → Option H
    find_handler method path table = find (make_key http method path) table

    unfoldable pub find_prefix_handler : http.Verb → Text → RouterTable H → Option H
    find_prefix_handler method path table =
        (prefix_loop (make_key http method path) table
          (record { best = none; best_length = 0 })).best

    -- The handler that `Router::route` calls; none if it returns false.
    unfoldable pub route_handler : Request http → RouterTable H → Option H
    route_handler req table = elim (find_handler req.method req.target table) [
      | some h ↦ some h
      | none ↦ find_prefix_handler req.method req.target table
    ]

    -- `Router::route`, with the response that it fills; none if it returns false.
    unfoldable pub route :
        (H → Request http → http.Response → http.Response)
        → Request http
        → http.Response
        → RouterTable H
        → Option http.Response
    unfolding route_handler
    route handle req res table = elim (route_handler req table) [
      | none ↦ none
      | some h ↦ some (handle h req res)
    ]

-- ===== src/Tests/Routes.antt =====
-- The router on small inputs.
use priority_http_server.Prelude.{if◌then◌else◌, ◌&&◌, ℕ, ◌≡◌, refl, [], none, some}
use mathlib.Core.List.{Nodup-nil, Nodup, Permᴰ}
use priority_http_server.Prelude.Text.{codes, text_eq, starts_with}
use priority_http_server.Http.{Request}
use priority_http_server.Router.{
  RouterTable, add_route, find_handler, find_prefix_handler, make_key, route_handler, assign, find,
  prefix_round, prefix_loop,
}
use priority_http_server.Router.Prefix.{Longest, find_prefix_handler-Longest}
use priority_http_server.Router.Order.{
  keys, add_route-Nodup, find_prefix_handler-perm, route_handler-eq-find_prefix_handler,
}
use priority_http_server.Server.Setup.{setup_routes, setup_routes_lem}
use priority_http_server.Tests.Beast.{beast, get_verb, post_verb}

-- The routes of the server, with numbers for handlers.
abbrev routes : RouterTable ℕ
routes = add_route beast get_verb (codes "/") 3 (
    add_route beast post_verb (codes "/compute") 2
      (add_route beast get_verb (codes "/status") 1 []))

-- The first two of them, in both orders.
abbrev two_routes : RouterTable ℕ
two_routes =
    add_route beast post_verb (codes "/compute") 2 (add_route beast get_verb (codes "/status") 1 [])

abbrev two_swapped : RouterTable ℕ
two_swapped =
    add_route beast get_verb (codes "/status") 1 (add_route beast post_verb (codes "/compute") 2 [])

two_routes-Nodup : Nodup (keys two_routes)
two_routes-Nodup =
    add_route-Nodup beast post_verb (codes "/compute") 2 _
      (add_route-Nodup beast get_verb (codes "/status") 1 [] Nodup-nil)

two_routes-perm : Permᴰ two_routes two_swapped
unfolding add_route assign text_eq make_key
two_routes-perm = Permᴰ.swap refl refl

routes-Nodup : Nodup (keys routes)
routes-Nodup = add_route-Nodup beast get_verb (codes "/") 3 _ (
    add_route-Nodup beast post_verb (codes "/compute") 2 _
      (add_route-Nodup beast get_verb (codes "/status") 1 [] Nodup-nil))

abbrev request : Request beast
request = record { method = get_verb; target = codes "/status/now"; find = λ f. none; body = [] }

status_found : route_handler beast request routes ≡ some 1
unfolding route_handler find_handler find add_route assign text_eq make_key find_prefix_handler
    prefix_loop prefix_round starts_with
status_found = refl

find_prefix_handler-Longest_example :
    Longest
      (make_key beast get_verb (codes "/index.html"))
      routes
      (find_prefix_handler beast get_verb (codes "/index.html") routes)
find_prefix_handler-Longest_example =
    find_prefix_handler-Longest beast get_verb (codes "/index.html") routes

find_prefix_handler-perm_example :
    find_prefix_handler beast get_verb (codes "/status/now") two_routes
    ≡ find_prefix_handler beast get_verb (codes "/status/now") two_swapped
find_prefix_handler-perm_example =
    find_prefix_handler-perm beast get_verb (codes "/status/now") two_routes two_swapped
      two_routes-perm two_routes-Nodup

route_handler-eq-find_prefix_handler_example :
    route_handler beast request routes
    ≡ find_prefix_handler beast get_verb (codes "/status/now") routes
route_handler-eq-find_prefix_handler_example =
    route_handler-eq-find_prefix_handler beast request routes routes-Nodup

abbrev server_routes : RouterTable ℕ
server_routes = setup_routes beast 1 2 3

setup_routes_lem_example : route_handler beast request server_routes ≡ (
    if beast.verb_eq beast.head get_verb && starts_with (codes "/static/") (codes "/status/now")
    then some 3
    else if beast.verb_eq beast.get get_verb && starts_with (codes "/static/") (codes "/status/now")
    then some 2
    else if beast.verb_eq beast.get get_verb && starts_with (codes "/status") (codes "/status/now")
    then some 1
    else none)
setup_routes_lem_example = setup_routes_lem beast 1 2 3 request

-- ===== src/Server/Setup.antt =====
-- The routes that `HttpServer::setup` adds (src/server.cpp), and which of them answers a request.
use priority_http_server.Prelude.{
  ◌+◌, ◌≡◌, ◌≢◌, refl, ap, ◌∙◌, ◌&&◌, [], ◌∷◌, ◌++◌, none, some, arith, if◌then◌else◌, Mem, length,
  length-append, Bool_ext,
}
use mathlib.Core.List.{mem-cons_self, mem-cons_of_mem, Nodup, Nodup-nil}
use priority_http_server.Router.Order.{keys, add_route-Nodup, route_handler-eq-find_prefix_handler}
use priority_http_server.Prelude.Text.{Text, codes, text_eq, text_eq_iff, starts_with}
use priority_http_server.Http.{Http, Request}
use priority_http_server.Router.{
  RouterTable, add_route, make_key, find_prefix_handler, route_handler, prefix_loop, prefix_round,
  assign,
}

-- A text with no blank before a blank is found at the beginning of another such text exactly where
-- the two are the same and the rest is found at the beginning of the rest.
starts_with-append_space :
    (a b p t : Text)
    → ¬ Mem b' ' a
    → ¬ Mem b' ' b
    → starts_with (a ++ b' ' ∷ p) (b ++ b' ' ∷ t) ≡ (text_eq a b && starts_with p t)
unfolding starts_with text_eq
starts_with-append_space [] [] p t m n = refl
starts_with-append_space [] (y ∷ b) p t m n =
    let other : y ≢ b' ' = λ e. n (rw e mem-cons_self) in ground (arith, other)
starts_with-append_space (x ∷ a) [] p t m n =
    let other : x ≢ b' ' = λ e. m (rw e mem-cons_self) in ground (arith, other)
starts_with-append_space (x ∷ a) (y ∷ b) p t m n = ground (
  arith,
  starts_with-append_space a b p t (λ q. m (mem-cons_of_mem x q)) (λ q. n (mem-cons_of_mem y q)),
)

module _ (http : Http) where
  same_verb : (m n : http.Verb) → text_eq (http.verb_name m) (http.verb_name n) ≡ http.verb_eq m n
  same_verb m n =
      Bool_ext _ _
        (λ e. (http.verb_eq_iff m n).1 (http.verb_name_injective m n ((text_eq_iff _ _).0 e)))
        (λ e. (text_eq_iff _ _).1 (ap http.verb_name ((http.verb_eq_iff m n).0 e)))

  -- A route matches exactly the requests with its verb whose target begins with its path.
  starts_with-make_key :
      (m n : http.Verb) (p t : Text)
      → starts_with (make_key http m p) (make_key http n t) ≡ (http.verb_eq m n && starts_with p t)
  unfolding make_key
  starts_with-make_key m n p t =
      starts_with-append_space (http.verb_name m) (http.verb_name n) p t (http.verb_name_no_space m)
        (http.verb_name_no_space n)
      ∙ ap (λ b. b && starts_with p t) (same_verb m n)

  module _ {ℓ} {H : Type ℓ} (status static_get static_head : H) where
    -- The calls of `addRoute` in `setup`.
    unfoldable pub setup_routes : RouterTable H
    setup_routes = add_route http http.head (codes "/static/") static_head (
        add_route http http.get (codes "/static/") static_get
          (add_route http http.get (codes "/status") status []))

  module _ {H : Type 0} (status static_get static_head : H) where
    setup_routes_keys :
        setup_routes status static_get static_head
        ≡ (make_key http http.get (codes "/status"), status)
          ∷ (make_key http http.get (codes "/static/"), static_get)
          ∷ (make_key http http.head (codes "/static/"), static_head)
          ∷ []
    unfolding setup_routes add_route assign make_key text_eq
    setup_routes_keys = rw (http.verb_name-get, http.verb_name-head) refl

    setup_routes-Nodup : Nodup (keys (setup_routes status static_get static_head))
    unfolding setup_routes
    setup_routes-Nodup = add_route-Nodup http http.head (codes "/static/") static_head _ (
        add_route-Nodup http http.get (codes "/static/") static_get _
          (add_route-Nodup http http.get (codes "/status") status [] Nodup-nil))

    key_length :
        (m : http.Verb) (name p : Text)
        → http.verb_name m ≡ name
        → length (make_key http m p) ≡ length name + 1 + length p
    unfolding make_key
    key_length m name p e = rw (e, length-append) (omega arith)

    -- Of three keys of growing length, the last that matches is taken.
    longest_of_three :
        (full a b c : Text)
        → length a ≡ 11
        → length b ≡ 12
        → length c ≡ 13
        → (prefix_loop full
            ((a, status) ∷ (b, static_get) ∷ (c, static_head) ∷ [])
            (record { best = none; best_length = 0 })).best
          ≡ (if starts_with c full
              then some static_head
              else if starts_with b full
              then some static_get
              else if starts_with a full
              then some status
              else none)
    unfolding prefix_loop prefix_round
    longest_of_three full a b c la lb lc = ground (arith, la, lb, lc)

    -- Every request that the router answers goes to one of three handlers: by HEAD or GET to that of
    -- the static files, if its target begins with `/static/`; by GET to that of the status, if its
    -- target begins with `/status`, whatever follows. There is no other.
    pub setup_routes_lem :
        (req : Request http)
        → route_handler http req (setup_routes status static_get static_head) ≡ (
            if http.verb_eq http.head req.method && starts_with (codes "/static/") req.target
            then some static_head
            else if http.verb_eq http.get req.method && starts_with (codes "/static/") req.target
            then some static_get
            else if http.verb_eq http.get req.method && starts_with (codes "/status") req.target
            then some status
            else none)
    unfolding find_prefix_handler
    setup_routes_lem req =
        route_handler-eq-find_prefix_handler http req (setup_routes status static_get static_head)
          setup_routes-Nodup
        ∙ ap (find_prefix_handler http req.method req.target) setup_routes_keys
        ∙ longest_of_three (make_key http req.method req.target) _ _ _
            (key_length http.get (codes "GET") (codes "/status") http.verb_name-get)
            (key_length http.get (codes "GET") (codes "/static/") http.verb_name-get)
            (key_length http.head (codes "HEAD") (codes "/static/") http.verb_name-head)
        ∙ rw
            (
              starts_with-make_key http.head req.method (codes "/static/") req.target,
              starts_with-make_key http.get req.method (codes "/static/") req.target,
              starts_with-make_key http.get req.method (codes "/status") req.target,
            )
            refl

-- ===== src/Router/Order.antt =====
-- With distinct keys, which a table built by `addRoute` has, the order of the map does not matter,
-- and the exact lookup that `route` tries first is a short cut.
use mathlib.Core.List.{
  Memᴰ, Mem-prop, Permᴰ, Nodup, Nodup-cons, Nodup-nil, mem-cons_self, mem-cons_of_mem,
  mem-map_of_mem, not-mem-nil, eq-or-mem_of_mem-cons,
}
use mathlib.Core.List.Perm
use mathlib.Core.Logic.Or
use priority_http_server.Prelude.{
  ◌≤◌, ◌<◌, ◌≡◌, ◌≢◌, refl, sym, ap, ◌∙◌, true, List, [], ◌∷◌, map, Option, some, arith, Mem, inl,
  inr, Bool-cases, Option-cases, length, length-append, ◌++◌,
}
use priority_http_server.Prelude.Text.{Text, codes, starts_with, text_eq, text_eq_iff}
use priority_http_server.Http.{Http, Request}
use priority_http_server.Router.{
  RouterTable, Best, assign, find, prefix_round, prefix_loop, make_key, add_route, find_handler,
  find_prefix_handler, route_handler,
}
use priority_http_server.Router.Prefix.{
  starts_with_unique, Longest, nothing, longest, find_prefix_handler-Longest,
}

abbrev pub keys {ℓ} : {H : Type ℓ} → RouterTable H → List Text
keys = map (λ e. e.0)

starts_with_refl : (s : Text) → starts_with s s ≡ true
unfolding starts_with
starts_with_refl [] = refl
starts_with_refl (c ∷ s) = ground (arith, starts_with_refl s)

starts_with-length : (k s : Text) → starts_with k s ≡ true → length k ≤ length s
unfolding starts_with
starts_with-length [] s h = omega arith
starts_with-length (x ∷ k) [] h = absurd (cc)
starts_with-length (x ∷ k) (c ∷ s) h = ground (arith, starts_with-length k s)

make_key-pos :
    (http : Http) (method : http.Verb) (path : Text) → 0 < length (make_key http method path)
unfolding make_key
make_key-pos http method path =
    omega (arith, length-append (http.verb_name method) (codes " " ++ path))

-- The handlers are objects of one class, so their type is small.
module _ {H : Type 0} where
  mem-keys-assign :
      (key j : Text) (h : H) (table : RouterTable H)
      → Mem j (keys (assign key h table))
      → (j ≢ key)
      → Mem j (keys table)
  unfolding assign
  mem-keys-assign key j h [] m ne =
      Or.elim Mem-prop (eq-or-mem_of_mem-cons m) (λ e. absurd (ne e)) (λ n. n)
  mem-keys-assign key j h ((k, g) ∷ table) m ne = elim (Bool-cases (text_eq k key)) [
    | inl e ↦ rw (e, assign) at m
    | inr e ↦
        Or.elim Mem-prop (eq-or-mem_of_mem-cons (rw (e, assign) at m)) (λ s. rw s mem-cons_self)
          (λ n. mem-cons_of_mem k (mem-keys-assign key j h table n ne))
  ]

  assign-Nodup :
      (key : Text) (h : H) (table : RouterTable H)
      → Nodup (keys table)
      → Nodup (keys (assign key h table))
  unfolding assign
  assign-Nodup key h [] d = Nodup-cons.1 (not-mem-nil, Nodup-nil)
  assign-Nodup key h ((k, g) ∷ table) d = elim (Bool-cases (text_eq k key)) [
    | inl e ↦ rw (e, assign) d
    | inr e ↦
        let (fresh, rest) = Nodup-cons.0 d in
        rw (e, assign)
          (Nodup-cons.1 (
            (λ m.
                fresh (
                  mem-keys-assign key k h table m (λ s. absurd (cc (e, (text_eq_iff k key).1 s))))),
            assign-Nodup key h table rest,
          ))
  ]

  -- The keys of a table stay distinct when a route is added.
  pub add_route-Nodup :
      (http : Http) (method : http.Verb) (path : Text) (h : H) (table : RouterTable H)
      → Nodup (keys table)
      → Nodup (keys (add_route http method path h table))
  unfolding add_route
  add_route-Nodup http method path h table = assign-Nodup (make_key http method path) h table

  prefix_round_comm :
      (full : Text) (d e : Text × H) (b : Best H)
      → d.0 ≢ e.0
      → prefix_round full d (prefix_round full e b) ≡ prefix_round full e (prefix_round full d b)
  unfolding prefix_round
  prefix_round_comm full d e b ne = ground (arith, starts_with_unique d.0 e.0 full)

  prefix_loop-permᴰ :
      (full : Text) {t u : RouterTable H} (b : Best H)
      → Permᴰ t u
      → Nodup (keys t)
      → prefix_loop full t b ≡ prefix_loop full u b
  unfolding prefix_loop
  prefix_loop-permᴰ full b Permᴰ.nil n = refl
  prefix_loop-permᴰ full b (Permᴰ.cons {b = e} p q) n =
      rw p (prefix_loop-permᴰ full (prefix_round full e b) q (Nodup-cons.0 n).1)
  prefix_loop-permᴰ full b (Permᴰ.swap {a = d} {b = e} {l = l} p q) n =
      rw (← p, ← q)
        (ap (prefix_loop full l)
          (sym (prefix_round_comm full d e b (λ same. (Nodup-cons.0 n).0 (rw same mem-cons_self)))))
  prefix_loop-permᴰ full b (Permᴰ.trans p q) n =
      prefix_loop-permᴰ full b p n
      ∙ prefix_loop-permᴰ full b q (Perm.nodup (Perm.map (λ e. e.0) ∣ p ∣₁) n)

  -- The answer of `findPrefixHandler` does not depend on the order in which the unordered map is
  -- walked: any two arrangements of the same routes, with distinct keys, give the same handler.
  pub find_prefix_handler-perm :
      (http : Http) (method : http.Verb) (path : Text) (t u : RouterTable H)
      → Permᴰ t u
      → Nodup (keys t)
      → find_prefix_handler http method path t ≡ find_prefix_handler http method path u
  unfolding find_prefix_handler
  find_prefix_handler-perm http method path t u p n =
      ap (λ b. b.best) (prefix_loop-permᴰ (make_key http method path) _ p n)

  find-Memᴰ :
      (key : Text) (table : RouterTable H) (h : H) → find key table ≡ some h → Memᴰ (key, h) table
  unfolding find
  find-Memᴰ key [] h e = absurd (cc)
  find-Memᴰ key ((k, g) ∷ table) h e = elim (Bool-cases (text_eq k key)) [
    | inl t ↦
        let key_same = (text_eq_iff k key).0 t in
        let value_same : g ≡ h = ground arith in Memᴰ.head (rw (key_same, value_same))
    | inr t ↦ Memᴰ.tail (find-Memᴰ key table h (rw (t, find) at e))
  ]

  same_handler :
      (table : RouterTable H) (k : Text) (g h : H)
      → Nodup (keys table)
      → Memᴰ (k, g) table
      → Memᴰ (k, h) table
      → g ≡ h
  same_handler [] k g h n p q = elim p [ ]
  same_handler (e ∷ table) k g h n (Memᴰ.head p) (Memᴰ.head q) = ap (λ w. w.1) (p ∙ sym q)
  same_handler (e ∷ table) k g h n (Memᴰ.head p) (Memᴰ.tail q) =
      absurd ((Nodup-cons.0 n).0 (rw (← p) (mem-map_of_mem (λ w. w.0) ∣ q ∣₁)))
  same_handler (e ∷ table) k g h n (Memᴰ.tail p) (Memᴰ.head q) =
      absurd ((Nodup-cons.0 n).0 (rw (← q) (mem-map_of_mem (λ w. w.0) ∣ p ∣₁)))
  same_handler (e ∷ table) k g h n (Memᴰ.tail p) (Memᴰ.tail q) =
      same_handler table k g h (Nodup-cons.0 n).1 p q

  exact-Longest :
      (full : Text) (table : RouterTable H) (h : H) (r : Option H)
      → 0 < length full
      → Nodup (keys table)
      → find full table ≡ some h
      → Longest full table r
      → r ≡ some h
  exact-Longest full table h _ pos n e (nothing f) =
      absurd (omega (arith, f (full, h) ∣ find-Memᴰ full table h e ∣₁ (starts_with_refl full)))
  exact-Longest full table h _ pos n e (longest (k, g) m s best) =
      let here = find-Memᴰ full table h e in
      let upper = best (full, h) ∣ here ∣₁ (starts_with_refl full) in
      let whole : k ≡ full =
        starts_with_unique k full full s (starts_with_refl full)
          (omega (arith, upper, starts_with-length k full s)) in
      ap some (same_handler table full g h n (rw whole at m) here)

  -- On a table with distinct keys, `route` calls the handler of the longest key that begins
  -- `METHOD target`; the exact lookup that it makes first never gives another answer.
  pub route_handler-eq-find_prefix_handler :
      (http : Http) (req : Request http) (table : RouterTable H)
      → Nodup (keys table)
      → route_handler http req table ≡ find_prefix_handler http req.method req.target table
  unfolding route_handler
  route_handler-eq-find_prefix_handler http req table n =
      elim (Option-cases (find_handler http req.method req.target table)) [
        | inl e ↦ rw (e, route_handler)
        | inr (h, e) ↦
            rw (e, route_handler)
              (sym (
                exact-Longest (make_key http req.method req.target) table h _
                  (make_key-pos http req.method req.target) n (unfold find_handler in e)
                  (find_prefix_handler-Longest http req.method req.target table)))
      ]

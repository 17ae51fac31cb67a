-- ===== src/Router/Lookup.antt =====
-- Routes are kept apart by verb and path, and a route that is added again replaces the first.
use mathlib.Core.List.{mem-cons_self, mem-cons_of_mem}
use priority_http_server.Prelude.{
  ◌≡◌, refl, ap₂, ◌&&◌, [], ◌∷◌, ◌++◌, some, arith, Mem, if◌then◌else◌, Bool_ext, &&-eq-true,
}
use priority_http_server.Prelude.Text.{Text, text_eq, text_eq_iff}
use priority_http_server.Http.{Http}
use priority_http_server.Router.{RouterTable, assign, find, make_key, add_route, find_handler}

-- A text with no space, before the first space of a text.
append_space_injective :
    (xs ys p q : Text)
    → ¬ Mem b' ' xs
    → ¬ Mem b' ' ys
    → xs ++ (b' ' ∷ p) ≡ ys ++ (b' ' ∷ q)
    → (xs ≡ ys) × (p ≡ q)
append_space_injective [] [] p q h k e = (refl, cc)
append_space_injective [] (y ∷ ys) p q h k e =
    let same : y ≡ b' ' = ground arith in absurd (k (rw same mem-cons_self))
append_space_injective (x ∷ xs) [] p q h k e =
    let same : x ≡ b' ' = ground arith in absurd (h (rw same mem-cons_self))
append_space_injective (x ∷ xs) (y ∷ ys) p q h k e =
    let rest =
      append_space_injective xs ys p q (λ m. h (mem-cons_of_mem x m)) (λ m. k (mem-cons_of_mem y m))
        (ground arith) in
    ground (arith, rest)

module _ (http : Http) where
  make_key_injective :
      (m n : http.Verb) (p q : Text) → make_key http m p ≡ make_key http n q → (m ≡ n) × (p ≡ q)
  unfolding make_key
  make_key_injective m n p q e =
      let (names, paths) =
        append_space_injective (http.verb_name m) (http.verb_name n) p q (http.verb_name_no_space m)
          (http.verb_name_no_space n) e in
      (http.verb_name_injective m n names, paths)

  same_key :
      (m n : http.Verb) (p q : Text)
      → text_eq (make_key http m p) (make_key http n q) ≡ (http.verb_eq m n && text_eq p q)
  same_key m n p q =
      Bool_ext _ _
        (λ e.
          let (verbs, paths) = make_key_injective m n p q ((text_eq_iff _ _).0 e) in
          (&&-eq-true _ _).1 ((http.verb_eq_iff m n).1 verbs, (text_eq_iff p q).1 paths))
        (λ e.
          let (verbs, paths) = (&&-eq-true _ _).0 e in
          (text_eq_iff _ _).1
            (ap₂ (make_key http) ((http.verb_eq_iff m n).0 verbs) ((text_eq_iff p q).0 paths)))

  module _ {ℓ} {H : Type ℓ} where
    find-assign :
        (key j : Text) (h : H) (table : RouterTable H)
        → find j (assign key h table) ≡ (if text_eq key j then some h else find j table)
    unfolding find assign
    find-assign key j h [] = refl
    find-assign key j h ((k, g) ∷ table) =
        ground
          (arith, text_eq_iff k key, text_eq_iff k j, text_eq_iff key j, find-assign key j h table)

    -- An exact lookup gives the handler that was added last for that verb and path, and no other
    -- route has an effect on it.
    pub find_handler-add_route :
        (m n : http.Verb) (p q : Text) (h : H) (table : RouterTable H)
        → find_handler http n q (add_route http m p h table)
          ≡ (if http.verb_eq m n && text_eq p q then some h else find_handler http n q table)
    unfolding find_handler add_route
    find_handler-add_route m n p q h table =
        rw (find-assign (make_key http m p) (make_key http n q) h table, same_key m n p q)

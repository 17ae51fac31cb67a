-- ===== src/Router/Prefix.antt =====
-- The loop of `findPrefixHandler` (src/router.cpp) over keys that begin the request's key.
use mathlib.Core.List.{Memᴰ, not-mem-nil, eq-or-mem_of_mem-cons}
use mathlib.Core.Logic.Or
use native.Mathlib.Bridge.{le_prop}
use priority_http_server.Prelude.{
  ◌≤◌, ◌≡◌, refl, ap, ◌∙◌, true, ◌&&◌, [], ◌∷◌, Option, none, some, arith, ltb, Mem, inl, inr, ◌⊎◌,
  Bool-cases, length,
}
use priority_http_server.Prelude.Text.{Text, starts_with}
use priority_http_server.Http.{Http}
use priority_http_server.Router.{
  RouterTable, Best, prefix_round, prefix_loop, make_key, find_prefix_handler,
}

pub starts_with_unique :
    (k j full : Text)
    → starts_with k full ≡ true
    → starts_with j full ≡ true
    → length k ≡ length j
    → k ≡ j
unfolding starts_with
starts_with_unique [] [] full h g e = refl
starts_with_unique [] (y ∷ j) full h g e = absurd (omega arith)
starts_with_unique (x ∷ k) [] full h g e = absurd (omega arith)
starts_with_unique (x ∷ k) (y ∷ j) [] h g e = absurd (cc)
starts_with_unique (x ∷ k) (y ∷ j) (c ∷ full) h g e = ground (arith, starts_with_unique k j full)

-- The answer of a search for the longest key that begins `full`.
pub data Longest {ℓ} {H : Type ℓ} (full : Text) (table : RouterTable H) : Option H → Type ℓ where
  nothing :
      ((e : Text × H) → Mem e table → starts_with e.0 full ≡ true → length e.0 ≡ 0)
      → Longest full table none
  longest :
      (e : Text × H)
      → Memᴰ e table
      → starts_with e.0 full ≡ true
      → ((d : Text × H) → Mem d table → starts_with d.0 full ≡ true → length d.0 ≤ length e.0)
      → Longest full table (some e.1)

module _ {ℓ} {H : Type ℓ} (full : Text) where
  prefix_round-le :
      (e : Text × H) (b : Best H)
      → (b.best_length ≤ (prefix_round full e b).best_length)
        × (starts_with e.0 full ≡ true → length e.0 ≤ (prefix_round full e b).best_length)
  unfolding prefix_round
  prefix_round-le e b = ground arith

  prefix_loop-le :
      (table : RouterTable H) (b : Best H) → b.best_length ≤ (prefix_loop full table b).best_length
  unfolding prefix_loop
  prefix_loop-le [] b = omega arith
  prefix_loop-le (e ∷ table) b =
      omega (arith, prefix_round-le e b, prefix_loop-le table (prefix_round full e b))

  prefix_loop-covers :
      (table : RouterTable H) (b : Best H) (d : Text × H)
      → Mem d table
      → starts_with d.0 full ≡ true
      → length d.0 ≤ (prefix_loop full table b).best_length
  unfolding prefix_loop
  prefix_loop-covers [] b d m s = absurd (not-mem-nil m)
  prefix_loop-covers (e ∷ table) b d m s =
      Or.elim le_prop (eq-or-mem_of_mem-cons m)
        (λ same.
          let here = (prefix_round-le e b).1 (rw same at s) in
          rw same (omega (arith, here, prefix_loop-le table (prefix_round full e b))))
        (λ later. prefix_loop-covers table (prefix_round full e b) d later s)

  -- The result is the one at the start, or comes from an entry.
  abbrev Origin : RouterTable H → Best H → Best H → Type ℓ
  Origin table b r =
      (r ≡ b)
      ⊎ ((e : Text × H) × Memᴰ e table
          × (starts_with e.0 full ≡ true)
          × (r ≡ record { best = some e.1; best_length = length e.0 }))

  prefix_round-Origin :
      (e : Text × H) (table : RouterTable H) (b : Best H)
      → Origin (e ∷ table) b (prefix_round full e b)
  unfolding prefix_round
  prefix_round-Origin e table b =
      elim (Bool-cases (starts_with e.0 full && ltb b.best_length (length e.0))) [
        | inl t ↦ inr (e, Memᴰ.head refl, ground arith, rw (t, prefix_round))
        | inr t ↦ inl (rw (t, prefix_round))
      ]

  prefix_loop-Origin :
      (table : RouterTable H) (b : Best H) → Origin table b (prefix_loop full table b)
  unfolding prefix_loop
  prefix_loop-Origin [] b = inl refl
  prefix_loop-Origin (e ∷ table) b = elim (prefix_loop-Origin table (prefix_round full e b)) [
    | inr (d, m, s, r) ↦ inr (d, Memᴰ.tail m, s, r)
    | inl r ↦ elim (prefix_round-Origin e table b) [
      | inl q ↦ inl (r ∙ q)
      | inr (d, m, s, q) ↦ inr (d, m, s, r ∙ q)
    ]
  ]

  prefix_loop-Longest :
      (table : RouterTable H) (start : Best H)
      → start ≡ record { best = none; best_length = 0 }
      → Longest full table (prefix_loop full table start).best
  prefix_loop-Longest table start z = elim (prefix_loop-Origin table start) [
    | inl r ↦ rw (ap (λ b. b.best) (r ∙ z)) (
        nothing λ e m s.
          omega (arith, prefix_loop-covers table start e m s, ap (λ b. b.best_length) (r ∙ z)))
    | inr (d, m, s, r) ↦ rw (ap (λ b. b.best) r) (
        longest d m s
          λ e k t. omega (arith, prefix_loop-covers table start e k t, ap (λ b. b.best_length) r))
  ]

-- `findPrefixHandler` answers with the handler of the longest key that begins `METHOD path`, and
-- with none exactly when no key does (an empty key aside, which no route has).
pub find_prefix_handler-Longest {ℓ} :
    {H : Type ℓ} (http : Http) (method : http.Verb) (path : Text) (table : RouterTable H)
    → Longest (make_key http method path) table (find_prefix_handler http method path table)
unfolding find_prefix_handler
find_prefix_handler-Longest http method path table =
    prefix_loop-Longest (make_key http method path) table _ refl

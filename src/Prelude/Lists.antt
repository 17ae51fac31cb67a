-- ===== src/Prelude/Lists.antt =====
-- Lists measured and indexed by native numbers, and predicates that hold of every entry.
use Prim.Native.Nat.{ℕ, zero, suc, ◌+◌, ◌≤◌}
use mathlib.Core.Path.{◌≡◌, refl, ap, ◌∙◌}
use mathlib.Core.Logic.{∥∥₁_elim}
use mathlib.Core.Bool.{Bool, true, false}
use mathlib.Core.List.{List, [], ◌∷◌, ◌++◌, Perm, Permᴰ}
use mathlib.Core.Option.{Option, none, some}
use native.Mathlib.Nat.{ℕ_set}
use native.Mathlib.Omega.{arith}
use priority_http_server.Prelude.Tests.{if◌then◌else◌}

module _ {ℓ} {A : Type ℓ} where
  abbrev pub length : List A → ℕ
  length [] = 0
  length (x ∷ xs) = suc (length xs)

  abbrev pub is_empty : List A → Bool
  is_empty [] = true
  is_empty (x ∷ xs) = false

  abbrev pub get_elem? : List A → ℕ → Option A
  get_elem? [] i = none
  get_elem? (x ∷ xs) zero = some x
  get_elem? (x ∷ xs) (suc i) = get_elem? xs i

  pub length-append : (xs ys : List A) → length (xs ++ ys) ≡ length xs + length ys
  length-append [] ys = omega arith
  length-append (x ∷ xs) ys = omega (arith, length-append xs ys)

  same_length : {us vs : List A} → Permᴰ us vs → length us ≡ length vs
  same_length (Permᴰ.trans first second) = rw (same_length first) (same_length second)
  same_length (Permᴰ.cons head tail) = omega (arith, same_length tail)
  same_length (Permᴰ.swap left right) = omega arith
  same_length Permᴰ.nil = omega arith

  pub length-perm : {xs ys : List A} → Perm xs ys → length xs ≡ length ys
  length-perm shuffled = ∥∥₁_elim shuffled (ℕ_set _ _) same_length

  -- How many entries pass a test.
  unfoldable pub count_if : (A → Bool) → List A → ℕ
  count_if p [] = 0
  count_if p (x ∷ xs) = (if p x then 1 else 0) + count_if p xs

  pub count_if-append :
      (p : A → Bool) (xs ys : List A) → count_if p (xs ++ ys) ≡ count_if p xs + count_if p ys
  unfolding count_if
  count_if-append p [] ys = omega arith
  count_if-append p (x ∷ xs) ys = omega (arith, count_if-append p xs ys)

  pub count_if-cons :
      (p : A → Bool) (x : A) (xs : List A)
      → count_if p (x ∷ xs) ≡ (if p x then 1 else 0) + count_if p xs
  unfolding count_if
  count_if-cons p x xs = refl

  pub count_if-nil : (p : A → Bool) → count_if p [] ≡ 0
  unfolding count_if
  count_if-nil p = refl

  pub count_if-le-length : (p : A → Bool) (xs : List A) → count_if p xs ≤ length xs
  unfolding count_if
  count_if-le-length p [] = omega arith
  count_if-le-length p (x ∷ xs) = ground (arith, count_if-le-length p xs)

  Permᴰ-count_if : (p : A → Bool) {xs ys : List A} → Permᴰ xs ys → count_if p xs ≡ count_if p ys
  unfolding count_if
  Permᴰ-count_if p Permᴰ.nil = refl
  Permᴰ-count_if p (Permᴰ.cons e q) = cc (e, Permᴰ-count_if p q)
  Permᴰ-count_if p (Permᴰ.swap e d) = ground (arith, ap p e, ap p d)
  Permᴰ-count_if p (Permᴰ.trans q r) = Permᴰ-count_if p q ∙ Permᴰ-count_if p r

  pub count_if-perm : (p : A → Bool) {xs ys : List A} → Perm xs ys → count_if p xs ≡ count_if p ys
  count_if-perm p q = ∥∥₁_elim q (ℕ_set _ _) (Permᴰ-count_if p)

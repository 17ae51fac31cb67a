-- ===== src/Heap/Root.antt =====
-- No element of a heap comes before its root.
use mathlib.Core.Bool.{Bool-set}
use mathlib.Core.List.{not-mem-nil, eq-or-mem_of_mem-cons}
use mathlib.Core.Logic.Or
use priority_http_server.Prelude.{
  ℕ, zero, suc, ◌/◌, ◌<◌, ◌≡◌, refl, Bool, false, some, List, [], ◌∷◌, Mem, arith, length,
  get_elem?,
}
use priority_http_server.Heap.{IsHeap}

module _ {ℓ} {A : Type ℓ} where
  pub get_elem?-some_of_lt :
      (xs : List A) (i : ℕ) → i < length xs → (x : A) × (get_elem? xs i ≡ some x)
  get_elem?-some_of_lt [] i h = absurd (omega arith)
  get_elem?-some_of_lt (x ∷ xs) zero h = (x, refl)
  get_elem?-some_of_lt (x ∷ xs) (suc i) h = get_elem?-some_of_lt xs i (omega arith)

  pub lt_of_get_elem? : (xs : List A) (i : ℕ) (x : A) → get_elem? xs i ≡ some x → i < length xs
  lt_of_get_elem? [] i x e = absurd (cc)
  lt_of_get_elem? (y ∷ xs) zero x e = omega arith
  lt_of_get_elem? (y ∷ xs) (suc i) x e = omega (arith, lt_of_get_elem? xs i x e)

  -- A Boolean property of every index is one of every member.
  pub mem-of_get_elem? :
      (p : A → Bool) (b : Bool) (xs : List A)
      → ((i : ℕ) (x : A) → get_elem? xs i ≡ some x → p x ≡ b)
      → (x : A) → Mem x xs
      → p x ≡ b
  mem-of_get_elem? p b [] h x m = absurd (not-mem-nil m)
  mem-of_get_elem? p b (y ∷ xs) h x m =
      Or.elim (Bool-set _ _) (eq-or-mem_of_mem-cons m) (λ e. rw e (h 0 y refl))
        (mem-of_get_elem? p b xs (λ i. h (suc i)) x)

  module _ (less : A → A → Bool) (irreflexive : (x : A) → less x x ≡ false)
      (weak_order : (x y z : A) → less x y ≡ false → less y z ≡ false → less x z ≡ false) where
    root_first_below :
        (k i : ℕ) (r x : A) (xs : List A)
        → IsHeap less (r ∷ xs)
        → i < k
        → get_elem? (r ∷ xs) i ≡ some x
        → less r x ≡ false
    root_first_below zero i r x xs heap h e = absurd (omega arith)
    root_first_below (suc k) zero r x xs heap h e =
        let same : r ≡ x = ground arith in rw (← same) (irreflexive r)
    root_first_below (suc k) (suc i) r x xs heap h e =
        let inside = lt_of_get_elem? (r ∷ xs) (suc i) x e in
        let (p, at) = get_elem?-some_of_lt (r ∷ xs) (i / 2) (omega arith) in
        weak_order r p x (root_first_below k (i / 2) r p xs heap (omega arith) at) (heap i p x at e)

    pub root_first :
        (r x : A) (xs : List A) → IsHeap less (r ∷ xs) → Mem x (r ∷ xs) → less r x ≡ false
    root_first r x xs heap =
        mem-of_get_elem? (less r) false (r ∷ xs)
          (λ i y. root_first_below (suc i) i r y xs heap (omega arith)) x

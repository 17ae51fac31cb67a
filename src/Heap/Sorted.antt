-- ===== src/Heap/Sorted.antt =====
-- An implementation of the heap algorithms: a list that is sorted, the greatest element first, is
-- a heap. It shows that the interface can be met, and runs in the tests.
use mathlib.Core.List.Perm
use priority_http_server.Prelude.{
  ℕ, zero, suc, ◌/◌, ◌<◌, ◌≡◌, refl, Bool, true, false, some, List, [], ◌∷◌, ◌++◌, inl, inr, Perm,
  arith, get_elem?, if◌then◌else◌, Bool-cases,
}
use priority_http_server.Heap.{IsHeap, HeapAlgorithms}

module _ {ℓ} {A : Type ℓ} (less : A → A → Bool) where
  unfoldable pub insert_sorted : A → List A → List A
  insert_sorted x [] = x ∷ []
  insert_sorted x (y ∷ ys) = if less x y then y ∷ insert_sorted x ys else x ∷ y ∷ ys

  unfoldable pub sort_heap : List A → List A
  unfolding insert_sorted
  sort_heap [] = []
  sort_heap (x ∷ xs) = insert_sorted x (sort_heap xs)

  unfoldable pub pop_sorted : List A → List A
  unfolding sort_heap
  pop_sorted [] = []
  pop_sorted (x ∷ xs) = sort_heap xs ++ x ∷ []

  insert_sorted-perm : (x : A) (ys : List A) → Perm (insert_sorted x ys) (x ∷ ys)
  unfolding insert_sorted
  insert_sorted-perm x [] = Perm.rfl
  insert_sorted-perm x (y ∷ ys) = elim (Bool-cases (less x y)) [
    | inl e ↦ rw e (Perm.trans (Perm.cons y (insert_sorted-perm x ys)) (Perm.swap x y ys))
    | inr e ↦ rw e Perm.rfl
  ]

  pub sort_heap-perm : (xs : List A) → Perm (sort_heap xs) xs
  unfolding sort_heap
  sort_heap-perm [] = Perm.nil
  sort_heap-perm (x ∷ xs) =
      Perm.trans (insert_sorted-perm x (sort_heap xs)) (Perm.cons x (sort_heap-perm xs))

  -- Each element is before none of its predecessors.
  abbrev AtMost : A → List A → Type 0
  AtMost x [] = Unit
  AtMost x (y ∷ ys) = (less x y ≡ false) × AtMost x ys

  abbrev Falls : List A → Type 0
  Falls [] = Unit
  Falls (x ∷ xs) = AtMost x xs × Falls xs

  AtMost-get :
      (x y : A) (ys : List A) (i : ℕ) → AtMost x ys → get_elem? ys i ≡ some y → less x y ≡ false
  AtMost-get x y [] i h e = absurd (cc)
  AtMost-get x y (z ∷ ys) zero h e = let same : z ≡ y = ground arith in rw (← same) h.0
  AtMost-get x y (z ∷ ys) (suc i) h e = AtMost-get x y ys i h.1 e

  Falls-get :
      (xs : List A) (i j : ℕ) (p x : A)
      → Falls xs
      → i < j
      → get_elem? xs i ≡ some p
      → get_elem? xs j ≡ some x
      → less p x ≡ false
  Falls-get [] i j p x h l e d = absurd (cc)
  Falls-get (y ∷ xs) zero (suc j) p x h l e d =
      let same : y ≡ p = ground arith in rw (← same) (AtMost-get y x xs j h.0 d)
  Falls-get (y ∷ xs) (suc i) (suc j) p x h l e d = Falls-get xs i j p x h.1 (omega arith) e d
  Falls-get (y ∷ xs) i zero p x h l e d = absurd (omega arith)

  Falls-IsHeap : (xs : List A) → Falls xs → IsHeap less xs
  Falls-IsHeap xs h c p x at below = Falls-get xs (c / 2) (suc c) p x h (omega arith) at below

  module _ (asymmetric : (x y : A) → less x y ≡ true → less y x ≡ false)
      (weak_order : (x y z : A) → less x y ≡ false → less y z ≡ false → less x z ≡ false) where
    AtMost-trans : (x y : A) (ys : List A) → less x y ≡ false → AtMost y ys → AtMost x ys
    AtMost-trans x y [] h a = tt
    AtMost-trans x y (z ∷ ys) h a = (weak_order x y z h a.0, AtMost-trans x y ys h a.1)

    AtMost-insert :
        (x y : A) (ys : List A) → less x y ≡ false → AtMost x ys → AtMost x (insert_sorted y ys)
    unfolding insert_sorted
    AtMost-insert x y [] h a = (h, tt)
    AtMost-insert x y (z ∷ ys) h a = elim (Bool-cases (less y z)) [
      | inl e ↦ rw e (a.0, AtMost-insert x y ys h a.1)
      | inr e ↦ rw e (h, a)
    ]

    insert_sorted-Falls : (x : A) (ys : List A) → Falls ys → Falls (insert_sorted x ys)
    unfolding insert_sorted
    insert_sorted-Falls x [] f = (tt, tt)
    insert_sorted-Falls x (y ∷ ys) f = elim (Bool-cases (less x y)) [
      | inl e ↦ rw e (AtMost-insert y x ys (asymmetric x y e) f.0, insert_sorted-Falls x ys f.1)
      | inr e ↦ rw e ((e, AtMost-trans x y ys e f.0), f)
    ]

    sort_heap-Falls : (xs : List A) → Falls (sort_heap xs)
    unfolding sort_heap
    sort_heap-Falls [] = tt
    sort_heap-Falls (x ∷ xs) = insert_sorted-Falls x (sort_heap xs) (sort_heap-Falls xs)

    pub sort_heap-IsHeap : (xs : List A) → IsHeap less (sort_heap xs)
    sort_heap-IsHeap xs = Falls-IsHeap (sort_heap xs) (sort_heap-Falls xs)

    pub pop_sorted_lem :
        (x : A) (xs : List A)
        → IsHeap less (x ∷ xs)
        → (ys : List A) × (pop_sorted (x ∷ xs) ≡ ys ++ x ∷ []) × IsHeap less ys × Perm ys xs
    unfolding pop_sorted
    pop_sorted_lem x xs h = (sort_heap xs, refl, sort_heap-IsHeap xs, sort_heap-perm xs)

    abbrev pub sorted_heaps : HeapAlgorithms A less
    sorted_heaps = record {
      push_heap = sort_heap;
      pop_heap = pop_sorted;
      make_heap = sort_heap;
      push_heap-IsHeap = λ xs x h. sort_heap-IsHeap (xs ++ x ∷ []);
      push_heap-perm = sort_heap-perm;
      pop_heap_lem = pop_sorted_lem;
      make_heap-IsHeap = sort_heap-IsHeap;
      make_heap-perm = sort_heap-perm;
    }

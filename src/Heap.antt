-- ===== src/Heap.antt =====
-- The heap algorithms of <algorithm> as `TaskQueue` calls them (src/thread_pool.cpp): an interface
-- with the guarantees that the C++ standard gives for `push_heap`, `pop_heap` and `make_heap`.
-- How a library arranges the other elements is its own affair, so no more is assumed.
-- The children prove what the root of a heap is, and give one implementation.
pub mod Root
pub mod Sorted
use priority_http_server.Prelude.{
  ℕ, suc, ◌/◌, ◌≡◌, Bool, false, some, List, [], ◌∷◌, ◌++◌, Perm, get_elem?,
}

-- [heap.operations]: for 0 < i < N, `comp(a[(i - 1) / 2], a[i])` is false; here i is `suc c`.
abbrev pub IsHeap {ℓ} : {A : Type ℓ} → (A → A → Bool) → List A → Type ℓ
IsHeap {A} less xs =
    (c : ℕ) (p x : A)
    → get_elem? xs (c / 2) ≡ some p
    → get_elem? xs (suc c) ≡ some x
    → less p x ≡ false

pub record HeapAlgorithms {ℓ} (A : Type ℓ) (less : A → A → Bool) : Type ℓ where
  -- The range is the whole list; its last element is the one that `push_heap` places.
  pub push_heap : List A → List A
  -- Moves the root of a heap to the end, and makes a heap of the rest.
  pub pop_heap : List A → List A
  pub make_heap : List A → List A
  pub push_heap-IsHeap :
      (xs : List A) (x : A) → IsHeap less xs → IsHeap less (push_heap (xs ++ x ∷ []))
  pub push_heap-perm : (xs : List A) → Perm (push_heap xs) xs
  pub pop_heap_lem :
      (x : A) (xs : List A)
      → IsHeap less (x ∷ xs)
      → (ys : List A) × (pop_heap (x ∷ xs) ≡ ys ++ x ∷ []) × IsHeap less ys × Perm ys xs
  pub make_heap-IsHeap : (xs : List A) → IsHeap less (make_heap xs)
  pub make_heap-perm : (xs : List A) → Perm (make_heap xs) xs

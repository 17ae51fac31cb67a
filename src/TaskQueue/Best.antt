-- ===== src/TaskQueue/Best.antt =====
-- The first of the items of the highest rank (TaskQueue of src/thread_pool.cpp), where their order
-- numbers rise.
use mathlib.Core.Logic.Or
use mathlib.Core.List.{eq-or-mem_of_mem-cons, not-mem-nil}
use mathlib.Core.List.Perm
use mathlib.Core.Bool.{Bool-set}
use priority_http_server.Prelude.{
  ℕ, ◌≤◌, ◌<◌, ◌≡◌, true, false, List, [], ◌∷◌, inl, inr, Mem, Perm, arith, Bool-cases,
}
use priority_http_server.Prelude.Int.{ℤ, ltb_ℤ}
use priority_http_server.TaskQueue.{PrioritizedTask, compare_tasks}
use priority_http_server.TaskQueue.Order.{compare_tasks_irreflexive, compare_tasks_weak_order}
use priority_http_server.TaskQueue.Line.{first_best}

module _ {ℓ} {T : Type ℓ} where
  abbrev pub item_rank : PrioritizedTask T → ℤ
  item_rank x = x.effective_priority

  -- Every item has an order number above `n`.
  abbrev pub After : ℕ → List (PrioritizedTask T) → Type 0
  After n [] = Unit
  After n (x ∷ xs) = (n < x.order) × After n xs

  -- Order numbers rise.
  abbrev pub Rising : List (PrioritizedTask T) → Type 0
  Rising [] = Unit
  Rising (x ∷ xs) = After x.order xs × Rising xs

  pub After-mono : (m n : ℕ) (xs : List (PrioritizedTask T)) → m ≤ n → After n xs → After m xs
  After-mono m n [] h a = tt
  After-mono m n (x ∷ xs) h a = (omega (arith, a.0), After-mono m n xs h a.1)

  pub After-first_best :
      (n : ℕ) (x : PrioritizedTask T) (xs : List (PrioritizedTask T))
      → After n (x ∷ xs)
      → let (best, others) = first_best item_rank x xs in After n (best ∷ others)
  unfolding first_best
  After-first_best n x [] a = a
  After-first_best n x (y ∷ ys) a = ground (arith, After-first_best n y ys a.1)

  pub Rising-first_best :
      (x : PrioritizedTask T) (xs : List (PrioritizedTask T))
      → Rising (x ∷ xs)
      → Rising (first_best item_rank x xs).1
  unfolding first_best
  Rising-first_best x [] r = tt
  Rising-first_best x (y ∷ ys) r =
      ground (arith, Rising-first_best y ys r.1, After-first_best x.order y ys r.0)

  pub first_best-perm :
      (x : PrioritizedTask T) (xs : List (PrioritizedTask T))
      → let (best, others) = first_best item_rank x xs in Perm (best ∷ others) (x ∷ xs)
  unfolding first_best
  first_best-perm x [] = Perm.rfl
  first_best-perm x (y ∷ ys) =
      elim (Bool-cases (ltb_ℤ (item_rank x) (item_rank (first_best item_rank y ys).0))) [
        | inl e ↦ rw e (
            Perm.trans (Perm.swap x (first_best item_rank y ys).0 (first_best item_rank y ys).1)
              (Perm.cons x (first_best-perm y ys)))
        | inr e ↦ rw e Perm.rfl
      ]

  higher :
      (a b : PrioritizedTask T)
      → ltb_ℤ (item_rank a) (item_rank b) ≡ true
      → compare_tasks b a ≡ false
  unfolding compare_tasks
  higher a b h = ground arith

  earlier :
      (a b : PrioritizedTask T)
      → ltb_ℤ (item_rank a) (item_rank b) ≡ false
      → a.order < b.order
      → compare_tasks a b ≡ false
  unfolding compare_tasks
  earlier a b h l = ground arith

  -- The best is behind none, in the order of `Compare`.
  pub first_best-first :
      (x : PrioritizedTask T) (xs : List (PrioritizedTask T))
      → Rising (x ∷ xs)
      → (z : PrioritizedTask T) → Mem z (x ∷ xs)
      → compare_tasks (first_best item_rank x xs).0 z ≡ false
  unfolding first_best
  first_best-first x [] r z m =
      Or.elim (Bool-set _ _) (eq-or-mem_of_mem-cons m) (λ e. rw e (compare_tasks_irreflexive x))
        (λ h. absurd (not-mem-nil h))
  first_best-first x (y ∷ ys) r z m =
      let best = (first_best item_rank y ys).0 in
      let later = (After-first_best x.order y ys r.0).0 in
      elim (Bool-cases (ltb_ℤ (item_rank x) (item_rank best))) [
        | inl e ↦ rw e (
            Or.elim (Bool-set _ _) (eq-or-mem_of_mem-cons m) (λ d. rw d (higher x best e))
              (first_best-first y ys r.1 z))
        | inr e ↦ rw e (
            Or.elim (Bool-set _ _) (eq-or-mem_of_mem-cons m)
              (λ d. rw d (compare_tasks_irreflexive x))
              λ h.
                compare_tasks_weak_order x best z (earlier x best e later)
                  (first_best-first y ys r.1 z h))
      ]

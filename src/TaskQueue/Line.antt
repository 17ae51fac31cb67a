-- ===== src/TaskQueue/Line.antt =====
-- What the task queue (include/thread_pool.hpp, src/thread_pool.cpp) promises, with no heap and no
-- order numbers: a line of tasks in the order of their arrival, out of which the first of those of
-- the highest rank is taken. A task that has waited for more than a second gets the highest rank.
use priority_http_server.Prelude.{
  ℕ, ◌-◌, Bool, true, false, List, [], ◌∷◌, ◌++◌, ◌||◌, Option, none, some, leb, ltb, length,
  if◌then◌else◌,
}
use priority_http_server.Prelude.Int.{ℤ, ltb_ℤ, int_max}
use priority_http_server.TaskQueue.{aging_threshold}
use priority_http_server.TaskQueue.Run.{Call, pushes, pops, shuts_down, aborts}

pub record Waiting {ℓ} (T : Type ℓ) : Type ℓ where
  pub task : T
  pub since : ℕ
  pub rank : ℤ

pub record Line {ℓ} (T : Type ℓ) : Type ℓ where
  pub waiting : List (Waiting T)
  pub closed : Bool
  pub aborted : Bool
  pub limit : ℕ

-- What a caller sees of a call.
pub data Reply {ℓ} (T : Type ℓ) : Type ℓ where
  accepts : Bool → Reply T
  hangs : Reply T
  gives : Option T → Reply T
  silent : Reply T

-- The first element of the highest rank, and the others in their order.
unfoldable pub first_best {ℓ} : {A : Type ℓ} → (A → ℤ) → A → List A → A × List A
first_best rank x [] = (x, [])
first_best rank x (y ∷ ys) =
    let (best, others) = first_best rank y ys in
    if ltb_ℤ (rank x) (rank best) then (best, x ∷ others) else (x, y ∷ ys)

module _ {ℓ} {T : Type ℓ} where
  abbrev pub promote : ℕ → Waiting T → Waiting T
  promote now w = if ltb aging_threshold (now - w.since) then record w { rank = int_max } else w

  abbrev pub promote_all : ℕ → List (Waiting T) → List (Waiting T)
  promote_all now [] = []
  promote_all now (w ∷ ws) = promote now w ∷ promote_all now ws

  abbrev pub given : Line T → Waiting T × List (Waiting T) → Reply T × Line T
  given l (best, others) = (gives (some best.task), record l { waiting = others })

  unfoldable pub line_pop : ℕ → List (Waiting T) → Line T → Reply T × Line T
  line_pop now [] l = if l.aborted || l.closed then (gives none, l) else (hangs, l)
  line_pop now (w ∷ ws) l =
      if l.aborted
      then (gives none, l)
      else given l (first_best (λ v. v.rank) (promote now w) (promote_all now ws))

  abbrev pub joined : ℕ → T → ℤ → Line T → Line T
  joined now task priority l = record l {
    waiting = l.waiting ++ record { task = task; since = now; rank = priority } ∷ [];
  }

  unfoldable pub line_push : ℕ → T → ℤ → Line T → Reply T × Line T
  line_push now task priority l =
      if l.closed || leb l.limit (length l.waiting)
      then (accepts false, l)
      else (accepts true, joined now task priority l)

  unfoldable pub line_call : Call T → Line T → Reply T × Line T
  line_call (pushes now task priority) l = line_push now task priority l
  line_call (pops now) l = line_pop now l.waiting l
  line_call shuts_down l = (silent, record l { closed = true })
  line_call aborts l = (silent, record l { aborted = true })

  unfoldable pub line_replies : List (Call T) → Line T → List (Reply T)
  line_replies [] l = []
  line_replies (call ∷ calls) l =
      let (reply, l') = line_call call l in reply ∷ line_replies calls l'

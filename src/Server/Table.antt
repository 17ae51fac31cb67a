-- ===== src/Server/Table.antt =====
-- The sessions of a server with their states, and those among them that have not ended.
use priority_http_server.Prelude.{
  ℕ, ◌+◌, ◌≤◌, ◌≡◌, refl, true, false, List, [], ◌∷◌, Option, none, some, ◌==◌, arith,
  if◌then◌else◌, length, Bool-cases, inl, inr,
}
use priority_http_server.Session.{Session}
use priority_http_server.Server.{erase}

abbrev pub Table : Type 0
Table = List (ℕ × Session)

unfoldable pub find : ℕ → Table → Option Session
find i [] = none
find i ((j, s) ∷ t) = if j == i then some s else find i t

unfoldable pub update : ℕ → Session → Table → Table
update i s' [] = []
update i s' ((j, s) ∷ t) = if j == i then (j, s') ∷ t else (j, s) ∷ update i s' t

unfoldable pub live : Table → List ℕ
live [] = []
live ((j, s) ∷ t) = if s.ended then live t else j ∷ live t

-- No number occurs twice.
abbrev pub Distinct : Table → Type 0
Distinct [] = Unit
Distinct ((j, s) ∷ t) = (find j t ≡ none) × Distinct t

pub live-update-same :
    (i : ℕ) (s s' : Session) (t : Table)
    → find i t ≡ some s
    → s'.ended ≡ s.ended
    → live (update i s' t) ≡ live t
unfolding find update live
live-update-same i s s' [] e h = absurd (cc)
live-update-same i s s' ((j, r) ∷ t) e h = ground (arith, live-update-same i s s' t)

pub erase-live-absent : (i : ℕ) (t : Table) → find i t ≡ none → erase i (live t) ≡ live t
unfolding find live erase
erase-live-absent i [] e = refl
erase-live-absent i ((j, r) ∷ t) e = ground (arith, erase-live-absent i t)

pub live-update-ended :
    (i : ℕ) (s s' : Session) (t : Table)
    → Distinct t
    → find i t ≡ some s
    → s.ended ≡ false
    → s'.ended ≡ true
    → (live (update i s' t) ≡ erase i (live t))
      × (length (live (update i s' t)) + 1 ≡ length (live t))
unfolding find update live erase
live-update-ended i s s' [] d e h h' = absurd (cc)
live-update-ended i s s' ((j, r) ∷ t) d e h h' =
    ground (arith, live-update-ended i s s' t d.1, erase-live-absent i t, d.0)

pub find-update-none :
    (i j : ℕ) (s' : Session) (t : Table) → find j t ≡ none → find j (update i s' t) ≡ none
unfolding find update
find-update-none i j s' [] e = refl
find-update-none i j s' ((k, r) ∷ t) e = ground (arith, find-update-none i j s' t)

pub update-Distinct : (i : ℕ) (s' : Session) (t : Table) → Distinct t → Distinct (update i s' t)
unfolding update
update-Distinct i s' [] d = d
update-Distinct i s' ((j, r) ∷ t) d = elim (Bool-cases (j == i)) [
  | inl e ↦ rw (update, e) d
  | inr e ↦ rw (update, e) (find-update-none i j s' t d.0, update-Distinct i s' t d.1)
]

pub length-update : (i : ℕ) (s' : Session) (t : Table) → length (update i s' t) ≡ length t
unfolding update
length-update i s' [] = refl
length-update i s' ((j, r) ∷ t) = ground (arith, length-update i s' t)

pub length-live : (t : Table) → length (live t) ≤ length t
unfolding live
length-live [] = omega arith
length-live ((j, r) ∷ t) = ground (arith, length-live t)

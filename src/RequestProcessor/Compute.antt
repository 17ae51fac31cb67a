-- ===== src/RequestProcessor/Compute.antt =====
-- What `createComputeStrategy` (src/request_processor.cpp) answers.
use mathlib.Core.List.Perm
use priority_http_server.Prelude.{List, [], ◌∷◌, Perm}
use priority_http_server.Prelude.Int.{ℤ, ◌≤ℤ◌}
use priority_http_server.Json.{Json}
use priority_http_server.Http.{Http}

abbrev pub AtLeast : ℤ → List ℤ → Type 0
AtLeast x [] = Unit
AtLeast x (y ∷ ys) = (x ≤ℤ y) × AtLeast x ys

-- Each number is at most the ones after it.
abbrev pub Ascending : List ℤ → Type 0
Ascending [] = Unit
Ascending (x ∷ xs) = AtLeast x xs × Ascending xs

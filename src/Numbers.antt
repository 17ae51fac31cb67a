-- ===== src/Numbers.antt =====
-- The conversions of <string> between numbers and text that the program calls, in base 10:
-- std::to_string, std::stoi and std::stoul. None stands for an exception (invalid_argument or
-- out_of_range).
pub mod Digits
use priority_http_server.Prelude.{
  ℕ, zero, suc, ◌+◌, ◌-◌, ◌*◌, ◌/◌, ◌%◌, ◌^◌, Bool, true, false, ◌&&◌, ◌||◌, [], ◌∷◌, ◌++◌, Option,
  none, some, ltb, leb, ◌==◌, if◌then◌else◌,
}
use priority_http_server.Prelude.Int.{ℤ, pos, negsuc, size_mod}
use priority_http_server.Prelude.Text.{Text, codes}

-- The digits of `n` before `rest`.
unfoldable pub digits_onto : ℕ → ℕ → Text → Text
digits_onto zero n rest = rest
digits_onto (suc fuel) n rest =
    let more = digits_onto fuel (n / 10) ((b'0' + n % 10) ∷ rest) in
    if ltb n 10 then (b'0' + n) ∷ rest else more

-- std::to_string of an unsigned number; `n + 1` rounds are enough.
unfoldable pub decimal : ℕ → Text
unfolding digits_onto
decimal n = digits_onto (suc n) n []

-- std::to_string of an int
unfoldable pub decimal_int : ℤ → Text
decimal_int (pos n) = decimal n
decimal_int (negsuc n) = codes "-" ++ decimal (suc n)

unfoldable pub is_digit : ℕ → Bool
is_digit c = leb b'0' c && leb c b'9'

-- isspace in the "C" locale: blank, and tab up to carriage return
unfoldable pub is_space : ℕ → Bool
is_space c = c == 32 || (leb 9 c && leb c 13)

unfoldable pub skip_spaces : Text → Text
unfolding is_space
skip_spaces [] = []
skip_spaces (c ∷ s) = if is_space c then skip_spaces s else c ∷ s

-- The value of the digits that a text begins with, added to `acc`; the rest is ignored.
unfoldable pub digits_value : ℕ → Text → ℕ
unfolding is_digit
digits_value acc [] = acc
digits_value acc (c ∷ s) =
    let more = digits_value (acc * 10 + (c - b'0')) s in if is_digit c then more else acc

-- A number must begin with a digit.
unfoldable pub magnitude : Text → Option ℕ
unfolding is_digit digits_value
magnitude [] = none
magnitude (c ∷ s) = if is_digit c then some (digits_value 0 (c ∷ s)) else none

-- An optional sign: true for a minus, with the magnitude.
unfoldable pub signed_magnitude : Text → Option (Bool × ℕ)
unfolding magnitude
signed_magnitude [] = none
signed_magnitude (c ∷ s) =
    if c == b'-'
    then elim (magnitude s) [ none ↦ none | some n ↦ some (true, n) ]
    else if c == b'+'
    then elim (magnitude s) [ none ↦ none | some n ↦ some (false, n) ]
    else elim (magnitude (c ∷ s)) [ none ↦ none | some n ↦ some (false, n) ]

-- The range check of `stoi`.
unfoldable pub int_of : Bool × ℕ → Option ℤ
int_of (false, n) = if ltb n (2 ^ 31) then some (pos n) else none
int_of (true, zero) = some (pos 0)
int_of (true, suc n) = if ltb n (2 ^ 31) then some (negsuc n) else none

unfoldable pub stoi : Text → Option ℤ
unfolding int_of
stoi s = elim (signed_magnitude (skip_spaces s)) [ none ↦ none | some m ↦ int_of m ]

-- The range check of `stoul`; a minus sign is accepted, and negates modulo 2^64.
unfoldable pub unsigned_of : Bool × ℕ → Option ℕ
unsigned_of (false, n) = if ltb n size_mod then some n else none
unsigned_of (true, n) = if ltb n size_mod then some ((size_mod - n) % size_mod) else none

unfoldable pub stoul : Text → Option ℕ
unfolding unsigned_of
stoul s = elim (signed_magnitude (skip_spaces s)) [ none ↦ none | some m ↦ unsigned_of m ]

-- ===== src/Numbers/Digits.antt =====
-- A number that was printed is read back.
use priority_http_server.Prelude.{
  ℕ, zero, suc, ◌+◌, ◌/◌, ◌%◌, ◌<◌, ◌≡◌, true, false, [], ◌∷◌, some, ltb, arith, inl, inr,
  Bool-cases,
}
use priority_http_server.Prelude.Int.{ℤ, pos, negsuc, size_mod, ◌≤ℤ◌, int_min, int_max}
use priority_http_server.Prelude.Text.{Text}
use priority_http_server.Numbers.{
  digits_onto, decimal, decimal_int, is_digit, skip_spaces, digits_value, magnitude,
  signed_magnitude, stoi, stoul,
}

-- Reading `acc` and then the digits of `n` before `rest`, in terms of the digits alone: `scale` is
-- the power of ten that the digits of `n` shift by.
digits_value-digits_onto :
    (fuel n : ℕ) (rest : Text)
    → n < fuel
    → digits_value 0 (digits_onto fuel n rest) ≡ digits_value n rest
unfolding digits_onto digits_value
digits_value-digits_onto zero n rest h = absurd (omega arith)
digits_value-digits_onto (suc fuel) n rest h =
    ground (arith, digits_value-digits_onto fuel (n / 10) ((b'0' + n % 10) ∷ rest))

-- A number is printed with a digit in front.
record Digits (n : ℕ) (s : Text) : Type 0 where
  first : ℕ
  others : Text
  shape : s ≡ first ∷ others
  digit : is_digit first ≡ true
  value : digits_value 0 s ≡ n

digits_onto-first :
    (fuel n : ℕ) (rest : Text)
    → n < fuel
    → (c : ℕ) × (s : Text) × (digits_onto fuel n rest ≡ c ∷ s) × (is_digit c ≡ true)
unfolding digits_onto is_digit
digits_onto-first zero n rest h = absurd (omega arith)
digits_onto-first (suc fuel) n rest h = elim (Bool-cases (ltb n 10)) [
  | inl e ↦ (b'0' + n, rest, rw (e, digits_onto), ground arith)
  | inr e ↦
      let (c, s, shape, digit) =
        digits_onto-first fuel (n / 10) ((b'0' + n % 10) ∷ rest) (ground arith) in
      (c, s, rw (e, digits_onto) shape, digit)
]

decimal-Digits : (n : ℕ) → Digits n (decimal n)
unfolding decimal digits_value
decimal-Digits n =
    let (c, s, shape, digit) = digits_onto-first (suc n) n [] (omega arith) in
    record {
      first = c;
      others = s;
      shape = shape;
      digit = digit;
      value = digits_value-digits_onto (suc n) n [] (omega arith);
    }

skip_spaces-digit : (c : ℕ) (s : Text) → is_digit c ≡ true → skip_spaces (c ∷ s) ≡ c ∷ s
unfolding skip_spaces is_digit
skip_spaces-digit c s h = ground arith

magnitude-Digits : (n : ℕ) (s : Text) → Digits n s → magnitude s ≡ some n
unfolding magnitude is_digit
magnitude-Digits n s d = rw d.shape (ground (arith, d.digit, d.shape, d.value))

signed_magnitude-digit :
    (c : ℕ) (s : Text)
    → is_digit c ≡ true
    → signed_magnitude (c ∷ s) ≡ some (false, digits_value 0 (c ∷ s))
unfolding signed_magnitude is_digit
signed_magnitude-digit c s h = ground arith

read_Digits : (n : ℕ) (s : Text) → Digits n s → signed_magnitude (skip_spaces s) ≡ some (false, n)
read_Digits n s d =
    rw
      (
        d.shape,
        skip_spaces-digit d.first d.others d.digit,
        signed_magnitude-digit d.first d.others d.digit,
      )
      (ground (arith, d.shape, d.value))

read_minus :
    (n : ℕ) (s : Text) → Digits n s → signed_magnitude (skip_spaces (b'-' ∷ s)) ≡ some (true, n)
unfolding skip_spaces signed_magnitude
read_minus n s d = rw (magnitude-Digits n s d)

-- `std::stoi` reads back each `int` that `std::to_string` prints.
pub stoi-decimal_int : (z : ℤ) → int_min ≤ℤ z → z ≤ℤ int_max → stoi (decimal_int z) ≡ some z
unfolding stoi decimal_int
stoi-decimal_int (pos n) lo hi =
    rw (stoi, read_Digits n (decimal n) (decimal-Digits n)) (ground arith)
stoi-decimal_int (negsuc n) lo hi =
    rw (stoi, read_minus (suc n) (decimal (suc n)) (decimal-Digits (suc n))) (ground arith)

-- `std::stoul` reads back each 64-bit number that `std::to_string` prints.
pub stoul-decimal : (n : ℕ) → n < size_mod → stoul (decimal n) ≡ some n
unfolding stoul
stoul-decimal n h = rw (stoul, read_Digits n (decimal n) (decimal-Digits n)) (ground arith)

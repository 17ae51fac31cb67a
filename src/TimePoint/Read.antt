-- ===== src/TimePoint/Read.antt =====
-- Reading a time back from the text of utils::formatTimePoint (include/utils.hpp).
use priority_http_server.Prelude.{
  ℕ, zero, suc, ◌+◌, ◌/◌, ◌%◌, ◌≤◌, ◌<◌, ◌≡◌, refl, ◌∙◌, false, List, [], ◌∷◌, ◌++◌, arith,
}
use priority_http_server.Prelude.Text.{Text}
use priority_http_server.Numbers.{decimal, digits_onto, digits_value, is_digit}
use priority_http_server.TimePoint.{Tm, two_digits, put_time}

unfoldable pub drop {ℓ} : {A : Type ℓ} → ℕ → List A → List A
drop zero xs = xs
drop (suc n) [] = []
drop (suc n) (x ∷ xs) = drop n xs

-- The number that stands `n` bytes into the text.
abbrev pub number_at : ℕ → Text → ℕ
number_at n s = digits_value 0 (drop n s)

abbrev pub read_time : Text → Tm
read_time s = record {
  year = number_at 0 s;
  month = number_at 5 s;
  day = number_at 8 s;
  hour = number_at 11 s;
  minute = number_at 14 s;
  second = number_at 17 s;
}

-- A year of four digits, and fields of two.
pub record IsWritable (tm : Tm) : Type 0 where
  pub year : (1000 ≤ tm.year) × (tm.year < 10000)
  pub month : tm.month < 100
  pub day : tm.day < 100
  pub hour : tm.hour < 100
  pub minute : tm.minute < 100
  pub second : tm.second < 100

digits_onto-more :
    (fuel n : ℕ) (rest : Text)
    → 10 ≤ n
    → digits_onto (suc fuel) n rest ≡ digits_onto fuel (n / 10) ((b'0' + n % 10) ∷ rest)
unfolding digits_onto
digits_onto-more fuel n rest h = ground arith

digits_onto-last :
    (fuel n : ℕ) (rest : Text) → n < 10 → digits_onto (suc fuel) n rest ≡ (b'0' + n) ∷ rest
unfolding digits_onto
digits_onto-last fuel n rest h = ground arith

abbrev four_digits : ℕ → Text
four_digits y =
    (b'0' + y / 1000) ∷ (b'0' + y / 100 % 10) ∷ (b'0' + y / 10 % 10) ∷ (b'0' + y % 10) ∷ []

digits_onto-four_digits :
    (k y : ℕ) → 1000 ≤ y → y < 10000 → digits_onto (suc (suc (suc (suc k)))) y [] ≡ four_digits y
digits_onto-four_digits k y lo hi =
    let hundreds : y / 10 / 10 ≡ y / 100 = omega arith in
    let thousands : y / 100 / 10 ≡ y / 1000 = omega arith in
    digits_onto-more (suc (suc (suc k))) y _ (omega arith)
    ∙ digits_onto-more (suc (suc k)) (y / 10) _ (omega arith)
    ∙ digits_onto-more (suc k) (y / 10 / 10) _ (omega arith)
    ∙ digits_onto-last k (y / 10 / 10 / 10) _ (omega arith)
    ∙ rw (hundreds, thousands) refl

decimal-four_digits : (y : ℕ) → 1000 ≤ y → y < 10000 → decimal y ≡ four_digits y
unfolding decimal
decimal-four_digits (suc (suc (suc k))) lo hi = digits_onto-four_digits k (suc (suc (suc k))) lo hi
decimal-four_digits (suc (suc zero)) lo hi = absurd (omega (arith, lo))
decimal-four_digits (suc zero) lo hi = absurd (omega (arith, lo))
decimal-four_digits zero lo hi = absurd (omega (arith, lo))

digits_value-two_digits :
    (n c : ℕ) (s : Text) → n < 100 → is_digit c ≡ false → digits_value 0 (two_digits n (c ∷ s)) ≡ n
unfolding digits_value is_digit
digits_value-two_digits n c s h k = ground (arith)

digits_value-four_digits :
    (y c : ℕ) (s : Text)
    → 1000 ≤ y
    → y < 10000
    → is_digit c ≡ false
    → digits_value 0 (four_digits y ++ c ∷ s) ≡ y
unfolding digits_value is_digit
digits_value-four_digits y c s lo hi k = ground (arith)

-- Every local time with a year of four digits can be read back from its text, whatever follows.
pub read_time-put_time :
    (tm : Tm) (rest : Text) → IsWritable tm → read_time (put_time tm ++ b']' ∷ rest) ≡ tm
unfolding put_time drop is_digit
read_time-put_time tm rest w = rw (decimal-four_digits tm.year w.year.0 w.year.1) (
    rw
      (
        digits_value-four_digits tm.year b'-' _ w.year.0 w.year.1 refl,
        digits_value-two_digits tm.month b'-' _ w.month refl,
        digits_value-two_digits tm.day b' ' _ w.day refl,
        digits_value-two_digits tm.hour b':' _ w.hour refl,
        digits_value-two_digits tm.minute b':' _ w.minute refl,
        digits_value-two_digits tm.second b']' _ w.second refl,
      )
      refl)

-- The text is 19 bytes long.
pub drop-put_time :
    (tm : Tm) (b c : ℕ) (rest : Text) → IsWritable tm → drop 21 (put_time tm ++ b ∷ c ∷ rest) ≡ rest
unfolding put_time drop
drop-put_time tm b c rest w = rw (decimal-four_digits tm.year w.year.0 w.year.1) refl

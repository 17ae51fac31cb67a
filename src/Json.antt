-- ===== src/Json.antt =====
-- What the server uses of nlohmann/json: values, the conversions out of a value (none where `get`
-- throws), and their documented effect on values that the program itself built.
use priority_http_server.Prelude.{
  ℕ, ◌%◌, ◌^◌, ◌≡◌, Bool, true, List, [], ◌∷◌, Option, none, some, if◌then◌else◌,
}
use priority_http_server.Prelude.Int.{ℤ}
use priority_http_server.Prelude.Text.{Text, text_eq}

-- The value of a key among the entries of an object; the keys that the program writes are distinct.
unfoldable pub lookup {ℓ} : {V : Type ℓ} → Text → List (Text × V) → Option V
lookup key [] = none
lookup key ((k, v) ∷ entries) = if text_eq k key then some v else lookup key entries

pub record Json : Type 1 where
  pub Value : Type 0
  -- Parsing a text; none for a parse error.
  pub parse : Text → Option Value
  pub dump : Value → Text
  -- What a file holds, with `file >> json` (none for a parse error) and `file << json.dump(4)`.
  pub File : Type 0
  pub read : File → Option Value
  pub write : Value → File
  pub object : List (Text × Value) → Value
  -- An unsigned and a signed number, a text, a truth value, an array of numbers.
  pub unsigned : ℕ → Value
  pub integer : ℤ → Value
  pub string : Text → Value
  pub boolean : Bool → Value
  pub ints : List ℤ → Value
  -- `contains` and `operator[]`
  pub member : Text → Value → Option Value
  pub is_string : Value → Bool
  pub is_number : Value → Bool
  pub is_array : Value → Bool
  -- `get` at an unsigned type of that many bits, at bool, std::string, long long, vector<int>.
  pub get_unsigned : ℕ → Value → Option ℕ
  pub get_bool : Value → Option Bool
  pub get_string : Value → Option Text
  pub get_integer : Value → Option ℤ
  pub get_ints : Value → Option (List ℤ)
  pub member-object :
      (key : Text) (entries : List (Text × Value))
      → member key (object entries) ≡ lookup key entries
  pub get_unsigned-unsigned : (bits n : ℕ) → get_unsigned bits (unsigned n) ≡ some (n % 2 ^ bits)
  pub get_bool-boolean : (b : Bool) → get_bool (boolean b) ≡ some b
  pub get_string-string : (s : Text) → get_string (string s) ≡ some s
  pub get_integer-integer : (z : ℤ) → get_integer (integer z) ≡ some z
  pub is_string-string : (s : Text) → is_string (string s) ≡ true
  pub is_number-integer : (z : ℤ) → is_number (integer z) ≡ true
  pub read-write :
      (entries : List (Text × Value)) → read (write (object entries)) ≡ some (object entries)

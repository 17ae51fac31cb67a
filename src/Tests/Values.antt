-- ===== src/Tests/Values.antt =====
-- An instance of the JSON interface.
use priority_http_server.Prelude.{
  ℕ, ◌%◌, ◌^◌, ◌≡◌, refl, Bool, true, false, List, [], ◌∷◌, Option, none, some, arith,
  if◌then◌else◌,
}
use priority_http_server.Prelude.Int.{ℤ, pos}
use priority_http_server.Prelude.Text.{Text, codes, text_eq}
use priority_http_server.Json.{Json, lookup}

mutual
  pub data Value : Type 0 where
    number : ℤ → Value
    truth : Bool → Value
    text : Text → Value
    numbers : List ℤ → Value
    object : Entries → Value

  pub data Entries : Type 0 where
    nil : Entries
    cons : Text → Value → Entries → Entries

abbrev pub entries_of : List (Text × Value) → Entries
entries_of [] = nil
entries_of ((k, v) ∷ es) = cons k v (entries_of es)

abbrev pub find : Text → Entries → Option Value
find key nil = none
find key (cons k v es) = if text_eq k key then some v else find key es

pub find-entries_of :
    (key : Text) (es : List (Text × Value)) → find key (entries_of es) ≡ lookup key es
unfolding lookup
find-entries_of key [] = refl
find-entries_of key ((k, v) ∷ es) = ground (arith, find-entries_of key es)

abbrev pub member : Text → Value → Option Value
member key (object es) = find key es
member key _ = none

abbrev pub get_unsigned : ℕ → Value → Option ℕ
get_unsigned bits (number (pos n)) = some (n % 2 ^ bits)
get_unsigned bits _ = none

abbrev pub values : Json
values = record {
  Value = Value;
  parse = λ s. none;
  dump = λ v. codes "";
  File = Option Value;
  read = λ f. f;
  write = λ v. some v;
  object = λ es. object (entries_of es);
  unsigned = λ n. number (pos n);
  integer = number;
  string = text;
  boolean = truth;
  ints = numbers;
  member = member;
  is_string = λ v. elim v [ text s ↦ true | _ ↦ false ];
  is_number = λ v. elim v [ number z ↦ true | _ ↦ false ];
  is_array = λ v. elim v [ numbers zs ↦ true | _ ↦ false ];
  get_unsigned = get_unsigned;
  get_bool = λ v. elim v [ truth b ↦ some b | _ ↦ none ];
  get_string = λ v. elim v [ text s ↦ some s | _ ↦ none ];
  get_integer = λ v. elim v [ number z ↦ some z | _ ↦ none ];
  get_ints = λ v. elim v [ numbers zs ↦ some zs | _ ↦ none ];
  member-object = λ key es. find-entries_of key es;
  get_unsigned-unsigned = λ bits n. refl;
  get_bool-boolean = λ b. refl;
  get_string-string = λ s. refl;
  get_integer-integer = λ z. refl;
  is_string-string = λ s. refl;
  is_number-integer = λ z. refl;
  read-write = λ es. refl;
}
